-- ===== src/System/Handlers/Progress.antt =====
-- Each handler returns the target, or comes nearer to it, or gives UNKNOWN back.
use op_test.Prelude.{ℕ, ◌<◌, refl, ◌≢◌, inl, inr, Option, none, some, arith, tests, ltb, Bool-cases}
use op_test.Exec.{catching, ◌>>=◌}
use op_test.Exec.Keeps.{Keeps}
use op_test.Exec.Post.{Post, Post-then, Post-catching, post_rules}
use op_test.Exceptions.{
  OpSystemState, unknown, off, ipling, petitboot, petitboot_shell, booting, os, powering_off,
  unknown_bad, OpException, hostboot_shutdown, http_check,
}
use op_test.System.State.{OpTestSystem}
use op_test.System.Interface.{Platform}
use op_test.System.Frame.{Stable, primitive_rules}
use op_test.System.Power.Frame.{power_rules}
use op_test.System.Petitboot.Frame.{petitboot_rules}
use op_test.System.WaitForIt.Frame.{wait_for_it-Keeps}
use op_test.System.Measure.{Marks, Marks-Stable, Advances, lower-Post, target-Post, rank, rank-le}
use op_test.System.Handlers.{
  raise_transition, bad_transition, unpack, to_powering_off, run_unknown, hmc_power_on, set_bootdev,
  bmc_power_on, power_retry, to_ipling, off_with, run_off, wait_for_petitboot, retry_ipl,
  ipling_failed, ipling_reached, ipling_with, run_ipling, petitboot_with, run_petitboot,
  petitboot_shell_with, run_petitboot_shell,
}

-- What a `try` that returns from its except clauses leaves: a state, or nothing and the marks as
-- they were.
abbrev pub Tried :
    {W : Type 0} (target st : OpSystemState) (i b k : ℕ)
    → Option OpSystemState
    → OpTestSystem W
    → Type 0
Tried target st i b k none s = Marks i b k s
Tried target st i b k (some n) s = Advances target st i b k n s

ipling≢unknown : ipling ≢ unknown
ipling≢unknown e = cc

module _ {W : Type 0} (p : Platform W) (i b k : ℕ) where
  abbrev M : OpTestSystem W → Type 0
  M = Marks i b k

  abbrev stable : Stable M
  stable = Marks-Stable i b k

  abbrev A : OpSystemState → OpSystemState → OpSystemState → OpTestSystem W → Type 0
  A target st = Advances target st i b k

  raise_transition-Post : (Q : OpSystemState → OpTestSystem W → Type 0) → Post M Q raise_transition
  unfolding raise_transition
  raise_transition-Post Q = search (post_rules, primitive_rules, stable)

  to_powering_off-Post :
      (target st : OpSystemState)
      → rank target powering_off < rank target st
      → Post M (A target st) (to_powering_off p)
  unfolding to_powering_off
  to_powering_off-Post target st h =
      search (post_rules, primitive_rules, power_rules, stable, lower-Post target st i b k)

  pub run_unknown-Post :
      (target st : OpSystemState)
      → rank target powering_off < rank target st
      → Post M (A target st) (run_unknown p target)
  unfolding run_unknown
  run_unknown-Post target st h = search (post_rules, primitive_rules, stable, to_powering_off-Post)

  hmc_power_on-Post :
      (target : OpSystemState)
      → rank target ipling < rank target off
      → Post M (A target off) (hmc_power_on p)
  unfolding hmc_power_on
  hmc_power_on-Post target h =
      search (post_rules, primitive_rules, stable, lower-Post target off i b k) depth 14

  set_bootdev-Keeps : (target : OpSystemState) → Keeps M (set_bootdev p target)
  unfolding set_bootdev
  set_bootdev-Keeps os = search (power_rules, stable)
  set_bootdev-Keeps petitboot = search (power_rules, stable)
  set_bootdev-Keeps petitboot_shell = search (power_rules, stable)
  set_bootdev-Keeps _ = search primitive_rules

  power_retry-Post :
      (target : OpSystemState)
      → rank target ipling < rank target off
      → Post M (A target off) (power_retry p)
  unfolding power_retry
  power_retry-Post target h =
      search (post_rules, primitive_rules, power_rules, stable, lower-Post target off i b k) depth 8

  bmc_power_on-Post :
      (target : OpSystemState)
      → rank target ipling < rank target off
      → Post M (A target off) (bmc_power_on p target)
  unfolding bmc_power_on
  bmc_power_on-Post target h =
      search
        (
          post_rules,
          primitive_rules,
          power_rules,
          stable,
          set_bootdev-Keeps,
          power_retry-Post,
          lower-Post target off i b k,
        )
        depth 12

  to_ipling-Post :
      (target : OpSystemState)
      → rank target ipling < rank target off
      → Post M (A target off) (to_ipling p target)
  unfolding to_ipling
  to_ipling-Post target h =
      search (post_rules, primitive_rules, stable, hmc_power_on-Post, bmc_power_on-Post)

  off_with-Post : (target : OpSystemState) → Post M (A target off) (off_with p target)
  unfolding off_with
  off_with-Post off = target-Post off off i b k
  off_with-Post unknown = raise_transition-Post _
  off_with-Post target = to_ipling-Post _ (omega arith)

  pub run_off-Post : (target : OpSystemState) → Post M (A target off) (run_off p target)
  unfolding run_off
  run_off-Post target = search (post_rules, primitive_rules, stable, off_with-Post)

  pub unpack-Keeps : (o : Option (ℕ × ℕ)) → Keeps M (unpack o)
  unfolding unpack
  unpack-Keeps none = search primitive_rules
  unpack-Keeps (some hit) = search primitive_rules

  pub bad_transition-Post :
      (Q : Option OpSystemState → OpTestSystem W → Type 0) → Post M Q bad_transition
  unfolding bad_transition
  bad_transition-Post Q = search (post_rules, primitive_rules, stable) depth 12

  wait_for_petitboot-Keeps : Keeps M (wait_for_petitboot p)
  unfolding wait_for_petitboot
  wait_for_petitboot-Keeps =
      search (primitive_rules, wait_for_it-Keeps p, stable, unpack-Keeps) depth 12

  wait_for_petitboot-Post :
      (target st : OpSystemState) → Post M (Tried target st i b k) (wait_for_petitboot p)
  unfolding wait_for_petitboot
  wait_for_petitboot-Post target st =
      search (post_rules, primitive_rules, wait_for_it-Keeps p, stable, unpack-Keeps) depth 12

  -- One retry less is worth more than the whole way.
  retry_ipl-Post : (target : OpSystemState) → Post M (Tried target ipling i b k) (retry_ipl p)
  unfolding retry_ipl ◌>>=◌
  retry_ipl-Post target = record {
    at = λ s m. elim (Bool-cases (ltb s.ipl_watermark s.kill_cord)) [
      | inl more ↦ rw more (inr (inr (omega (tests, more, rank-le target unknown_bad))))
      | inr over ↦ rw over (inr (inl (refl, ipling≢unknown)))
    ];
  }

  ipling_failed-Post :
      (target : OpSystemState) (e : OpException)
      → Post M (Tried target ipling i b k) (ipling_failed p e)
  unfolding ipling_failed
  ipling_failed-Post target hostboot_shutdown = search (post_rules, power_rules, stable)
  ipling_failed-Post target (OpException.wait_for_it n) = retry_ipl-Post target
  ipling_failed-Post target http_check = retry_ipl-Post target
  ipling_failed-Post target _ = bad_transition-Post _

  menu_reached-Post :
      (target : OpSystemState)
      → rank target petitboot < rank target ipling
      → Post M (A target ipling) (ipling_reached p none)
  unfolding ipling_reached
  menu_reached-Post target h =
      search (post_rules, power_rules, stable, lower-Post target ipling i b k)

  ipling_reached-Post :
      (target : OpSystemState)
      → rank target petitboot < rank target ipling
      → (o : Option OpSystemState)
      → Post (Tried target ipling i b k o) (A target ipling) (ipling_reached p o)
  unfolding ipling_reached
  ipling_reached-Post target h (some st) = search post_rules
  ipling_reached-Post target h none = menu_reached-Post target h

  wait-Post :
      (target : OpSystemState)
      → rank target petitboot < rank target ipling
      → Post M
          (A target ipling)
          (catching (wait_for_petitboot p) (ipling_failed p) >>= ipling_reached p)
  wait-Post target h =
      Post-then _ _
        (Post-catching _ _ wait_for_petitboot-Keeps (wait_for_petitboot-Post target ipling)
          (ipling_failed-Post target))
        (ipling_reached-Post target h)

  ipling_with-Post : (target : OpSystemState) → Post M (A target ipling) (ipling_with p target)
  unfolding ipling_with
  ipling_with-Post off = to_powering_off-Post _ _ (omega arith)
  ipling_with-Post target = wait-Post _ (omega arith)

  pub run_ipling-Post : (target : OpSystemState) → Post M (A target ipling) (run_ipling p target)
  unfolding run_ipling
  run_ipling-Post target = search (post_rules, primitive_rules, stable, ipling_with-Post)

  petitboot_with-Post :
      (target : OpSystemState) → Post M (A target petitboot) (petitboot_with p target)
  unfolding petitboot_with
  petitboot_with-Post petitboot =
      search (post_rules, petitboot_rules, stable, target-Post petitboot petitboot i b k) depth 12
  petitboot_with-Post petitboot_shell =
      search (post_rules, petitboot_rules, stable, target-Post petitboot_shell petitboot i b k)
  petitboot_with-Post off = to_powering_off-Post _ _ (omega arith)
  petitboot_with-Post os = lower-Post os petitboot i b k booting (omega arith)
  petitboot_with-Post _ = raise_transition-Post _

  pub run_petitboot-Post :
      (target : OpSystemState) → Post M (A target petitboot) (run_petitboot p target)
  unfolding run_petitboot
  run_petitboot-Post target = search (post_rules, primitive_rules, stable, petitboot_with-Post)

  petitboot_shell_with-Post :
      (target : OpSystemState) → Post M (A target petitboot_shell) (petitboot_shell_with p target)
  unfolding petitboot_shell_with
  petitboot_shell_with-Post petitboot_shell =
      search
        (post_rules, petitboot_rules, stable, target-Post petitboot_shell petitboot_shell i b k)
  petitboot_shell_with-Post petitboot =
      search (post_rules, petitboot_rules, stable, target-Post petitboot petitboot_shell i b k)
  petitboot_shell_with-Post target = to_powering_off-Post _ _ (omega arith)

  pub run_petitboot_shell-Post :
      (target : OpSystemState) → Post M (A target petitboot_shell) (run_petitboot_shell p target)
  unfolding run_petitboot_shell
  run_petitboot_shell-Post target =
      search (post_rules, primitive_rules, stable, petitboot_shell_with-Post)
