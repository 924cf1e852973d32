-- ===== src/System/Boot/Progress.antt =====
-- The handlers of BOOTING, OS and POWERING_OFF, and with them every handler, return the target, come
-- nearer to it, or give UNKNOWN back.
use op_test.Prelude.{
  ℕ, zero, suc, ◌<◌, refl, ◌≢◌, inl, inr, false, Option, none, some, arith, tests, ltb, Bool-cases,
}
use op_test.Exec.{pure, modify, ◌>>=◌}
use op_test.Exec.Keeps.{Keeps, Keeps-modify}
use op_test.Exec.Post.{Post, Returns, Post-then, Post-catching, post_rules}
use op_test.Exceptions.{
  OpSystemState, unknown, off, ipling, petitboot, petitboot_shell, booting, os, powering_off,
  unknown_bad, OpException,
}
use op_test.System.State.{OpTestSystem}
use op_test.System.Interface.{Platform}
use op_test.System.Frame.{Stable, primitive_rules}
use op_test.System.Power.Frame.{power_rules}
use op_test.System.WaitForIt.Frame.{wait_for_it-Keeps}
use op_test.System.Measure.{
  Marks, Marks-Stable, Progress, Advances, lower-Post, target-Post, rank, rank-le, measure,
}
use op_test.System.Handlers.Progress.{
  Tried, unpack-Keeps, bad_transition-Post, run_unknown-Post, run_off-Post, run_ipling-Post,
  run_petitboot-Post, run_petitboot_shell-Post,
}
use op_test.System.Boot.{
  ssh_attempt, ssh_polling, ssh_boot, wait_for_login, retry_boot, booting_failed, booting_reached,
  console_boot, run_booting, leave_os, os_with, run_os, run_powering_off, state_handler,
}

booting≢unknown : booting ≢ unknown
booting≢unknown e = cc

module _ {W : Type 0} (p : Platform W) (i b k : ℕ) where
  abbrev M : OpTestSystem W → Type 0
  M = Marks i b k

  abbrev stable : Stable M
  stable = Marks-Stable i b k

  abbrev A : OpSystemState → OpSystemState → OpSystemState → OpTestSystem W → Type 0
  A target st = Advances target st i b k

  ssh_attempt-Keeps : Keeps M (ssh_attempt p)
  unfolding ssh_attempt
  ssh_attempt-Keeps = search (primitive_rules, stable) depth 8

  ssh_polling-Keeps : (n w : ℕ) → Keeps M (ssh_polling p n w)
  unfolding ssh_polling
  ssh_polling-Keeps zero w = search primitive_rules
  ssh_polling-Keeps (suc n) w =
      search (primitive_rules, stable, ssh_attempt-Keeps, ssh_polling-Keeps n) depth 12

  ssh_boot-Keeps : Keeps M (ssh_boot p)
  unfolding ssh_boot
  ssh_boot-Keeps = search (primitive_rules, ssh_polling-Keeps) depth 12

  wait_for_login-Keeps : Keeps M (wait_for_login p)
  unfolding wait_for_login
  wait_for_login-Keeps =
      search (primitive_rules, wait_for_it-Keeps p, stable, unpack-Keeps p i b k) depth 12

  wait_for_login-Post :
      (target st : OpSystemState) → Post M (Tried target st i b k) (wait_for_login p)
  unfolding wait_for_login
  wait_for_login-Post target st =
      search (post_rules, primitive_rules, wait_for_it-Keeps p, stable, unpack-Keeps p i b k) depth
        12

  retry_boot-Post : (target : OpSystemState) → Post M (Tried target booting i b k) (retry_boot p)
  unfolding retry_boot ◌>>=◌
  retry_boot-Post target = record {
    at = λ s m. elim (Bool-cases (ltb s.booting_watermark s.kill_cord)) [
      | inl more ↦ rw more (inr (inr (omega (tests, more, rank-le target unknown_bad))))
      | inr over ↦ rw over (inr (inl (refl, booting≢unknown)))
    ];
  }

  booting_failed-Post :
      (target : OpSystemState) (e : OpException)
      → Post M (Tried target booting i b k) (booting_failed p e)
  unfolding booting_failed
  booting_failed-Post target (OpException.wait_for_it n) = retry_boot-Post target
  booting_failed-Post target _ = bad_transition-Post p i b k _

  -- OS is the target, or nearer to it than BOOTING.
  os-Post : (target : OpSystemState) → Post {E = OpException} M (A target booting) (pure os)
  os-Post os = target-Post os booting i b k
  os-Post target = lower-Post _ booting i b k os (omega arith)

  login_reached-Post : (target : OpSystemState) → Post M (A target booting) (booting_reached p none)
  unfolding booting_reached
  login_reached-Post target = search (post_rules, primitive_rules, stable, os-Post)

  booting_reached-Post :
      (target : OpSystemState) (o : Option OpSystemState)
      → Post (Tried target booting i b k o) (A target booting) (booting_reached p o)
  unfolding booting_reached
  booting_reached-Post target (some st) = search post_rules
  booting_reached-Post target none = login_reached-Post target

  console_boot-Post : (target : OpSystemState) → Post M (A target booting) (console_boot p)
  unfolding console_boot
  console_boot-Post target =
      Post-then _ _
        (Post-catching _ _ wait_for_login-Keeps (wait_for_login-Post target booting)
          (booting_failed-Post target))
        (booting_reached-Post target)

  run_booting-Post : (target : OpSystemState) → Post M (A target booting) (run_booting p target)
  unfolding run_booting
  run_booting-Post target =
      search (post_rules, primitive_rules, stable, ssh_boot-Keeps, os-Post, console_boot-Post) depth
        12

  drivers-Keeps : Keeps {E = OpException} M (modify (λ s. record s { ipmi_drivers_loaded = false }))
  drivers-Keeps = Keeps-modify _ (λ s h. record { ipl = h.ipl; boot = h.boot; cord = h.cord })

  leave_os-Post :
      (target : OpSystemState)
      → rank target powering_off < rank target os
      → Post M (A target os) (leave_os p)
  unfolding leave_os
  leave_os-Post target h =
      search
        (post_rules, power_rules, drivers-Keeps, stable, lower-Post target os i b k powering_off h)
        depth 8

  os_with-Post : (target : OpSystemState) → Post M (A target os) (os_with p target)
  unfolding os_with
  os_with-Post os = target-Post os os i b k
  os_with-Post target = leave_os-Post target (omega arith)

  run_os-Post : (target : OpSystemState) → Post M (A target os) (run_os p target)
  unfolding run_os
  run_os-Post target = search (post_rules, primitive_rules, stable, os_with-Post)

  run_powering_off-Post :
      (target : OpSystemState) → Post M (A target powering_off) (run_powering_off p target)
  unfolding run_powering_off
  run_powering_off-Post target =
      search
        (
          post_rules,
          primitive_rules,
          power_rules,
          stable,
          lower-Post target powering_off i b k off (ground arith),
        )
        depth 16

  state_handler-Post :
      (target st : OpSystemState) → Post M (A target st) (state_handler p st target)
  unfolding state_handler
  state_handler-Post target unknown = run_unknown-Post p i b k target unknown (ground arith)
  state_handler-Post target off = run_off-Post p i b k target
  state_handler-Post target ipling = run_ipling-Post p i b k target
  state_handler-Post target petitboot = run_petitboot-Post p i b k target
  state_handler-Post target petitboot_shell = run_petitboot_shell-Post p i b k target
  state_handler-Post target booting = run_booting-Post target
  state_handler-Post target os = run_os-Post target
  state_handler-Post target powering_off = run_powering_off-Post target
  state_handler-Post target unknown_bad = run_unknown-Post p i b k target unknown_bad (ground arith)

-- A handler that returns gives back the target, or UNKNOWN from another state than UNKNOWN, or a
-- state that is nearer to the target: the measure falls.
pub state_handler-Progress :
    {W : Type 0} (p : Platform W) (target st : OpSystemState) (s : OpTestSystem W)
    → Returns
        (Progress target st (measure target st s))
        (state_handler p st target s).0
        (state_handler p st target s).1
state_handler-Progress p target st s =
    (state_handler-Post p s.ipl_watermark s.booting_watermark s.kill_cord target st).at s
      (record { ipl = refl; boot = refl; cord = refl })
