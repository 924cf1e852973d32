-- ===== src/Terminal/Ping/Count.antt =====
-- How often a host is pinged.
use op_test.Prelude.{
  ℕ, zero, suc, ◌+◌, ◌-◌, ◌*◌, ◌<◌, ◌≡◌, ◌≢◌, refl, Bool, true, false, some, String, ◌==◌, ◌∙◌,
  if◌then◌else◌, arith, sym, ap, subst,
}
use op_test.Exec.{Result, ok, err, pure, raise, modify, continue, ◌>>=◌, ◌>>◌}
use op_test.Exceptions.{OpException, parameter_check}
use op_test.Lines.{contains}
use op_test.Terminal.Ping.{Op, Network, ping_success, ping_rounds, ping_func}

module _ {W : Type 0} (sleep : ℕ → W → W) (probe : Op W String) (answer : String) where
  -- At most so many pings, with a second after each that is not answered, then ParameterCheck
  pub pings : ℕ → Op W ℕ
  pings zero = raise parameter_check
  pings (suc left) = do
    out ← probe
    if contains answer out then pure ping_success else (do modify (sleep 1); pings left)

  same_answer :
      (b : Bool) (f g : Op W ℕ)
      → ((s : W) → f s ≡ g s)
      → (s : W)
      → (if b then pure ping_success else (modify (sleep 1) >> f)) s
        ≡ (if b then pure ping_success else (modify (sleep 1) >> g)) s
  unfolding ◌>>=◌
  same_answer true f g h s = refl
  same_answer false f g h s = h (sleep 1 s)

  same_probe :
      (r : Result OpException String) (f g : Op W ℕ)
      → ((s : W) → f s ≡ g s)
      → (s : W)
      → continue r
          (λ out. if contains answer out then pure ping_success else (modify (sleep 1) >> f))
          s
        ≡ continue r
            (λ out. if contains answer out then pure ping_success else (modify (sleep 1) >> g))
            s
  same_probe (ok out) f g h s = same_answer (contains answer out) f g h s
  same_probe (err e) f g h s = refl

  -- The pings that are left with `tries` tries, the first of which has slept already
  abbrev left : (total tries slept : ℕ) → ℕ
  left total zero slept = 0
  left total (suc tries) slept = total - slept + tries * total

  over_eq : (slept total : ℕ) → (slept + 1 == total) ≡ true → slept + 1 ≡ total
  over_eq slept total e = ground arith

  over_ne : (slept total : ℕ) → (slept + 1 == total) ≡ false → slept + 1 ≢ total
  over_ne slept total e = ground arith

  last_second : (total slept : ℕ) → slept + 1 ≡ total → (n : ℕ) → total - slept + n ≡ suc n
  last_second total slept e n = omega arith

  one_less : (n : ℕ) → suc n - 1 ≡ n
  one_less n = omega arith

  some_left : (tries : ℕ) → (suc tries == 0) ≡ false
  some_left tries = ground arith

  left_over : (total tries : ℕ) → left total tries 0 ≡ tries * total
  left_over total zero = omega arith
  left_over total (suc tries) = omega arith

  abbrev next_tries : Bool → ℕ → ℕ
  next_tries over tries = if over then suc tries - 1 else suc tries

  abbrev next_slept : Bool → ℕ → ℕ
  next_slept over slept = if over then 0 else slept + 1

  left_next :
      (over : Bool) (total tries slept : ℕ)
      → (slept + 1 == total) ≡ over
      → slept < total
      → left total (suc tries) slept
        ≡ suc (left total (next_tries over tries) (next_slept over slept))
  left_next true total tries slept e h =
      last_second total slept (over_eq slept total e) (tries * total)
      ∙ ap (λ n. suc n) (sym (left_over total tries))
      ∙ ap (λ t. suc (left total t 0)) (sym (one_less tries))
  left_next false total tries slept e h = omega arith

  slept_next :
      (over : Bool) (total slept : ℕ)
      → (slept + 1 == total) ≡ over
      → slept < total
      → next_slept over slept < total
  slept_next true total slept e h = omega arith
  slept_next false total slept e h = omega (arith, over_ne slept total e)

  ping_rounds-pings :
      (stuck : Op W ℕ) (total rounds tries slept : ℕ)
      → slept < total
      → left total tries slept < rounds
      → (s : W)
      → ping_rounds sleep probe answer stuck total rounds tries slept s
        ≡ pings (left total tries slept) s
  unfolding ping_rounds pings ◌>>=◌
  ping_rounds-pings stuck total zero tries slept h k s = elim k [ ]
  ping_rounds-pings stuck total (suc rounds) zero slept h k s = refl
  ping_rounds-pings stuck total (suc rounds) (suc tries) slept h k s =
      let over = slept + 1 == total in
      let e = left_next over total tries slept refl h in
      (rw (some_left tries, e)
        (same_probe (probe s).0 _ _
          (ping_rounds-pings stuck total rounds (next_tries over tries) (next_slept over slept)
            (slept_next over total slept refl h) (omega arith))
          (probe s).1))

module _ {W : Type 0} (n : Network W) where
  -- `PingFunc` of an address, with a waiting time that is not 0, pings at most i_try * totalSleepTime
  -- times: it is the simple loop that pings that often and stops at the first answer, and raises
  -- ParameterCheck after the last.
  pub ping_func-pings :
      (stuck : Op W ℕ) (rounds : ℕ) (ip : String) (i_try total : ℕ)
      → 0 < total
      → i_try * total < rounds
      → (s : W)
      → ping_func n stuck rounds (some ip) i_try total s
        ≡ pings n.sleep (n.ping ip) "2 received" (i_try * total) s
  unfolding ping_func
  ping_func-pings stuck rounds ip i_try total h k s =
      let e = left_over n.sleep (n.ping ip) "2 received" total i_try in
      ping_rounds-pings _ _ _ stuck total rounds i_try 0 h (subst (λ m. m < rounds) (sym e) k) s
      ∙ ap (λ m. pings n.sleep (n.ping ip) "2 received" m s) e
