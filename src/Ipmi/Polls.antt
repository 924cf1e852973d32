-- ===== src/Ipmi/Polls.antt =====
-- How long the BMC is polled.
use op_test.Prelude.{
  ℕ, zero, suc, ◌+◌, ◌<◌, ◌≤◌, ◌≡◌, refl, Bool, true, false, String, ltb, ltb→le, arith,
  if◌then◌else◌,
}
use op_test.Exec.{pure, raise, gets, ◌>>=◌, ◌>>◌}
use op_test.Exec.Triple.{Triple, bind-agree}
use op_test.Exceptions.{op_test_error}
use op_test.Lines.{contains}
use op_test.System.Power.{fw_success}
use op_test.Ipmi.{Op, Bmc, pause, poll, ipmi_wait_for_standby_state}

-- The clock does not go back while a command runs, and a sleep takes its time.
pub record HasClock {W : Type 0} (b : Bmc W) : Type 0 where
  pub run_later :
      (command : String) (t : ℕ)
      → Triple (λ w. t ≤ b.now w) (λ _ w. t ≤ b.now w) (λ _ _. Unit) (b.run command)
  pub sleep_later : (seconds : ℕ) (w : W) → b.now w + seconds ≤ b.now (b.sleep seconds w)

module _ {W : Type 0} (b : Bmc W) (clock : HasClock b) (stuck other : Op W ℕ)
    (command what : String) (wait limit : ℕ) (waits : 1 ≤ wait) where
  -- The test of the clock, where the answer has not the text
  timed :
      (late : Bool) (f g : Op W ℕ) (w : W)
      → (late ≡ false → f (b.sleep wait w) ≡ g (b.sleep wait w))
      → (if late then raise op_test_error else (pause b wait >> f)) w
        ≡ (if late then raise op_test_error else (pause b wait >> g)) w
  unfolding ◌>>=◌
  timed true f g w h = refl
  timed false f g w h = h refl

  -- What follows an answer
  after_answer :
      (there : Bool) (f g : Op W ℕ) (w : W)
      → (ltb limit (b.now w) ≡ false → f (b.sleep wait w) ≡ g (b.sleep wait w))
      → (if there
            then pure fw_success
            else (gets b.now
                >>= (λ t. if ltb limit t then raise op_test_error else (pause b wait >> f))))
          w
        ≡ (if there
              then pure fw_success
              else (gets b.now
                  >>= (λ t. if ltb limit t then raise op_test_error else (pause b wait >> g))))
            w
  unfolding ◌>>=◌
  after_answer true f g w h = refl
  after_answer false f g w h = timed (ltb limit (b.now w)) f g w h

  one_round :
      (rounds : ℕ) (w : W)
      → ((v : W)
          → b.now w ≤ b.now v
          → ltb limit (b.now v) ≡ false
          → poll b stuck rounds command what wait limit (b.sleep wait v)
            ≡ poll b other rounds command what wait limit (b.sleep wait v))
      → poll b stuck (suc rounds) command what wait limit w
        ≡ poll b other (suc rounds) command what wait limit w
  unfolding poll
  one_round rounds w next =
      bind-agree _ _ (clock.run_later command (b.now w))
        (λ output v later. after_answer (contains what output) _ _ v (next v later)) w (omega arith)

  too_late : (w v : W) → limit < b.now w + 0 → b.now w ≤ b.now v → ltb limit (b.now v) ≡ false → ⊥
  too_late w v h k e = omega (arith, ltb→le limit (b.now v) e)

  enough :
      (rounds : ℕ) (w : W)
      → limit < b.now w + rounds
      → poll b stuck (suc rounds) command what wait limit w
        ≡ poll b other (suc rounds) command what wait limit w
  enough zero w h = one_round zero w (λ v k e. elim (too_late w v h k e) [ ])
  enough (suc rounds) w h =
      one_round (suc rounds) w
        (λ v k e. enough rounds (b.sleep wait v) (omega (arith, clock.sleep_later wait v)))

module _ {W : Type 0} (b : Bmc W) (clock : HasClock b) where
  -- Where the clock does not go back and a sleep takes its time, `ipmi_wait_for_standby_state` polls at
  -- most two times more than its time limit has seconds: with so many rounds its outcome does not
  -- depend on what follows when they run out.
  pub ipmi_wait_for_standby_state_ends :
      (stuck other : Op W ℕ) (rounds i_timeout : ℕ) (w : W)
      → i_timeout < rounds
      → ipmi_wait_for_standby_state b stuck (suc rounds) i_timeout w
        ≡ ipmi_wait_for_standby_state b other (suc rounds) i_timeout w
  unfolding ipmi_wait_for_standby_state ◌>>=◌
  ipmi_wait_for_standby_state_ends stuck other rounds i_timeout w h =
      enough b clock stuck other _ _ 5 (b.now w + i_timeout) (omega arith) rounds w (omega arith)
