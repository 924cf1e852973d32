-- ===== src/System/Boot/PowerOff.antt =====
-- The handlers on the way from the OS to OFF, with a BMC that obeys.
use op_test.Prelude.{◌≡◌, refl, Bool, true, false}
use op_test.Exec.{Result, ok, pure, ◌>>=◌, ◌>>◌}
use op_test.Exec.Triple.{Ends, Triple, Triple-pure, Triple-modify, Triple-catching, Triple-bind}
use op_test.Exceptions.{OpSystemState, os, off, powering_off, OpException}
use op_test.System.State.{OpTestSystem, Act, set_block}
use op_test.System.Interface.{Platform, Op, on_shared}
use op_test.System.Power.{
  fw_success, system_standby_state_delay, clear_state, clear_system_state, sys_power_off,
  sys_wait_for_standby_state, except_op_test_error,
}
use op_test.System.Boot.{leave_os, os_with, run_os, run_powering_off, state_handler}

abbrev pub Never : {W : Type 0} → OpException → OpTestSystem W → Type 0
Never e s = ⊥

abbrev pub Running : {W : Type 0} → OpTestSystem W → Type 0
Running s = s.stop ≡ false

abbrev pub Gives : {W A : Type 0} → A → A → OpTestSystem W → Type 0
Gives a b s = (b ≡ a) × Running s

-- The operation raises nothing and gives this.
abbrev pub Obeys : {W A : Type 0} → Op W A → A → Type 0
Obeys op a = (sh : _) → (op sh).0 ≡ ok a

module _ {W : Type 0} where
  answer-Gives :
      {A : Type 0} (a : A) (r : Result OpException A) (s : OpTestSystem W)
      → r ≡ ok a
      → Running s
      → Ends (Gives a) Never r s
  answer-Gives a r s e h = rw e (refl, h)

  on_shared-Gives :
      {A : Type 0} (op : Op W A) (a : A)
      → Obeys op a
      → Triple Running (Gives a) Never (on_shared op)
  unfolding on_shared
  on_shared-Gives op a h = record { at = λ s q. answer-Gives a (op s.shared).0 _ (h s.shared) q }

  from-Gives :
      {A B : Type 0} {Q : B → OpTestSystem W → Type 0} (a : A) (f : A → Act W B)
      → Triple Running Q Never (f a)
      → (b : A) → Triple (Gives a b) Q Never (f b)
  from-Gives a f h b = record { at = λ s q. rw q.0 (h.at s q.1) }

  set_block-Running : (b : Bool) → Triple (Running {W = W}) (λ _. Running) Never (set_block b)
  unfolding set_block
  set_block-Running b = Triple-modify _ (λ s h. h)

  clear-Running :
      Triple (Running {W = W}) (Gives off) Never (do clear_system_state; clear_state; pure off)
  unfolding clear_system_state clear_state ◌>>=◌
  clear-Running = record { at = λ s h. (refl, h) }

module _ {W : Type 0} (p : Platform W) (powers_off : Obeys p.ipmi_power_off tt)
    (stands_by : Obeys (p.ipmi_wait_for_standby_state system_standby_state_delay) fw_success)
    (disconnects : Obeys p.ssh_disconnected tt) where
  leave_os-Gives : Triple Running (Gives powering_off) Never (leave_os p)
  unfolding leave_os sys_power_off
  leave_os-Gives = Triple-bind {R = λ _. Running} _ _ (Triple-modify _ (λ s h. h)) (λ _.
      Triple-bind _ _ (on_shared-Gives _ tt powers_off)
        (from-Gives tt _ (Triple-pure powering_off (λ s h. (refl, h)))))

  run_os-Gives : Triple Running (Gives powering_off) Never (run_os p off)
  unfolding run_os os_with
  run_os-Gives = Triple-bind _ _ (set_block-Running false) (λ _. leave_os-Gives)

  standby-Gives :
      Triple Running
        (Gives fw_success)
        Never
        (sys_wait_for_standby_state p system_standby_state_delay)
  unfolding sys_wait_for_standby_state except_op_test_error
  standby-Gives =
      Triple-catching _ _ (on_shared-Gives _ fw_success stands_by)
        (λ e. record { at = λ s h. absurd h })

  run_powering_off-Gives :
      (target : OpSystemState) → Triple Running (Gives off) Never (run_powering_off p target)
  unfolding run_powering_off
  run_powering_off-Gives target = Triple-bind _ _ (set_block-Running true) (λ _.
      Triple-bind _ _ standby-Gives (
        from-Gives fw_success _ (
          Triple-bind {R = λ _. Running} _ _ (Triple-pure tt (λ s h. h)) (λ _.
            Triple-bind _ _ (on_shared-Gives _ tt disconnects) (from-Gives tt _ clear-Running)))))

  pub from_os : Triple Running (Gives powering_off) Never (state_handler p os off)
  unfolding state_handler
  from_os = run_os-Gives

  pub from_powering_off : Triple Running (Gives off) Never (state_handler p powering_off off)
  unfolding state_handler
  from_powering_off = run_powering_off-Gives off
