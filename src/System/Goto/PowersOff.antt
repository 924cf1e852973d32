-- ===== src/System/Goto/PowersOff.antt =====
-- The way from the OS to OFF, with a BMC that obeys.
use op_test.Prelude.{ℕ, zero, suc, ◌≤◌, ◌≡◌, refl, Bool, true, false, not, ◌&&◌, ◌||◌, arith}
use op_test.Exec.{pure, ◌>>=◌, ◌>>◌}
use op_test.Exec.Triple.{
  Ends, Triple, Triple-pure, Triple-if, Triple-modify, Triple-bind, Triple-self, Triple-read,
  Triple-pre,
}
use op_test.Exceptions.{OpSystemState, unknown, os, off, powering_off}
use op_test.System.State.{
  OpTestSystem, Act, ConsoleKind, is_hmc, set_block, set_state, set_previous,
}
use op_test.System.Interface.{Platform}
use op_test.System.Power.{fw_success, system_standby_state_delay, clear_state, clear_system_state}
use op_test.System.Boot.{state_handler}
use op_test.System.Boot.PowerOff.{Never, Running, Gives, Obeys, from_os, from_powering_off}
use op_test.System.Detect.{same_state, has_shell}
use op_test.System.Goto.{
  is_skipped, unchecked, note_transition, goto_round, goto_next, goto_loop, run_loop, check_nvram,
  detect_first, goto_state,
}

not_skipped : (kind : ConsoleKind) → is_skipped kind off ≡ false
not_skipped kind = ground arith

no_check : (b c : Bool) → (b && false && c) ≡ true → ⊥
no_check true c h = cc
no_check false c h = cc

module _ {W : Type 0} (p : Platform W) where
  abbrev In : OpSystemState → OpTestSystem W → Type 0
  In st s = (s.state ≡ st) × Running s

  abbrev Now : OpSystemState → OpSystemState → OpTestSystem W → Type 0
  Now st n s = (n ≡ st) × In st s

  settle :
      (st n : OpSystemState)
      → Triple (Gives st n) (Now st) Never (do set_state n; note_transition p n; pure n)
  unfolding note_transition set_state set_previous clear_state clear_system_state ◌>>=◌
  settle st n = record { at = λ s h. ground (arith, h) }

  block : (st : OpSystemState) → Triple (In st) (λ _. In st) Never (set_block true)
  unfolding set_block
  block st = Triple-modify _ (λ s h. h)

  round-Now :
      (st n : OpSystemState)
      → Triple Running (Gives n) Never (state_handler p st off)
      → Triple (In st) (Now n) Never (goto_round p off)
  unfolding goto_round
  round-Now st n h = Triple-self _ (λ s q.
      Triple-pre (λ x e. rw e q)
        (Triple-bind {R = λ _. In st} _ _
          (Triple-if s.stop _ _ (λ e. absurd (ground (arith, e, q)))
            (λ e. Triple-pure tt (λ x r. r)))
          (λ _.
            Triple-bind _ _ (block st)
              (λ _. rw q.0 (Triple-bind _ _ (Triple-pre (λ x r. r.1) h) (settle n))))))

  abbrev pub Done : Bool → OpTestSystem W → Type 0
  Done b s = (b ≡ true) × (s.state ≡ off)

  last-Done :
      (nu : Bool) (rest : Act W Bool) (n : OpSystemState)
      → Triple (Now off n) Done Never (goto_next p nu off rest n)
  unfolding goto_next ◌>>=◌
  last-Done nu rest n = record { at = λ s h. rw h.0 (refl, h.1.0) }

  more-Done :
      (nu : Bool) (rest : Act W Bool) (n : OpSystemState)
      → Triple (In powering_off) Done Never rest
      → Triple (Now powering_off n) Done Never (goto_next p nu off rest n)
  unfolding goto_next
  more-Done true rest n t = record { at = λ s h. rw h.0 (t.at s h.1) }
  more-Done false rest n t = record { at = λ s h. rw h.0 (t.at s h.1) }

  module _ (powers_off : Obeys p.ipmi_power_off tt)
      (stands_by : Obeys (p.ipmi_wait_for_standby_state system_standby_state_delay) fw_success)
      (disconnects : Obeys p.ssh_disconnected tt) where
    second-Done :
        (rounds : ℕ) (nu : Bool)
        → Triple (In powering_off) Done Never (goto_loop p (suc rounds) nu off)
    unfolding goto_loop
    second-Done rounds nu =
        Triple-read (λ s. s.state) _
          (λ st.
            Triple-bind _ _
              (round-Now powering_off off (from_powering_off p powers_off stands_by disconnects))
              (last-Done (nu || not (same_state st unknown)) _))

    loop-Done :
        (rounds : ℕ) (nu : Bool)
        → 2 ≤ rounds
        → Triple (In os) Done Never (goto_loop p rounds nu off)
    unfolding goto_loop
    loop-Done zero nu h = absurd (omega arith)
    loop-Done (suc zero) nu h = absurd (omega arith)
    loop-Done (suc (suc rounds)) nu h =
        Triple-read (λ s. s.state) _
          (λ st.
            Triple-bind _ _ (round-Now os powering_off (from_os p powers_off stands_by disconnects))
              (λ n. more-Done (nu || not (same_state st unknown)) _ n (second-Done rounds _)))

    run_loop-Done : Triple (In os) Done Never (run_loop p off)
    unfolding run_loop
    run_loop-Done =
        Triple-self _ (λ s q. Triple-pre (λ x e. rw e q) (loop-Done _ false (omega arith)))

    check_nvram-Done : (done : Bool) → Triple (Done done) (λ _. Done done) Never (check_nvram p off)
    unfolding check_nvram
    check_nvram-Done done = Triple-self _ (λ s q.
        Triple-if (unchecked s.nvram_debug_opts && has_shell off && not (is_hmc s.console_kind)) _ _
          (λ e. absurd (no_check _ _ e)) (λ e. Triple-pure tt (λ x r. rw r q)))

    detect_first-In : Triple (In os) (λ _. In os) Never (detect_first p off)
    unfolding detect_first
    detect_first-In = Triple-self _ (λ s q.
        Triple-pre (λ x e. rw e q)
          (Triple-if (same_state s.state unknown) _ _ (λ e. absurd (ground (arith, e, q.0)))
            (λ e. Triple-pure tt (λ x r. r))))

    goto_state-Done : Triple (In os) Done Never (goto_state p off)
    unfolding goto_state
    goto_state-Done = Triple-bind _ _ (block os) (λ _.
        Triple-bind {R = λ _. In os} _ _ (Triple-modify _ (λ s h. h)) (λ _. Triple-self _ (λ s q.
          Triple-pre (λ x e. rw e q)
            (Triple-bind {R = λ _. In os} _ _
              (Triple-if (is_skipped s.console_kind off) _ _
                (λ e. absurd (ground (arith, e, not_skipped s.console_kind)))
                (λ e. Triple-pure tt (λ x r. r)))
              (λ _. Triple-bind _ _ detect_first-In (λ _. Triple-bind _ _ run_loop-Done (λ done.
                Triple-bind _ _ (check_nvram-Done done) (λ _. Triple-pure done (λ x r. r)))))))))

    -- With a BMC that powers off, reaches standby and raises nothing, `goto_state` takes a system that
    -- was not stopped from the OS to OFF: it raises nothing and ends in that state.
    pub goto_state_powers_off :
        (s : OpTestSystem W)
        → s.state ≡ os
        → s.stop ≡ false
        → Ends Done Never (goto_state p off s).0 (goto_state p off s).1
    goto_state_powers_off s h k = goto_state-Done.at s (h, k)
