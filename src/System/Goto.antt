-- ===== src/System/Goto.antt =====
-- common/OpTestSystem.py: `run_DETECT` and `goto_state`, the loop over the handlers.
pub mod Ends
pub mod Stopped
pub mod Reaches
pub mod PowersOff
use op_test.Prelude.{
  ℕ, zero, suc, ◌+◌, ◌-◌, ◌*◌, Bool, true, false, not, ◌&&◌, ◌||◌, Option, none, some, String, List,
  leb, ◌==◌, if◌then◌else◌,
}
use op_test.Exec.{pure, raise, gets, modify, ◌>>=◌, ◌>>◌}
use op_test.Exceptions.{
  OpSystemState, unknown, ipling, petitboot, petitboot_shell, os, skip_test, stopping_system,
  unknown_state_transition,
}
use op_test.System.State.{
  OpTestSystem, Act, ConsoleKind, qemu, mambo, hmc, set_block, set_state, set_stop, set_previous,
  is_hmc,
}
use op_test.System.Interface.{Platform, on_shared}
use op_test.System.Power.{clear_state, clear_system_state}
use op_test.System.Detect.{same_state, has_shell, detect_target}
use op_test.System.Boot.{state_handler}

-- The targets that a console cannot reach.
abbrev pub is_skipped : ConsoleKind → OpSystemState → Bool
is_skipped qemu os = true
is_skipped mambo os = true
is_skipped hmc ipling = true
is_skipped hmc petitboot = true
is_skipped hmc petitboot_shell = true
is_skipped _ _ = false

abbrev same_previous : Option OpSystemState → OpSystemState → Bool
same_previous none st = false
same_previous (some previous) st = same_state previous st

-- `self.conf.nvram_debug_opts is None`
abbrev unchecked : Option (List String) → Bool
unchecked none = true
unchecked (some _) = false

module _ {W : Type 0} (p : Platform W) where
  count_detection : Act W Unit
  count_detection = modify (λ s. record s { detect_counter = s.detect_counter + 1 })

  -- `while (detect_state == UNKNOWN) and (self.detect_counter <= 2)`. The counter is at least 1
  -- where the loop begins, and each round adds 1: two rounds are enough.
  detect_loop : ℕ → OpSystemState → OpSystemState → Act W OpSystemState
  unfolding count_detection
  detect_loop zero target found = pure found
  detect_loop (suc rounds) target found = do
    s ← gets (λ s. s)
    if same_state found unknown && leb s.detect_counter 2
        then (do
          st ← detect_target p target s.never_rebooted
          set_block true
          modify (λ s. record s { never_rebooted = false })
          count_detection
          detect_loop rounds target st)
        else pure found

  pub run_detect : OpSystemState → Act W OpSystemState
  unfolding detect_loop
  run_detect target = do
    count_detection
    s ← gets (λ s. s)
    if leb 3 s.detect_counter then pure unknown else detect_loop 2 target unknown

  -- A transition makes the prompt's settings invalid.
  note_transition : OpSystemState → Act W Unit
  note_transition st = do
    s ← gets (λ s. s)
    if same_previous s.previous_state st
        then pure tt
        else (do clear_system_state; clear_state; set_previous st)

  lost_state : Act W Bool
  lost_state = do set_stop; raise (unknown_state_transition unknown)

  -- A round of `while 1` down to the tests that end it.
  goto_round : OpSystemState → Act W OpSystemState
  unfolding note_transition
  goto_round target = do
    s ← gets (λ s. s)
    if s.stop then raise stopping_system else pure tt
    set_block true
    st ← state_handler p s.state target
    set_state st
    note_transition st
    pure st

  -- The tests: the loop ends, or the system is lost, or `rest` goes on.
  goto_next : Bool → OpSystemState → Act W Bool → OpSystemState → Act W Bool
  unfolding lost_state
  goto_next never_unknown target rest st =
      if same_state st target
      then pure true
      else if never_unknown && same_state st unknown
      then lost_state
      else rest

  -- `while 1` for a number of rounds; false where they are used up.
  pub goto_loop : ℕ → Bool → OpSystemState → Act W Bool
  unfolding goto_round goto_next
  goto_loop zero never_unknown target = pure false
  goto_loop (suc rounds) never_unknown target = do
    st ← gets (λ s. s.state)
    let never_unknown' = never_unknown || not (same_state st unknown)
    goto_round target >>= goto_next never_unknown' target (goto_loop rounds never_unknown' target)

  -- What is left of the retries, seven rounds for each, and seven rounds more.
  abbrev pub goto_rounds : OpTestSystem W → ℕ
  goto_rounds s = 7 * ((s.kill_cord - s.ipl_watermark) + (s.kill_cord - s.booting_watermark)) + 7

  -- The loop, with rounds enough for its end.
  run_loop : OpSystemState → Act W Bool
  run_loop target = do s ← gets (λ s. s); goto_loop (goto_rounds s) false target

  check_nvram : OpSystemState → Act W Unit
  check_nvram target = do
    s ← gets (λ s. s)
    if unchecked s.nvram_debug_opts && has_shell target && not (is_hmc s.console_kind)
        then (do
          opts ← on_shared p.check_nvram_options
          modify (λ s. record s { nvram_debug_opts = opts }))
        else pure tt

  detect_first : OpSystemState → Act W Unit
  detect_first target = do
    s ← gets (λ s. s)
    if same_state s.state unknown then run_detect target >>= set_state else pure tt

  -- The result says that the loop ended; false would be a want of rounds.
  pub goto_state : OpSystemState → Act W Bool
  unfolding detect_first run_loop check_nvram
  goto_state target = do
    set_block true
    modify (λ s. record s { target_state = some target })
    s ← gets (λ s. s)
    if is_skipped s.console_kind target then raise skip_test else pure tt
    detect_first target
    done ← run_loop target
    check_nvram target
    pure done
