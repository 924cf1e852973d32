-- ===== src/System/Goto/Stopped.antt =====
-- A system that was stopped, and a detection that was spent.
use op_test.Prelude.{ℕ, ◌+◌, ◌≤◌, ◌≡◌, refl, ◌≢◌, true, false, some, arith, leb, zero, suc, ◌<◌}
use op_test.Exec.{ok, err, ◌>>=◌}
use op_test.Exceptions.{OpSystemState, unknown, stopping_system}
use op_test.System.State.{OpTestSystem, set_block}
use op_test.System.Interface.{Platform}
use op_test.System.Detect.{same_state}
use op_test.System.Goto.{
  is_skipped, count_detection, run_detect, goto_round, goto_loop, goto_rounds, run_loop,
  detect_first, goto_state,
}

not_unknown : (st : OpSystemState) → st ≢ unknown → same_state st unknown ≡ false
not_unknown st h = ground arith

third : (n : ℕ) → 2 ≤ n → leb 3 (n + 1) ≡ true
third n h = ground arith

module _ {W : Type 0} (p : Platform W) where
  -- What `goto_state` writes before its loop.
  abbrev pub entered : OpSystemState → OpTestSystem W → OpTestSystem W
  entered target s = record s {
    shared = record s.shared { block_setup_term = true };
    target_state = some target;
  }

  round_stopped :
      (target : OpSystemState) (s : OpTestSystem W)
      → s.stop ≡ true
      → goto_round p target s ≡ (err stopping_system, s)
  unfolding goto_round ◌>>=◌
  round_stopped target s h = simp h refl

  loop_stopped :
      (rounds : ℕ) (target : OpSystemState) (s : OpTestSystem W)
      → s.stop ≡ true
      → 0 < rounds
      → goto_loop p rounds false target s ≡ (err stopping_system, s)
  unfolding goto_loop ◌>>=◌
  loop_stopped zero target s h k = absurd (omega arith)
  loop_stopped (suc n) target s h k = rw (round_stopped target s h) refl

  -- Once `stop` is set, and unless the state is UNKNOWN or the target is one that the console cannot
  -- reach, `goto_state` raises StoppingSystem: it asks nothing of the host, and writes the target
  -- and the flag that blocks the set-up of the terminal.
  pub goto_state_stopped :
      (target : OpSystemState) (s : OpTestSystem W)
      → s.stop ≡ true
      → s.state ≢ unknown
      → is_skipped s.console_kind target ≡ false
      → goto_state p target s ≡ (err stopping_system, entered target s)
  unfolding goto_state detect_first run_loop set_block ◌>>=◌
  goto_state_stopped target s h u k =
      simp
        (
          k,
          not_unknown s.state u,
          loop_stopped (goto_rounds p s) target (entered target s) h (omega arith),
        )
        refl

  -- After two detections `run_DETECT` answers UNKNOWN without asking the host, and only counts.
  pub run_detect_spent :
      (target : OpSystemState) (s : OpTestSystem W)
      → 2 ≤ s.detect_counter
      → run_detect p target s ≡ (ok unknown, record s { detect_counter = s.detect_counter + 1 })
  unfolding run_detect count_detection ◌>>=◌
  run_detect_spent target s h = rw (third s.detect_counter h) refl
