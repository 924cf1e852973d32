-- ===== src/System/Callbacks/Frame.antt =====
-- The callbacks keep every stable predicate.
use op_test.Prelude.{String}
use op_test.Exec.Keeps.{Keeps}
use op_test.System.State.{OpTestSystem}
use op_test.System.Interface.{Platform}
use op_test.System.Frame.{Stable, primitive_rules}
use op_test.System.Callbacks.{
  Callback, hostboot_callback, login_callback, petitboot_callback, guard_callback, xmon_callback,
  dracut_callback, skiboot_callback, run_callback, sel_dump, xmon_ask, stop_with_case, run_guard,
  run_xmon, run_dracut,
}

module _ {W : Type 0} (p : Platform W) {P : OpTestSystem W → Type 0} (k : Stable P) where
  sel_dump-Keeps : Keeps P (sel_dump p)
  unfolding sel_dump
  sel_dump-Keeps = search (primitive_rules, k)

  xmon_ask-Keeps : (c : String) → Keeps P (xmon_ask p c)
  unfolding xmon_ask
  xmon_ask-Keeps c = search (primitive_rules, k) depth 12

  stop_with_case-Keeps : Keeps P (stop_with_case p)
  unfolding stop_with_case
  stop_with_case-Keeps = search (primitive_rules, k) depth 12

  run_guard-Keeps : Keeps P (run_guard p)
  unfolding run_guard
  run_guard-Keeps = search (primitive_rules, k, sel_dump-Keeps, stop_with_case-Keeps) depth 12

  run_xmon-Keeps : Keeps P (run_xmon p)
  unfolding run_xmon
  run_xmon-Keeps = search (primitive_rules, k, sel_dump-Keeps, xmon_ask-Keeps) depth 24

  run_dracut-Keeps : Keeps P (run_dracut p)
  unfolding run_dracut
  run_dracut-Keeps = search (primitive_rules, k) depth 24

  pub run_callback-Keeps : (c : Callback) → Keeps P (run_callback p c)
  unfolding run_callback
  run_callback-Keeps hostboot_callback = search (primitive_rules, k) depth 12
  run_callback-Keeps login_callback = search (primitive_rules, k)
  run_callback-Keeps petitboot_callback = search (primitive_rules, k)
  run_callback-Keeps guard_callback = run_guard-Keeps
  run_callback-Keeps xmon_callback = run_xmon-Keeps
  run_callback-Keeps dracut_callback = run_dracut-Keeps
  run_callback-Keeps skiboot_callback = run_guard-Keeps
