-- ===== src/System/Callbacks/Raises.antt =====
-- What the callbacks return.
use op_test.Exec.Keeps.{Keeps}
use op_test.Exec.Post.{Post, post_rules}
use op_test.System.State.{OpTestSystem, Act}
use op_test.System.Interface.{Platform}
use op_test.System.Callbacks.{
  Callback, hostboot_callback, login_callback, petitboot_callback, guard_callback, xmon_callback,
  dracut_callback, skiboot_callback, run_callback, stop_with_case, run_guard, run_xmon, run_dracut,
}

abbrev pub Any : {W : Type 0} → OpTestSystem W → Type 0
Any s = Unit

pub Any-Keeps : {W A : Type 0} (m : Act W A) → Keeps Any m
Any-Keeps m = record { at = λ s h. tt }

module _ {W : Type 0} (p : Platform W) (Q : Unit {0} → OpTestSystem W → Type 0) where
  stop_with_case-Post : Post Any Q (stop_with_case p)
  unfolding stop_with_case
  stop_with_case-Post = search (post_rules, Any-Keeps) depth 8

  run_guard-Post : Post Any Q (run_guard p)
  unfolding run_guard
  run_guard-Post = search (post_rules, Any-Keeps, stop_with_case-Post)

  run_xmon-Post : Post Any Q (run_xmon p)
  unfolding run_xmon
  run_xmon-Post = search (post_rules, Any-Keeps) depth 14

  run_dracut-Post : Post Any Q (run_dracut p)
  unfolding run_dracut
  run_dracut-Post = search (post_rules, Any-Keeps) depth 8

  -- Whatever is claimed of what a callback returns holds: it never returns.
  pub run_callback-Post : (c : Callback) → Post Any Q (run_callback p c)
  unfolding run_callback
  run_callback-Post hostboot_callback = search (post_rules, Any-Keeps) depth 8
  run_callback-Post login_callback = search post_rules
  run_callback-Post petitboot_callback = search post_rules
  run_callback-Post guard_callback = run_guard-Post
  run_callback-Post xmon_callback = run_xmon-Post
  run_callback-Post dracut_callback = run_dracut-Post
  run_callback-Post skiboot_callback = run_guard-Post
