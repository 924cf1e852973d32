-- ===== src/System/Boot/Transitions.antt =====
-- Every handler returns along the edges of the diagram.
use op_test.Prelude.{Option, none, some}
use op_test.Exec.Post.{Post, Post-then, Post-catching, Returns, post_rules}
use op_test.Exceptions.{
  OpSystemState, unknown, off, ipling, petitboot, petitboot_shell, booting, os, powering_off,
  unknown_bad, OpException,
}
use op_test.System.State.{OpTestSystem}
use op_test.System.Interface.{Platform}
use op_test.System.Callbacks.Raises.{Any, Any-Keeps}
use op_test.System.Edges.{edges, lost_off, bad_off}
use op_test.System.Handlers.Transitions.{
  Next, NextIf, bad_transition-Next, run_unknown-Next, run_off-Next, run_ipling-Next,
  run_petitboot-Next, run_petitboot_shell-Next,
}
use op_test.System.Boot.{
  wait_for_login, retry_boot, booting_failed, booting_reached, console_boot, run_booting, leave_os,
  os_with, run_os, run_powering_off, state_handler,
}

module _ {W : Type 0} (p : Platform W) where
  wait_for_login-Next : Post Any (NextIf booting) (wait_for_login p)
  unfolding wait_for_login
  wait_for_login-Next = search (post_rules, Any-Keeps) depth 8

  retry_boot-Next : Post Any (NextIf booting) (retry_boot p)
  unfolding retry_boot
  retry_boot-Next = search (post_rules, Any-Keeps, edges) depth 8

  booting_failed-Next : (e : OpException) → Post Any (NextIf booting) (booting_failed p e)
  unfolding booting_failed
  booting_failed-Next (OpException.wait_for_it n) = retry_boot-Next
  booting_failed-Next _ = bad_transition-Next p booting

  login_reached-Next : Post Any (Next booting) (booting_reached p none)
  unfolding booting_reached
  login_reached-Next = search (post_rules, Any-Keeps, edges)

  booting_reached-Next :
      (o : Option OpSystemState) → Post (NextIf booting o) (Next booting) (booting_reached p o)
  unfolding booting_reached
  booting_reached-Next (some st) = search post_rules
  booting_reached-Next none = login_reached-Next

  console_boot-Next : Post Any (Next booting) (console_boot p)
  unfolding console_boot
  console_boot-Next =
      Post-then _ _ (Post-catching _ _ (Any-Keeps _) wait_for_login-Next booting_failed-Next)
        booting_reached-Next

  run_booting-Next : (target : OpSystemState) → Post Any (Next booting) (run_booting p target)
  unfolding run_booting
  run_booting-Next target = search (post_rules, Any-Keeps, edges, console_boot-Next) depth 8

  leave_os-Next : Post Any (Next os) (leave_os p)
  unfolding leave_os
  leave_os-Next = search (post_rules, Any-Keeps, edges)

  os_with-Next : (target : OpSystemState) → Post Any (Next os) (os_with p target)
  unfolding os_with
  os_with-Next os = search (post_rules, edges)
  os_with-Next target = leave_os-Next

  run_os-Next : (target : OpSystemState) → Post Any (Next os) (run_os p target)
  unfolding run_os
  run_os-Next target = search (post_rules, Any-Keeps, os_with-Next)

  run_powering_off-Next :
      (target : OpSystemState) → Post Any (Next powering_off) (run_powering_off p target)
  unfolding run_powering_off
  run_powering_off-Next target = search (post_rules, Any-Keeps, edges) depth 12

  state_handler-Next : (target st : OpSystemState) → Post Any (Next st) (state_handler p st target)
  unfolding state_handler
  state_handler-Next target unknown = run_unknown-Next p target unknown lost_off
  state_handler-Next target off = run_off-Next p target
  state_handler-Next target ipling = run_ipling-Next p target
  state_handler-Next target petitboot = run_petitboot-Next p target
  state_handler-Next target petitboot_shell = run_petitboot_shell-Next p target
  state_handler-Next target booting = run_booting-Next target
  state_handler-Next target os = run_os-Next target
  state_handler-Next target powering_off = run_powering_off-Next target
  state_handler-Next target unknown_bad = run_unknown-Next p target unknown_bad bad_off

-- Whatever the host does and whatever the target, a handler that returns gives a state that the
-- diagram has an edge to.
pub state_handler_edge :
    {W : Type 0} (p : Platform W) (target st : OpSystemState) (s : OpTestSystem W)
    → Returns (Next st) (state_handler p st target s).0 (state_handler p st target s).1
state_handler_edge p target st s = (state_handler-Next p target st).at s tt
