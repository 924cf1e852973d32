-- ===== src/System/Handlers/Transitions.antt =====
-- The handlers up to that of PETITBOOT_SHELL return along the edges of the diagram.
use op_test.Prelude.{Option, none, some}
use op_test.Exec.{catching, ◌>>=◌}
use op_test.Exec.Post.{Post, Post-then, Post-catching, post_rules}
use op_test.Exceptions.{
  OpSystemState, unknown, off, ipling, petitboot, petitboot_shell, os, powering_off, OpException,
  hostboot_shutdown, http_check,
}
use op_test.System.State.{OpTestSystem}
use op_test.System.Interface.{Platform}
use op_test.System.Callbacks.Raises.{Any, Any-Keeps}
use op_test.System.Edges.{Edge, edges, ipl_off, menu_off, shell_off}
use op_test.System.Handlers.{
  to_ipling, raise_transition, bad_transition, to_powering_off, run_unknown, hmc_power_on,
  bmc_power_on, power_retry, off_with, run_off, wait_for_petitboot, retry_ipl, ipling_failed,
  ipling_reached, ipling_with, run_ipling, petitboot_with, run_petitboot, petitboot_shell_with,
  run_petitboot_shell,
}

-- The state that is returned is one edge from `st`.
abbrev pub Next : {W : Type 0} → OpSystemState → OpSystemState → OpTestSystem W → Type 0
Next st n s = Edge st n

-- So is a state that an except clause returns.
abbrev pub NextIf : {W : Type 0} → OpSystemState → Option OpSystemState → OpTestSystem W → Type 0
NextIf st none s = Unit
NextIf st (some n) s = Edge st n

module _ {W : Type 0} (p : Platform W) where
  raise_transition-Next : (st : OpSystemState) → Post Any (Next st) (raise_transition {W = W})
  unfolding raise_transition
  raise_transition-Next st = search (post_rules, Any-Keeps)

  pub bad_transition-Next : (st : OpSystemState) → Post Any (NextIf st) (bad_transition {W = W})
  unfolding bad_transition
  bad_transition-Next st = search (post_rules, Any-Keeps) depth 8

  to_powering_off-Next :
      (st : OpSystemState) → Edge st powering_off → Post Any (Next st) (to_powering_off p)
  unfolding to_powering_off
  to_powering_off-Next st e = search (post_rules, Any-Keeps)

  pub run_unknown-Next :
      (target st : OpSystemState) → Edge st powering_off → Post Any (Next st) (run_unknown p target)
  unfolding run_unknown
  run_unknown-Next target st e = search (post_rules, Any-Keeps, to_powering_off-Next)

  hmc_power_on-Next : Post Any (Next off) (hmc_power_on p)
  unfolding hmc_power_on
  hmc_power_on-Next = search (post_rules, Any-Keeps, edges) depth 12

  power_retry-Next : Post Any (Next off) (power_retry p)
  unfolding power_retry
  power_retry-Next = search (post_rules, Any-Keeps, edges) depth 8

  bmc_power_on-Next : (target : OpSystemState) → Post Any (Next off) (bmc_power_on p target)
  unfolding bmc_power_on
  bmc_power_on-Next target = search (post_rules, Any-Keeps, edges, power_retry-Next) depth 12

  to_ipling-Next : (target : OpSystemState) → Post Any (Next off) (to_ipling p target)
  unfolding to_ipling
  to_ipling-Next target = search (post_rules, Any-Keeps, hmc_power_on-Next, bmc_power_on-Next)

  off_with-Next : (target : OpSystemState) → Post Any (Next off) (off_with p target)
  unfolding off_with
  off_with-Next off = search (post_rules, edges)
  off_with-Next unknown = raise_transition-Next off
  off_with-Next target = to_ipling-Next _

  pub run_off-Next : (target : OpSystemState) → Post Any (Next off) (run_off p target)
  unfolding run_off
  run_off-Next target = search (post_rules, Any-Keeps, off_with-Next)

  wait_for_petitboot-Next : Post Any (NextIf ipling) (wait_for_petitboot p)
  unfolding wait_for_petitboot
  wait_for_petitboot-Next = search (post_rules, Any-Keeps) depth 8

  retry_ipl-Next : Post Any (NextIf ipling) (retry_ipl p)
  unfolding retry_ipl
  retry_ipl-Next = search (post_rules, Any-Keeps, edges) depth 8

  ipling_failed-Next : (e : OpException) → Post Any (NextIf ipling) (ipling_failed p e)
  unfolding ipling_failed
  ipling_failed-Next hostboot_shutdown = search (post_rules, Any-Keeps)
  ipling_failed-Next (OpException.wait_for_it n) = retry_ipl-Next
  ipling_failed-Next http_check = retry_ipl-Next
  ipling_failed-Next _ = bad_transition-Next ipling

  menu_reached-Next : Post Any (Next ipling) (ipling_reached p none)
  unfolding ipling_reached
  menu_reached-Next = search (post_rules, Any-Keeps, edges)

  ipling_reached-Next :
      (o : Option OpSystemState) → Post (NextIf ipling o) (Next ipling) (ipling_reached p o)
  unfolding ipling_reached
  ipling_reached-Next (some st) = search post_rules
  ipling_reached-Next none = menu_reached-Next

  wait-Next :
      Post Any
        (Next ipling)
        (catching (wait_for_petitboot p) (ipling_failed p) >>= ipling_reached p)
  wait-Next =
      Post-then _ _ (Post-catching _ _ (Any-Keeps _) wait_for_petitboot-Next ipling_failed-Next)
        ipling_reached-Next

  ipling_with-Next : (target : OpSystemState) → Post Any (Next ipling) (ipling_with p target)
  unfolding ipling_with
  ipling_with-Next off = to_powering_off-Next ipling ipl_off
  ipling_with-Next target = wait-Next

  pub run_ipling-Next : (target : OpSystemState) → Post Any (Next ipling) (run_ipling p target)
  unfolding run_ipling
  run_ipling-Next target = search (post_rules, Any-Keeps, ipling_with-Next)

  petitboot_with-Next :
      (target : OpSystemState) → Post Any (Next petitboot) (petitboot_with p target)
  unfolding petitboot_with
  petitboot_with-Next petitboot = search (post_rules, Any-Keeps, edges)
  petitboot_with-Next petitboot_shell = search (post_rules, Any-Keeps, edges)
  petitboot_with-Next off = to_powering_off-Next petitboot menu_off
  petitboot_with-Next os = search (post_rules, edges)
  petitboot_with-Next _ = raise_transition-Next petitboot

  pub run_petitboot-Next :
      (target : OpSystemState) → Post Any (Next petitboot) (run_petitboot p target)
  unfolding run_petitboot
  run_petitboot-Next target = search (post_rules, Any-Keeps, petitboot_with-Next)

  petitboot_shell_with-Next :
      (target : OpSystemState) → Post Any (Next petitboot_shell) (petitboot_shell_with p target)
  unfolding petitboot_shell_with
  petitboot_shell_with-Next petitboot_shell = search (post_rules, Any-Keeps, edges)
  petitboot_shell_with-Next petitboot = search (post_rules, Any-Keeps, edges)
  petitboot_shell_with-Next target = to_powering_off-Next petitboot_shell shell_off

  pub run_petitboot_shell-Next :
      (target : OpSystemState) → Post Any (Next petitboot_shell) (run_petitboot_shell p target)
  unfolding run_petitboot_shell
  run_petitboot_shell-Next target = search (post_rules, Any-Keeps, petitboot_shell_with-Next)
