-- ===== src/System/WaitForIt/Frame.antt =====
-- The wait keeps every stable predicate.
use op_test.Prelude.{ℕ, zero, suc, Bool, true, false, Option, none, some, String, List}
use op_test.Exec.Keeps.{Keeps}
use op_test.System.State.{OpTestSystem, Act}
use op_test.System.Interface.{Platform}
use op_test.System.Frame.{Stable, primitive_rules}
use op_test.System.Callbacks.{Callback, Table}
use op_test.System.Callbacks.Frame.{run_callback-Keeps}
use op_test.System.WaitForIt.{
  WaitArgs, WaitVars, run_handler, handle_key, check_it, stale_reconnect, stale_over, stale_check,
  first_round, wait_round, or_raise, give_up, wait_next, wait_loop, wait_start, wait_for_it,
}

module _ {W : Type 0} (p : Platform W) {P : OpTestSystem W → Type 0} (k : Stable P) where
  run_handler-Keeps : (c : Option (Option Callback)) (i : ℕ) → Keeps P (run_handler p c i)
  unfolding run_handler
  run_handler-Keeps none i = search primitive_rules
  run_handler-Keeps (some none) i = search primitive_rules
  run_handler-Keeps (some (some c)) i = search (primitive_rules, k, run_callback-Keeps p) depth 12

  handle_key-Keeps : (d : Table) (key : Option String) (i : ℕ) → Keeps P (handle_key p d key i)
  unfolding handle_key
  handle_key-Keeps d none i = search primitive_rules
  handle_key-Keeps d (some key) i = run_handler-Keeps _ i

  pub check_it-Keeps : (d : Table) (keys : List String) (r : ℕ) → Keeps P (check_it p d keys r)
  unfolding check_it
  check_it-Keeps d keys r = search (primitive_rules, k, handle_key-Keeps) depth 12

  stale_reconnect-Keeps : (a : WaitArgs) → Keeps P (stale_reconnect p a)
  unfolding stale_reconnect
  stale_reconnect-Keeps a = search (primitive_rules, k) depth 12

  stale_over-Keeps : (a : WaitArgs) (v : WaitVars) (b : Option Bool) → Keeps P (stale_over p a v b)
  unfolding stale_over
  stale_over-Keeps a v none = search primitive_rules
  stale_over-Keeps a v (some false) = search primitive_rules
  stale_over-Keeps a v (some true) = search (primitive_rules, k, stale_reconnect-Keeps) depth 12

  stale_check-Keeps :
      (a : WaitArgs) (v : WaitVars) (r : ℕ) (before : String) → Keeps P (stale_check p a v r before)
  unfolding stale_check
  stale_check-Keeps a v r before = search (primitive_rules, stale_over-Keeps)

  first_round-Keeps : (x : ℕ) → Keeps P (first_round p x)
  unfolding first_round
  first_round-Keeps x = search (primitive_rules, k) depth 12

  wait_round-Keeps :
      (a : WaitArgs) (keys : List String) (v : WaitVars) → Keeps P (wait_round p a keys v)
  unfolding wait_round
  wait_round-Keeps a keys v =
      search (primitive_rules, k, first_round-Keeps, stale_check-Keeps, check_it-Keeps) depth 16

  or_raise-Keeps : (n : ℕ) (o : Option ℕ) → Keeps P (or_raise p n o)
  unfolding or_raise
  or_raise-Keeps n none = search primitive_rules
  or_raise-Keeps n (some i) = search primitive_rules

  give_up-Keeps : (a : WaitArgs) (keys : List String) (n : ℕ) → Keeps P (give_up p a keys n)
  unfolding give_up
  give_up-Keeps a keys n = search (primitive_rules, k, check_it-Keeps, or_raise-Keeps) depth 16

  wait_next-Keeps :
      (a : WaitArgs) (keys : List String) (rest : WaitVars → Act W (Option (ℕ × ℕ)))
      → ((v : WaitVars) → Keeps P (rest v))
      → (w : Option ℕ × WaitVars) → Keeps P (wait_next p a keys rest w)
  unfolding wait_next
  wait_next-Keeps a keys rest kr (some i, v) = search primitive_rules
  wait_next-Keeps a keys rest kr (none, v) = search (primitive_rules, give_up-Keeps)

  wait_loop-Keeps :
      (a : WaitArgs) (keys : List String) (n : ℕ) (v : WaitVars) → Keeps P (wait_loop p a keys n v)
  unfolding wait_loop
  wait_loop-Keeps a keys zero v = search primitive_rules
  wait_loop-Keeps a keys (suc n) v =
      search (primitive_rules, wait_round-Keeps, wait_next-Keeps, wait_loop-Keeps a keys n)

  wait_start-Keeps : (a : WaitArgs) → Keeps P (wait_start p a)
  unfolding wait_start
  wait_start-Keeps a = search (primitive_rules, k) depth 16

  pub wait_for_it-Keeps : (a : WaitArgs) → Keeps P (wait_for_it p a)
  unfolding wait_for_it
  wait_for_it-Keeps a = search (primitive_rules, wait_start-Keeps, wait_loop-Keeps)
