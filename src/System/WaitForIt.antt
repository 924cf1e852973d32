-- ===== src/System/WaitForIt.antt =====
-- common/OpTestSystem.py: `wait_for_it` and `check_it`, the loop that waits for one of the strings of
-- a table on the console. Python's -1 for no hit is `none` here; the None that `wait_for_it` returns
-- when its loop does not run is `none` too.
pub mod Frame
pub mod Hits
use Prim.Native.Nat.{Ordering}
use Prim.Native.String.{compare}
use op_test.Prelude.{
  ℕ, zero, suc, ◌+◌, ◌-◌, ◌%◌, Bool, true, false, ◌&&◌, Option, none, some, String, List, [], ◌∷◌,
  map, ltb, leb, ◌==◌, str_eq, if◌then◌else◌, length, get_elem?,
}
use op_test.Exec.{pure, raise, gets, modify, catching, ◌>>=◌, ◌>>◌}
use op_test.Exceptions.{OpException, key_error, zero_division_error, pos}
use op_test.System.State.{Act, is_hmc, reset_ignore}
use op_test.System.Interface.{Platform, Pattern, on_shared}
use op_test.System.Callbacks.{Callback, Table, run_callback}

abbrev pub str_le : String → String → Bool
str_le s t = elim (compare s t) [ Ordering.gt ↦ false | _ ↦ true ]

pub insert_key : String → List String → List String
insert_key k [] = k ∷ []
insert_key k (j ∷ js) = if str_le k j then k ∷ j ∷ js else j ∷ insert_key k js

-- sorted(d.keys())
pub sorted_keys : Table → List String
unfolding insert_key
sorted_keys [] = []
sorted_keys ((k, _) ∷ t) = insert_key k (sorted_keys t)

-- d[key], with none for a KeyError
pub find : String → Table → Option (Option Callback)
find key [] = none
find key ((k, c) ∷ t) = if str_eq k key then some c else find key t

-- The keyword arguments of `wait_for_it`.
pub record WaitArgs : Type 0 where
  pub expect_dict : Table
  pub refresh : Bool
  pub buffer_kicker : Bool
  pub loop_max : ℕ
  pub threshold : ℕ
  pub reconnect : Bool
  pub fresh_start : Bool
  pub last_try : Bool
  pub wait_timeout : ℕ

-- `default_vals`
abbrev pub default_vals : Table → WaitArgs
default_vals t = record {
  expect_dict = t;
  refresh = true;
  buffer_kicker = true;
  loop_max = 8;
  threshold = 1;
  reconnect = true;
  fresh_start = true;
  last_try = true;
  wait_timeout = 5;
}

-- The local variables of the loop.
pub record WaitVars : Type 0 where
  pub x : ℕ
  pub reconnect_count : ℕ
  pub timeout_count : ℕ
  pub previous_before : String

abbrev pub first_vars : WaitVars
first_vars = record {
  x = 1;
  reconnect_count = 0;
  timeout_count = 1;
  previous_before = "emptyfirst";
}

abbrev expect_seq : List String → List Pattern
expect_seq keys = Pattern.timeout ∷ Pattern.eof ∷ map Pattern.text keys

abbrev mod_check : ℕ → ℕ → Option Bool
mod_check n zero = none
mod_check n (suc k) = some (n % suc k == 0)

module _ {W : Type 0} (p : Platform W) where
  abbrev when : Bool → Act W Unit → Act W Unit
  when b m = if b then m else pure tt

  -- The callback of a key, if it has one; `none` where `ignore` says to go on.
  run_handler : Option (Option Callback) → ℕ → Act W (Option ℕ)
  run_handler none i = raise key_error
  run_handler (some none) i = pure (some i)
  run_handler (some (some c)) i = do
    run_callback p c
    ignore ← gets (λ s. s.ignore)
    if ignore then (do reset_ignore; pure none) else pure (some i)

  handle_key : Table → Option String → ℕ → Act W (Option ℕ)
  handle_key d none i = raise key_error
  handle_key d (some key) i = run_handler (find key d) i

  -- `r` is an index of `expect_seq`, whose first two entries are TIMEOUT and EOF.
  pub check_it : Table → List String → ℕ → Act W (Option ℕ)
  unfolding run_handler handle_key
  check_it d keys r =
      if leb 2 r && ltb r (length keys + 2)
      then handle_key d (get_elem? keys (r - 2)) (r - 2)
      else (do when (r == 1) (on_shared p.close); pure none)

  -- A reconnect, whose failure is only logged.
  stale_reconnect : WaitArgs → Act W Unit
  stale_reconnect a = do
    catching (on_shared p.connect) (λ e. pure tt)
    when a.refresh (on_shared (p.sendcontrol "l"))
    when a.buffer_kicker (do
      on_shared (p.sendline "\r")
      on_shared (p.expect (Pattern.text "\n" ∷ []) none)
      pure tt)

  -- `timeout_count % threshold == 0` is already decided.
  stale_over : WaitArgs → WaitVars → Option Bool → Act W WaitVars
  stale_over a v none = raise zero_division_error
  stale_over a v (some false) = pure v
  stale_over a v (some true) = do
    when a.reconnect (stale_reconnect a)
    pure (record v {
      reconnect_count = if a.reconnect then v.reconnect_count + 1 else v.reconnect_count;
      previous_before = "emptyagain";
    })

  -- The check for a stale buffer: `(r + 1) in range(2)` holds of TIMEOUT alone.
  pub stale_check : WaitArgs → WaitVars → ℕ → String → Act W WaitVars
  unfolding stale_reconnect stale_over
  stale_check a v r before =
      if str_eq v.previous_before before && r == 0
      then (let v' = record v { timeout_count = v.timeout_count + 1 } in
          stale_over a v' (mod_check v'.timeout_count a.threshold))
      else pure (record v { previous_before = before; timeout_count = 1 })

  -- What the console of an LPAR is sent to skip the SMS menu, and the long pause, once.
  first_round : ℕ → Act W Unit
  first_round x = do
    kind ← gets (λ s. s.console_kind)
    when (is_hmc kind && x == 1) (do on_shared (p.sendline "5"); on_shared (p.sendline ""))

  -- The body of the loop down to `check_it`: the hit, if any, and the variables.
  pub wait_round : WaitArgs → List String → WaitVars → Act W (Option ℕ × WaitVars)
  unfolding first_round
  wait_round a keys v = do
    on_shared p.get_console
    first_round v.x
    r ← on_shared (p.expect (expect_seq keys) (some a.wait_timeout))
    before ← on_shared p.before
    v' ← stale_check a v r before
    working_r ← check_it a.expect_dict keys r
    pure (working_r, v')

  or_raise : ℕ → Option ℕ → Act W (Option (ℕ × ℕ))
  or_raise n none = raise (OpException.wait_for_it (pos n))
  or_raise n (some i) = pure (some (i, n))

  -- The end of the last round.
  give_up : WaitArgs → List String → ℕ → Act W (Option (ℕ × ℕ))
  unfolding or_raise
  give_up a keys n =
      if a.last_try
      then (do
        on_shared p.connect
        on_shared (p.sendcontrol "l")
        on_shared (p.sendline "\r")
        r ← on_shared (p.expect (expect_seq keys) (some a.wait_timeout))
        last_try_r ← check_it a.expect_dict keys r
        or_raise n last_try_r)
      else raise (OpException.wait_for_it (pos n))

  -- What follows `check_it` in the loop; `rest` is the rest of the rounds.
  wait_next :
      WaitArgs
      → List String
      → (WaitVars → Act W (Option (ℕ × ℕ)))
      → Option ℕ × WaitVars
      → Act W (Option (ℕ × ℕ))
  unfolding give_up
  wait_next a keys rest (some i, v) = pure (some (i, v.reconnect_count))
  wait_next a keys rest (none, v) =
      if leb a.loop_max (v.x + 1)
      then give_up a keys v.reconnect_count
      else rest (record v { x = v.x + 1 })

  -- `while x <= loop_max` with loop_max + 1 - x rounds left.
  pub wait_loop : WaitArgs → List String → ℕ → WaitVars → Act W (Option (ℕ × ℕ))
  wait_loop a keys zero v = pure none
  wait_loop a keys (suc rounds) v =
      wait_round a keys v >>= wait_next a keys (wait_loop a keys rounds)

  wait_start : WaitArgs → Act W Unit
  wait_start a = do
    if a.fresh_start then on_shared p.connect else on_shared p.get_console
    kind ← gets (λ s. s.console_kind)
    when (is_hmc kind) (on_shared (p.sendline "5"))
    when a.refresh (on_shared (p.sendcontrol "l"))

  pub wait_for_it : WaitArgs → Act W (Option (ℕ × ℕ))
  unfolding wait_start
  wait_for_it a = do wait_start a; wait_loop a (sorted_keys a.expect_dict) a.loop_max first_vars
