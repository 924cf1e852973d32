-- ===== src/System/Callbacks.antt =====
-- common/OpTestSystem.py: the handler callbacks and the two tables of expected strings.
pub mod Frame
pub mod Raises
use op_test.Prelude.{ℕ, Option, none, some, String, List, [], ◌∷◌, true, arith}
use op_test.Exec.{pure, raise, gets, catching, ◌>>=◌, ◌>>◌}
use op_test.Exceptions.{
  OpSystemState, unknown_bad, OpException, hostboot_shutdown, wait_for_it, unexpected_case, negsuc,
}
use op_test.System.State.{OpTestSystem, Act, set_state, set_stop}
use op_test.System.Interface.{Platform, Pattern, on_shared}

pub data Callback : Type 0 where
  hostboot_callback login_callback petitboot_callback guard_callback : Callback
  xmon_callback dracut_callback skiboot_callback : Callback

-- A Python dict from the string to its callback, if there is one.
abbrev pub Table : Type 0
Table = List (String × Option Callback)

abbrev pub petitboot_expect_table : Table
petitboot_expect_table =
    ("Petitboot", none)
    ∷ ("/ #", none)
    ∷ ("shutdown requested", some hostboot_callback)
    ∷ ("x=exit", none)
    ∷ ("login: ", some login_callback)
    ∷ ("mon> ", some xmon_callback)
    ∷ ("dracut:/#", some dracut_callback)
    ∷ ("System shutting down with error status", some guard_callback)
    ∷ ("Aborting!", some skiboot_callback)
    ∷ []

abbrev pub login_expect_table : Table
login_expect_table =
    ("login: ", none)
    ∷ ("/ #", some petitboot_callback)
    ∷ ("mon> ", some xmon_callback)
    ∷ ("dracut:/#", some dracut_callback)
    ∷ []

module _ {W : Type 0} (p : Platform W) where
  -- sys_sel_elist(dump=True)
  sel_dump : Act W Unit
  sel_dump = on_shared p.ipmi_sel_elist

  -- One command at the xmon prompt, with its answer.
  xmon_ask : String → Act W Unit
  xmon_ask command = do
    on_shared (p.sendline command)
    on_shared (p.expect (Pattern.text ".*mon> " ∷ Pattern.timeout ∷ Pattern.eof ∷ []) (some 10))
    on_shared p.after
    pure tt

  -- The exception takes the state as it is before it is marked bad.
  stop_with_case : Act W Unit
  stop_with_case = do
    st ← gets (λ s. s.state)
    set_state unknown_bad
    set_stop
    raise (unexpected_case st)

  run_guard : Act W Unit
  run_guard = do sel_dump; stop_with_case

  run_xmon : Act W Unit
  run_xmon = do
    on_shared p.get_console
    xmon_ask "t"
    xmon_ask "r"
    xmon_ask "S"
    xmon_ask "e"
    sel_dump
    set_stop
    st ← gets (λ s. s.state)
    set_state unknown_bad
    raise (unexpected_case st)

  run_dracut : Act W Unit
  run_dracut = do
    catching
        (do on_shared p.get_console; on_shared (p.sendline "cat /run/initramfs/rdsosreport.txt"))
        (λ e. pure tt)
    set_state unknown_bad
    set_stop
    st ← gets (λ s. s.state)
    raise (unexpected_case st)

  pub run_callback : Callback → Act W Unit
  run_callback hostboot_callback = do set_state unknown_bad; set_stop; raise hostboot_shutdown
  run_callback login_callback = raise (wait_for_it (negsuc 0))
  run_callback petitboot_callback = raise (wait_for_it (negsuc 0))
  run_callback guard_callback = run_guard
  run_callback xmon_callback = run_xmon
  run_callback dracut_callback = run_dracut
  run_callback skiboot_callback = run_guard
