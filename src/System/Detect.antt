-- ===== src/System/Detect.antt =====
-- common/OpTestSystem.py: how the state of a running host is found out.
pub mod Frame
pub mod Answers
use op_test.Prelude.{
  ℕ, zero, suc, ◌+◌, Bool, true, false, not, ◌&&◌, ◌||◌, Option, none, some, List, [], ◌∷◌, ltb,
  leb, ◌==◌, if◌then◌else◌,
}
use op_test.Exec.{pure, raise, gets, modify, catching, ◌>>=◌, ◌>>◌}
use op_test.Exceptions.{
  OpSystemState, unknown, off, ipling, petitboot, petitboot_shell, booting, os, powering_off,
  unknown_bad, OpException, ℤ, pos, negsuc,
}
use op_test.System.State.{OpTestSystem, Act, set_block, set_previous, is_hmc}
use op_test.System.Interface.{Platform, Op, Pattern, on_shared}
use op_test.System.Callbacks.{petitboot_expect_table, login_expect_table}
use op_test.System.WaitForIt.{WaitArgs, default_vals, wait_for_it}
use op_test.System.Power.{
  clear_state, sys_set_bootdev_setup, sys_set_bootdev_no_override, clear_system_state,
}
use op_test.System.Petitboot.{petitboot_exit_to_shell, exit_petitboot_shell}

abbrev state_number : OpSystemState → ℕ
state_number unknown = 0
state_number off = 1
state_number ipling = 2
state_number petitboot = 3
state_number petitboot_shell = 4
state_number booting = 5
state_number os = 6
state_number powering_off = 7
state_number unknown_bad = 8

abbrev pub same_state : OpSystemState → OpSystemState → Bool
same_state a b = state_number a == state_number b

-- `in [OpSystemState.OS, OpSystemState.PETITBOOT_SHELL]`
abbrev pub has_shell : OpSystemState → Bool
has_shell os = true
has_shell petitboot_shell = true
has_shell _ = false

-- The list of the two expects: "x=exit", "Petitboot", ".*#", ".*\$", "login:", TIMEOUT, EOF.
abbrev prompts : List Pattern
prompts =
    Pattern.text "x=exit"
    ∷ Pattern.text "Petitboot"
    ∷ Pattern.text ".*#"
    ∷ Pattern.text ".*\\$"
    ∷ Pattern.text "login:"
    ∷ Pattern.timeout
    ∷ Pattern.eof
    ∷ []

module _ {W : Type 0} (p : Platform W) where
  -- The exception of the wait is dropped, and so is a None that cannot be taken apart.
  pub run_reboot : OpSystemState → Act W Unit
  run_reboot target = do
    set_block false
    on_shared p.get_console
    if same_state target petitboot_shell || same_state target petitboot
        then sys_set_bootdev_setup p
        else sys_set_bootdev_no_override p
    clear_system_state
    clear_state
    set_block true
    on_shared (p.sendline "reboot")
    on_shared (p.expect (Pattern.text "\n" ∷ []) none)
    s ← gets (λ s. s)
    let login =
        let a = default_vals login_expect_table in
        record a { reconnect = s.login_reconnect; threshold = s.threshold_login; loop_max = 100 }
    let menu =
        let a = default_vals petitboot_expect_table in
        record a {
          reconnect = s.petitboot_reconnect;
          refresh = s.petitboot_refresh;
          buffer_kicker = s.petitboot_kicker;
          threshold = s.threshold_petitboot;
          loop_max = 100;
        }
    catching (do wait_for_it p (if same_state target os then login else menu); pure tt)
        (λ e. pure tt)

  -- 'OS' in the output, 'PETITBOOT' in the output
  ssh_outcome : Bool × Bool → Act W (Option OpSystemState)
  ssh_outcome (true, _) = do set_previous os; pure (some os)
  ssh_outcome (false, true) = do set_previous petitboot_shell; pure (some petitboot_shell)
  ssh_outcome (false, false) = pure none

  is_ssh_available : Act W Bool
  is_ssh_available = catching (on_shared p.ssh_is_alive) (λ e. pure false)

  ssh_or_none : Op W (Bool × Bool) → Act W (Option OpSystemState)
  unfolding ssh_outcome
  ssh_or_none probe = catching (on_shared probe >>= ssh_outcome) (λ e. pure none)

  pub detect_state_via_ssh : Act W (Option OpSystemState)
  unfolding is_ssh_available ssh_or_none
  detect_state_via_ssh = do
    kind ← gets (λ s. s.console_kind)
    if is_hmc kind then ssh_or_none p.hmc_probe else do
      available ← is_ssh_available
      if available then ssh_or_none p.ssh_probe else pure none

  -- get_console with the terminal set up, and quiet about it.
  quiet_console : Act W Unit
  quiet_console = do
    set_block false
    on_shared p.enable_setup_term_quiet
    on_shared p.get_console
    on_shared p.disable_setup_term_quiet

  -- The exit status of the grep: 0 in the Petitboot shell, 1 in the OS.
  kernel_of : Option ℤ → Act W OpSystemState
  kernel_of (some (pos zero)) = do set_previous petitboot_shell; pure petitboot_shell
  kernel_of (some (pos (suc zero))) = do set_previous os; pure os
  kernel_of _ = pure unknown

  ask_kernel : Act W OpSystemState
  unfolding kernel_of
  ask_kernel = do
    on_shared (p.sendline "cat /proc/version | grep openpower; echo $?")
    rc ←
        on_shared
          (p.expect (Pattern.text p.expect_prompt ∷ Pattern.timeout ∷ Pattern.eof ∷ []) (some 1))
    if rc == 0
        then (do echo_output ← on_shared p.before; kernel_of (p.last_line_int echo_output))
        else pure unknown

  console_kernel : Act W OpSystemState
  unfolding quiet_console ask_kernel
  console_kernel = do
    quiet_console
    on_shared (p.sendline "")
    rc ← on_shared (p.expect prompts (some 5))
    if ltb rc 2 || leb 5 rc then pure unknown else ask_kernel

  found_by_ssh : Option OpSystemState → Act W OpSystemState
  unfolding console_kernel
  found_by_ssh (some st) = pure st
  found_by_ssh none = console_kernel

  pub check_kernel : Act W OpSystemState
  unfolding found_by_ssh
  check_kernel = detect_state_via_ssh >>= found_by_ssh

  reboot_for : OpSystemState → Act W OpSystemState
  reboot_for target = do run_reboot target; pure unknown

  -- The index is 0 or 1: the Petitboot menu.
  at_menu : OpSystemState → Bool → Act W OpSystemState
  unfolding reboot_for
  at_menu petitboot reboot = pure petitboot
  at_menu petitboot_shell reboot = do petitboot_exit_to_shell p; pure petitboot_shell
  at_menu os true = do petitboot_exit_to_shell p; reboot_for os
  at_menu target reboot = pure unknown

  leave_shell : Act W OpSystemState
  leave_shell = do exit_petitboot_shell p; pure petitboot

  -- A shell of another state than the target, with a reboot left.
  shell_with_reboot : OpSystemState → OpSystemState → Act W OpSystemState
  unfolding reboot_for leave_shell
  shell_with_reboot os found = reboot_for os
  shell_with_reboot petitboot petitboot_shell = leave_shell
  shell_with_reboot petitboot found = reboot_for petitboot
  shell_with_reboot petitboot_shell found = reboot_for petitboot_shell
  shell_with_reboot target found = pure unknown

  -- The same with none left.
  shell_without_reboot : OpSystemState → OpSystemState → Act W OpSystemState
  unfolding leave_shell
  shell_without_reboot petitboot petitboot_shell = leave_shell
  shell_without_reboot petitboot_shell found = pure petitboot_shell
  shell_without_reboot target found = pure unknown

  -- The index is 2 or 3: some shell.
  pub at_shell : OpSystemState → Bool → Act W OpSystemState
  unfolding shell_with_reboot shell_without_reboot
  at_shell target reboot = do
    found ← check_kernel
    if same_state found target
        then (do set_previous found; pure found)
        else if reboot
        then shell_with_reboot target found
        else shell_without_reboot target found

  -- The index is 4: a login prompt.
  at_login : OpSystemState → Bool → Act W OpSystemState
  unfolding reboot_for
  at_login os reboot = pure os
  at_login petitboot true = reboot_for petitboot
  at_login petitboot_shell true = reboot_for petitboot_shell
  at_login target reboot = pure unknown

  -- An index of `prompts` past 4 is TIMEOUT or EOF.
  console_detect : OpSystemState → Bool → Act W OpSystemState
  unfolding quiet_console at_menu at_shell at_login
  console_detect target reboot = do
    quiet_console
    s ← gets (λ s. s)
    if ltb 1 s.detect_counter then on_shared (p.sendline "") else on_shared (p.sendcontrol "l")
    r ← on_shared (p.expect prompts (some 5))
    if ltb r 2
        then at_menu target reboot
        else if ltb r 4
        then at_shell target reboot
        else if r == 4
        then at_login target reboot
        else pure unknown

  -- What the SSH probe found, against the target; where it decides nothing the console is asked.
  use_ssh : OpSystemState → Bool → Option OpSystemState → Act W OpSystemState
  unfolding reboot_for console_detect
  use_ssh os true (some petitboot_shell) = reboot_for os
  use_ssh petitboot_shell true (some os) = reboot_for petitboot_shell
  use_ssh petitboot_shell false (some os) = pure unknown
  use_ssh target reboot none = console_detect target reboot
  use_ssh target reboot (some st) =
      if same_state st target then pure st else console_detect target reboot

  pub detect_target : OpSystemState → Bool → Act W OpSystemState
  unfolding use_ssh
  detect_target target reboot =
      if has_shell target
      then detect_state_via_ssh >>= use_ssh target reboot
      else console_detect target reboot
