-- ===== src/System/Detect/Frame.antt =====
-- The detection keeps every stable predicate.
use op_test.Prelude.{zero, suc, Bool, true, false, Option, none, some}
use op_test.Exec.Keeps.{Keeps}
use op_test.Exceptions.{OpSystemState, petitboot, petitboot_shell, os, ℤ, pos}
use op_test.System.State.{OpTestSystem}
use op_test.System.Interface.{Platform, Op}
use op_test.System.Frame.{Stable, primitive_rules}
use op_test.System.Power.Frame.{power_rules}
use op_test.System.Petitboot.Frame.{petitboot_rules}
use op_test.System.WaitForIt.Frame.{wait_for_it-Keeps}
use op_test.System.Detect.{
  run_reboot, ssh_outcome, is_ssh_available, ssh_or_none, detect_state_via_ssh, quiet_console,
  kernel_of, ask_kernel, console_kernel, found_by_ssh, check_kernel, reboot_for, at_menu,
  leave_shell, shell_with_reboot, shell_without_reboot, at_shell, at_login, console_detect, use_ssh,
  detect_target,
}

module _ {W : Type 0} (p : Platform W) {P : OpTestSystem W → Type 0} (k : Stable P) where
  run_reboot-Keeps : (t : OpSystemState) → Keeps P (run_reboot p t)
  unfolding run_reboot
  run_reboot-Keeps t = search (primitive_rules, power_rules, k, wait_for_it-Keeps) depth 24

  ssh_outcome-Keeps : (r : Bool × Bool) → Keeps P (ssh_outcome p r)
  unfolding ssh_outcome
  ssh_outcome-Keeps (true, _) = search (primitive_rules, k)
  ssh_outcome-Keeps (false, true) = search (primitive_rules, k)
  ssh_outcome-Keeps (false, false) = search primitive_rules

  is_ssh_available-Keeps : Keeps P (is_ssh_available p)
  unfolding is_ssh_available
  is_ssh_available-Keeps = search (primitive_rules, k)

  ssh_or_none-Keeps : (probe : Op W (Bool × Bool)) → Keeps P (ssh_or_none p probe)
  unfolding ssh_or_none
  ssh_or_none-Keeps probe = search (primitive_rules, k, ssh_outcome-Keeps)

  detect_state_via_ssh-Keeps : Keeps P (detect_state_via_ssh p)
  unfolding detect_state_via_ssh
  detect_state_via_ssh-Keeps =
      search (primitive_rules, ssh_or_none-Keeps, is_ssh_available-Keeps) depth 12

  quiet_console-Keeps : Keeps P (quiet_console p)
  unfolding quiet_console
  quiet_console-Keeps = search (primitive_rules, k) depth 12

  kernel_of-Keeps : (rc : Option ℤ) → Keeps P (kernel_of p rc)
  unfolding kernel_of
  kernel_of-Keeps (some (pos zero)) = search (primitive_rules, k)
  kernel_of-Keeps (some (pos (suc zero))) = search (primitive_rules, k)
  kernel_of-Keeps _ = search primitive_rules

  ask_kernel-Keeps : Keeps P (ask_kernel p)
  unfolding ask_kernel
  ask_kernel-Keeps = search (primitive_rules, k, kernel_of-Keeps) depth 12

  console_kernel-Keeps : Keeps P (console_kernel p)
  unfolding console_kernel
  console_kernel-Keeps = search (primitive_rules, k, quiet_console-Keeps, ask_kernel-Keeps) depth 12

  found_by_ssh-Keeps : (o : Option OpSystemState) → Keeps P (found_by_ssh p o)
  unfolding found_by_ssh
  found_by_ssh-Keeps (some st) = search primitive_rules
  found_by_ssh-Keeps none = console_kernel-Keeps

  check_kernel-Keeps : Keeps P (check_kernel p)
  unfolding check_kernel
  check_kernel-Keeps = search (primitive_rules, detect_state_via_ssh-Keeps, found_by_ssh-Keeps)

  reboot_for-Keeps : (t : OpSystemState) → Keeps P (reboot_for p t)
  unfolding reboot_for
  reboot_for-Keeps t = search (primitive_rules, run_reboot-Keeps)

  at_menu-Keeps : (t : OpSystemState) (b : Bool) → Keeps P (at_menu p t b)
  unfolding at_menu
  at_menu-Keeps petitboot b = search primitive_rules
  at_menu-Keeps petitboot_shell b = search (primitive_rules, petitboot_rules, k)
  at_menu-Keeps os true = search (primitive_rules, petitboot_rules, k, reboot_for-Keeps)
  at_menu-Keeps t b = search primitive_rules

  leave_shell-Keeps : Keeps P (leave_shell p)
  unfolding leave_shell
  leave_shell-Keeps = search (primitive_rules, petitboot_rules, k)

  shell_with_reboot-Keeps : (t found : OpSystemState) → Keeps P (shell_with_reboot p t found)
  unfolding shell_with_reboot
  shell_with_reboot-Keeps os found = reboot_for-Keeps os
  shell_with_reboot-Keeps petitboot petitboot_shell = leave_shell-Keeps
  shell_with_reboot-Keeps petitboot found = reboot_for-Keeps petitboot
  shell_with_reboot-Keeps petitboot_shell found = reboot_for-Keeps petitboot_shell
  shell_with_reboot-Keeps t found = search primitive_rules

  shell_without_reboot-Keeps : (t found : OpSystemState) → Keeps P (shell_without_reboot p t found)
  unfolding shell_without_reboot
  shell_without_reboot-Keeps petitboot petitboot_shell = leave_shell-Keeps
  shell_without_reboot-Keeps petitboot_shell found = search primitive_rules
  shell_without_reboot-Keeps t found = search primitive_rules

  at_shell-Keeps : (t : OpSystemState) (b : Bool) → Keeps P (at_shell p t b)
  unfolding at_shell
  at_shell-Keeps t b =
      search
        (
          primitive_rules, k, check_kernel-Keeps, shell_with_reboot-Keeps,
          shell_without_reboot-Keeps,
        )
        depth 12

  at_login-Keeps : (t : OpSystemState) (b : Bool) → Keeps P (at_login p t b)
  unfolding at_login
  at_login-Keeps os b = search primitive_rules
  at_login-Keeps petitboot true = reboot_for-Keeps petitboot
  at_login-Keeps petitboot_shell true = reboot_for-Keeps petitboot_shell
  at_login-Keeps t b = search primitive_rules

  console_detect-Keeps : (t : OpSystemState) (b : Bool) → Keeps P (console_detect p t b)
  unfolding console_detect
  console_detect-Keeps t b =
      search
        (primitive_rules, k, quiet_console-Keeps, at_menu-Keeps, at_shell-Keeps, at_login-Keeps)
        depth 14

  use_ssh-Keeps :
      (t : OpSystemState) (b : Bool) (o : Option OpSystemState) → Keeps P (use_ssh p t b o)
  unfolding use_ssh
  use_ssh-Keeps os true (some petitboot_shell) = reboot_for-Keeps os
  use_ssh-Keeps petitboot_shell true (some os) = reboot_for-Keeps petitboot_shell
  use_ssh-Keeps petitboot_shell false (some os) = search primitive_rules
  use_ssh-Keeps t b none = console_detect-Keeps t b
  use_ssh-Keeps t b (some st) = search (primitive_rules, console_detect-Keeps)

  pub detect_target-Keeps : (t : OpSystemState) (b : Bool) → Keeps P (detect_target p t b)
  unfolding detect_target
  detect_target-Keeps t b =
      search (primitive_rules, detect_state_via_ssh-Keeps, use_ssh-Keeps, console_detect-Keeps)
