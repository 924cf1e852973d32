-- ===== src/System/Boot.antt =====
-- common/OpTestSystem.py: the handlers of BOOTING, OS and POWERING_OFF, and the table of handlers.
pub mod Progress
pub mod Transitions
pub mod PowerOff
use op_test.Prelude.{
  ℕ, zero, suc, ◌+◌, ◌*◌, ◌/◌, Bool, true, false, Option, none, some, ltb, ◌==◌, ◌||◌,
  if◌then◌else◌,
}
use op_test.Exec.{pure, raise, gets, modify, catching, ◌>>=◌, ◌>>◌}
use op_test.Exceptions.{
  OpSystemState, unknown, off, ipling, petitboot, petitboot_shell, booting, os, powering_off,
  unknown_bad, OpException, op_test_error,
}
use op_test.System.State.{Act, set_block, is_hmc}
use op_test.System.Interface.{Platform, on_shared}
use op_test.System.Callbacks.{login_expect_table}
use op_test.System.WaitForIt.{WaitArgs, default_vals, wait_for_it}
use op_test.System.Power.{
  fw_success, fw_parameter, system_standby_state_delay, clear_state, sys_power_off,
  sys_wait_for_standby_state, clear_system_state,
}
use op_test.System.Handlers.{
  unpack, bad_transition, run_unknown, run_off, run_ipling, run_petitboot, run_petitboot_shell,
}

module _ {W : Type 0} (p : Platform W) where
  -- One attempt: a password prompt (0) and a login prompt (1) mean that the host is up.
  ssh_attempt : Act W Bool
  ssh_attempt = do r ← catching (on_shared p.ssh_boot_attempt) (λ e. pure 2); pure (ltb r 2)

  -- The polling of an HMC's host. Each round ends in a sleep of ten seconds, so that no more than
  -- max_wait / 10 + 1 rounds begin in time.
  ssh_polling : ℕ → ℕ → Act W Bool
  unfolding ssh_attempt
  ssh_polling zero max_wait = pure false
  ssh_polling (suc rounds) max_wait = do
    in_time ← on_shared (p.within max_wait)
    if in_time
        then (do up ← ssh_attempt; if up then pure true else ssh_polling rounds max_wait)
        else pure false

  ssh_boot : Act W Bool
  unfolding ssh_polling
  ssh_boot = do
    s ← gets (λ s. s)
    let max_wait = s.booting_timeout * s.booting_watermark
    if is_hmc s.console_kind
        then catching (ssh_polling (max_wait / 10 + 1) max_wait) (λ e. pure false)
        else pure false

  wait_for_login : Act W (Option OpSystemState)
  wait_for_login = do
    s ← gets (λ s. s)
    hit ← wait_for_it p (
        let a = default_vals login_expect_table in
        record a {
          reconnect = s.login_reconnect;
          threshold = s.threshold_login;
          refresh = s.login_refresh;
          loop_max = s.booting_watermark;
          fresh_start = s.login_fresh_start;
          wait_timeout = s.booting_timeout;
        })
    unpack hit
    pure none

  retry_boot : Act W (Option OpSystemState)
  retry_boot = do
    s ← gets (λ s. s)
    if ltb s.booting_watermark s.kill_cord
        then (do
          modify (λ s. record s { booting_watermark = s.booting_watermark + 1 })
          pure (some unknown_bad))
        else pure (some unknown)

  -- The except clauses; `some` is a state that they return.
  booting_failed : OpException → Act W (Option OpSystemState)
  unfolding retry_boot
  booting_failed (OpException.wait_for_it n) = retry_boot
  booting_failed _ = bad_transition

  booting_reached : Option OpSystemState → Act W OpSystemState
  booting_reached (some st) = pure st
  booting_reached none = do set_block false; pure os

  console_boot : Act W OpSystemState
  unfolding booting_failed booting_reached
  console_boot = catching (wait_for_login) booting_failed >>= booting_reached

  pub run_booting : OpSystemState → Act W OpSystemState
  unfolding ssh_boot console_boot
  run_booting target = do
    set_block true
    up ← ssh_boot
    if up then (do set_block false; pure os) else console_boot

  leave_os : Act W OpSystemState
  leave_os = do
    modify (λ s. record s { ipmi_drivers_loaded = false })
    sys_power_off p
    pure powering_off

  os_with : OpSystemState → Act W OpSystemState
  unfolding leave_os
  os_with os = pure os
  os_with target = leave_os

  pub run_os : OpSystemState → Act W OpSystemState
  unfolding os_with
  run_os target = do set_block false; os_with target

  pub run_powering_off : OpSystemState → Act W OpSystemState
  run_powering_off target = do
    set_block true
    rc ← sys_wait_for_standby_state p system_standby_state_delay
    if (rc == fw_success) || (rc == fw_parameter) then pure tt else raise op_test_error
    on_shared p.ssh_disconnected
    clear_system_state
    clear_state
    pure off

  -- self.stateHandlers
  pub state_handler : OpSystemState → OpSystemState → Act W OpSystemState
  state_handler unknown = run_unknown p
  state_handler off = run_off p
  state_handler ipling = run_ipling p
  state_handler petitboot = run_petitboot p
  state_handler petitboot_shell = run_petitboot_shell p
  state_handler booting = run_booting
  state_handler os = run_os
  state_handler powering_off = run_powering_off
  state_handler unknown_bad = run_unknown p
