-- ===== src/System/Handlers.antt =====
-- common/OpTestSystem.py: the handlers of the states. A handler is given the target and returns the
-- next state.
pub mod Progress
pub mod Transitions
use op_test.Prelude.{
  ℕ, zero, suc, ◌+◌, ◌*◌, ◌/◌, Bool, true, false, Option, none, some, ltb, ◌==◌, if◌then◌else◌,
}
use mathlib.Core.Logic.{ite}
use op_test.Exec.{pure, raise, gets, modify, catching, ◌>>=◌, ◌>>◌}
use op_test.Exceptions.{
  OpSystemState, unknown, off, ipling, petitboot, petitboot_shell, booting, os, powering_off,
  unknown_bad, OpException, hostboot_shutdown, http_check, unknown_state_transition, op_test_error,
  type_error,
}
use op_test.System.State.{OpTestSystem, Act, set_block, set_state, set_stop, is_hmc}
use op_test.System.Interface.{Platform, on_shared}
use op_test.System.Callbacks.{petitboot_expect_table, login_expect_table}
use op_test.System.WaitForIt.{WaitArgs, default_vals, wait_for_it}
use op_test.System.Power.{
  fw_success, fw_failed, fw_parameter, system_standby_state_delay, clear_state, sys_sdr_clear,
  sys_power_on, sys_power_off, sys_set_bootdev_setup, sys_set_bootdev_no_override,
  sys_wait_for_standby_state, sys_sel_check, clear_system_state,
}
use op_test.System.Petitboot.{get_petitboot_prompt, petitboot_exit_to_shell, exit_petitboot_shell}

module _ {W : Type 0} where
  -- raise UnknownStateTransition(state=self.state, ...)
  pub raise_transition : Act W OpSystemState
  raise_transition = do st ← gets (λ s. s.state); raise (unknown_state_transition st)

  -- What the handlers of the Exception clauses of `run_IPLing` and `run_BOOTING` end with.
  pub bad_transition : Act W (Option OpSystemState)
  bad_transition = do
    set_stop
    st ← gets (λ s. s.state)
    set_state unknown_bad
    raise (unknown_state_transition st)

  -- `my_r, my_reconnect = self.wait_for_it(...)`; a None cannot be taken apart.
  pub unpack : Option (ℕ × ℕ) → Act W (ℕ × ℕ)
  unpack none = raise type_error
  unpack (some hit) = pure hit

module _ {W : Type 0} (p : Platform W) where
  to_powering_off : Act W OpSystemState
  to_powering_off = do sys_power_off p; pure powering_off

  pub run_unknown : OpSystemState → Act W OpSystemState
  unfolding to_powering_off
  run_unknown target = do set_block true; to_powering_off

  -- The branch of `run_OFF` for an HMC: both failures end in an OpTestError.
  hmc_power_on : Act W OpSystemState
  hmc_power_on =
      catching
        (do
          r ← on_shared p.poweron_lpar
          if r == fw_success then pure ipling else do
            r ← on_shared p.poweron_lpar
            if r == fw_success then pure ipling else raise op_test_error)
        (λ e. raise op_test_error)

  set_bootdev : OpSystemState → Act W Unit
  set_bootdev os = sys_set_bootdev_no_override p
  set_bootdev petitboot = sys_set_bootdev_setup p
  set_bootdev petitboot_shell = sys_set_bootdev_setup p
  set_bootdev _ = pure tt

  -- The second failure raises a string, which Python answers with a TypeError.
  power_retry : Act W OpSystemState
  power_retry = do r ← sys_power_on p; if r == fw_failed then raise type_error else pure ipling

  bmc_power_on : OpSystemState → Act W OpSystemState
  unfolding set_bootdev power_retry
  bmc_power_on target = do
    sys_sdr_clear p
    set_bootdev target
    r ← sys_power_on p
    if r == fw_failed then power_retry else pure ipling

  to_ipling : OpSystemState → Act W OpSystemState
  unfolding hmc_power_on bmc_power_on
  to_ipling target = do
    kind ← gets (λ s. s.console_kind)
    if is_hmc kind then hmc_power_on else bmc_power_on target

  off_with : OpSystemState → Act W OpSystemState
  off_with off = pure off
  off_with unknown = raise_transition
  off_with target = to_ipling target

  pub run_off : OpSystemState → Act W OpSystemState
  unfolding off_with
  run_off target = do set_block true; off_with target

  wait_for_petitboot : Act W (Option OpSystemState)
  wait_for_petitboot = do
    s ← gets (λ s. s)
    hit ← wait_for_it p (
        let a = default_vals petitboot_expect_table in
        record a {
          reconnect = s.petitboot_reconnect;
          buffer_kicker = s.petitboot_kicker;
          threshold = s.threshold_petitboot;
          refresh = s.petitboot_refresh;
          loop_max = s.ipl_watermark;
          wait_timeout = s.ipl_timeout;
        })
    unpack hit
    pure none

  retry_ipl : Act W (Option OpSystemState)
  retry_ipl = do
    s ← gets (λ s. s)
    if ltb s.ipl_watermark s.kill_cord
        then (do
          modify (λ s. record s { ipl_watermark = s.ipl_watermark + 1 })
          pure (some unknown_bad))
        else pure (some unknown)

  -- The except clauses; `some` is a state that they return.
  ipling_failed : OpException → Act W (Option OpSystemState)
  unfolding retry_ipl bad_transition
  ipling_failed hostboot_shutdown = do sys_sel_check p; raise hostboot_shutdown
  ipling_failed (OpException.wait_for_it n) = retry_ipl
  ipling_failed http_check = retry_ipl
  ipling_failed _ = bad_transition

  ipling_reached : Option OpSystemState → Act W OpSystemState
  ipling_reached (some st) = pure st
  ipling_reached none = do sys_sel_check p; pure petitboot

  ipling_with : OpSystemState → Act W OpSystemState
  ipling_with off = to_powering_off
  ipling_with target = catching wait_for_petitboot ipling_failed >>= ipling_reached

  pub run_ipling : OpSystemState → Act W OpSystemState
  unfolding ipling_with
  run_ipling target = do set_block true; ipling_with target

  petitboot_with : OpSystemState → Act W OpSystemState
  petitboot_with petitboot = do petitboot_exit_to_shell p; exit_petitboot_shell p; pure petitboot
  petitboot_with petitboot_shell = do petitboot_exit_to_shell p; pure petitboot_shell
  petitboot_with off = to_powering_off
  petitboot_with os = pure booting
  petitboot_with _ = raise_transition

  pub run_petitboot : OpSystemState → Act W OpSystemState
  unfolding petitboot_with
  run_petitboot target = do set_block true; petitboot_with target

  petitboot_shell_with : OpSystemState → Act W OpSystemState
  petitboot_shell_with petitboot_shell = do get_petitboot_prompt p; pure petitboot_shell
  petitboot_shell_with petitboot = do exit_petitboot_shell p; pure petitboot
  petitboot_shell_with _ = to_powering_off

  pub run_petitboot_shell : OpSystemState → Act W OpSystemState
  unfolding petitboot_shell_with
  run_petitboot_shell target = do set_block true; petitboot_shell_with target
