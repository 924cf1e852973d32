-- ===== src/System/Power.antt =====
-- common/OpTestSystem.py: the sys_ methods that the state handlers use, over the BMC's commands, and
-- `clear_state` and `clear_system_state` of common/OpTestUtil.py.
pub mod Frame
use op_test.Prelude.{ℕ, Bool, true, false, if◌then◌else◌}
use op_test.Exec.{Exec, pure, raise, modify, catching, ◌>>=◌, ◌>>◌}
use op_test.Exceptions.{OpException, op_test_error, pos}
use op_test.System.State.{Act}
use op_test.System.Interface.{Platform, on_shared}

-- common/OpTestConstants.py
abbrev pub fw_success : ℕ
fw_success = 0

abbrev pub fw_failed : ℕ
fw_failed = 1

abbrev pub fw_parameter : ℕ
fw_parameter = 4

abbrev pub system_standby_state_delay : ℕ
system_standby_state_delay = 120

abbrev is_op_test_error : OpException → Bool
is_op_test_error op_test_error = true
is_op_test_error _ = false

module _ {W : Type 0} where
  -- `except OpTestError:` with the rest `h`
  unfoldable pub except_op_test_error : Act W ℕ → Act W ℕ → Act W ℕ
  except_op_test_error m h = catching m (λ e. if is_op_test_error e then h else raise e)

  -- self.util.clear_state(self)
  unfoldable pub clear_state : Act W Unit
  clear_state = modify (λ s. record s {
    shared = record s.shared { ps1_set = pos 0; sudo_set = pos 0; login_set = pos 0 };
  })

  -- self.util.clear_system_state(self)
  unfoldable pub clear_system_state : Act W Unit
  clear_system_state = modify (λ s. record s {
    env_ready = if s.cronus_capable then false else s.env_ready;
    cronus_ready = if s.cronus_capable then false else s.cronus_ready;
  })

module _ {W : Type 0} (p : Platform W) where
  pub sys_sdr_clear : Act W ℕ
  sys_sdr_clear =
      except_op_test_error (on_shared p.ipmi_sdr_clear)
        (except_op_test_error (on_shared p.ipmi_sdr_clear) (pure fw_failed))

  pub sys_power_on : Act W ℕ
  sys_power_on = except_op_test_error (on_shared p.ipmi_power_on) (pure fw_failed)

  unfoldable pub sys_power_off : Act W Unit
  sys_power_off = on_shared p.ipmi_power_off

  pub sys_set_bootdev_setup : Act W Unit
  sys_set_bootdev_setup = on_shared p.ipmi_set_boot_to_petitboot

  pub sys_set_bootdev_no_override : Act W Unit
  sys_set_bootdev_no_override = on_shared p.ipmi_set_no_override

  unfoldable pub sys_wait_for_standby_state : ℕ → Act W ℕ
  sys_wait_for_standby_state n =
      except_op_test_error (on_shared (p.ipmi_wait_for_standby_state n)) (pure fw_failed)

  pub sys_sel_check : Act W ℕ
  sys_sel_check = except_op_test_error (on_shared p.ipmi_sel_check) (pure fw_failed)
