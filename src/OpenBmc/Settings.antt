-- ===== src/OpenBmc/Settings.antt =====
-- The settings of class HostManagement of common/OpTestOpenBMC.py. A text that `int` is given is a number
-- of the caller here.
use op_test.Prelude.{ℕ, Bool, true, false, Option, none, some, String, ◌==◌}
use op_test.Exec.{pure, raise, catching, ◌>>=◌}
use op_test.Exceptions.{ℤ, pos, type_error, value_error}
use op_test.Lines.{contains, int}
use op_test.Json.{Json, flag, num, str, arr, no_items, item, get_field, equals_one}
use op_test.Http.{Response, get_it, asking, json_of}
use op_test.OpenBmc.{Op, Rest, http_retry, get_data, put_data, post_data}

abbrev or_value_error : {W : Type 0} → Option ℤ → Op W ℤ
or_value_error none = raise value_error
or_value_error (some n) = pure n

-- int(v)
abbrev pub int_of : {W : Type 0} → Json → Op W ℤ
int_of (num n) = pure n
int_of (flag true) = pure (pos 1)
int_of (flag false) = pure (pos 0)
int_of (str s) = or_value_error (int s)
int_of v = raise type_error

abbrev counts_one : ℤ → Bool
counts_one (pos n) = n == 1
counts_one n = false

module _ {W : Type 0} (rest : Rest W) where
  pub software_enumerate : Option ℕ → Op W Response
  software_enumerate minutes = rest.request get_it (asking "/xyz/openbmc_project/software" minutes)

  -- What cannot be read is taken for a field mode that is not set; the request itself may raise.
  pub has_field_mode_set : Option ℕ → Op W Bool
  unfolding software_enumerate
  has_field_mode_set minutes = do
    r ← software_enumerate minutes
    catching
        (do
          j ← json_of r
          d ← get_field "data" j
          enabled ← get_field "FieldModeEnabled" d
          n ← int_of enabled
          pure (counts_one n))
        (λ e. pure false)

  pub set_field_mode : ℤ → Option ℕ → Op W Unit
  set_field_mode mode minutes =
      put_data rest "/xyz/openbmc_project/software/attr/FieldModeEnabled" (num mode) minutes

  pub validate_functional_bootside : String → Option ℕ → Op W Bool
  validate_functional_bootside id minutes = do
    r ← rest.request get_it (asking "/xyz/openbmc_project/software/functional" minutes)
    pure (contains id r.text)

  -- The minutes of the callers are not passed on.
  pub enable_power_cap : ℤ → Option ℕ → Op W Unit
  enable_power_cap enable minutes =
      put_data rest "/xyz/openbmc_project/control/host0/power_cap/attr/PowerCapEnable" (num enable)
        minutes

  pub power_cap_enable : Option ℕ → Op W Unit
  unfolding enable_power_cap
  power_cap_enable minutes = enable_power_cap (pos 1) http_retry

  pub power_cap_disable : Option ℕ → Op W Unit
  unfolding enable_power_cap
  power_cap_disable minutes = enable_power_cap (pos 0) http_retry

  pub get_power_cap_settings : Option ℕ → Op W (Json × Json)
  get_power_cap_settings minutes = do
    d ← get_data rest "/xyz/openbmc_project/control/host0/power_cap" minutes
    enabled ← get_field "PowerCapEnable" d
    cap ← get_field "PowerCap" d
    pure (enabled, cap)

  pub clear_gard_records : Option ℕ → Op W Unit
  clear_gard_records minutes =
      post_data rest "/org/open_power/control/gard/action/Reset" (arr no_items) minutes

  pub factory_reset_software : Option ℕ → Op W Unit
  factory_reset_software minutes =
      post_data rest "/xyz/openbmc_project/software/action/Reset" (arr no_items) minutes

  pub factory_reset_network : Option ℕ → Op W Unit
  factory_reset_network minutes =
      post_data rest "/xyz/openbmc_project/network/action/Reset" (arr no_items) minutes

  pub update_root_password : String → Option ℕ → Op W Unit
  update_root_password password minutes =
      post_data rest "/xyz/openbmc_project/user/root/action/SetPassword"
        (arr (item (str password) no_items)) minutes

  pub is_tpm_enabled : Option ℕ → Op W Bool
  is_tpm_enabled minutes = do
    d ← get_data rest "/xyz/openbmc_project/control/host0/TPMEnable" minutes
    found ← get_field "TPMEnable" d
    pure (equals_one found)

  pub configure_tpm_enable : ℤ → Option ℕ → Op W Unit
  configure_tpm_enable bit minutes =
      put_data rest "/xyz/openbmc_project/control/host0/TPMEnable/attr/TPMEnable" (num bit) minutes

  pub enable_tpm : Op W Unit
  unfolding configure_tpm_enable
  enable_tpm = configure_tpm_enable (pos 1) http_retry

  pub disable_tpm : Op W Unit
  unfolding configure_tpm_enable
  disable_tpm = configure_tpm_enable (pos 0) http_retry
