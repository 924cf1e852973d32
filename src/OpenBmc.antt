-- ===== src/OpenBmc.antt =====
-- class HostManagement of common/OpTestOpenBMC.py: the host and the BMC over the BMC's REST interface.
-- What is written to the log is left out. Times are in milliseconds.
pub mod Waits
pub mod Over
pub mod Images
pub mod Dumps
pub mod Settings
pub mod Flash
mod Tests
use Prim.Native.String.{◌++◌ as append}
use op_test.Prelude.{
  ℕ, zero, suc, ◌+◌, ◌*◌, Bool, true, false, not, Option, none, some, String, List, [], ◌∷◌, ltb,
  ◌==◌, str_eq, if◌then◌else◌,
}
use op_test.Exec.{Exec, pure, raise, gets, modify, ◌>>=◌, ◌>>◌}
use op_test.Exceptions.{OpException, ℤ, pos, http_check, value_error}
use op_test.Json.{
  Json, null, flag, num, str, arr, no_items, item, obj, field, no_fields, Fields, names, keys,
  get_field, is_text, is_in, equals_one, truthy, or_null, lookup,
}
use op_test.Http.{
  Verb, get_it, put_it, post_it, delete_it, Request, Response, asking, sending, json_of, codes_ok,
}

abbrev pub Op : Type 0 → Type 0 → Type 0
Op W A = Exec W OpException A

-- conf.util_bmc_server, the pings of the BMC's address with their waiting time, and the time
pub record Rest (W : Type 0) : Type 0 where
  pub request : Verb → Request → Op W Response
  pub ping_func : ℕ → Op W ℕ
  pub ping_fail_check : Op W Bool
  pub now : W → ℕ
  pub sleep : ℕ → W → W

-- BMC_CONST.HTTP_RETRY
abbrev pub http_retry : Option ℕ
http_retry = some 10

-- {"data": v}
abbrev pub payload : Json → Json
payload v = obj (field "data" v no_fields)

module _ {W : Type 0} (rest : Rest W) where
  abbrev pub pause : ℕ → Op W Unit
  pause ms = modify (rest.sleep ms)

  -- `r.json()` of a GET, and its `get_field('data')`
  unfoldable pub get_json : String → Option ℕ → Op W Json
  get_json uri minutes = do r ← rest.request get_it (asking uri minutes); json_of r

  unfoldable pub get_data : String → Option ℕ → Op W Json
  unfolding get_json
  get_data uri minutes = do j ← get_json uri minutes; get_field "data" j

  -- A PUT or a POST of {"data": v}, whose answer is not looked at
  unfoldable pub put_data : String → Json → Option ℕ → Op W Unit
  put_data uri v minutes = do rest.request put_it (sending uri (payload v) minutes); pure tt

  unfoldable pub post_data : String → Json → Option ℕ → Op W Unit
  post_data uri v minutes = do rest.request post_it (sending uri (payload v) minutes); pure tt

  pub get_inventory : Option ℕ → Op W Json
  get_inventory minutes = get_data "/xyz/openbmc_project/inventory/enumerate" minutes

  pub sensors : Option ℕ → Op W Json
  sensors minutes = get_data "/xyz/openbmc_project/sensors/enumerate" minutes

  pub get_power_state : Option ℕ → Op W Json
  get_power_state minutes =
      get_data "/xyz/openbmc_project/state/host0/attr/CurrentHostState" minutes

  pub get_host_state : Option ℕ → Op W Json
  get_host_state minutes = get_data "/xyz/openbmc_project/state/host0/attr/CurrentHostState" minutes

  abbrev pub host_transition : String
  host_transition = "/xyz/openbmc_project/state/host0/attr/RequestedHostTransition"

  pub soft_reboot : Option ℕ → Op W Unit
  soft_reboot minutes =
      put_data host_transition (str "xyz.openbmc_project.State.Host.Transition.Reboot") minutes

  pub hard_reboot : Option ℕ → Op W Unit
  hard_reboot minutes =
      put_data host_transition (str "xyz.openbmc_project.State.Host.Transition.Reboot") minutes

  -- The URI begins without a slash.
  pub power_soft : Option ℕ → Op W Unit
  power_soft minutes =
      put_data "xyz/openbmc_project/state/chassis0/attr/RequestedPowerTransition"
        (str "xyz.openbmc_project.State.Chassis.Transition.Off") minutes

  unfoldable pub power_off : Option ℕ → Op W Unit
  power_off minutes =
      put_data "/xyz/openbmc_project/state/chassis0/attr/RequestedPowerTransition"
        (str "xyz.openbmc_project.State.Chassis.Transition.Off") minutes

  unfoldable pub power_on : Option ℕ → Op W Unit
  power_on minutes =
      put_data host_transition (str "xyz.openbmc_project.State.Host.Transition.On") minutes

  -- The name of the mode that the data holds, if any
  pub get_current_bootdev : Option ℕ → Op W String
  get_current_bootdev minutes = do
    data_of ← get_data "/xyz/openbmc_project/control/host0/boot/attr/BootMode" minutes
    setup ← is_in "Setup" data_of
    if setup
        then pure "Setup"
        else (do regular ← is_in "Regular" data_of; pure (if regular then "Regular" else ""))

  unfoldable pub set_boot_mode : String → Option ℕ → Op W Unit
  set_boot_mode mode minutes = do
    put_data "/xyz/openbmc_project/control/host0/boot/attr/BootMode" (str mode) minutes
    put_data "/xyz/openbmc_project/control/host0/boot/one_time/attr/Enabled" (num (pos 0)) minutes

  unfoldable pub set_bootdev_to_setup : Option ℕ → Op W Unit
  set_bootdev_to_setup minutes =
      set_boot_mode "xyz.openbmc_project.Control.Boot.Mode.Modes.Setup" minutes

  unfoldable pub set_bootdev_to_none : Option ℕ → Op W Unit
  set_bootdev_to_none minutes =
      set_boot_mode "xyz.openbmc_project.Control.Boot.Mode.Modes.Regular" minutes

  pub get_boot_progress : Option ℕ → Op W Json
  get_boot_progress minutes = get_data "/xyz/openbmc_project/state/host0/attr/BootProgress" minutes

  -- The two characters of a name, the first of which becomes the key
  abbrev pub unpacked : String → Op W String
  unpacked (String.◌∷◌ c (String.◌∷◌ d String.[])) = pure (String.◌∷◌ c String.[])
  unpacked name = raise value_error

  -- `for key, value in data`, which leaves its last key; its `break` ends no more than this loop.
  abbrev pub run_names : Json → String → Option String → List String → Op W (Option String)
  run_names v target key [] = pure key
  run_names v target key (name ∷ rest_names) = do
    k ← unpacked name
    found ← get_field k v
    if is_text target found then pure (some k) else run_names v target (some k) rest_names

  -- Whether the data shows the value, with the key for the next round
  unfoldable pub shows : Json → Option String → String → Op W (Bool × Option String)
  shows (obj dict) (some key) target = pure (is_text target (or_null (lookup key dict)), some key)
  shows (obj dict) none target = do
    key ← run_names (obj dict) target none (names dict)
    pure (false, key)
  shows v key target = do there ← is_in target v; pure (there, key)

  -- `while True`, on fuel; `stuck` is what follows when it runs out.
  unfoldable pub wait_bmc_rounds :
      Op W Bool → ℕ → Option String → String → String → Option ℕ → ℕ → Op W Bool
  wait_bmc_rounds stuck zero key target token minutes timeout = stuck
  wait_bmc_rounds stuck (suc rounds) key target token minutes timeout = do
    v ← get_data token minutes
    found ← shows v key target
    if found.0 then pure true else (do
      t ← gets rest.now
      if ltb timeout t
          then raise http_check
          else (do pause 5000; wait_bmc_rounds stuck rounds found.1 target token minutes timeout))

  unfoldable pub wait_bmc : Op W Bool → ℕ → Option String → String → String → ℕ → Op W Bool
  wait_bmc stuck rounds key value_target token minutes = do
    t ← gets rest.now
    wait_bmc_rounds stuck rounds key value_target token (some minutes) (t + 60000 * minutes)

  unfoldable pub wait_for_host_state : Op W Bool → ℕ → String → String → ℕ → Op W Bool
  wait_for_host_state stuck rounds target_state host minutes =
      wait_bmc stuck rounds (some "CurrentHostState")
        (append "xyz.openbmc_project.State.Host.HostState." target_state)
        (append "/xyz/openbmc_project/state/host" host) minutes

  unfoldable pub wait_for_standby : Op W Bool → ℕ → ℕ → Op W Unit
  wait_for_standby stuck rounds timeout = do
    wait_for_host_state stuck rounds "Off" "0" timeout
    pure tt

  unfoldable pub wait_for_runtime : Op W Bool → ℕ → ℕ → Op W Unit
  wait_for_runtime stuck rounds timeout = do
    wait_for_host_state stuck rounds "Running" "0" timeout
    pure tt

  unfoldable pub wait_for_bmc_runtime : Op W Bool → ℕ → ℕ → Op W Bool
  wait_for_bmc_runtime stuck rounds timeout =
      wait_bmc stuck rounds none "xyz.openbmc_project.State.BMC.BMCState.Ready"
        "/xyz/openbmc_project/state/bmc0/attr/CurrentBMCState" timeout

  -- BMC_CONST.PING_RETRY_POWERCYCLE is the waiting time of the second ping.
  pub bmc_reset : Op W Bool → ℕ → Option ℕ → Op W Bool
  bmc_reset stuck rounds minutes = do
    put_data "/xyz/openbmc_project/state/bmc0/attr/RequestedBMCTransition"
        (str "xyz.openbmc_project.State.BMC.Transition.Reboot") minutes
    rest.ping_fail_check
    rest.ping_func 7
    wait_for_bmc_runtime stuck rounds 10

  -- Without retries; the answer that is not ok must be one whose message can be put together.
  pub get_bmc_state : Op W Json
  get_bmc_state = do
    r ← rest.request get_it (asking "/xyz/openbmc_project/state/bmc0/attr/CurrentBMCState" none)
    if not (r.status_code == codes_ok)
        then (do
          j ← json_of r
          d ← get_field "data" j
          description ← get_field "description" d
          keys description
          raise http_check)
        else (do j ← json_of r; get_field "data" j)
