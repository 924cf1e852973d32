-- ===== src/Ipmi.antt =====
-- The class OpTestIPMI of common/OpTestIPMI.py: the commands that it gives to ipmitool and how it reads
-- the answers, with the loops that poll the BMC. The texts of the errors and the log are left out.
mod Tests
pub mod Polls
pub mod Runtime
use op_test.Prelude.{
  ℕ, zero, suc, ◌+◌, ◌-◌, ◌*◌, Bool, true, false, Option, none, some, String, ltb, ◌==◌, str_eq,
  not, if◌then◌else◌,
}
use op_test.Exec.{Exec, pure, raise, gets, modify, catching, ◌>>=◌, ◌>>◌}
use op_test.Exceptions.{OpException, op_test_error, other}
use op_test.Lines.{contains}
use op_test.System.Power.{fw_success, fw_parameter}

abbrev pub Op : Type 0 → Type 0 → Type 0
Op W A = Exec W OpException A

-- self.ipmitool.run, self.console.close, util.PingFunc with its waiting time, and the clock in seconds
pub record Bmc (W : Type 0) : Type 0 where
  pub run : String → Op W String
  pub close_console : Op W Unit
  pub ping : ℕ → Op W ℕ
  pub now : W → ℕ
  pub sleep : ℕ → W → W

-- BMC_CONST.CHASSIS_POWER_ON and BMC_CONST.CHASSIS_POWER_OFF
pub data PowerStatus : Type 0 where
  chassis_on chassis_off : PowerStatus

abbrev pub same_status : PowerStatus → PowerStatus → Bool
same_status chassis_on chassis_on = true
same_status chassis_off chassis_off = true
same_status a b = false

-- What the text of `chassis power status` is taken for: "on" is looked for anywhere in it.
abbrev pub status_of : String → Option PowerStatus
status_of output =
    if contains "on" output
    then some chassis_on
    else if contains "off" output
    then some chassis_off
    else none

module _ {W : Type 0} (b : Bmc W) where
  abbrev pub pause : ℕ → Op W Unit
  pause seconds = modify (b.sleep seconds)

  -- FW_SUCCESS where the answer has the text, else OpTestError
  abbrev pub answered : String → String → Op W ℕ
  answered what output = if contains what output then pure fw_success else raise op_test_error

  pub ipmi_power_off : Op W ℕ
  ipmi_power_off = do output ← b.run "chassis power off"; answered "Down/Off" output

  pub ipmi_power_on : Op W ℕ
  ipmi_power_on = do output ← b.run "chassis power on"; answered "Up/On" output

  pub ipmi_power_soft : Op W ℕ
  ipmi_power_soft = do
    output ← b.run "chassis power soft"
    pause 10
    answered "Chassis Power Control: Soft" output

  pub ipmi_power_cycle : Op W ℕ
  ipmi_power_cycle = do
    output ← b.run "chassis power cycle"
    pause 10
    answered "Chassis Power Control: Cycle" output

  pub ipmi_power_reset : Op W Unit
  ipmi_power_reset = do
    r ← b.run "chassis power reset"
    b.close_console
    if not (contains "Chassis Power Control: Reset" r) then raise (other "Exception") else pure tt

  pub ipmi_power_diag : Op W Unit
  ipmi_power_diag = do
    r ← b.run "chassis power diag"
    if not (contains "Chassis Power Control: Diag" r) then raise (other "Exception") else pure tt

  -- The `retries` that are left, of twenty; without one the loop is over and None is returned.
  pub clear_rounds : ℕ → Op W (Option ℕ)
  clear_rounds zero = pure none
  clear_rounds (suc retries) = do
    output ← b.run "sel elist"
    if contains "no entries" output
        then pure (some fw_success)
        else if retries == 0
        then raise op_test_error
        else (do pause 1; clear_rounds retries)

  pub ipmi_sdr_clear : Op W (Option ℕ)
  unfolding clear_rounds
  ipmi_sdr_clear = do
    output ← b.run "sel clear"
    if contains "Clearing SEL" output then clear_rounds 20 else raise op_test_error

  pub ipmi_sel_check : String → Op W ℕ
  ipmi_sel_check i_string = do
    output ← b.run "sel elist"
    if contains i_string output then raise op_test_error else pure fw_success

  -- `while True` over a command until its answer has the text, on fuel; `stuck` is what follows.
  pub poll : Op W ℕ → ℕ → String → String → ℕ → ℕ → Op W ℕ
  poll stuck zero command what wait limit = stuck
  poll stuck (suc rounds) command what wait limit = do
    output ← b.run command
    if contains what output then pure fw_success else (do
      t ← gets b.now
      if ltb limit t
          then raise op_test_error
          else (do pause wait; poll stuck rounds command what wait limit))

  pub ipmi_wait_for_standby_state : Op W ℕ → ℕ → ℕ → Op W ℕ
  unfolding poll
  ipmi_wait_for_standby_state stuck rounds i_timeout = do
    t ← gets b.now
    poll stuck rounds " power status " "Chassis Power is off" 5 (t + i_timeout)

  pub ipmi_wait_for_os_boot_complete : Op W ℕ → ℕ → ℕ → Op W ℕ
  unfolding poll
  ipmi_wait_for_os_boot_complete stuck rounds i_timeout = do
    t ← gets b.now
    output ← b.run "sdr elist |grep 'OS Boot'"
    if not (contains "OS Boot" output)
        then pure fw_parameter
        else poll stuck rounds "sdr elist |grep 'OS Boot'" "boot completed" 10 (t + 60 * i_timeout)

  -- `except subprocess.CalledProcessError`
  abbrev pub deactivate_failed : OpException → Op W Unit
  deactivate_failed (other name) =
      if str_eq name "CalledProcessError"
      then (do b.close_console; raise op_test_error)
      else raise (other name)
  deactivate_failed e = raise e

  pub ipl_wait_for_working_state : Op W ℕ → ℕ → ℕ → Op W ℕ
  unfolding poll
  ipl_wait_for_working_state stuck rounds minutes = do
    t ← gets b.now
    output ← b.run "sdr elist |grep 'Host Status'"
    if not (contains "Host Status" output) then pure fw_parameter else (do
      poll stuck rounds "sdr elist |grep 'Host Status'" "S0/G0: working" 5 (t + 60 * minutes)
      catching (do b.run "sol deactivate"; b.close_console) deactivate_failed
      pure fw_success)

  -- The polls with the suffix _v1 read the answer that they have before they ask again.
  pub poll_after : Op W ℕ → ℕ → String → String → String → ℕ → ℕ → Op W ℕ
  poll_after stuck zero output command what wait limit = stuck
  poll_after stuck (suc rounds) output command what wait limit =
      if contains what output then pure fw_success else (do
        t ← gets b.now
        if ltb limit t then raise op_test_error else (do
          pause wait
          output ← b.run command
          poll_after stuck rounds output command what wait limit))

  pub ipmi_ipl_wait_for_working_state_v1 : Op W ℕ → ℕ → ℕ → Op W ℕ
  unfolding poll_after
  ipmi_ipl_wait_for_working_state_v1 stuck rounds minutes = do
    t ← gets b.now
    output ← b.run "sdr elist |grep 'Host Status'"
    if not (contains "Host Status" output)
        then pure fw_parameter
        else poll_after stuck rounds output "sdr elist |grep 'Host Status'" "S0/G0: working" 5
            (t + 60 * minutes)

  pub ipmi_wait_for_os_boot_complete_v1 : Op W ℕ → ℕ → ℕ → Op W ℕ
  unfolding poll_after
  ipmi_wait_for_os_boot_complete_v1 stuck rounds i_timeout = do
    t ← gets b.now
    output ← b.run "sdr elist |grep 'OS Boot'"
    if not (contains "OS Boot" output)
        then pure fw_parameter
        else poll_after stuck rounds output "sdr elist |grep 'OS Boot'" "boot completed" 10
            (t + 60 * i_timeout)

  abbrev known_status : Option PowerStatus → Op W PowerStatus
  known_status (some st) = pure st
  known_status none = raise op_test_error

  pub ipmi_power_status : Op W PowerStatus
  ipmi_power_status = do output ← b.run "chassis power status"; known_status (status_of output)

  -- `except: continue` asks again at once, without a look at the clock: none.
  abbrev pub asked : Op W (Option String)
  asked = catching (do output ← b.run " raw 0x3a 0x0a "; pure (some output)) (λ e. pure none)

  abbrev pub runtime_next : Op W ℕ → ℕ → Option String → Op W ℕ
  runtime_next rest limit none = rest
  runtime_next rest limit (some output) =
      if contains "0xc0" output
      then (do t ← gets b.now; if ltb limit t then raise op_test_error else (do pause 10; rest))
      else pure fw_success

  pub runtime_rounds : Op W ℕ → ℕ → ℕ → Op W ℕ
  runtime_rounds stuck zero limit = stuck
  runtime_rounds stuck (suc rounds) limit =
      asked >>= runtime_next (runtime_rounds stuck rounds limit) limit

  pub ipmi_wait_for_bmc_runtime : Op W ℕ → ℕ → ℕ → Op W ℕ
  unfolding runtime_rounds
  ipmi_wait_for_bmc_runtime stuck rounds i_timeout = do
    t ← gets b.now
    runtime_rounds stuck rounds (t + 60 * i_timeout)

  -- The status after a reset is that before it.
  unchanged : PowerStatus → Op W ℕ
  unfolding ipmi_power_status
  unchanged before = do
    after ← ipmi_power_status
    if not (same_status before after) then raise op_test_error else pure fw_success

  pub ipmi_cold_reset : Op W ℕ → ℕ → Op W ℕ
  unfolding unchanged ipmi_power_status ipmi_wait_for_bmc_runtime
  ipmi_cold_reset stuck rounds = do
    before ← ipmi_power_status
    rc ← b.run " mc reset cold"
    if contains "Sent cold reset command to MC" rc
        then (do
          b.close_console
          pause 10
          b.ping 5
          ipmi_wait_for_bmc_runtime stuck rounds 10
          unchanged before)
        else raise op_test_error

  pub ipmi_warm_reset : Op W ℕ
  unfolding unchanged ipmi_power_status
  ipmi_warm_reset = do
    before ← ipmi_power_status
    rc ← b.run " mc reset warm"
    if contains "Sent warm reset command to MC" rc
        then (do b.close_console; pause 20; b.ping 5; unchanged before)
        else raise op_test_error
