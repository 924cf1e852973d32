-- ===== src/Ipmi/Tests.antt =====
-- A BMC with a clock, and the theorems on its polls applied to it.
use op_test.Prelude.{ℕ, ◌+◌, ◌≡◌, refl, some, arith}
use op_test.Exec.{ok, err}
use op_test.Exceptions.{op_test_error, pexpect_timeout}
use op_test.Ipmi.{
  Bmc, chassis_on, chassis_off, status_of, ipmi_wait_for_standby_state, ipmi_wait_for_bmc_runtime,
}
use op_test.Ipmi.Polls.{HasClock, ipmi_wait_for_standby_state_ends}
use op_test.Ipmi.Runtime.{ipmi_wait_for_bmc_runtime_silent}

statuses :
    (status_of "Chassis Power is on" ≡ some chassis_on)
    × (status_of "Chassis Power is off" ≡ some chassis_off)
statuses = (refl, refl)

-- An error of ipmitool is taken for a chassis that is on: "session" has an "on" in it.
session_is_on : status_of "Unable to establish IPMI v2 / RMCP+ session" ≡ some chassis_on
session_is_on = refl

-- The world is the time.
abbrev always_on : Bmc ℕ
always_on = record {
  run = λ command w. (ok "Chassis Power is on", w);
  close_console = λ w. (ok tt, w);
  ping = λ seconds w. (ok 2, w);
  now = λ w. w;
  sleep = λ seconds w. w + seconds;
}

always_on-HasClock : HasClock always_on
always_on-HasClock = record {
  run_later = λ command t. record { at = λ w h. h };
  sleep_later = λ seconds w. omega arith;
}

abbrev gone : Bmc ℕ
gone = record always_on { run = λ command w. (err op_test_error, w) }

ipmi_wait_for_standby_state_ends_example :
    ipmi_wait_for_standby_state always_on (λ w. (ok 7, w)) 14 12 100
    ≡ ipmi_wait_for_standby_state always_on (λ w. (err pexpect_timeout, w)) 14 12 100
ipmi_wait_for_standby_state_ends_example =
    ipmi_wait_for_standby_state_ends always_on always_on-HasClock (λ w. (ok 7, w))
      (λ w. (err pexpect_timeout, w)) 13 12 100 (omega arith)

ipmi_wait_for_bmc_runtime_silent_example :
    (v : ℕ) × (ipmi_wait_for_bmc_runtime gone (λ w. (ok 7, w)) 9 10 100 ≡ (ok 7, v))
ipmi_wait_for_bmc_runtime_silent_example =
    ipmi_wait_for_bmc_runtime_silent gone (λ w. (op_test_error, w, refl)) (λ w. (ok 7, w)) 9 10 100
