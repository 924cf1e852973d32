-- ===== src/System/Power/Frame.antt =====
-- The BMC's commands keep every stable predicate.
use op_test.Prelude.{ℕ}
use op_test.Exec.Keeps.{Keeps}
use op_test.System.State.{OpTestSystem, Act}
use op_test.System.Interface.{Platform}
use op_test.System.Frame.{Stable, primitive_rules}
use op_test.System.Power.{
  except_op_test_error, sys_sdr_clear, sys_power_on, sys_power_off, sys_set_bootdev_setup,
  sys_set_bootdev_no_override, sys_wait_for_standby_state, sys_sel_check,
}

pub except-Keeps :
    {W : Type 0} {P : OpTestSystem W → Type 0} (m h : Act W ℕ)
    → Keeps P m
    → Keeps P h
    → Keeps P (except_op_test_error m h)
unfolding except_op_test_error
except-Keeps m h km kh = search primitive_rules

module _ {W : Type 0} (p : Platform W) {P : OpTestSystem W → Type 0} (k : Stable P) where
  pub sys_sdr_clear-Keeps : Keeps P (sys_sdr_clear p)
  unfolding sys_sdr_clear
  sys_sdr_clear-Keeps = search (primitive_rules, k, except-Keeps)

  pub sys_power_on-Keeps : Keeps P (sys_power_on p)
  unfolding sys_power_on
  sys_power_on-Keeps = search (primitive_rules, k, except-Keeps)

  pub sys_power_off-Keeps : Keeps P (sys_power_off p)
  unfolding sys_power_off
  sys_power_off-Keeps = search (primitive_rules, k)

  pub sys_set_bootdev_setup-Keeps : Keeps P (sys_set_bootdev_setup p)
  unfolding sys_set_bootdev_setup
  sys_set_bootdev_setup-Keeps = search (primitive_rules, k)

  pub sys_set_bootdev_no_override-Keeps : Keeps P (sys_set_bootdev_no_override p)
  unfolding sys_set_bootdev_no_override
  sys_set_bootdev_no_override-Keeps = search (primitive_rules, k)

  pub sys_wait_for_standby_state-Keeps : (n : ℕ) → Keeps P (sys_wait_for_standby_state p n)
  unfolding sys_wait_for_standby_state
  sys_wait_for_standby_state-Keeps n = search (primitive_rules, k, except-Keeps)

  pub sys_sel_check-Keeps : Keeps P (sys_sel_check p)
  unfolding sys_sel_check
  sys_sel_check-Keeps = search (primitive_rules, k, except-Keeps)

pub ruleset power_rules = (
  except-Keeps, sys_sdr_clear-Keeps, sys_power_on-Keeps, sys_power_off-Keeps,
  sys_set_bootdev_setup-Keeps, sys_set_bootdev_no_override-Keeps, sys_wait_for_standby_state-Keeps,
  sys_sel_check-Keeps,
)
