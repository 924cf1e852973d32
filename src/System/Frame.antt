-- ===== src/System/Frame.antt =====
-- What the waiting, the Petitboot methods and the detection leave alone: every predicate that does not
-- read what is shared, `stop`, `ignore` and `previous_state`.
use op_test.Prelude.{Bool, true, false, some}
use op_test.Exec.{◌>>=◌}
use op_test.Exec.Keeps.{Keeps, Keeps-modify, keeps_rules}
use op_test.Exceptions.{OpSystemState}
use op_test.System.State.{
  Shared, OpTestSystem, set_block, set_state, set_previous, set_stop, reset_ignore,
}
use op_test.System.Interface.{Op, on_shared}
use op_test.System.Power.{clear_state, clear_system_state}

pub record Stable {W : Type 0} (P : OpTestSystem W → Type 0) : Type 0 where
  pub shared : (s : OpTestSystem W) (sh : Shared W) → P s → P (record s { shared = sh })
  pub stop : (s : OpTestSystem W) → P s → P (record s { stop = true })
  pub ignore : (s : OpTestSystem W) → P s → P (record s { ignore = false })
  pub previous :
      (s : OpTestSystem W) (st : OpSystemState) → P s → P (record s { previous_state = some st })
  pub cronus :
      (s : OpTestSystem W) (e c : Bool) → P s → P (record s { env_ready = e; cronus_ready = c })

module _ {W : Type 0} {P : OpTestSystem W → Type 0} (k : Stable P) where
  pub on_shared-Keeps : {A : Type 0} (op : Op W A) → Keeps P (on_shared op)
  unfolding on_shared
  on_shared-Keeps op = record { at = λ s h. k.shared s (op s.shared).1 h }

  pub set_block-Keeps : (b : Bool) → Keeps P (set_block b)
  unfolding set_block ◌>>=◌
  set_block-Keeps b = record { at = λ s h. k.shared s _ h }

  pub set_state-Keeps : (st : OpSystemState) → Keeps P (set_state st)
  unfolding set_state ◌>>=◌
  set_state-Keeps st = record { at = λ s h. k.shared s _ h }

  pub clear_state-Keeps : Keeps P clear_state
  unfolding clear_state ◌>>=◌
  clear_state-Keeps = record { at = λ s h. k.shared s _ h }

  pub clear_system_state-Keeps : Keeps P clear_system_state
  unfolding clear_system_state ◌>>=◌
  clear_system_state-Keeps = record { at = λ s h. k.cronus s _ _ h }

  pub set_previous-Keeps : (st : OpSystemState) → Keeps P (set_previous st)
  unfolding set_previous ◌>>=◌
  set_previous-Keeps st = record { at = λ s h. k.previous s st h }

  pub set_stop-Keeps : Keeps P set_stop
  unfolding set_stop ◌>>=◌
  set_stop-Keeps = record { at = λ s h. k.stop s h }

  pub reset_ignore-Keeps : Keeps P reset_ignore
  unfolding reset_ignore ◌>>=◌
  reset_ignore-Keeps = record { at = λ s h. k.ignore s h }

pub ruleset primitive_rules = (
  keeps_rules, on_shared-Keeps, set_block-Keeps, set_state-Keeps, clear_state-Keeps,
  clear_system_state-Keeps, set_previous-Keeps, set_stop-Keeps, reset_ignore-Keeps,
)
