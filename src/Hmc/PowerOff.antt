-- ===== src/Hmc/PowerOff.antt =====
-- `poweroff_lpar` and `poweroff_system` over an HMC that answers.
use op_test.Prelude.{
  ℕ, suc, ◌≡◌, refl, Bool, true, false, Option, String, List, ◌||◌, ◌&&◌, not, str_eq,
  if◌then◌else◌,
}
use op_test.Exec.{ok, pure, raise, ◌>>=◌, ◌>>◌}
use op_test.Exceptions.{op_test_error}
use op_test.Hmc.{
  Op, Hmc, HmcUtil, used_hmc, lpar_not_active, system_operating, system_off, wait_state,
  get_lpar_state, get_system_state, wait_lpar_state, wait_system_state, is_down, change_lpar,
  change_system, poweroff_lpar, poweroff_system,
}
use op_test.Hmc.Wait.{Timeline, seen, reached, after_reading, wait_state_ends}

-- The command is taken, and it is no reading of the state.
pub record Takes {W : Type 0} (command : Op W (List String)) (number : W → ℕ) : Type 0 where
  pub taken :
      (w : W)
      → (output : List String) × (v : W) × (command w ≡ (ok output, v)) × (number v ≡ number w)

module _ {W : Type 0} {read : Op W String} {sleep : W → W} {shows : ℕ → String} {number : W → ℕ}
    (line : Timeline read sleep shows number) {command : Op W (List String)}
    (takes : Takes command number) where
  -- A command and the waiting for its effect
  command_then_wait :
      (exp_state : String) (more t : ℕ) (w : W)
      → number w ≡ t
      → ((command >> wait_state read sleep exp_state more) w).0
        ≡ reached (seen exp_state shows t (suc more))
  unfolding ◌>>=◌
  command_then_wait exp_state more t w n =
      let (output, v, e, k) = takes.taken w in simp (e, wait_state_ends line exp_state more v, k, n)

module _ {W : Type 0} (rest : Op W Unit) (wanted : Bool) (w : W)
    (h : (rest w).0 ≡ reached wanted) where
  -- Nothing is left to do, or the rest is done.
  unless : (done : Bool) → ((if done then pure tt else rest) w).0 ≡ reached (done || wanted)
  unfolding ◌>>=◌
  unless true = refl
  unless false = h

  -- The rest is only done in the right state.
  only_if :
      (right : Bool)
      → ((if not right then raise op_test_error else rest) w).0 ≡ reached (right && wanted)
  unfolding ◌>>=◌
  only_if true = h
  only_if false = refl

module _ {W : Type 0} (u : HmcUtil W) (shows : ℕ → String) (number : W → ℕ) where
  -- Where the HMC answers the readings of a partition's state and takes the shutdown,
  -- `poweroff_lpar` returns exactly where the first reading shows that the partition is down or
  -- one of the 121 after it shows that it is not active; otherwise it raises OpTestError.
  pub poweroff_lpar_outcome :
      (remote : Option (Hmc W))
      → Timeline (get_lpar_state u false remote) (u.sleep 25) shows number
      → Takes (change_lpar u (used_hmc u remote) u.lpar_name "shutdown --immed" 60) number
      → (w : W)
      → (poweroff_lpar u remote w).0
        ≡ reached (is_down u (shows (number w)) || seen lpar_not_active shows (suc (number w)) 121)
  unfolding poweroff_lpar wait_lpar_state
  poweroff_lpar_outcome remote line takes w = after_reading line _ _ w (λ v n.
      unless _ _ v (command_then_wait line takes lpar_not_active 120 (suc (number w)) v n)
        (is_down u (shows (number w))))

  -- Where the HMC answers the readings of the managed system's state and takes the command,
  -- `poweroff_system` returns exactly where the first reading shows that the system operates and one
  -- of the 61 after it shows that it is off; otherwise it raises OpTestError.
  pub poweroff_system_outcome :
      Timeline (get_system_state u) (u.sleep 200) shows number
      → Takes (change_system u "off") number
      → (w : W)
      → (poweroff_system u w).0
        ≡ reached (
            str_eq (shows (number w)) system_operating && seen system_off shows (suc (number w)) 61)
  unfolding poweroff_system wait_system_state
  poweroff_system_outcome line takes w = after_reading line _ _ w (λ v n.
      only_if _ _ v (command_then_wait line takes system_off 60 (suc (number w)) v n)
        (str_eq (shows (number w)) system_operating))
