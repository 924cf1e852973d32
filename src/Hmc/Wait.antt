-- ===== src/Hmc/Wait.antt =====
-- How the waiting for a state ends, where the HMC answers: its readings are numbered, and what they
-- show is a function of the number.
use op_test.Prelude.{
  ℕ, zero, suc, ◌≡◌, refl, ◌∙◌, Bool, true, false, String, ◌||◌, str_eq, if◌then◌else◌,
}
use op_test.Exec.{Result, ok, err, pure, raise, modify, ◌>>=◌, ◌>>◌}
use op_test.Exceptions.{OpException, op_test_error}
use op_test.Hmc.{Op, wait_rounds, wait_state}

-- The action ends with the reading of that number and goes on to the next; a sleep reads nothing.
pub record Timeline {W : Type 0} (read : Op W String) (pause : W → W) (shows : ℕ → String)
    (number : W → ℕ) : Type 0 where
  pub reads :
      (w : W) → (v : W) × (read w ≡ (ok (shows (number w)), v)) × (number v ≡ suc (number w))
  pub pauses : (w : W) → number (pause w) ≡ number w

-- One of so many readings, from the number on, is the one expected.
abbrev pub seen : String → (ℕ → String) → ℕ → ℕ → Bool
seen exp_state shows t zero = false
seen exp_state shows t (suc n) =
    let rest = seen exp_state shows (suc t) n in str_eq (shows t) exp_state || rest

-- How the waiting ends
abbrev pub reached : Bool → Result OpException Unit
reached true = ok tt
reached false = err op_test_error

module _ {W : Type 0} {read : Op W String} {sleep : W → W} {shows : ℕ → String} {number : W → ℕ}
    (line : Timeline read sleep shows number) where
  -- What follows a reading starts from what it shows, one number on.
  pub after_reading :
      {A : Type 0} (f : String → Op W A) (r : Result OpException A) (w : W)
      → ((v : W) → number v ≡ suc (number w) → (f (shows (number w)) v).0 ≡ r)
      → ((read >>= f) w).0 ≡ r
  unfolding ◌>>=◌
  after_reading f r w h = let (v, e, n) = line.reads w in simp e (h v n)

  module _ (exp_state : String) where
    last_round :
        (there : Bool) (w : W)
        → ((if there then pure tt else (read >>= (λ next. modify sleep >> raise op_test_error)))
            w).0
          ≡ reached (there || false)
    unfolding ◌>>=◌
    last_round true w = refl
    last_round false w = after_reading _ _ w (λ v n. refl)

    inner_round :
        (there : Bool) (more : ℕ) (w : W)
        → ((v : W)
            → number v ≡ suc (number w)
            → (wait_rounds read sleep exp_state more (shows (number w)) v).0
              ≡ reached (seen exp_state shows (number w) (suc more)))
        → ((if there
              then pure tt
              else (read >>= (λ next. modify sleep >> wait_rounds read sleep exp_state more next)))
            w).0
          ≡ reached (there || seen exp_state shows (number w) (suc more))
    unfolding ◌>>=◌
    inner_round true more w h = refl
    inner_round false more w h = after_reading _ _ w (λ v n. h (sleep v) (line.pauses v ∙ n))

    -- The same from a number that is given
    from_number :
        (more t : ℕ) (w : W) (state : String)
        → number w ≡ t
        → (wait_rounds read sleep exp_state more state w).0
          ≡ reached (str_eq state exp_state || seen exp_state shows (number w) more)
        → (wait_rounds read sleep exp_state more state w).0
          ≡ reached (str_eq state exp_state || seen exp_state shows t more)
    from_number more t w state e h = simp (h, e)

    rounds_end :
        (more : ℕ) (state : String) (w : W)
        → (wait_rounds read sleep exp_state more state w).0
          ≡ reached (str_eq state exp_state || seen exp_state shows (number w) more)
    unfolding wait_rounds
    rounds_end zero state w = last_round (str_eq state exp_state) w
    rounds_end (suc more) state w = inner_round (str_eq state exp_state) more w (λ v n.
        from_number more (suc (number w)) v (shows (number w)) n
          (rounds_end more (shows (number w)) v))

    -- The waiting returns exactly where one of its readings but the last shows the state.
    pub wait_state_ends :
        (more : ℕ) (w : W)
        → (wait_state read sleep exp_state more w).0
          ≡ reached (seen exp_state shows (number w) (suc more))
    unfolding wait_state
    wait_state_ends more w = after_reading _ _ w (λ v n.
        from_number more (suc (number w)) v (shows (number w)) n
          (rounds_end more (shows (number w)) v))
