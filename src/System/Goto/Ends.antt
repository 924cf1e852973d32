-- ===== src/System/Goto/Ends.antt =====
-- The loop of `goto_state`: its measure, and its end.
use op_test.Prelude.{
  ℕ, zero, suc, ◌<◌, ◌≡◌, refl, ◌≢◌, ◌∙◌, inl, inr, Bool, true, false, not, ◌&&◌, ◌||◌, arith,
  Bool-cases, if◌then◌else◌,
}
use op_test.Exec.{pure, raise, ◌>>=◌, ◌>>◌}
use op_test.Exec.Post.{Post, Post-then, Returns}
use op_test.Exceptions.{OpSystemState, unknown, OpException, stopping_system}
use op_test.System.State.{OpTestSystem, Act, set_block, set_state, set_previous, set_stop}
use op_test.System.Interface.{Platform}
use op_test.System.Power.{clear_state, clear_system_state}
use op_test.System.Measure.{Progress, measure, rank-le}
use op_test.System.Detect.{same_state}
use op_test.System.Boot.{state_handler}
use op_test.System.Boot.Progress.{state_handler-Progress}
use op_test.System.Goto.{note_transition, goto_round, goto_next, goto_loop, goto_rounds, lost_state}

same_state-eq : (a b : OpSystemState) → same_state a b ≡ true → a ≡ b
same_state-eq a b h = ground arith

differs : (a b : OpSystemState) → same_state a b ≡ false → a ≢ b
differs a b h e = ground arith

lost_differs :
    (nu : Bool) (x : OpSystemState) → nu ≡ true → (nu && same_state x unknown) ≡ false → x ≢ unknown
lost_differs nu x h k e = ground arith

module _ {W : Type 0} (p : Platform W) where
  -- What holds after the handler of a round, and stays so.
  abbrev Arrived : (target st : OpSystemState) → ℕ → OpSystemState → OpTestSystem W → Type 0
  Arrived target st bound n s = (s.state ≡ n) × Progress target st bound n s

  arrive-Post :
      (target st : OpSystemState) (bound : ℕ) (n : OpSystemState)
      → Post {E = OpException}
          (Progress target st bound n)
          (Arrived target st bound)
          (do set_state n; note_transition p n; pure n)
  unfolding note_transition set_state set_previous clear_state clear_system_state ◌>>=◌
  arrive-Post target st bound n = record { at = λ s h. ground (arith, h) }

  -- From the handler on, at the object that the handler is called on.
  body-Post :
      (target st : OpSystemState) (s : OpTestSystem W)
      → Post
          (λ x. x ≡ s)
          (Arrived target st (measure target st s))
          (state_handler p st target >>= λ n. do set_state n; note_transition p n; pure n)
  body-Post target st s =
      Post-then _ _ (record { at = λ x e. rw e (state_handler-Progress p target st s) })
        (arrive-Post target st (measure target st s))

  -- With the test of `stop` decided.
  checked_round :
      (stopped : Bool) (target : OpSystemState) (s : OpTestSystem W)
      → let m : Act W OpSystemState = (do
        if stopped then raise stopping_system else pure tt
        set_block true
        state_handler p s.state target >>= λ n. do set_state n; note_transition p n; pure n) in
        Returns (Arrived target s.state (measure target s.state s)) (m s).0 (m s).1
  unfolding set_block ◌>>=◌
  checked_round true target s = tt
  checked_round false target s = (body-Post target s.state _).at _ refl

  goto_round_lem :
      (target : OpSystemState) (s : OpTestSystem W)
      → Returns
          (Arrived target s.state (measure target s.state s))
          (goto_round p target s).0
          (goto_round p target s).1
  unfolding goto_round ◌>>=◌
  goto_round_lem target s = checked_round s.stop target s

  round_at :
      (target : OpSystemState) (s : OpTestSystem W)
      → Post (λ x. x ≡ s) (Arrived target s.state (measure target s.state s)) (goto_round p target)
  round_at target s = record { at = λ x e. rw e (goto_round_lem target s) }

  abbrev pub Ended : OpSystemState → Bool → OpTestSystem W → Type 0
  Ended target b s = (b ≡ true) × (s.state ≡ target)

  abbrev Ends : OpSystemState → ℕ → Act W Bool → Type 0
  Ends target bound rest =
      (s : OpTestSystem W)
      → measure target s.state s < bound
      → Returns (Ended target) (rest s).0 (rest s).1

  -- Neither test passed: the state is nearer to the target.
  goes_on :
      (never_unknown : Bool) (target st : OpSystemState) (bound : ℕ) (rest : Act W Bool)
      → (st ≢ unknown → never_unknown ≡ true)
      → Ends target bound rest
      → (x : OpSystemState) → same_state x target ≡ false
      → (never_unknown && same_state x unknown) ≡ false
      → (s : OpTestSystem W) → Arrived target st bound x s
      → Returns (Ended target) (rest s).0 (rest s).1
  goes_on nu target st bound rest known ih x a b s (e, inl q) = absurd (differs x target a q)
  goes_on nu target st bound rest known ih x a b s (e, inr (inl (q, h))) =
      absurd (lost_differs nu x (known h) b q)
  goes_on nu target st bound rest known ih x a b s (e, inr (inr lt)) = ih s (rw e lt)

  next-Post :
      (never_unknown : Bool) (target st : OpSystemState) (bound : ℕ) (rest : Act W Bool)
      → (st ≢ unknown → never_unknown ≡ true)
      → Ends target bound rest
      → (x : OpSystemState)
      → Post (Arrived target st bound x) (Ended target) (goto_next p never_unknown target rest x)
  unfolding goto_next lost_state set_stop ◌>>=◌
  next-Post nu target st bound rest known ih x = record {
    at = λ s h. elim (Bool-cases (same_state x target)) [
      | inl a ↦ simp a (refl, h.0 ∙ same_state-eq x target a)
      | inr a ↦ elim (Bool-cases (nu && same_state x unknown)) [
        | inl b ↦ simp (a, b) tt
        | inr b ↦ simp (a, b) (goes_on nu target st bound rest known ih x a b s h)
      ]
    ];
  }

  known_next :
      (nu : Bool) (st : OpSystemState) → st ≢ unknown → (nu || not (same_state st unknown)) ≡ true
  known_next true st h = refl
  known_next false st h = ground (arith, same_state-eq st unknown)

  -- With more rounds than the measure the loop, if it does not raise, ends at the target.
  pub goto_loop-Ends :
      (rounds : ℕ) (never_unknown : Bool) (target : OpSystemState)
      → Ends target rounds (goto_loop p rounds never_unknown target)
  unfolding goto_loop ◌>>=◌
  goto_loop-Ends zero nu target s h = absurd (omega arith)
  goto_loop-Ends (suc n) nu target s h =
      (Post-then _ _ (round_at target s) (
          next-Post _ target s.state (measure target s.state s) _ (known_next nu s.state)
            (λ s' lt. goto_loop-Ends n _ target s' (omega arith)))).at
        s refl

  -- With the rounds that `goto_state` gives it, the loop does not use them up.
  pub goto_loop-Ended :
      (target : OpSystemState) (s : OpTestSystem W)
      → Returns
          (Ended target)
          (goto_loop p (goto_rounds p s) false target s).0
          (goto_loop p (goto_rounds p s) false target s).1
  goto_loop-Ended target s =
      goto_loop-Ends (goto_rounds p s) false target s (omega (arith, rank-le target s.state))
