-- ===== src/Terminal/Spawned/Bound.antt =====
-- How often a console reconnects.
use op_test.Prelude.{ℕ, zero, suc, ◌+◌, ◌≡◌, refl, Bool, true, false, ltb, arith, if◌then◌else◌}
use op_test.Exec.{pure, modify, ◌>>=◌}
use op_test.Exec.Triple.{Triple-any, bind-agree}
use op_test.Terminal.State.{Terminal}
use op_test.Terminal.Spawned.{Link, LinkAct, Spawner, current, reconnect_rounds}

module _ {W Pty : Type 0} (p : Spawner W Pty) (connect : LinkAct W Pty Pty) (wait : ℕ) where
  -- Two actions that agree wherever they begin
  bind_agree :
      {A B : Type 0} (m : LinkAct W Pty A) (f g : A → LinkAct W Pty B)
      → ((a : A) (s : Terminal (Link W Pty)) → f a s ≡ g a s)
      → (s : Terminal (Link W Pty)) → (m >>= f) s ≡ (m >>= g) s
  bind_agree m f g h s = bind-agree f g (Triple-any {P = λ _. Unit} m) (λ a s _. h a s) s tt

  chosen :
      {A : Type 0} (b : Bool) (m n m' n' : LinkAct W Pty A) (s : Terminal (Link W Pty))
      → (b ≡ true → m s ≡ m' s)
      → (b ≡ false → n s ≡ n' s)
      → (if b then m else n) s ≡ (if b then m' else n') s
  chosen true m n m' n' s h k = h refl
  chosen false m n m' n' s h k = k refl

  last_over : (count : ℕ) → count + 1 ≡ 121 → ltb 120 (count + 1) ≡ false → ⊥
  last_over count h e = ground arith

  module _ (stuck other : LinkAct W Pty Unit) where
    round_agree :
        (rounds count : ℕ)
        → (ltb 120 (count + 1) ≡ false
            → (s : Terminal (Link W Pty))
            → reconnect_rounds p connect wait stuck rounds (count + 1) s
              ≡ reconnect_rounds p connect wait other rounds (count + 1) s)
        → (s : Terminal (Link W Pty))
        → reconnect_rounds p connect wait stuck (suc rounds) count s
          ≡ reconnect_rounds p connect wait other (suc rounds) count s
    unfolding reconnect_rounds
    round_agree rounds count next s =
        bind_agree {A = Pty} current _ _
          (λ pty s1.
            bind_agree {A = Bool} (p.isalive pty) _ _
              (λ alive s2.
                chosen alive _ _ _ _ s2 (λ _. refl)
                  (λ _.
                    bind_agree {A = Unit} (if ltb 0 count then modify (p.sleep wait) else pure tt) _
                      _
                      (λ _ s3.
                        bind_agree {A = Pty} connect _ _
                          (λ _ s4.
                            chosen (ltb 120 (count + 1)) _ _ _ _ s4 (λ _. refl) (λ e. next e s4))
                          s3)
                      s2))
              s1)
          s

    reconnect_agree :
        (rounds count : ℕ)
        → count + suc rounds ≡ 121
        → (s : Terminal (Link W Pty))
        → reconnect_rounds p connect wait stuck (suc rounds) count s
          ≡ reconnect_rounds p connect wait other (suc rounds) count s
    reconnect_agree zero count h s =
        round_agree zero count (λ e s. let no : ⊥ = last_over count h e in elim no [ ]) s
    reconnect_agree (suc rounds) count h s =
        round_agree (suc rounds) count (λ e. reconnect_agree rounds (count + 1) (omega arith)) s

    -- A console connects at most 121 times until its pty is alive: with so many rounds the outcome does
    -- not depend on what follows the loop when they run out, since the last raises TypeError.
    pub reconnect_ends :
        (s : Terminal (Link W Pty))
        → reconnect_rounds p connect wait stuck 121 0 s
          ≡ reconnect_rounds p connect wait other 121 0 s
    reconnect_ends s = reconnect_agree 120 0 (omega arith) s
