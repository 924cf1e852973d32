-- ===== src/Expect/Crash.antt =====
-- The loop of `expect` that reads the last words of a kernel that has crashed.
use op_test.Prelude.{
  ℕ, zero, suc, ◌<◌, ◌≤◌, ◌≡◌, refl, Bool, true, false, some, List, [], ◌∷◌, length, arith,
  if◌then◌else◌, subst, sym,
}
use op_test.Exec.{Exec, Result, ok, err, ◌>>◌}
use op_test.Exec.Triple.{Ends, Triple, bind-agree}
use op_test.Exceptions.{OpException}
use op_test.System.Interface.{Pattern, text, timeout, eof}
use op_test.Expect.{Pexpect, Session, Act, crash_patterns, ends_crash, on_world, crash_log}

-- The pattern at the index is one of a text, and not TIMEOUT or EOF.
abbrev pub is_text_at : List Pattern → ℕ → Bool
is_text_at [] n = false
is_text_at (text t ∷ ps) zero = true
is_text_at (timeout ∷ ps) zero = false
is_text_at (eof ∷ ps) zero = false
is_text_at (p ∷ ps) (suc n) = is_text_at ps n

-- What the machine still has to say is finite, and a match of a text takes some of it. pexpect returns
-- an index into its list; a TIMEOUT takes nothing, and neither do the reads of the buffers.
pub record Finite {W : Type 0} (px : Pexpect W) (left : W → ℕ) : Type 0 where
  pub expect_consumes :
      (bound : ℕ)
      → Triple
          (λ w. left w ≤ bound)
          (λ l w.
            (l < length crash_patterns) × (is_text_at crash_patterns l ≡ true → left w < bound))
          (λ _ _. Unit)
          (px.expect crash_patterns (some 15))
  pub before_kept :
      (bound : ℕ) → Triple (λ w. left w < bound) (λ _ w. left w < bound) (λ _ _. Unit) px.before
  pub after_kept :
      (bound : ℕ) → Triple (λ w. left w < bound) (λ _ w. left w < bound) (λ _ _. Unit) px.after

-- The loop goes on after a text alone.
goes_on-text :
    (l : ℕ) → l < length crash_patterns → ends_crash l ≡ false → is_text_at crash_patterns l ≡ true
goes_on-text zero h e = refl
goes_on-text (suc zero) h e = refl
goes_on-text (suc (suc zero)) h e = refl
goes_on-text (suc (suc (suc zero))) h e = refl
goes_on-text (suc (suc (suc (suc zero)))) h e = refl
goes_on-text (suc (suc (suc (suc (suc zero))))) h e = refl
goes_on-text (suc (suc (suc (suc (suc (suc zero)))))) h e = refl
goes_on-text (suc (suc (suc (suc (suc (suc (suc zero))))))) h e = refl
goes_on-text (suc (suc (suc (suc (suc (suc (suc (suc zero)))))))) h e = cc
goes_on-text (suc (suc (suc (suc (suc (suc (suc (suc (suc l))))))))) h e = absurd (omega (arith, h))

module _ {W : Type 0} where
  lifted :
      {A : Type 0} (Q : A → W → Type 0) (f : W → Session W)
      → ((w : W) → (f w).world ≡ w)
      → (r : Result OpException A) (w : W) → Ends Q (λ _ _. Unit) r w
      → Ends (λ a s. Q a s.world) (λ _ _. Unit {0}) r (f w)
  lifted Q f p (ok a) w q = subst (Q a) (sym (p w)) q
  lifted Q f p (err e) w q = tt

  on_world-Triple :
      {A : Type 0} (P : W → Type 0) (Q : A → W → Type 0) (op : Exec W OpException A)
      → Triple P Q (λ _ _. Unit) op
      → Triple (λ s. P s.world) (λ a s. Q a s.world) (λ _ _. Unit {0}) (on_world op)
  unfolding on_world
  on_world-Triple P Q op t = record {
    at = λ s p.
        lifted Q (λ w. record s { world = w }) (λ w. refl) (op s.world).0 (op s.world).1
          (t.at s.world p);
  }

module _ {W : Type 0} (px : Pexpect W) (left : W → ℕ) (finite : Finite px left) where
  -- The reads and the test after a message.
  read_next :
      (bound : ℕ) (b : Bool) (m f g : Act W ℕ)
      → ((s : Session W) → left s.world < bound → f s ≡ g s)
      → (s : Session W) → (b ≡ false → left s.world < bound)
      → (on_world px.before >> (on_world px.after >> (if b then m else f))) s
        ≡ (on_world px.before >> (on_world px.after >> (if b then m else g))) s
  read_next bound true m f g h s p = refl
  read_next bound false m f g h s p =
      bind-agree _ _ (on_world-Triple _ _ px.before (finite.before_kept bound))
        (λ _ s' q.
          bind-agree _ _ (on_world-Triple _ _ px.after (finite.after_kept bound)) (λ _. h) s' q)
        s (p refl)

  -- Where a match of a text takes some of what the machine still has to say, pexpect returns an index
  -- into its list, and fewer texts are to come than there are rounds: the loop that reads the report
  -- of a crash ends, also where the machine falls silent before its report is over. Its outcome does
  -- not depend on what follows when the rounds run out.
  pub crash_log_ends :
      (stuck other : Act W ℕ) (rounds : ℕ) (s : Session W)
      → left s.world < rounds
      → crash_log px stuck rounds s ≡ crash_log px other rounds s
  unfolding crash_log
  crash_log_ends stuck other zero s h = elim h [ ]
  crash_log_ends stuck other (suc rounds) s h =
      bind-agree _ _ (on_world-Triple (λ w. left w ≤ rounds) _ _ (finite.expect_consumes rounds))
        (λ l x q.
          read_next rounds (ends_crash l) _ _ _ (crash_log_ends stuck other rounds) x
            (λ b. q.1 (goes_on-text l q.0 b)))
        s (omega arith)
