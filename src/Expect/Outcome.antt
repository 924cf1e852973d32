-- ===== src/Expect/Outcome.antt =====
-- What `expect` returns and raises, with the callback that the consoles give it.
use op_test.Prelude.{
  ℕ, ◌-◌, ◌<◌, ◌≡◌, refl, ◌⊎◌, inl, inr, true, false, ◌&&◌, Option, none, some, String, List, ◌++◌,
  length, leb, leb→lt, arith, ◌==◌, if◌then◌else◌, subst, sym, ap,
}
use op_test.Exec.{pure, ◌>>=◌, ◌>>◌}
use op_test.Exec.Triple.{
  Ends, Triple, Triple-pure, Triple-raise, Triple-if, Triple-bind, Triple-from, Triple-pre,
  Triple-weaken,
}
use op_test.Exceptions.{OpSystemState, unknown_bad, OpException}
use op_test.System.Interface.{Pattern}
use op_test.Expect.{
  Pexpect, Session, Act, Wanted, listed, op_patterns, set_system_to_unknown_bad, call_back,
  kernel_failed, skiboot_failed, checkstopped, expect,
}
use op_test.Expect.Reports.{
  IsPexpect, Reported, Harmless, Now, read_index, kernel_failed-Reported, skiboot_failed-Reported,
  checkstopped-Reported,
}

module _ {W : Type 0} (px : Pexpect W) (good : IsPexpect px) (st : OpSystemState) (stuck : Act W ℕ)
    (rounds : ℕ) where
  -- What follows the callback.
  abbrev reported : ℕ → Option OpSystemState → Act W ℕ
  reported r o = do
    kernel_failed px stuck rounds r o
    skiboot_failed px r o
    checkstopped px r o
    pure (r - length op_patterns)

  all_false :
      (r : ℕ)
      → (r == 0) ≡ false
      → (leb r 13) ≡ true
      → (leb 1 r && leb r 8) ≡ false
      → (leb 9 r && leb r 12) ≡ false
      → (r == 13) ≡ false
      → ⊥
  all_false r a b c d e = ground arith

  failure-Reported :
      Harmless st stuck
      → (r : ℕ) → (r == 0) ≡ false
      → (leb r 13) ≡ true
      → Triple (Now unknown_bad) (λ _ _. ⊥) (Reported st) (reported r (some st))
  failure-Reported h r a b =
      Triple-weaken (λ _ s q. q) (λ e s q. q.0)
        (Triple-bind _ _ (kernel_failed-Reported px good st stuck h rounds r) (λ _.
          Triple-from _ (λ s p.
            Triple-pre (λ s' q. subst (Now unknown_bad) (sym q) p.1)
              (Triple-bind _ _ (skiboot_failed-Reported px good st r) (λ _. Triple-from _ (λ s p'.
                Triple-pre (λ s' q. subst (Now unknown_bad) (sym q) p'.1)
                  (Triple-bind _ _ (checkstopped-Reported px good st r)
                    (λ _. Triple-pure _ (λ s q. all_false r a b p.0 p'.0 q.0)))))))))

  kernel_skip : (r : ℕ) → (leb r 13) ≡ false → (leb 1 r && leb r 8) ≡ false
  kernel_skip r h = ground arith

  skiboot_skip : (r : ℕ) → (leb r 13) ≡ false → (leb 9 r && leb r 12) ≡ false
  skiboot_skip r h = ground arith

  checkstop_skip : (r : ℕ) → (leb r 13) ≡ false → (r == 13) ≡ false
  checkstop_skip r h = ground arith

  caller-Reported :
      (ps : List Pattern) (r : ℕ)
      → (leb r 13) ≡ false
      → r < length (op_patterns ++ ps)
      → Triple (Now st) (λ i s. (i < length ps) × Now st s) (Reported st) (reported r none)
  unfolding kernel_failed skiboot_failed checkstopped ◌>>=◌
  caller-Reported ps r a h =
      rw (kernel_skip r a, skiboot_skip r a, checkstop_skip r a)
        (Triple-pure {X = OpException} _ (λ s q. (omega (arith, leb→lt _ _ a), q)))

  -- The callback has run where the index is one of the failures.
  abbrev Notified : ℕ → Option OpSystemState → Session W → Type 0
  Notified r o s =
      ((leb r 13 ≡ true) × (o ≡ some st) × Now unknown_bad s)
      ⊎ ((leb r 13 ≡ false) × (o ≡ none) × Now st s)

  call_back-Reported :
      (r : ℕ)
      → leb r 13 ≡ true
      → Triple (Now st) (Notified r) (Reported st) (call_back (some set_system_to_unknown_bad))
  unfolding call_back set_system_to_unknown_bad ◌>>=◌
  call_back-Reported r h = record { at = λ s p. inl (h, ap some p, refl) }

  notify-Reported :
      (r : ℕ)
      → Triple
          (Now st)
          (Notified r)
          (Reported st)
          (if leb r 13 then call_back (some set_system_to_unknown_bad) else pure none)
  notify-Reported r =
      Triple-if (leb r 13) _ _ (call_back-Reported r)
        (λ h. Triple-pure none (λ s p. inr (h, refl, p)))

  Notified-Reported :
      Harmless st stuck
      → (ps : List Pattern) (r : ℕ) → (r == 0) ≡ false
      → r < length (op_patterns ++ ps)
      → (o : Option OpSystemState)
      → Triple (Notified r o) (λ i s. (i < length ps) × Now st s) (Reported st) (reported r o)
  Notified-Reported h ps r z l o = Triple-from _ (λ s d. elim d [
    | inl y ↦ rw (y.1) (
        Triple-pre (λ s' e. subst (Now unknown_bad) (sym e) y.2)
          (Triple-weaken (λ _ s' no. elim no [ ]) (λ _ s' q. q) (failure-Reported h r z y.0)))
    | inr n ↦
        rw (n.1) (Triple-pre (λ s' e. subst (Now st) (sym e) n.2) (caller-Reported ps r n.0 l))
  ])

  expect-Reported :
      Harmless st stuck
      → (command : String) (pattern : Wanted) (limit : Option ℕ)
      → Triple
          (Now st)
          (λ i s. (i < length (listed pattern)) × Now st s)
          (Reported st)
          (expect px command (some set_system_to_unknown_bad) stuck rounds pattern limit)
  unfolding expect
  expect-Reported h command pattern limit =
      Triple-bind {R = λ r s. (r < length (op_patterns ++ listed pattern)) × Now st s} _ _
        (Triple-weaken (λ r s q. q) (λ e s q. q.0) (read_index px good st st _ limit))
        (λ r.
          Triple-if (r == 0) _ _ (λ z. Triple-raise _ (λ s q. (refl, inl refl)))
            (λ z. Triple-from _ (λ s q.
              Triple-pre (λ s' e. subst (Now st) (sym e) q.1)
                (Triple-bind _ _ (notify-Reported r) (Notified-Reported h _ r z q.0)))))

module _ {W : Type 0} (px : Pexpect W) (good : IsPexpect px) where
  -- With the callback of the consoles, and a pexpect that returns an index into the list that it is
  -- given, `expect` returns an index into the caller's list, with the state of the system as it was.
  -- It never raises KernelCrashUnknown, and an exception that says that the machine has failed
  -- carries the state that the system was in and leaves the system in UNKNOWN_BAD.
  pub expect_outcome :
      (stuck : Act W ℕ) (rounds : ℕ) (command : String) (pattern : Wanted) (limit : Option ℕ)
      (s : Session W)
      → Harmless s.system_state stuck
      → Ends
          (λ i s'. (i < length (listed pattern)) × (s'.system_state ≡ s.system_state))
          (Reported s.system_state)
          (expect px command (some set_system_to_unknown_bad) stuck rounds pattern limit s).0
          (expect px command (some set_system_to_unknown_bad) stuck rounds pattern limit s).1
  expect_outcome stuck rounds command pattern limit s h =
      (expect-Reported px good s.system_state stuck rounds h command pattern limit).at s refl
