-- ===== src/Expect/Reports.antt =====
-- What the parts of `expect` raise, with the callback that the consoles give it.
use op_test.Prelude.{
  ℕ, zero, suc, ◌<◌, ◌≡◌, refl, ◌⊎◌, inl, inr, Bool, true, false, ◌&&◌, Option, none, some, String,
  List, length, leb, arith, ◌==◌, Bool-cases,
}
use op_test.Exec.{Result, ok, err, Exec, raise}
use op_test.Exec.Triple.{
  Ends, Triple, Triple-pure, Triple-raise, Triple-if, Triple-catching, Triple-bind, Triple-weaken,
}
use op_test.Exceptions.{
  OpSystemState, unknown_bad, OpException, kernel_kdump, kernel_fadump, kernel_panic, type_error,
}
use op_test.System.Interface.{Pattern}
use op_test.Expect.{
  Pexpect, After, matched, marker, Session, Act, ends_crash, kernel_error, on_world, raise_some,
  text_of, add_log, crash_log, kernel_failed, skiboot_failed, hostboot_log, pass_timeout,
  checkstopped, marked,
}

-- The exceptions that say that the machine has failed, with the state that they carry.
abbrev pub carried : OpException → Option (Option OpSystemState)
carried (OpException.kernel_soft_lockup o) = some o
carried (OpException.kernel_hard_lockup o) = some o
carried (OpException.kernel_oops o) = some o
carried (OpException.kernel_kdump o) = some o
carried (OpException.kernel_fadump o) = some o
carried (OpException.kernel_crash_unknown o) = some o
carried (OpException.kernel_bug o) = some o
carried (OpException.kernel_panic o) = some o
carried (OpException.skiboot_assert o) = some o
carried (OpException.skiboot_exception o) = some o
carried (OpException.platform_error o) = some o
carried e = none

abbrev pub is_crash_unknown : OpException → Bool
is_crash_unknown (OpException.kernel_crash_unknown o) = true
is_crash_unknown e = false

-- No exception of this program: pexpect raises its own, and Python's.
abbrev pub Foreign : OpException → Type 0
Foreign e = (carried e ≡ none) × (is_crash_unknown e ≡ false)

-- What pexpect documents: an index into the list, and no exception of this program.
pub record IsPexpect {W : Type 0} (px : Pexpect W) : Type 0 where
  pub expect_index :
      (ps : List Pattern) (limit : Option ℕ)
      → Triple (λ _. Unit) (λ r _. r < length ps) (λ e _. Foreign e) (px.expect ps limit)
  pub before_foreign : Triple (λ _. Unit) (λ _ _. Unit) (λ e _. Foreign e) px.before
  pub after_foreign : Triple (λ _. Unit) (λ _ _. Unit) (λ e _. Foreign e) px.after

-- A failure carries the state that the system was in, and the system is then in UNKNOWN_BAD.
abbrev pub Reported : {W : Type 0} → OpSystemState → OpException → Session W → Type 0
Reported st e s =
    (is_crash_unknown e ≡ false)
    × ((carried e ≡ none) ⊎ ((carried e ≡ some (some st)) × (s.system_state ≡ unknown_bad)))

-- The same, of what is raised while the system is in the state `now`.
abbrev pub During : {W : Type 0} → (st now : OpSystemState) → OpException → Session W → Type 0
During st now e s = Reported st e s × (s.system_state ≡ now)

module _ {W : Type 0} where
  lifted :
      {A : Type 0} (Q : A → Type 0) (st now was : OpSystemState)
      → was ≡ now
      → (r : Result OpException A) (w : W) → Ends (λ a _. Q a) (λ e _. Foreign e) r w
      → Ends
          (λ a s. Q a × (s.system_state ≡ now))
          (During st now)
          r
          (record { system_state = was; world = w })
  lifted Q st now was p (ok a) w q = (q, p)
  lifted Q st now was p (err e) w d = ((d.1, inl d.0), p)

  on_world-Triple :
      {A : Type 0} (Q : A → Type 0) (st now : OpSystemState) (op : Exec W OpException A)
      → Triple (λ _. Unit) (λ a _. Q a) (λ e _. Foreign e) op
      → Triple
          (λ s. s.system_state ≡ now)
          (λ a s. Q a × (s.system_state ≡ now))
          (During st now)
          (on_world op)
  unfolding on_world
  on_world-Triple Q st now op t = record {
    at = λ s p. lifted Q st now s.system_state p (op s.world).0 (op s.world).1 (t.at s.world tt);
  }

  text_of-Triple :
      (st now : OpSystemState) (a : After)
      → Triple
          (λ s. s.system_state ≡ now)
          (λ _ s. s.system_state ≡ now)
          (During {W = W} st now)
          (text_of {W = W} a)
  unfolding text_of
  text_of-Triple st now (matched t) = Triple-pure t (λ s q. q)
  text_of-Triple st now marker = Triple-raise type_error (λ s q. ((refl, inl refl), q))

-- Of the failures of the kernel, one of the seven kinds is found.
known :
    (st : OpSystemState) (r l : ℕ)
    → (leb 1 r && leb r 8) ≡ true
    → (e : OpException) × (kernel_error r l (some st) ≡ some e)
      × (is_crash_unknown e ≡ false)
      × (carried e ≡ some (some st))
known st (suc zero) l h = (_, refl, refl, refl)
known st (suc (suc zero)) l h = (_, refl, refl, refl)
known st (suc (suc (suc zero))) l h = elim (Bool-cases (l == 2)) [
  | inl p ↦ (kernel_kdump (some st), simp p refl, refl, refl)
  | inr p ↦ elim (Bool-cases (l == 7)) [
    | inl q ↦ (kernel_fadump (some st), simp (p, q) refl, refl, refl)
    | inr q ↦ (kernel_panic (some st), simp (p, q) refl, refl, refl)
  ]
]
known st (suc (suc (suc (suc zero)))) l h = (_, refl, refl, refl)
known st (suc (suc (suc (suc (suc zero))))) l h = (_, refl, refl, refl)
known st (suc (suc (suc (suc (suc (suc zero)))))) l h = (_, refl, refl, refl)
known st (suc (suc (suc (suc (suc (suc (suc zero))))))) l h = (_, refl, refl, refl)
known st (suc (suc (suc (suc (suc (suc (suc (suc zero)))))))) l h = (_, refl, refl, refl)
known st r l h = let no : ⊥ = ground arith in elim no [ ]

abbrev pub Now : {W : Type 0} → OpSystemState → Session W → Type 0
Now now s = s.system_state ≡ now

-- Of what follows the loop of the kernel's last words where its fuel runs out.
abbrev pub Harmless : {W : Type 0} → OpSystemState → Act W ℕ → Type 0
Harmless st stuck = Triple (Now unknown_bad) (λ _. Now unknown_bad) (During st unknown_bad) stuck

module _ {W : Type 0} (px : Pexpect W) (good : IsPexpect px) (st : OpSystemState) where
  pub read_before :
      (now : OpSystemState) → Triple (Now now) (λ _. Now now) (During st now) (on_world px.before)
  read_before now =
      Triple-weaken (λ _ s q. q.1) (λ _ s q. q)
        (on_world-Triple (λ _. Unit) st now px.before good.before_foreign)

  pub read_after :
      (now : OpSystemState) → Triple (Now now) (λ _. Now now) (During st now) (on_world px.after)
  read_after now =
      Triple-weaken (λ _ s q. q.1) (λ _ s q. q)
        (on_world-Triple (λ _. Unit) st now px.after good.after_foreign)

  pub read_index :
      (now : OpSystemState) (ps : List Pattern) (limit : Option ℕ)
      → Triple
          (Now now)
          (λ r s. (r < length ps) × Now now s)
          (During st now)
          (on_world (px.expect ps limit))
  read_index now ps limit =
      on_world-Triple (λ r. r < length ps) st now (px.expect ps limit) (good.expect_index ps limit)

  pub read_some :
      (now : OpSystemState) (ps : List Pattern) (limit : Option ℕ)
      → Triple (Now now) (λ r s. Now now s) (During st now) (on_world (px.expect ps limit))
  read_some now ps limit = Triple-weaken (λ _ s q. q.1) (λ _ s q. q) (read_index now ps limit)

  add_log-Reported :
      (now : OpSystemState) → Triple (Now now) (λ _. Now now) (During st now) (add_log px)
  unfolding add_log
  add_log-Reported now = Triple-bind _ _ (read_before now) (λ _.
      Triple-bind _ _ (read_after now)
        (λ a. Triple-bind _ _ (text_of-Triple st now a) (λ _. Triple-pure tt (λ s q. q))))

  marked-Reported :
      (now : OpSystemState) (what : String) (seconds : ℕ)
      → Triple (Now now) (λ _. Now now) (During st now) (marked px what seconds)
  marked-Reported now what seconds = Triple-bind _ _ (read_some now _ _) (λ _. add_log-Reported now)

  crash_log-Reported :
      (stuck : Act W ℕ) → Harmless st stuck → (rounds : ℕ) → Harmless st (crash_log px stuck rounds)
  unfolding crash_log
  crash_log-Reported stuck h zero = h
  crash_log-Reported stuck h (suc rounds) = Triple-bind _ _ (read_some _ _ _) (λ l.
      Triple-bind _ _ (read_before _) (λ _. Triple-bind _ _ (read_after _) (λ _.
        Triple-if (ends_crash l) _ _ (λ _. Triple-pure l (λ s q. q))
          (λ _. crash_log-Reported stuck h rounds))))

  -- An exception that carries the state is raised in UNKNOWN_BAD.
  abbrev Carried : OpException → Type 0
  Carried e = (is_crash_unknown e ≡ false) × (carried e ≡ some (some st))

  reports :
      {A : Type 0} (Q : A → Session W → Type 0) (e : OpException)
      → Carried e
      → Triple (Now unknown_bad) Q (During st unknown_bad) (raise e)
  reports Q e c = Triple-raise e (λ s q. ((c.0, inr (c.1, q)), q))

  raise_some-Reported :
      (Q : Unit {0} → Session W → Type 0) (o : Option OpException) (e : OpException)
      → o ≡ some e
      → Carried e
      → Triple (Now unknown_bad) Q (During st unknown_bad) (raise_some o)
  unfolding raise_some
  raise_some-Reported Q o e p c = rw p (reports Q e c)

  -- None of the parts returns where its test holds.
  pub kernel_failed-Reported :
      (stuck : Act W ℕ)
      → Harmless st stuck
      → (rounds r : ℕ)
      → Triple
          (Now unknown_bad)
          (λ _ s. ((leb 1 r && leb r 8) ≡ false) × Now unknown_bad s)
          (During st unknown_bad)
          (kernel_failed px stuck rounds r (some st))
  unfolding kernel_failed raise_some
  kernel_failed-Reported stuck h rounds r =
      Triple-if (leb 1 r && leb r 8) _ _
        (λ y.
          Triple-bind _ _ (crash_log-Reported stuck h rounds)
            (λ l. let (e, p, c, d) = known st r l y in raise_some-Reported _ _ e p (c, d)))
        (λ n. Triple-pure tt (λ s q. (n, q)))

  pub skiboot_failed-Reported :
      (r : ℕ)
      → Triple
          (Now unknown_bad)
          (λ _ s. ((leb 9 r && leb r 12) ≡ false) × Now unknown_bad s)
          (During st unknown_bad)
          (skiboot_failed px r (some st))
  unfolding skiboot_failed
  skiboot_failed-Reported r =
      Triple-if (leb 9 r && leb r 12) _ _
        (λ y. Triple-bind _ _ (read_some _ _ _) (λ _. Triple-bind _ _ (add_log-Reported _) (λ _.
          Triple-if (r == 10) _ _ (λ _. reports _ _ (refl, refl)) (λ _. reports _ _ (refl, refl)))))
        (λ n. Triple-pure tt (λ s q. (n, q)))

  pass_timeout-Reported :
      (e : OpException)
      → Triple
          (During st unknown_bad e)
          (λ _. Now unknown_bad)
          (During st unknown_bad)
          (pass_timeout px e)
  pass_timeout-Reported OpException.pexpect_timeout = Triple-pure tt (λ s q. q.1)
  pass_timeout-Reported e = Triple-raise _ (λ s q. q)

  hostboot_log-Reported :
      Triple (Now unknown_bad) (λ _. Now unknown_bad) (During st unknown_bad) (hostboot_log px)
  unfolding hostboot_log
  hostboot_log-Reported =
      Triple-catching _ _
        (Triple-bind _ _ (marked-Reported _ _ _) (λ _.
          Triple-bind _ _ (marked-Reported _ _ _)
            (λ _. Triple-bind _ _ (marked-Reported _ _ _) (λ _. marked-Reported _ _ _))))
        pass_timeout-Reported

  pub checkstopped-Reported :
      (r : ℕ)
      → Triple
          (Now unknown_bad)
          (λ _ s. ((r == 13) ≡ false) × Now unknown_bad s)
          (During st unknown_bad)
          (checkstopped px r (some st))
  unfolding checkstopped
  checkstopped-Reported r =
      Triple-if (r == 13) _ _
        (λ y.
          Triple-bind _ _ (add_log-Reported _)
            (λ _. Triple-bind _ _ hostboot_log-Reported (λ _. reports _ _ (refl, refl))))
        (λ n. Triple-pure tt (λ s q. (n, q)))
