-- ===== src/Expect/Tests.antt =====
-- A pexpect that answers from a script, and the theorems on `expect` applied to it.
use op_test.Prelude.{
  ℕ, ◌<◌, ◌≤◌, ◌≡◌, refl, Bool, true, false, none, some, List, [], ◌∷◌, length, ltb, ltb→lt, arith,
  inl,
}
use op_test.Exec.{Exec, ok, err}
use op_test.Exec.Triple.{Ends}
use op_test.Exceptions.{os, unknown_bad, OpException, pexpect_timeout, pexpect_eof, type_error}
use op_test.System.Interface.{Pattern, text, timeout}
use op_test.Expect.{
  Pexpect, After, marker, Session, Act, many, one, set_system_to_unknown_bad, crash_log, expect,
  crash_patterns,
}
use op_test.Expect.Reports.{IsPexpect, Reported, Foreign, Harmless}
use op_test.Expect.Outcome.{expect_outcome}
use op_test.Expect.Crash.{Finite, is_text_at, crash_log_ends}
use op_test.Expect.Skiboot.{expect_silent}

abbrev Script : Type 0
Script = List ℕ

abbrev in_range : Bool → ℕ → Script → Exec Script OpException ℕ
in_range true n w v = (ok n, w)
in_range false n w v = (err pexpect_eof, w)

abbrev select : ℕ → Exec Script OpException ℕ
select bound [] = (err pexpect_timeout, [])
select bound (n ∷ w) = in_range (ltb n bound) n w w

-- An answer that is no index of the list is the end of the file, an empty script a timeout.
abbrev scripted : After → Pexpect Script
scripted a = record {
  expect = λ ps limit. select (length ps);
  before = λ w. (ok "", w);
  after = λ w. (ok a, w);
}

in_range-Ends :
    (bound n : ℕ) (b : Bool)
    → ltb n bound ≡ b
    → (w v : Script)
    → Ends (λ r _. r < bound) (λ e _. Foreign e) (in_range b n w v).0 (in_range b n w v).1
in_range-Ends bound n true e w v = ltb→lt n bound e
in_range-Ends bound n false e w v = (refl, refl)

select-Ends :
    (bound : ℕ) (w : Script)
    → Ends (λ r _. r < bound) (λ e _. Foreign e) (select bound w).0 (select bound w).1
select-Ends bound [] = (refl, refl)
select-Ends bound (n ∷ w) = in_range-Ends bound n (ltb n bound) refl w w

scripted-IsPexpect : (a : After) → IsPexpect (scripted a)
scripted-IsPexpect a = record {
  expect_index = λ ps limit. record { at = λ w _. select-Ends (length ps) w };
  before_foreign = record { at = λ w _. tt };
  after_foreign = record { at = λ w _. tt };
}

in_range-Finite :
    (bound n : ℕ) (b : Bool)
    → ltb n 9 ≡ b
    → (w v : Script) → length w < bound
    → Ends
        (λ l w. (l < 9) × (is_text_at crash_patterns l ≡ true → length w < bound))
        (λ _ _. Unit)
        (in_range b n w v).0
        (in_range b n w v).1
in_range-Finite bound n true e w v h = (ltb→lt n 9 e, λ _. h)
in_range-Finite bound n false e w v h = tt

select-Finite :
    (bound : ℕ) (w : Script)
    → length w ≤ bound
    → Ends
        (λ l w. (l < 9) × (is_text_at crash_patterns l ≡ true → length w < bound))
        (λ _ _. Unit)
        (select 9 w).0
        (select 9 w).1
select-Finite bound [] h = tt
select-Finite bound (n ∷ w) h = in_range-Finite bound n (ltb n 9) refl w w (omega arith)

scripted-Finite : (a : After) → Finite (scripted a) (λ w. length w)
scripted-Finite a = record {
  expect_consumes = λ bound. record { at = λ w h. select-Finite bound w h };
  before_kept = λ bound. record { at = λ w h. h };
  after_kept = λ bound. record { at = λ w h. h };
}

abbrev at_os : Script → Session Script
at_os w = record { system_state = os; world = w }

abbrev surrender : Act Script ℕ
surrender s = (err pexpect_timeout, s)

surrender-Harmless : Harmless os surrender
surrender-Harmless = record { at = λ s h. ((refl, inl refl), h) }

-- A panic, two messages of it and the reboot into OPAL
abbrev panic : Script
panic = 3 ∷ 0 ∷ 5 ∷ 7 ∷ []

abbrev wanted : List Pattern
wanted = text "login: " ∷ timeout ∷ []

expect_outcome_example :
    Ends
      (λ i s. (i < 2) × (s.system_state ≡ os))
      (Reported os)
      (expect
        (scripted marker)
        "ssh"
        (some set_system_to_unknown_bad)
        surrender
        5
        (many wanted)
        (some 60)
        (at_os panic)).0
      (expect
        (scripted marker)
        "ssh"
        (some set_system_to_unknown_bad)
        surrender
        5
        (many wanted)
        (some 60)
        (at_os panic)).1
expect_outcome_example =
    expect_outcome (scripted marker) (scripted-IsPexpect marker) surrender 5 "ssh" (many wanted)
      (some 60) (at_os panic) surrender-Harmless

crash_log_ends_example :
    crash_log (scripted marker) surrender 5 (at_os (0 ∷ 5 ∷ 8 ∷ []))
    ≡ crash_log (scripted marker) (λ s. (ok 8, s)) 5 (at_os (0 ∷ 5 ∷ 8 ∷ []))
crash_log_ends_example =
    crash_log_ends (scripted marker) (λ w. length w) (scripted-Finite marker) surrender
      (λ s. (ok 8, s)) 5 (at_os (0 ∷ 5 ∷ 8 ∷ [])) (omega arith)

silent_console :
    expect
      (scripted marker)
      "ssh"
      (some set_system_to_unknown_bad)
      surrender
      5
      (one (text "login: "))
      none
      (at_os (9 ∷ 2 ∷ []))
    ≡ (err type_error, record { system_state = unknown_bad; world = [] })
silent_console =
    expect_silent (scripted marker) "ssh" surrender 5 (one (text "login: ")) none
      (at_os (9 ∷ 2 ∷ [])) 9 (2 ∷ []) [] [] [] "" refl refl refl refl refl
