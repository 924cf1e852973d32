-- ===== src/Expect/Skiboot.antt =====
-- What `expect` raises for an assertion of skiboot after which the console is silent.
use op_test.Prelude.{ℕ, ◌≡◌, true, false, ◌&&◌, Option, some, String, ◌++◌, leb, arith, ◌==◌}
use op_test.Exec.{ok, err, ◌>>=◌}
use op_test.Exceptions.{type_error, unknown_bad}
use op_test.Expect.{
  Pexpect, marker, Session, Act, Wanted, listed, op_patterns, skiboot_patterns, on_world,
  set_system_to_unknown_bad, call_back, text_of, add_log, kernel_failed, skiboot_failed, expect,
}

not_zero : (r : ℕ) → (leb 9 r && leb r 12) ≡ true → (r == 0) ≡ false
not_zero r h = ground arith

below : (r : ℕ) → (leb 9 r && leb r 12) ≡ true → leb r 13 ≡ true
below r h = ground arith

no_kernel : (r : ℕ) → (leb 9 r && leb r 12) ≡ true → (leb 1 r && leb r 8) ≡ false
no_kernel r h = ground arith

module _ {W : Type 0} (px : Pexpect W) where
  -- Where the console falls silent after an assertion or an exception of skiboot, so that `after` is
  -- the class TIMEOUT, `expect` raises TypeError, not SkibootAssert or SkibootException.
  pub expect_silent :
      (command : String) (stuck : Act W ℕ) (rounds : ℕ) (pattern : Wanted) (limit : Option ℕ)
      (s : Session W) (r : ℕ) (w w1 w2 w3 : W) (b : String)
      → (leb 9 r && leb r 12) ≡ true
      → px.expect (op_patterns ++ listed pattern) limit s.world ≡ (ok r, w)
      → px.expect skiboot_patterns (some 10) w ≡ (ok 2, w1)
      → px.before w1 ≡ (ok b, w2)
      → px.after w2 ≡ (ok marker, w3)
      → expect px command (some set_system_to_unknown_bad) stuck rounds pattern limit s
        ≡ (err type_error, record { system_state = unknown_bad; world = w3 })
  unfolding expect kernel_failed skiboot_failed add_log text_of call_back set_system_to_unknown_bad
      on_world ◌>>=◌
  expect_silent command stuck rounds pattern limit s r w w1 w2 w3 b h e1 e2 e3 e4 =
      simp (e1, e2, e3, e4, h, not_zero r h, below r h, no_kernel r h)
