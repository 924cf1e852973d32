-- ===== src/Terminal/SshConsole/Direct.antt =====
-- Commands over paramiko.
use op_test.Prelude.{ℕ, ◌≡◌, refl, Bool, true, false, String}
use op_test.Exec.{Result, ok, err}
use op_test.Exec.Raises.{Blames}
use op_test.Exec.Triple.{Triple, Triple-catching, Triple-any, Triple-raise, Triple-pure, Ends}
use op_test.Exceptions.{OpException}
use op_test.Ssh.Client.{Client}
use op_test.Terminal.SshConsole.{Account, direct_failed, run_command_direct}

abbrev pub is_command_failed : OpException → Bool
is_command_failed (OpException.command_failed command out code) = true
is_command_failed e = false

module _ {W : Type 0} (client : Client W) (nap : W → W) (account : Account) where
  abbrev OnlyFailed : OpException → W → Type 0
  OnlyFailed e w = is_command_failed e ≡ true

  ends :
      {A : Type 0} (r : Result OpException A) (w : W)
      → Ends (λ _ _. Unit) OnlyFailed r w
      → Blames (λ e. is_command_failed e ≡ true) r
  ends (ok a) w q = tt
  ends (err e) w q = q

  direct_failed-OnlyFailed :
      (command : String) (expect_disconnect : Bool) (e : OpException)
      → Triple
          (λ _. Unit)
          (λ _ _. Unit)
          OnlyFailed
          (direct_failed client nap account command expect_disconnect e)
  unfolding direct_failed
  direct_failed-OnlyFailed command true (OpException.command_failed x y z) =
      Triple-raise _ (λ w q. refl)
  direct_failed-OnlyFailed command false (OpException.command_failed x y z) =
      Triple-raise _ (λ w q. refl)
  direct_failed-OnlyFailed command true e = Triple-pure _ (λ w q. tt)
  direct_failed-OnlyFailed command false e = Triple-raise _ (λ w q. refl)

  -- Whatever paramiko raises, `run_command_direct` raises CommandFailed or nothing.
  pub run_command_direct_outcome :
      (command : String) (limit : ℕ) (expect_disconnect : Bool) (w : W)
      → Blames
          (λ e. is_command_failed e ≡ true)
          (run_command_direct client nap account command limit expect_disconnect w).0
  unfolding run_command_direct
  run_command_direct_outcome command limit expect_disconnect w = ends _ _ (
      (Triple-catching {P = λ _. Unit {0}} _ _ (Triple-any _)
          (direct_failed-OnlyFailed command expect_disconnect)).at
        w tt)
