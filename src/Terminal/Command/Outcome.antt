-- ===== src/Terminal/Command/Outcome.antt =====
-- The exit codes of the CommandFailed that `try_command` raises.
use op_test.Prelude.{
  ℕ, zero, suc, ◌≡◌, refl, ap, if◌then◌else◌, Bool, true, false, not, none, some, String, List,
  Option,
}
use op_test.Exec.{pure, raise}
use op_test.Exec.Raises.{
  Raises, Blames, Raises-if, Raises-pure, Raises-raise, Raises-bind, raises_rules, any-Keeps,
}
use op_test.Exceptions.{OpException, ℤ, command_failed}
use op_test.Ssh.Connection.{is_zero}
use op_test.System.Interface.{Pattern}
use op_test.Terminal.State.{Terminal, Act, Console, await}
use op_test.Terminal.Recover.{recover_once, recover_rounds, try_recover, try_sendcontrol}
use op_test.Terminal.Password.{
  or_index_error, set_env, answer_to, retry_rounds, fall_out, retry_password, password_failed,
  handle_password,
}
use op_test.Terminal.Command.{
  ask_echo, command_ended, password_asked, command_result, successful, try_command,
}

-- A CommandFailed has another exit code than 0.
abbrev pub nonzero : OpException → Bool
nonzero (OpException.command_failed command out code) = not (is_zero code)
nonzero e = true

abbrev pub NonZero : OpException → Type 0
NonZero e = nonzero e ≡ true

abbrev pub Fails : {W A : Type 0} → Act W A → Type 0
Fails m = Raises (λ _. Unit) NonZero m

-- The methods of the console raise no CommandFailed with the code 0.
pub record IsConsole {W Pty : Type 0} (c : Console W Pty) : Type 0 where
  pub connect_fails : Fails c.connect
  pub get_console_fails : Fails c.get_console
  pub close_fails : Fails c.close
  pub sendline_fails : (pty : Pty) (what : String) → Fails (c.sendline pty what)
  pub sendcontrol_fails : (pty : Pty) (key : String) → Fails (c.sendcontrol pty key)
  pub expect_fails :
      (pty : Pty) (ps : List Pattern) (limit : Option ℕ) → Fails (c.expect pty ps limit)
  pub before_fails : (pty : Pty) → Fails (c.before pty)
  pub after_fails : (pty : Pty) → Fails (c.after pty)

module _ {W Pty : Type 0} (c : Console W Pty) (ok : IsConsole c) where
  connect-Fails : Fails (c.connect)
  connect-Fails = ok.connect_fails

  get_console-Fails : Fails (c.get_console)
  get_console-Fails = ok.get_console_fails

  close-Fails : Fails (c.close)
  close-Fails = ok.close_fails

  sendline-Fails : (pty : Pty) (what : String) → Fails (c.sendline pty what)
  sendline-Fails pty what = ok.sendline_fails pty what

  sendcontrol-Fails : (pty : Pty) (key : String) → Fails (c.sendcontrol pty key)
  sendcontrol-Fails pty key = ok.sendcontrol_fails pty key

  expect-Fails : (pty : Pty) (ps : List Pattern) (limit : Option ℕ) → Fails (c.expect pty ps limit)
  expect-Fails pty ps limit = ok.expect_fails pty ps limit

  before-Fails : (pty : Pty) → Fails (c.before pty)
  before-Fails pty = ok.before_fails pty

  after-Fails : (pty : Pty) → Fails (c.after pty)
  after-Fails pty = ok.after_fails pty

ruleset console_rules = (
  raises_rules, any-Keeps, connect-Fails, get_console-Fails, close-Fails, sendline-Fails,
  sendcontrol-Fails, expect-Fails, before-Fails, after-Fails,
)

module _ {W Pty : Type 0} (c : Console W Pty) (ok : IsConsole c) where
  await-Fails : (pty : Pty) (what : String) (n : ℕ) → Fails (await c pty what n)
  unfolding await
  await-Fails pty what n = search console_rules

  recover_once-Fails : Fails (recover_once c)
  unfolding recover_once
  recover_once-Fails = search console_rules depth 12

  recover_rounds-Fails : (n : ℕ) → Fails (recover_rounds c n)
  unfolding recover_rounds
  recover_rounds-Fails zero = Raises-raise _ refl
  recover_rounds-Fails (suc n) =
      Raises-bind _ _ (any-Keeps _) recover_once-Fails
        (λ b. Raises-if b _ _ (Raises-pure _) (recover_rounds-Fails n))

  try_recover-Fails : (n : ℕ) → Fails (try_recover c n)
  unfolding try_recover
  try_recover-Fails zero = Raises-raise _ refl
  try_recover-Fails (suc n) = recover_rounds-Fails (suc n)

  try_sendcontrol-Fails : (command : String) → Fails (try_sendcontrol c command)
  unfolding try_sendcontrol
  try_sendcontrol-Fails command = search (console_rules, try_recover-Fails) depth 12

  or_index_error-Fails : (o : Option (List String)) → Fails (or_index_error {W = W} o)
  or_index_error-Fails none = Raises-raise _ refl
  or_index_error-Fails (some xs) = Raises-pure xs

  set_env-Fails : (pty : Pty) → Fails (set_env c pty)
  unfolding set_env
  set_env-Fails pty = search (console_rules, await-Fails, or_index_error-Fails) depth 12

  answer_to-Fails : (pty : Pty) (shell seen : String) → Fails (answer_to c pty shell seen)
  unfolding answer_to
  answer_to-Fails pty shell seen = search console_rules depth 12

  fall_out-Fails : (out : List String) (o : Option ℤ) → Fails (fall_out c out o)
  unfolding fall_out
  fall_out-Fails out none = Raises-raise _ refl
  fall_out-Fails out (some code) = Raises-pure _

  retry_rounds-Fails :
      (pty : Pty) (command : String) (rounds a : ℕ) (out : List String) (o : Option ℤ)
      → Fails (retry_rounds c (fall_out c) pty command rounds a out o)
  unfolding retry_rounds
  retry_rounds-Fails pty command zero a out o = fall_out-Fails out o
  retry_rounds-Fails pty command (suc rounds) a out o =
      search (console_rules, answer_to-Fails, set_env-Fails, retry_rounds-Fails pty command rounds)
        depth 12

  password_failed-Fails :
      (command : String) (rc : ℕ) (seen : String) (ls : List String) (refused : Bool)
      → Fails (password_failed c command rc seen ls refused)
  unfolding password_failed
  password_failed-Fails command rc seen ls true = search (console_rules, or_index_error-Fails)
  password_failed-Fails command rc seen ls false = search console_rules

  handle_password-Fails : (pty : Pty) (command : String) → Fails (handle_password c pty command)
  unfolding handle_password retry_password
  handle_password-Fails pty command =
      search
        (console_rules, answer_to-Fails, set_env-Fails, retry_rounds-Fails, password_failed-Fails)
        depth 14

  ask_echo-Fails :
      (pty : Pty) (command : String) (limit : ℕ) (out : List String)
      → Fails (ask_echo c pty command limit out)
  unfolding ask_echo
  ask_echo-Fails pty command limit out = search (console_rules, await-Fails) depth 12

  command_result-Fails :
      (pty : Pty) (command : String) (limit rc : ℕ) (out : List String)
      → Fails (command_result c pty command limit rc out)
  unfolding command_result command_ended password_asked
  command_result-Fails pty command limit rc out =
      search
        (
          console_rules, ask_echo-Fails, set_env-Fails, handle_password-Fails, or_index_error-Fails,
          try_sendcontrol-Fails,
        )
        depth 14

  -- The check of the exit code, by its value.
  checked_code :
      (b : Bool) (command : String) (res : List String) (code : ℤ)
      → is_zero code ≡ b
      → Fails {W = W} (if b then pure res else raise (command_failed command res code))
  checked_code true command res code e = Raises-pure res
  checked_code false command res code e = Raises-raise _ (ap not e)

  successful-Fails : (command : String) (r : List String × ℤ) → Fails (successful c command r)
  unfolding successful
  successful-Fails command (res, code) = checked_code (is_zero code) command res code refl

  try_command-Fails : (command : String) (limit : ℕ) → Fails (try_command c command limit)
  unfolding try_command
  try_command-Fails command limit =
      search (console_rules, command_result-Fails, successful-Fails) depth 14

  -- On a console whose methods raise no CommandFailed with the exit code 0, `try_command` raises none.
  pub try_command-NonZero :
      (command : String) (limit : ℕ) (s : Terminal W)
      → Blames NonZero (try_command c command limit s).0
  try_command-NonZero command limit s = (try_command-Fails command limit).at s tt
