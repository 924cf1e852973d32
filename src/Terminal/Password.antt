-- ===== src/Terminal/Password.antt =====
-- `set_env`, `retry_password` and `handle_password` of common/OpTestUtil.py: what `sudo -s` asks.
pub mod Tries
use op_test.Prelude.{
  ℕ, zero, suc, ◌+◌, Bool, true, false, ◌&&◌, ◌||◌, Option, none, some, String, List, [], ◌∷◌, ◌++◌,
  leb, ◌==◌, not, if◌then◌else◌,
}
use Prim.Native.String.{◌++◌ as append}
use op_test.Exec.{pure, raise, ◌>>=◌, ◌>>◌}
use op_test.Exceptions.{
  OpException, ℤ, pos, negsuc, command_failed, console_settings, index_error,
  ssh_session_disconnected, other,
}
use op_test.System.Interface.{Pattern, text, timeout, eof}
use op_test.Lines.{mend, splitlines, buffer_lines, lstrip, some_contained, without_last, joined}
use op_test.Terminal.State.{Terminal, Act, Console, await}
use op_test.Terminal.Prompt.{build_prompt}

abbrev pub sudo_responses : List String
sudo_responses = "not in the sudoers" ∷ "incorrect password" ∷ []

abbrev pub password_patterns : String → List Pattern
password_patterns shell = text shell ∷ text "try again." ∷ timeout ∷ eof ∷ []

abbrev pub or_index_error : {W : Type 0} → Option (List String) → Act W (List String)
or_index_error none = raise index_error
or_index_error (some ys) = pure ys

-- `del xs[-1]`
abbrev pub delete_last : {W : Type 0} → List String → Act W (List String)
delete_last xs = or_index_error (without_last xs)

module _ {W Pty : Type 0} (c : Console W Pty) where
  unfoldable pub set_env : Pty → Act W (List String)
  set_env pty = do
    c.sendline pty "which bash && exec bash --norc --noprofile"
    c.sendline pty (append "PS1=" (build_prompt c.prompt false))
    rc ← await c pty (append (build_prompt c.prompt false) "$") 10
    if rc == 0
        then (do
          before ← c.before pty
          after ← c.after pty
          delete_last (splitlines (lstrip (mend (append before after)))))
        else raise console_settings

  -- What the terminal answers to the password: the index, the lines, and whether `sudo` refuses.
  -- There is nothing to read after a timeout.
  unfoldable pub answer_to : Pty → String → String → Act W (ℕ × List String × Bool)
  answer_to pty shell seen = do
    c.sendline pty c.password
    rc ← c.expect pty (password_patterns shell) none
    if leb rc 1
        then (do
          before ← c.before pty
          after ← c.after pty
          pure (
            rc,
            buffer_lines (append seen (append before after)),
            some_contained sudo_responses (splitlines after),
          ))
        else pure (rc, [], false)

  -- The loop `while a < 3` with the rounds that are left, the output and `echo_rc`, if it is bound;
  -- `fall` follows the loop.
  unfoldable pub retry_rounds :
      (List String → Option ℤ → Act W (List String × ℤ))
      → Pty
      → String
      → ℕ
      → ℕ
      → List String
      → Option ℤ
      → Act W (List String × ℤ)
  unfolding answer_to
  retry_rounds fall pty command zero a out echo_rc = fall out echo_rc
  retry_rounds fall pty command (suc rounds) a out echo_rc = do
    (rc, ls, refused) ← answer_to pty ".*#" ""
    if (rc == 0) && not refused
        then (do env ← set_env pty; pure ((out ++ ls) ++ env, pos 0))
        else if a + 1 == 2
        then pure (out ++ ls, pos 1)
        else if (rc == 2) && not refused
        then raise (command_failed command ("Retry Password TIMEOUT " ∷ out) (negsuc 0))
        else if (rc == 3) && not refused
        then (do c.close; raise console_settings)
        else retry_rounds fall pty command rounds (a + 1) (out ++ ls)
            (if refused then some (pos 1) else echo_rc)

  -- `return retry_list_output, echo_rc`
  unfoldable pub fall_out : List String → Option ℤ → Act W (List String × ℤ)
  fall_out out none = raise (other "UnboundLocalError")
  fall_out out (some echo_rc) = pure (out, echo_rc)

  unfoldable pub retry_password : Pty → String → Act W (List String × ℤ)
  unfolding retry_rounds fall_out
  retry_password pty command = retry_rounds fall_out pty command 3 0 [] none

  -- What `handle_password` raises: with the lines where `sudo` refuses, with what was shown before on
  -- a timeout.
  unfoldable pub password_failed :
      String → ℕ → String → List String → Bool → Act W (List String × ℤ)
  password_failed command rc seen ls true = do
    ys ← delete_last ls
    raise (command_failed command (joined ys ∷ []) (negsuc 0))
  password_failed command rc seen ls false =
      if rc == 3
      then (do c.close; raise ssh_session_disconnected)
      else raise (
          command_failed command
            (append "Password Problem/TIMEOUT " (joined (buffer_lines seen)) ∷ []) (negsuc 0))

  unfoldable pub handle_password : Pty → String → Act W (List String × ℤ)
  unfolding retry_password password_failed
  handle_password pty command = do
    before ← c.before pty
    after ← c.after pty
    let seen = append before after
    (rc, ls, refused) ← answer_to pty ".*#$" seen
    if (rc == 0) && not refused
        then (do set_env pty; pure (ls, pos 0))
        else if (rc == 1) && not refused
        then (do (more, echo_rc) ← retry_password pty command; pure (ls ++ more, echo_rc))
        else password_failed command rc seen ls refused
