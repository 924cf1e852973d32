-- ===== src/Terminal/State.antt =====
-- What the terminal code of common/OpTestUtil.py works on: the flags of the console object and of the
-- object that tracks the terminal's setup, and the methods of the consoles, which are parameters.
use op_test.Prelude.{ℕ, Bool, Option, some, String, ◌∷◌, [], List}
use op_test.Exec.{Exec, modify, ◌>>=◌, ◌>>◌}
use op_test.Exceptions.{OpSystemState, OpException, ℤ}
use op_test.System.Interface.{Pattern, text, timeout, eof}

-- `term_obj`, `track_obj` and `system_obj`
pub record Terminal (W : Type 0) : Type 0 where
  -- system_obj.state
  pub system_state : OpSystemState
  -- term_obj.setup_term_quiet, term_obj.setup_term_disable
  pub setup_term_quiet : ℕ
  pub setup_term_disable : ℕ
  -- term_obj.system.block_setup_term, term_obj.block_setup_term
  pub system_block : ℕ
  pub console_block : Option ℕ
  -- set_system_setup_term and set_block_setup_term have been overwritten by numbers.
  pub setters_lost : Bool
  -- the flags of track_obj
  pub ps1_set : ℤ
  pub login_set : ℤ
  pub sudo_set : ℤ
  -- term_obj.system.conf.firmware_versions
  pub firmware_versions : Option (List String)
  pub world : W

abbrev pub Act : Type 0 → Type 0 → Type 0
Act W A = Exec (Terminal W) OpException A

-- The console object and its pty; a new connection gives a new pty.
pub record Console (W Pty : Type 0) : Type 0 where
  pub connect : Act W Pty
  pub get_console : Act W Pty
  pub close : Act W Unit
  -- `sendline()` sends the empty text.
  pub sendline : Pty → String → Act W Unit
  pub sendcontrol : Pty → String → Act W Unit
  -- without a timeout, pexpect's default
  pub expect : Pty → List Pattern → Option ℕ → Act W ℕ
  -- pty.before, and pty.after where a text has matched
  pub before : Pty → Act W String
  pub after : Pty → Act W String
  -- time.sleep, in milliseconds
  pub sleep : ℕ → Terminal W → Terminal W
  -- term_obj.expect_prompt and the prompt of the console or of the system, if one is set
  pub expect_prompt : String
  pub prompt : Option String
  -- cv_HOST.username(), cv_HOST.password(), system.disable_stty_echo()
  pub username : String
  pub password : String
  pub disable_stty_echo : Bool

module _ {W Pty : Type 0} (c : Console W Pty) where
  abbrev pub pause : ℕ → Act W Unit
  pause ms = modify (c.sleep ms)

  -- `pty.expect([what, pexpect.TIMEOUT, pexpect.EOF], timeout=seconds)`
  unfoldable pub await : Pty → String → ℕ → Act W ℕ
  await pty what seconds = c.expect pty (text what ∷ timeout ∷ eof ∷ []) (some seconds)

  -- A line is sent, and the program waits.
  unfoldable pub send_wait : Pty → String → ℕ → Act W Unit
  unfolding ◌>>=◌
  send_wait pty what ms = do c.sendline pty what; pause ms
