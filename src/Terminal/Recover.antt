-- ===== src/Terminal/Recover.antt =====
-- `try_recover` and `try_sendcontrol` of common/OpTestUtil.py.
use op_test.Prelude.{
  ℕ, zero, suc, Bool, true, false, some, String, List, [], ◌∷◌, leb, ◌==◌, not, if◌then◌else◌,
}
use op_test.Exec.{pure, raise, ◌>>=◌, ◌>>◌}
use op_test.Exceptions.{ℤ, pos, negsuc, recover_failed, command_failed, other}
use op_test.System.Interface.{text, timeout, eof}
use op_test.Lines.{splitlines}
use op_test.Terminal.State.{Act, Console, pause}

module _ {W Pty : Type 0} (c : Console W Pty) where
  -- One connection: whether the console answers. One that does not is closed.
  unfoldable pub recover_once : Act W Bool
  recover_once = do
    pty ← c.connect
    c.sendcontrol pty "c"
    pause c 1000
    try_rc ←
        c.expect pty (text ".*#" ∷ text "Petitboot" ∷ text "login: " ∷ timeout ∷ eof ∷ []) (some 10)
    if leb try_rc 2 then pure true else (do c.close; pure false)

  -- The rounds that are left, of a loop that has begun
  unfoldable pub recover_rounds : ℕ → Act W Unit
  unfolding recover_once
  recover_rounds zero = raise recover_failed
  recover_rounds (suc rounds) = do
    recovered ← recover_once
    if recovered then pure tt else recover_rounds rounds

  -- Without a round, `pty` is not bound where RecoverFailed reads it.
  unfoldable pub try_recover : ℕ → Act W Unit
  unfolding recover_rounds
  try_recover zero = raise (other "UnboundLocalError")
  try_recover (suc counter) = recover_rounds (suc counter)

  -- `counter` is the default, 3. What the terminal showed is returned with the exit code 1.
  unfoldable pub try_sendcontrol : String → Act W (List String × ℤ)
  unfolding try_recover
  try_sendcontrol command = do
    pty ← c.get_console
    res ← c.before pty
    c.sendcontrol pty "c"
    pause c 1000
    rc ← c.expect pty (text ".*#" ∷ timeout ∷ eof ∷ []) (some 10)
    if not (rc == 0)
        then (do
          c.close
          try_recover 3
          raise (command_failed command ("run_command TIMEOUT in try_sendcontrol" ∷ []) (negsuc 0)))
        else pure (splitlines res, pos 1)
