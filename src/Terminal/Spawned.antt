-- ===== src/Terminal/Spawned.antt =====
-- What the console objects of common/OpTestSSH.py and common/OpTestIPMI.py share: the state of their
-- connection, the methods of the pty, which are those of common/OPexpect.py and of pexpect, and the
-- loop that reconnects.
pub mod Bound
use op_test.Prelude.{
  ℕ, zero, suc, ◌+◌, Bool, true, false, Option, none, some, String, List, ltb, leb, if◌then◌else◌,
}
use op_test.Exec.{Exec, pure, raise, gets, modify, ◌>>=◌, ◌>>◌}
use op_test.Exceptions.{OpException, ℤ, pos, type_error, other}
use op_test.System.Interface.{Pattern}
use op_test.Terminal.State.{Terminal, Act}

-- self.state, self.pty, and the flags of the console object where the system tracks the setup
pub record Link (W Pty : Type 0) : Type 0 where
  pub connected : Bool
  pub pty : Option Pty
  pub own_ps1_set : ℤ
  pub own_login_set : ℤ
  pub own_sudo_set : ℤ
  pub outside : W

abbrev pub LinkAct : Type 0 → Type 0 → Type 0 → Type 0
LinkAct W Pty A = Act (Link W Pty) A

-- OPexpect.spawn and its methods
pub record Spawner (W Pty : Type 0) : Type 0 where
  pub spawn : LinkAct W Pty Pty
  pub send : Pty → String → LinkAct W Pty Unit
  pub sendline : Pty → String → LinkAct W Pty Unit
  pub sendcontrol : Pty → String → LinkAct W Pty Unit
  pub expect : Pty → List Pattern → Option ℕ → LinkAct W Pty ℕ
  pub before : Pty → LinkAct W Pty String
  pub after : Pty → LinkAct W Pty String
  pub close_pty : Pty → LinkAct W Pty Unit
  pub isalive : Pty → LinkAct W Pty Bool
  -- time.sleep, in milliseconds
  pub sleep : ℕ → Terminal (Link W Pty) → Terminal (Link W Pty)

module _ {W Pty : Type 0} where
  unfoldable pub set_connected : Bool → LinkAct W Pty Unit
  set_connected b = modify (λ s. record s { world = record s.world { connected = b } })

  unfoldable pub set_pty : Pty → LinkAct W Pty Unit
  set_pty pty = modify (λ s. record s { world = record s.world { pty = some pty } })

  -- util.clear_state(self), of an object that tracks the setup itself
  unfoldable pub clear_tracked : LinkAct W Pty Unit
  clear_tracked = modify (λ s. record s { ps1_set = pos 0; login_set = pos 0; sudo_set = pos 0 })

  -- The same where the system tracks it
  unfoldable pub clear_own : LinkAct W Pty Unit
  clear_own = modify (λ s. record s {
    world = record s.world { own_ps1_set = pos 0; own_login_set = pos 0; own_sudo_set = pos 0 };
  })

  abbrev bound : Option Pty → LinkAct W Pty Pty
  bound none = raise (other "AttributeError")
  bound (some pty) = pure pty

  -- `self.pty` where one of its methods is called
  unfoldable pub current : LinkAct W Pty Pty
  unfolding ◌>>=◌
  current = do s ← gets (λ s. s); bound (s.world.pty)

-- `while not self.pty.isalive()`, on fuel with what follows when it runs out: at most 121 connections.
-- An exception that is a text is a TypeError.
module _ {W Pty : Type 0} (p : Spawner W Pty) (connect : LinkAct W Pty Pty) (wait : ℕ) where
  pub reconnect_rounds : LinkAct W Pty Unit → ℕ → ℕ → LinkAct W Pty Unit
  unfolding current
  reconnect_rounds stuck zero count = stuck
  reconnect_rounds stuck (suc rounds) count = do
    pty ← current
    alive ← p.isalive pty
    if alive then pure tt else (do
      if ltb 0 count then modify (p.sleep wait) else pure tt
      connect
      if ltb 120 (count + 1) then raise type_error else reconnect_rounds stuck rounds (count + 1))
