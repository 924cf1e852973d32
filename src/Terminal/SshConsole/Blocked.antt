-- ===== src/Terminal/SshConsole/Blocked.antt =====
-- A connection that is made while the setup of the terminal is blocked.
use op_test.Prelude.{◌≡◌, refl, Bool, true, false, some, if◌then◌else◌}
use op_test.Exec.{ok, pure, ◌>>=◌}
use op_test.Terminal.State.{Terminal, Console}
use op_test.Terminal.Setup.{setup_term}
use op_test.Terminal.Spawned.{Link, LinkAct, Spawner, current}
use op_test.Terminal.SshConsole.{Account, check_set_term}

module _ {W Pty : Type 0} (p : Spawner W Pty) (account : Account) where
  setup_term_blocked :
      (inner : Console (Link W Pty) Pty) (ssh : Bool) (pty : Pty) (s : Terminal (Link W Pty))
      → setup_term inner ssh pty 1 s ≡ (ok tt, s)
  unfolding setup_term ◌>>=◌
  setup_term_blocked inner ssh pty s = refl

  either_way :
      (b : Bool) (m : LinkAct W Pty Unit) (s : Terminal (Link W Pty))
      → m s ≡ (ok tt, s)
      → (if b then m else pure tt) s ≡ (ok tt, s)
  unfolding ◌>>=◌
  either_way true m s h = h
  either_way false m s h = refl

  -- While the blocks of `set_PS1` are on, the check after a connection does nothing to an object that
  -- has its pty, whatever console the setup would use: the recovery of a prompt does not begin another.
  pub check_set_term_blocked :
      (inner : Console (Link W Pty) Pty) (ssh : Bool) (s : Terminal (Link W Pty)) (pty : Pty)
      → s.console_block ≡ some 1
      → s.world.pty ≡ some pty
      → check_set_term p account (setup_term inner ssh) s ≡ (ok tt, s)
  unfolding check_set_term current ◌>>=◌
  check_set_term_blocked inner ssh s pty h k =
      simp (h, k) (either_way _ (setup_term inner ssh pty 1) s (setup_term_blocked inner ssh pty s))
