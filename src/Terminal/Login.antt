-- ===== src/Terminal/Login.antt =====
-- `get_login`, `check_root` and `get_sudo` of common/OpTestUtil.py. The log is left out.
use op_test.Prelude.{
  Bool, false, ◌&&◌, Option, none, some, String, List, [], ◌∷◌, leb, ◌==◌, if◌then◌else◌,
}
use Prim.Native.String.{◌++◌ as append}
use op_test.Exec.{pure, raise, gets, ◌>>=◌, ◌>>◌}
use op_test.Exceptions.{ℤ, pos, negsuc, other}
use op_test.Ssh.Connection.{is_zero}
use op_test.System.Interface.{Pattern, text, timeout, eof}
use op_test.Lines.{buffer_lines, contains, last, int, or_unknown}
use op_test.Terminal.State.{Act, Console, await, send_wait}
use op_test.Terminal.Prompt.{unsettled, set_ps1}

abbrev pub logged_in : List Pattern
logged_in =
    text "login: $"
    ∷ text ".*#$"
    ∷ text ".*# $"
    ∷ text ".*\\$"
    ∷ text "~ #"
    ∷ text ":~"
    ∷ text "Petitboot"
    ∷ timeout
    ∷ eof
    ∷ []

-- int(before.splitlines()[-1]), -1 where that raises
abbrev pub last_line_code : List String → ℤ
last_line_code ls = elim (last ls) [ none ↦ negsuc 0 | some l ↦ or_unknown (int l) ]

module _ {W Pty : Type 0} (c : Console W Pty) where
  -- `return -1, -1` where the terminal is quiet
  unfoldable pub unsettled_both : Act W (ℤ × ℤ)
  unsettled_both = do n ← unsettled c; pure (n, negsuc 0)

  -- From the login prompt on
  unfoldable pub log_in : Pty → String → Act W (ℤ × ℤ)
  unfolding unsettled_both
  log_in pty prompt = do
    send_wait c pty c.username 100
    rc ← await c pty "[Pp]assword:" 60
    if rc == 0
        then (do
          send_wait c pty c.password 500
          rc ← c.expect pty logged_in (some 60)
          if leb 1 rc && leb rc 5
              then (do my_ps1_set ← set_ps1 c pty prompt; pure (my_ps1_set, pos 1))
              else unsettled_both)
        else unsettled_both

  unfoldable pub get_login : Pty → String → Act W (ℤ × ℤ)
  unfolding log_in
  get_login pty prompt = do
    s ← gets (λ s. s)
    if s.setup_term_disable == 1 then pure (negsuc 0, negsuc 0) else (do
      c.sendline pty ""
      rc ← await c pty "login: " 60
      if rc == 0 then log_in pty prompt else (do
        c.sendline pty ""
        rc ← await c pty "login: " 60
        if rc == 0 then log_in pty prompt else unsettled_both))

  -- `whoami` is not bound where there was no line to read.
  unfoldable pub is_root : Option String → Act W Bool
  is_root none = raise (other "UnboundLocalError")
  is_root (some whoami) = pure (contains "root" whoami)

  -- False also stands for the None that is returned where the prompt does not come.
  unfoldable pub check_root : Pty → String → Act W Bool
  unfolding is_root
  check_root pty prompt = do
    c.sendline pty "date"
    send_wait c pty "which whoami && whoami" 2000
    rc ← await c pty (append prompt "$") 10
    if rc == 0
        then (do
          before ← c.before pty
          let whoami = last (buffer_lines before)
          send_wait c pty "echo $?" 1000
          rc ← await c pty (append prompt "$") 10
          before ← c.before pty
          if rc == 0
              then (if is_zero (last_line_code (buffer_lines before))
                  then is_root whoami
                  else pure false)
              else pure false)
        else pure false

  -- The prompt is set, and what `check_root` says is not used.
  unfoldable pub sudo_prompt : Pty → String → Act W (ℤ × ℤ)
  unfolding check_root
  sudo_prompt pty prompt = do
    my_ps1_set ← set_ps1 c pty prompt
    check_root pty prompt
    pure (my_ps1_set, pos 1)

  unfoldable pub get_sudo : Pty → String → Act W (ℤ × ℤ)
  unfolding sudo_prompt
  get_sudo pty prompt = do
    s ← gets (λ s. s)
    if s.setup_term_disable == 1 then pure (negsuc 0, negsuc 0) else (do
      c.sendline pty ""
      root ← check_root pty prompt
      if root then pure (pos 1, pos 1) else (do
        c.sendline pty "which sudo && sudo -s"
        rc ← await c pty "[Pp]assword for" 5
        if rc == 0
            then (do send_wait c pty c.password 500; sudo_prompt pty prompt)
            else if rc == 1
            then sudo_prompt pty prompt
            else unsettled_both))
