-- ===== src/Terminal/Setup.antt =====
-- `setup_term` of common/OpTestUtil.py: the login and the prompt of a terminal, at whatever it is.
use op_test.Prelude.{
  ℕ, Bool, true, false, ◌&&◌, some, String, List, [], ◌∷◌, leb, ◌==◌, if◌then◌else◌,
}
use op_test.Exec.{pure, raise, gets, modify, ◌>>=◌, ◌>>◌}
use op_test.Exceptions.{OpSystemState, petitboot, os, ℤ, pos, console_settings}
use op_test.System.Interface.{Pattern, text, timeout, eof}
use op_test.Terminal.State.{Act, Console}
use op_test.Terminal.Prompt.{build_prompt, set_ps1}
use op_test.Terminal.Login.{get_login, get_sudo}

abbrev pub first_patterns : List Pattern
first_patterns =
    text "login: $"
    ∷ text ".*#$"
    ∷ text ".*# $"
    ∷ text ".*\\$"
    ∷ text "~>"
    ∷ text "~ #"
    ∷ text "Petitboot"
    ∷ timeout
    ∷ eof
    ∷ []

abbrev pub second_patterns : List Pattern
second_patterns =
    text "login: (\u{1b}\\[J)*$"
    ∷ text ".*#(\u{1b}\\[J)*$"
    ∷ text ".*# (\u{1b}\\[J)*$"
    ∷ text ".*\\$(\u{1b}\\[J)*"
    ∷ text "~>(\u{1b}\\[J)"
    ∷ text "~ #(\u{1b}\\[J)"
    ∷ text ":~(\u{1b}\\[J)*"
    ∷ text "Petitboot"
    ∷ timeout
    ∷ eof
    ∷ []

-- system_obj.state == 3
abbrev pub in_petitboot : OpSystemState → Bool
in_petitboot petitboot = true
in_petitboot st = false

-- system_obj.state == 6
abbrev pub in_os : OpSystemState → Bool
in_os os = true
in_os st = false

module _ {W : Type 0} where
  pub track_login : ℤ × ℤ → Act W Unit
  track_login (p, l) = modify (λ s. record s { ps1_set = p; login_set = l })

  pub track_sudo : ℤ × ℤ → Act W Unit
  track_sudo (p, u) = modify (λ s. record s { ps1_set = p; sudo_set = u })

-- `ssh` is whether the terminal is an SSH object, which changes the prompt.
module _ {W Pty : Type 0} (c : Console W Pty) (ssh : Bool) where
  abbrev pub setup_prompt : String
  setup_prompt = build_prompt c.prompt ssh

  pub root_setup : Pty → Act W Unit
  unfolding track_sudo
  root_setup pty = do flags ← get_sudo c pty setup_prompt; track_sudo flags

  pub login_setup : Pty → Act W Unit
  unfolding track_login root_setup
  login_setup pty = do flags ← get_login c pty setup_prompt; track_login flags; root_setup pty

  -- At a prompt
  pub prompt_setup : Pty → Act W Unit
  unfolding root_setup
  prompt_setup pty = do
    p ← set_ps1 c pty setup_prompt
    modify (λ s. record s { ps1_set = p })
    modify (λ s. record s { login_set = pos 1 })
    root_setup pty

  pub late_prompt_setup : Pty → Act W Unit
  unfolding root_setup
  late_prompt_setup pty = do
    p ← set_ps1 c pty setup_prompt
    modify (λ s. record s { login_set = p; ps1_set = p })
    root_setup pty

  -- Nothing has matched.
  gives_up : Act W Unit
  gives_up = do
    s ← gets (λ s. s)
    if s.setup_term_quiet == 0 then (do c.close; raise console_settings) else pure tt

  -- After a first timeout; the test for Petitboot, `rc == 6`, stands behind one that takes 6.
  pub second_try : Pty → Act W Unit
  unfolding login_setup late_prompt_setup gives_up
  second_try pty = do
    s ← gets (λ s. s)
    if in_os s.system_state then c.sendline pty "" else c.sendcontrol pty "l"
    rc ← c.expect pty second_patterns (some 30)
    if rc == 0
        then login_setup pty
        else if leb 1 rc && leb rc 6
        then late_prompt_setup pty
        else gives_up

  pub first_try : Pty → Act W Unit
  unfolding login_setup prompt_setup second_try
  first_try pty = do
    rc ← c.expect pty first_patterns (some 60)
    if rc == 0
        then login_setup pty
        else if leb 1 rc && leb rc 5
        then prompt_setup pty
        else if rc == 6
        then pure tt
        else if rc == 8
        then (do c.close; raise console_settings)
        else second_try pty

  -- `block` is the caller's flag.
  unfoldable pub setup_term : Pty → ℕ → Act W Unit
  unfolding first_try
  setup_term pty block = do
    s ← gets (λ s. s)
    if block == 1 then pure tt else if in_petitboot s.system_state then pure tt else first_try pty
