-- ===== src/System/Petitboot.antt =====
-- common/OpTestSystem.py: the way between the Petitboot menu and its shell.
pub mod Frame
use op_test.Prelude.{ℕ, zero, suc, Bool, true, false, some, [], ◌∷◌, ltb, ◌==◌, if◌then◌else◌}
use op_test.Exec.{pure, raise, gets, modify, catching, ◌>>=◌, ◌>>◌}
use op_test.Exceptions.{ℤ, pos, negsuc, petitboot_shell, console_settings, recover_failed}
use op_test.System.State.{OpTestSystem, Act, set_block, set_previous}
use op_test.System.Interface.{Platform, Pattern, on_shared}
use op_test.System.Power.{clear_state}

abbrev is_one : ℤ → Bool
is_one (pos n) = n == 1
is_one (negsuc n) = false

module _ {W : Type 0} (p : Platform W) where
  set_flags : ℤ → Act W Unit
  set_flags v =
      modify
        (λ s. record s { shared = record s.shared { ps1_set = v; sudo_set = v; login_set = v } })

  prompt_found : Act W Bool
  unfolding set_flags
  prompt_found = do
    ps1 ← gets (λ s. s.ps1_set)
    if is_one ps1 then pure tt else (on_shared p.set_ps1 >>= set_flags)
    set_block false
    set_previous petitboot_shell
    pure true

  -- `my_pp` is 1 or 0
  pub get_petitboot_prompt : Act W Bool
  unfolding prompt_found
  get_petitboot_prompt = do
    on_shared p.get_console
    on_shared (p.sendline "")
    pes_rc ← on_shared (
        p.expect (Pattern.text ".*#" ∷ Pattern.text ".*# $" ∷ Pattern.timeout ∷ Pattern.eof ∷ [])
          (some 10))
    if ltb pes_rc 2 then prompt_found else pure false

  -- `for i in range(3)` with its break
  try_shell : ℕ → Act W Bool
  try_shell zero = pure false
  try_shell (suc n) = do
    on_shared (p.send "x")
    pp ← get_petitboot_prompt
    if pp then pure true else try_shell n

  pub petitboot_exit_to_shell : Act W Unit
  unfolding try_shell
  petitboot_exit_to_shell = do
    on_shared p.get_console
    pp ← try_shell 3
    if pp then pure tt else raise console_settings

  try_exit : Act W Bool
  try_exit = do
    clear_state
    on_shared (p.sendline "")
    on_shared (p.sendline "exit")
    rc_return ←
        on_shared
          (p.expect (Pattern.text "Petitboot" ∷ Pattern.timeout ∷ Pattern.eof ∷ []) (some 10))
    pure (rc_return == 0)

  -- The second try, after a recovery; the caller drops what it raises.
  exit_again : Act W Unit
  unfolding try_exit
  exit_again = do
    on_shared (p.try_recover 3)
    on_shared p.get_console
    on_shared (p.sendline "")
    eps_rc ← try_exit
    if eps_rc then pure tt else raise recover_failed

  pub exit_petitboot_shell : Act W Unit
  unfolding exit_again
  exit_petitboot_shell = do
    on_shared p.get_console
    eps_rc ← try_exit
    if eps_rc then pure tt else catching exit_again (λ e. pure tt)
