-- ===== src/System/Petitboot/Frame.antt =====
-- The Petitboot methods keep every stable predicate.
use op_test.Prelude.{ℕ, zero, suc, true}
use op_test.Exec.{◌>>=◌}
use op_test.Exec.Keeps.{Keeps, Keeps-bind, Keeps-if, Keeps-pure}
use op_test.Exceptions.{ℤ}
use op_test.System.State.{OpTestSystem}
use op_test.System.Interface.{Platform}
use op_test.System.Frame.{Stable, on_shared-Keeps, primitive_rules}
use op_test.System.Petitboot.{
  set_flags, prompt_found, get_petitboot_prompt, try_shell, petitboot_exit_to_shell, try_exit,
  exit_again, exit_petitboot_shell,
}

module _ {W : Type 0} (p : Platform W) {P : OpTestSystem W → Type 0} (k : Stable P) where
  set_flags-Keeps : (v : ℤ) → Keeps P (set_flags p v)
  unfolding set_flags ◌>>=◌
  set_flags-Keeps v = record { at = λ s h. k.shared s _ h }

  prompt_found-Keeps : Keeps P (prompt_found p)
  unfolding prompt_found
  prompt_found-Keeps = search (primitive_rules, k, set_flags-Keeps) depth 12

  pub get_petitboot_prompt-Keeps : Keeps P (get_petitboot_prompt p)
  unfolding get_petitboot_prompt
  get_petitboot_prompt-Keeps = search (primitive_rules, k, prompt_found-Keeps) depth 12

  try_shell-Keeps : (n : ℕ) → Keeps P (try_shell p n)
  unfolding try_shell
  try_shell-Keeps zero = search primitive_rules
  try_shell-Keeps (suc n) = Keeps-bind _ _ (on_shared-Keeps k _) (λ _.
      Keeps-bind _ _ get_petitboot_prompt-Keeps
        (λ pp. Keeps-if pp _ _ (Keeps-pure true) (try_shell-Keeps n)))

  pub petitboot_exit_to_shell-Keeps : Keeps P (petitboot_exit_to_shell p)
  unfolding petitboot_exit_to_shell
  petitboot_exit_to_shell-Keeps = search (primitive_rules, k, try_shell-Keeps) depth 12

  try_exit-Keeps : Keeps P (try_exit p)
  unfolding try_exit
  try_exit-Keeps = search (primitive_rules, k) depth 12

  exit_again-Keeps : Keeps P (exit_again p)
  unfolding exit_again
  exit_again-Keeps = search (primitive_rules, k, try_exit-Keeps) depth 12

  pub exit_petitboot_shell-Keeps : Keeps P (exit_petitboot_shell p)
  unfolding exit_petitboot_shell
  exit_petitboot_shell-Keeps =
      search (primitive_rules, k, try_exit-Keeps, exit_again-Keeps) depth 12

pub ruleset petitboot_rules =
    (get_petitboot_prompt-Keeps, petitboot_exit_to_shell-Keeps, exit_petitboot_shell-Keeps)
