-- ===== src/System/Detect/Answers.antt =====
-- What `detect_target` may say of a host.
use op_test.Prelude.{
  Bool, true, false, Option, none, some, ◌≡◌, refl, ◌⊎◌, inl, inr, arith, ltb, ◌==◌, if◌then◌else◌,
  Bool-cases,
}
use op_test.Exec.{pure, ◌>>=◌}
use op_test.Exec.Post.{Post, Post-pure, Post-if, Post-bind, Returns}
use op_test.Exceptions.{OpSystemState, unknown, petitboot, petitboot_shell, os}
use op_test.System.State.{OpTestSystem, Act}
use op_test.System.Interface.{Platform}
use op_test.System.Callbacks.Raises.{Any, Any-Keeps}
use op_test.System.Detect.{
  same_state, has_shell, reboot_for, at_menu, leave_shell, shell_with_reboot, shell_without_reboot,
  at_shell, at_login, console_detect, use_ssh, detect_target,
}

-- The target or UNKNOWN
abbrev pub IsAnswer : {W : Type 0} → OpSystemState → OpSystemState → OpTestSystem W → Type 0
IsAnswer target st s = (st ≡ target) ⊎ (st ≡ unknown)

same_state-eq : (a b : OpSystemState) → same_state a b ≡ true → a ≡ b
same_state-eq a b h = ground arith

module _ {W : Type 0} (p : Platform W) where
  abbrev Answers : OpSystemState → Act W OpSystemState → Type 0
  Answers target m = Post Any (IsAnswer target) m

  reached : (target : OpSystemState) → Answers target (pure target)
  reached target = Post-pure target (λ s h. inl refl)

  lost : (target : OpSystemState) → Answers target (pure unknown)
  lost target = Post-pure unknown (λ s h. inr refl)

  after :
      {A : Type 0} (target : OpSystemState) (m : Act W A) (f : A → Act W OpSystemState)
      → ((a : A) → Answers target (f a))
      → Answers target (m >>= f)
  after target m f h = Post-bind m f (Any-Keeps m) h

  rebooted : (target : OpSystemState) → Answers target (reboot_for p target)
  unfolding reboot_for
  rebooted target = after target _ _ (λ a. lost target)

  left : Answers petitboot (leave_shell p)
  unfolding leave_shell
  left = after petitboot _ _ (λ a. reached petitboot)

  at_menu-Answers :
      (target : OpSystemState) (reboot : Bool) → Answers target (at_menu p target reboot)
  unfolding at_menu
  at_menu-Answers petitboot reboot = reached petitboot
  at_menu-Answers petitboot_shell reboot = after petitboot_shell _ _ (λ a. reached petitboot_shell)
  at_menu-Answers os true = after os _ _ (λ a. rebooted os)
  at_menu-Answers target reboot = lost target

  with_reboot-Answers :
      (target found : OpSystemState) → Answers target (shell_with_reboot p target found)
  unfolding shell_with_reboot
  with_reboot-Answers os found = rebooted os
  with_reboot-Answers petitboot petitboot_shell = left
  with_reboot-Answers petitboot found = rebooted petitboot
  with_reboot-Answers petitboot_shell found = rebooted petitboot_shell
  with_reboot-Answers target found = lost target

  without_reboot-Answers :
      (target found : OpSystemState) → Answers target (shell_without_reboot p target found)
  unfolding shell_without_reboot
  without_reboot-Answers petitboot petitboot_shell = left
  without_reboot-Answers petitboot_shell found = reached petitboot_shell
  without_reboot-Answers target found = lost target

  -- A state that is compared with the target
  compared :
      (target found : OpSystemState) (same other : Act W OpSystemState)
      → (found ≡ target → Answers target same)
      → Answers target other
      → Answers target (if same_state found target then same else other)
  compared target found same other hy hn = elim (Bool-cases (same_state found target)) [
    | inl e ↦ simp e (hy (same_state-eq found target e))
    | inr e ↦ simp e hn
  ]

  at_shell-Answers :
      (target : OpSystemState) (reboot : Bool) → Answers target (at_shell p target reboot)
  unfolding at_shell
  at_shell-Answers target reboot = after target _ _ (λ found.
      compared target found _ _ (λ e. after target _ _ (λ a. Post-pure found (λ s h. inl e)))
        (Post-if reboot _ _ (with_reboot-Answers target found)
          (without_reboot-Answers target found)))

  at_login-Answers :
      (target : OpSystemState) (reboot : Bool) → Answers target (at_login p target reboot)
  unfolding at_login
  at_login-Answers os reboot = reached os
  at_login-Answers petitboot true = rebooted petitboot
  at_login-Answers petitboot_shell true = rebooted petitboot_shell
  at_login-Answers target reboot = lost target

  console_detect-Answers :
      (target : OpSystemState) (reboot : Bool) → Answers target (console_detect p target reboot)
  unfolding console_detect
  console_detect-Answers target reboot = after target _ _ (λ a. after target _ _ (λ s.
      after target _ _ (λ b. after target _ _ (λ r.
        Post-if (ltb r 2) _ _ (at_menu-Answers target reboot) (
          Post-if (ltb r 4) _ _ (at_shell-Answers target reboot)
            (Post-if (r == 4) _ _ (at_login-Answers target reboot) (lost target)))))))

  use_ssh-Answers :
      (target : OpSystemState) (reboot : Bool) (found : Option OpSystemState)
      → Answers target (use_ssh p target reboot found)
  unfolding use_ssh
  use_ssh-Answers os true (some petitboot_shell) = rebooted os
  use_ssh-Answers petitboot_shell true (some os) = rebooted petitboot_shell
  use_ssh-Answers petitboot_shell false (some os) = lost petitboot_shell
  use_ssh-Answers target reboot none = console_detect-Answers target reboot
  use_ssh-Answers target reboot (some st) =
      compared target st _ _ (λ e. Post-pure st (λ s h. inl e))
        (console_detect-Answers target reboot)

  -- Whatever the host shows, with a reboot left or none, `detect_target` returns, if it raises no
  -- exception, its target or UNKNOWN.
  pub detect_target-IsAnswer :
      (target : OpSystemState) (reboot : Bool) (s : OpTestSystem W)
      → Returns
          (IsAnswer target)
          (detect_target p target reboot s).0
          (detect_target p target reboot s).1
  unfolding detect_target
  detect_target-IsAnswer target reboot s =
      (Post-if (has_shell target) _ _ (after target _ _ (use_ssh-Answers target reboot))
          (console_detect-Answers target reboot)).at
        s tt
