-- ===== src/Terminal/Prompt.antt =====
-- `set_PS1` of common/OpTestUtil.py, which sets the prompt that the commands wait for, with the
-- recovery of the console in it, and `get_versions`. The log is left out.
pub mod Again
use op_test.Prelude.{
  ℕ, Bool, true, false, Option, none, some, String, List, [], ◌∷◌, ◌==◌, if◌then◌else◌,
}
use Prim.Native.String.{◌++◌ as append}
use op_test.Exec.{pure, raise, gets, modify, catching, ◌>>=◌, ◌>>◌}
use op_test.Exceptions.{OpException, ℤ, pos, negsuc, recover_failed, console_settings, type_error}
use op_test.Lines.{buffer_lines, some_contained}
use op_test.Terminal.State.{Terminal, Act, Console, pause, await, send_wait}
use op_test.Terminal.Recover.{try_recover}

abbrev pub missing : List String
missing = "No such file or directory" ∷ "not found" ∷ []

-- The versions that are stored
abbrev pub versions_of : List String → List String
versions_of ls = if some_contained missing ls then "Firmware Versions Unavailable" ∷ [] else ls

abbrev pub built : Option String → Bool → String
built (some p) ssh = p
built none true = "\\[ssh-expect\\]#"
built none false = "\\[console-expect\\]#"

-- `build_prompt`: an empty prompt is none.
abbrev pub build_prompt : Option String → Bool → String
build_prompt (some String.[]) ssh = built none ssh
build_prompt prompt ssh = built prompt ssh

module _ {W Pty : Type 0} (c : Console W Pty) where
  unfoldable pub ask_versions : Pty → String → Act W Unit
  ask_versions pty expect_prompt = do
    c.sendline pty "date"
    await c pty expect_prompt 10
    send_wait c pty "lsprop /sys/firmware/devicetree/base/ibm,firmware-versions" 1000
    rc ← await c pty expect_prompt 10
    if rc == 0
        then (do
          before ← c.before pty
          modify (λ s. record s { firmware_versions = some (versions_of (buffer_lines before)) }))
        else pure tt

  -- `firmware_versions is None`
  abbrev pub unless_known : Pty → String → Option (List String) → Act W Unit
  unless_known pty expect_prompt (some versions) = pure tt
  unless_known pty expect_prompt none = ask_versions pty expect_prompt

  unfoldable pub get_versions : Pty → String → Act W Unit
  unfolding ask_versions
  get_versions pty expect_prompt = do
    s ← gets (λ s. s)
    unless_known pty expect_prompt (s.firmware_versions)

  -- ConsoleSettings, or where the terminal is quiet its setup is abandoned
  unfoldable pub unsettled : Act W ℤ
  unfolding ◌>>=◌
  unsettled = do
    s ← gets (λ s. s)
    if s.setup_term_quiet == 0
        then raise console_settings
        else (do modify (λ s. record s { setup_term_disable = 1 }); pure (negsuc 0))

  -- What is sent while the answers are read
  unfoldable pub first_setting : Pty → String → Act W Unit
  first_setting pty prompt = do
    send_wait c pty "which bash && exec bash --norc --noprofile" 200
    send_wait c pty (append "PS1=" prompt) 200
    await c pty prompt 10
    send_wait c pty "which stty && stty cols 300;which stty && stty rows 30" 200
    await c pty prompt 10
    if c.disable_stty_echo
        then (do send_wait c pty "which stty && stty -echo" 200; await c pty prompt 10; pure tt)
        else pure tt
    c.sendline pty "export LANG=C"
    await c pty prompt 10
    pause c 200

  -- What is sent after a recovery
  unfoldable pub second_setting : Pty → String → Act W Unit
  second_setting pty prompt = do
    send_wait c pty "which bash && exec bash --norc --noprofile" 200
    send_wait c pty (append "PS1=" prompt) 200
    send_wait c pty "which stty && stty cols 300;which stty && stty rows 30" 200
    send_wait c pty "export LANG=C" 200

  -- An empty line, and the prompt after it
  unfoldable pub prompt_shown : Pty → String → Act W ℕ
  prompt_shown pty prompt = do send_wait c pty "" 200; await c pty (append prompt "$") 10

  -- `term_obj.set_system_setup_term(1)` and `term_obj.set_block_setup_term(1)`
  unfoldable pub block_setup : Act W Unit
  block_setup = do
    s ← gets (λ s. s)
    if s.setters_lost
        then raise type_error
        else modify (λ s. record s { system_block = 1; console_block = some 1 })

  -- The body of the `try`: the two methods are assigned to, not called, so that the blocks stay.
  unfoldable pub set_again : String → Act W ℤ
  unfolding second_setting prompt_shown block_setup
  set_again prompt = do
    block_setup
    try_recover c 3
    pty ← c.connect
    modify (λ s. record s { setters_lost = true })
    second_setting pty prompt
    rc ← prompt_shown pty prompt
    if rc == 0 then (do get_versions pty (append prompt "$"); pure (pos 1)) else unsettled

  -- `except RecoverFailed`
  abbrev pub recovery_failed : OpException → Act W ℤ
  recovery_failed recover_failed = unsettled
  recovery_failed e = raise e

  unfoldable pub set_ps1 : Pty → String → Act W ℤ
  unfolding first_setting prompt_shown set_again
  set_ps1 pty prompt = do
    s ← gets (λ s. s)
    if s.setup_term_disable == 1 then pure (negsuc 0) else (do
      first_setting pty prompt
      rc ← prompt_shown pty prompt
      if rc == 0
          then (do get_versions pty (append prompt "$"); pure (pos 1))
          else (do c.close; catching (set_again prompt) recovery_failed))
