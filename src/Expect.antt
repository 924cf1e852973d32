-- ===== src/Expect.antt =====
-- `expect` of common/OPexpect.py: pexpect's, with fourteen patterns of its own before the caller's that
-- say that the kernel or the firmware has failed, and the failure callback of the consoles. pexpect is
-- a parameter. The log that the exceptions carry is left out; what reads it and may raise is not.
mod Tests
pub mod Outcome
pub mod Reports
pub mod Crash
pub mod Skiboot
use op_test.Prelude.{
  ℕ, zero, suc, ◌-◌, Bool, ◌&&◌, ◌||◌, Option, none, some, String, List, [], ◌∷◌, ◌++◌, length, leb,
  ◌==◌, if◌then◌else◌,
}
use op_test.Exec.{Exec, pure, raise, gets, modify, catching, ◌>>=◌, ◌>>◌}
use op_test.Exceptions.{
  OpSystemState, unknown_bad, OpException, negsuc, command_failed, kernel_soft_lockup,
  kernel_hard_lockup, kernel_oops, kernel_kdump, kernel_fadump, kernel_crash_unknown, kernel_bug,
  kernel_panic, skiboot_assert, skiboot_exception, platform_error, type_error, pexpect_timeout,
}
use op_test.System.Interface.{Pattern, timeout, text}

-- `after` is the text that matched, or the class of the TIMEOUT or EOF that did.
pub data After : Type 0 where
  matched : String → After
  marker : After

-- pexpect.spawn: `expect` without a timeout has pexpect's default.
pub record Pexpect (W : Type 0) : Type 0 where
  pub expect : List Pattern → Option ℕ → Exec W OpException ℕ
  pub before : Exec W OpException String
  pub after : Exec W OpException After

-- What `expect` may write: the state of the system, by the failure callback, and what is outside.
pub record Session (W : Type 0) : Type 0 where
  pub system_state : OpSystemState
  pub world : W

abbrev pub Act : Type 0 → Type 0 → Type 0
Act W A = Exec (Session W) OpException A

-- `pattern` is a list or one entry.
pub data Wanted : Type 0 where
  many : List Pattern → Wanted
  one : Pattern → Wanted

abbrev pub listed : Wanted → List Pattern
listed (many ps) = ps
listed (one p) = p ∷ []

abbrev pub op_patterns : List Pattern
op_patterns =
    text "qemu: could find kernel"
    ∷ text "INFO: rcu_sched self-detected stall on CPU"
    ∷ text "kernel BUG at"
    ∷ text "Kernel panic"
    ∷ text "Watchdog .* Hard LOCKUP"
    ∷ text "Oops: Kernel access of bad area"
    ∷ text "watchdog: .* detected hard LOCKUP on other CPUs"
    ∷ text "Watchdog .* detected Hard LOCKUP other CPUS"
    ∷ text "watchdog: BUG: soft lockup"
    ∷ text "\\[[0-9. ]+,0\\] Assert fail:"
    ∷ text "\\[[0-9. ]+,[0-9]\\] Unexpected exception"
    ∷ text "OPAL exiting with locks held"
    ∷ text "LOCK ERROR: Releasing lock we don't hold"
    ∷ text "OPAL: Reboot requested due to Platform error."
    ∷ []

abbrev pub crash_patterns : List Pattern
crash_patterns =
    text "INFO: rcu_sched self-detected stall on CPU"
    ∷ text "Watchdog .* Hard LOCKUP"
    ∷ text "Sending IPI to other CPUs"
    ∷ text ":mon>"
    ∷ text "Rebooting in \\d+ seconds"
    ∷ text "Kernel panic - not syncing: Fatal exception"
    ∷ text "Kernel panic - not syncing: Hard LOCKUP"
    ∷ text "opal_cec_reboot2"
    ∷ timeout
    ∷ []

abbrev pub skiboot_patterns : List Pattern
skiboot_patterns = text "boot_entry.*\r\n" ∷ text "Initiated MPIPL" ∷ timeout ∷ []

-- `l in [2, 3, 4, 7]`, and the loop's own `l != 8`
abbrev pub ends_crash : ℕ → Bool
ends_crash l = (l == 2) || (l == 3) || (l == 4) || (l == 7) || (l == 8)

-- What is raised for a kernel failure; none where no test holds.
abbrev pub kernel_error : ℕ → ℕ → Option OpSystemState → Option OpException
kernel_error r l state =
    if (r == 1) || (r == 8)
    then some (kernel_soft_lockup state)
    else if r == 2
    then some (kernel_bug state)
    else if (r == 4) || (r == 6) || (r == 7)
    then some (kernel_hard_lockup state)
    else if (r == 3) && (l == 2)
    then some (kernel_kdump state)
    else if (r == 3) && (l == 7)
    then some (kernel_fadump state)
    else if r == 3
    then some (kernel_panic state)
    else if r == 5
    then some (kernel_oops state)
    else if l == 8
    then some (kernel_crash_unknown state)
    else none

module _ {W : Type 0} where
  unfoldable pub on_world : {A : Type 0} → Exec W OpException A → Act W A
  on_world op s = let (r, w) = op s.world in (r, record s { world = w })

  -- set_system_to_UNKNOWN_BAD
  unfoldable pub set_system_to_unknown_bad : Act W OpSystemState
  unfolding ◌>>=◌
  set_system_to_unknown_bad = do
    s ← gets (λ x. x.system_state)
    modify (λ x. record x { system_state = unknown_bad })
    pure s

  -- `if self.failure_callback`
  unfoldable pub call_back : Option (Act W OpSystemState) → Act W (Option OpSystemState)
  unfolding ◌>>=◌
  call_back none = pure none
  call_back (some callback) = do state ← callback; pure (some state)

  unfoldable pub raise_some : Option OpException → Act W Unit
  raise_some none = pure tt
  raise_some (some e) = raise e

-- `str + self.after`
text_of : {W : Type 0} → After → Act W String
text_of (matched t) = pure t
text_of marker = raise type_error

module _ {W : Type 0} (px : Pexpect W) where
  -- `log + self.before + self.after`
  add_log : Act W Unit
  unfolding text_of
  add_log = do on_world px.before; after ← on_world px.after; text_of after; pure tt

  -- The loop that reads the kernel's last words, on fuel; `stuck` is what follows when it runs out.
  -- `str(self.after)` does not raise.
  pub crash_log : Act W ℕ → ℕ → Act W ℕ
  crash_log stuck zero = stuck
  crash_log stuck (suc rounds) = do
    l ← on_world (px.expect crash_patterns (some 15))
    on_world px.before
    on_world px.after
    if ends_crash l then pure l else crash_log stuck rounds

  pub kernel_failed : Act W ℕ → ℕ → ℕ → Option OpSystemState → Act W Unit
  unfolding crash_log
  kernel_failed stuck rounds r state =
      if leb 1 r && leb r 8
      then (do l ← crash_log stuck rounds; raise_some (kernel_error r l state))
      else pure tt

  pub skiboot_failed : ℕ → Option OpSystemState → Act W Unit
  unfolding add_log
  skiboot_failed r state =
      if leb 9 r && leb r 12
      then (do
        on_world (px.expect skiboot_patterns (some 10))
        add_log
        if r == 10 then raise (skiboot_exception state) else raise (skiboot_assert state))
      else pure tt

  abbrev marked : String → ℕ → Act W Unit
  marked what seconds = do on_world (px.expect (text what ∷ []) (some seconds)); add_log

  -- `except pexpect.TIMEOUT`
  abbrev pub pass_timeout : OpException → Act W Unit
  pass_timeout pexpect_timeout = pure tt
  pass_timeout e = raise e

  -- What Hostboot says of the checkstop, as far as it comes in time
  hostboot_log : Act W Unit
  hostboot_log =
      catching
        (do
          marked "================================================" 120
          marked "System checkstop occurred during runtime on previous boot" 30
          marked "================================================" 60
          marked "ISTEP" 20)
        pass_timeout

  pub checkstopped : ℕ → Option OpSystemState → Act W Unit
  unfolding hostboot_log
  checkstopped r state =
      if r == 13 then (do add_log; hostboot_log; raise (platform_error state)) else pure tt

  -- `r` is an index into the list, so that the test for EOF and TIMEOUT, which compares it with two
  -- classes, never holds.
  pub expect : String → Option (Act W OpSystemState) → Act W ℕ → ℕ → Wanted → Option ℕ → Act W ℕ
  unfolding kernel_failed skiboot_failed checkstopped
  expect command failure_callback stuck rounds pattern limit = do
    r ← on_world (px.expect (op_patterns ++ listed pattern) limit)
    if r == 0
        then raise (command_failed command ("qemu: could find kernel" ∷ []) (negsuc 0))
        else (do
          state ← (if leb r 13 then call_back failure_callback else pure none)
          kernel_failed stuck rounds r state
          skiboot_failed r state
          checkstopped r state
          pure (r - length op_patterns))
