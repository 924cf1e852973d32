-- ===== src/System/Interface.antt =====
-- What OpTestSystem asks of its console, of the terminal code and of the BMC. The methods that
-- implement it are in common/OpTestIPMI.py, OpTestSSH.py, OpTestHMC.py, OPexpect.py and OpTestUtil.py,
-- one implementation to a platform, so it is a record of actions on the attributes that they share
-- with the system.
use op_test.Prelude.{ℕ, Bool, Option, String, List}
use op_test.Exec.{Exec}
use op_test.Exceptions.{OpException, ℤ}
use op_test.System.State.{Shared, Act}

-- The entries of the list that `expect` is given.
pub data Pattern : Type 0 where
  timeout eof : Pattern
  text : String → Pattern

abbrev pub Op : Type 0 → Type 0 → Type 0
Op W A = Exec (Shared W) OpException A

pub record Platform (W : Type 0) : Type 0 where
  -- self.console and its pty; `expect` without a timeout has pexpect's default
  pub connect : Op W Unit
  pub get_console : Op W Unit
  pub close : Op W Unit
  pub send : String → Op W Unit
  pub sendline : String → Op W Unit
  pub sendcontrol : String → Op W Unit
  pub expect : List Pattern → Option ℕ → Op W ℕ
  -- self.expect_prompt
  pub expect_prompt : String
  -- pty.before, pty.after
  pub before : Op W String
  pub after : Op W String
  -- int(s.splitlines()[-1]), none where that raises
  pub last_line_int : String → Option ℤ
  pub enable_setup_term_quiet : Op W Unit
  pub disable_setup_term_quiet : Op W Unit
  -- self.util; `check_nvram_options` gives the new self.conf.nvram_debug_opts
  pub set_ps1 : Op W ℤ
  pub try_recover : ℕ → Op W Unit
  pub check_nvram_options : Op W (Option (List String))
  -- self.cv_HOST: `OS` in the output, `PETITBOOT` in it, for a command that succeeds
  pub ssh_is_alive : Op W Bool
  pub ssh_probe : Op W (Bool × Bool)
  pub hmc_probe : Op W (Bool × Bool)
  -- self.cv_HOST.ssh.state = DISCONNECTED
  pub ssh_disconnected : Op W Unit
  -- self.cv_IPMI; the results are the numbers FW_SUCCESS and the like
  pub ipmi_sdr_clear : Op W ℕ
  pub ipmi_power_on : Op W ℕ
  pub ipmi_power_off : Op W Unit
  pub ipmi_set_boot_to_petitboot : Op W Unit
  pub ipmi_set_no_override : Op W Unit
  pub ipmi_wait_for_standby_state : ℕ → Op W ℕ
  pub ipmi_sel_check : Op W ℕ
  pub ipmi_sel_elist : Op W Unit
  -- HMCConsole.poweron_lpar, and one attempt of the SSH polling of `run_BOOTING`: the index that
  -- `expect` returned
  pub poweron_lpar : Op W ℕ
  pub ssh_boot_attempt : Op W ℕ
  -- time.time() - start_time < max_wait
  pub within : ℕ → Op W Bool

-- An operation changes only what is shared.
module _ {W A : Type 0} where
  unfoldable pub on_shared : Op W A → Act W A
  on_shared op s = let (r, sh) = op s.shared in (r, record s { shared = sh })
