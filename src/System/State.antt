-- ===== src/System/State.antt =====
-- The attributes of class OpTestSystem (common/OpTestSystem.py) that its methods read and write.
use op_test.Prelude.{ℕ, Bool, true, false, Option, none, some, String, List}
use op_test.Exec.{Exec, modify}
use op_test.Exceptions.{OpSystemState, ℤ, negsuc, OpException}

-- What the console code and the BMC code reach: they hold a reference to the system, so that they
-- may set its state (the failure callback of OPexpect.py), the flags of the terminal, and the flag
-- that blocks the set-up of the terminal. `world` is all that is outside the program.
pub record Shared (W : Type 0) : Type 0 where
  pub world : W
  pub state : OpSystemState
  pub block_setup_term : Bool
  pub ps1_set : ℤ
  pub sudo_set : ℤ
  pub login_set : ℤ

-- isinstance tests on `self.console`
pub data ConsoleKind : Type 0 where
  ipmi ssh qemu mambo hmc : ConsoleKind

abbrev pub is_hmc : ConsoleKind → Bool
is_hmc hmc = true
is_hmc _ = false

pub record OpTestSystem (W : Type 0) : Type 0 where
  pub shared : Shared W
  pub open shared use *
  pub console_kind : ConsoleKind
  -- what `cronus_capable()` returns, and both flags of conf.cronus
  pub cronus_capable : Bool
  pub env_ready : Bool
  pub cronus_ready : Bool
  pub previous_state : Option OpSystemState
  pub target_state : Option OpSystemState
  pub detect_counter : ℕ
  pub never_rebooted : Bool
  pub stop : Bool
  pub ignore : Bool
  pub ipl_watermark : ℕ
  pub ipl_timeout : ℕ
  pub booting_watermark : ℕ
  pub booting_timeout : ℕ
  pub kill_cord : ℕ
  pub threshold_petitboot : ℕ
  pub threshold_login : ℕ
  pub petitboot_kicker : Bool
  pub petitboot_refresh : Bool
  pub petitboot_reconnect : Bool
  pub login_refresh : Bool
  pub login_reconnect : Bool
  pub login_fresh_start : Bool
  pub ipmi_drivers_loaded : Bool
  pub nvram_debug_opts : Option (List String)

abbrev pub Act : Type 0 → Type 0 → Type 0
Act W A = Exec (OpTestSystem W) OpException A

-- `__init__`: both branches of the test for an IPMIConsole set the same tunables.
unfoldable pub init : {W : Type 0} → W → ConsoleKind → OpSystemState → OpTestSystem W
init w kind state = record {
  shared = record {
    world = w;
    state = state;
    block_setup_term = false;
    ps1_set = negsuc 0;
    sudo_set = negsuc 0;
    login_set = negsuc 0;
  };
  console_kind = kind;
  cronus_capable = false;
  env_ready = false;
  cronus_ready = false;
  previous_state = none;
  target_state = none;
  detect_counter = 0;
  never_rebooted = true;
  stop = false;
  ignore = false;
  ipl_watermark = 100;
  ipl_timeout = 4;
  booting_watermark = 100;
  booting_timeout = 5;
  kill_cord = 102;
  threshold_petitboot = 12;
  threshold_login = 12;
  petitboot_kicker = false;
  petitboot_refresh = false;
  petitboot_reconnect = true;
  login_refresh = false;
  login_reconnect = true;
  login_fresh_start = false;
  ipmi_drivers_loaded = false;
  nvram_debug_opts = none;
}

module _ {W : Type 0} where
  -- self.block_setup_term = flag
  unfoldable pub set_block : Bool → Act W Unit
  set_block b = modify (λ s. record s { shared = record s.shared { block_setup_term = b } })

  -- self.state = state
  unfoldable pub set_state : OpSystemState → Act W Unit
  set_state st = modify (λ s. record s { shared = record s.shared { state = st } })

  -- self.previous_state = state
  unfoldable pub set_previous : OpSystemState → Act W Unit
  set_previous st = modify (λ s. record s { previous_state = some st })

  -- self.stop = 1
  unfoldable pub set_stop : Act W Unit
  set_stop = modify (λ s. record s { stop = true })

  -- self.ignore = 0
  unfoldable pub reset_ignore : Act W Unit
  reset_ignore = modify (λ s. record s { ignore = false })
