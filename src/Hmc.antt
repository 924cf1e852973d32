-- ===== src/Hmc.antt =====
-- The class HMCUtil of common/OpTestHMC.py: the states of a logical partition and of the managed
-- system, the commands that change them and the waiting for the change. The log is left out.
mod Tests
pub mod Wait
pub mod PowerOff
pub mod Migrate
use op_test.Prelude.{
  ℕ, zero, suc, Bool, true, false, Option, none, some, String, List, [], ◌∷◌, ◌||◌, not, str_eq,
  if◌then◌else◌,
}
use op_test.Exec.{Exec, pure, raise, modify, catching, ◌>>=◌, ◌>>◌}
use op_test.Exceptions.{OpException, op_test_error, index_error}
use op_test.Lines.{contains, joined, last}
use op_test.System.Power.{fw_success}

abbrev pub Op : Type 0 → Type 0 → Type 0
Op W A = Exec W OpException A

-- A console of an HMC, with the `run_command` of its ssh and the timeout of a command, in seconds
pub record Hmc (W : Type 0) : Type 0 where
  pub run_command : String → ℕ → Op W (List String)
  pub mg_system : String
  pub lpar_vios : Option String

-- The attributes of an HMCUtil that its commands use
pub record HmcUtil (W : Type 0) : Type 0 where
  pub own_hmc : Hmc W
  pub lpar_name : String
  pub lpar_prof : Option String
  pub sleep : ℕ → W → W

-- OpHmcState and OpManagedState
abbrev pub lpar_not_active : String
lpar_not_active = "Not Activated"

abbrev pub lpar_running : String
lpar_running = "Running"

abbrev pub lpar_not_available : String
lpar_not_available = "Not Available"

abbrev pub system_operating : String
system_operating = "Operating"

abbrev pub system_off : String
system_off = "Power Off"

-- "%s" of a name that may be None
abbrev pub shown : Option String → String
shown none = "None"
shown (some name) = name

-- A name that is None or empty is no name.
abbrev pub is_given : Option String → Bool
is_given none = false
is_given (some name) = not (str_eq name "")

-- `remote_hmc if remote_hmc else self`
abbrev pub used_hmc : {W : Type 0} → HmcUtil W → Option (Hmc W) → Hmc W
used_hmc u none = u.own_hmc
used_hmc u (some remote) = remote

-- `output[-1]`
abbrev pub last_line : {W : Type 0} → List String → Op W String
last_line output = elim (last output) [ none ↦ raise index_error | some line ↦ pure line ]

-- What a partition that is running is shown_state as: without a code, or with one of Linux, it runs.
abbrev pub shown_state : String → String → String
shown_state state ref_code =
    if str_eq state "Running"
    then (if contains "Linux" ref_code || str_eq ref_code "" then "Running" else "Booting")
    else state

-- The loop of the two waits over what reads the state: `more` rounds before the last one, at the end
-- of which the time is exceeded whatever it has read.
module _ {W : Type 0} (read : Op W String) (sleep : W → W) (exp_state : String) where
  unfoldable pub wait_rounds : ℕ → String → Op W Unit
  wait_rounds zero state =
      if str_eq state exp_state
      then pure tt
      else (read >>= (λ next. modify sleep >> raise op_test_error))
  wait_rounds (suc more) state =
      if str_eq state exp_state
      then pure tt
      else (read >>= (λ next. modify sleep >> wait_rounds more next))

  unfoldable pub wait_state : ℕ → Op W Unit
  wait_state more = read >>= wait_rounds more

module _ {W : Type 0} (u : HmcUtil W) where
  abbrev pub pause : ℕ → Op W Unit
  pause seconds = modify (u.sleep seconds)

  -- The partition that is meant, on the HMC that is used
  abbrev pub target : Bool → Option (Hmc W) → String
  target vios remote =
      let hmc = used_hmc u remote in if vios then shown hmc.lpar_vios else u.lpar_name

  unfoldable pub get_lpar_state : Bool → Option (Hmc W) → Op W String
  get_lpar_state vios remote = do
    let hmc = used_hmc u remote
    let name = target vios remote
    states ←
        hmc.run_command
          (joined (
            "lssyscfg -m " ∷ hmc.mg_system ∷ " -r lpar --filter lpar_names=" ∷ name ∷ " -F state"
            ∷ []))
          60
    state ← last_line states
    codes ←
        hmc.run_command
          (joined (
            "lsrefcode -m " ∷ hmc.mg_system ∷ " -r lpar --filter lpar_names=" ∷ name ∷ " -F refcode"
            ∷ []))
          60
    ref_code ← last_line codes
    pure (shown_state state ref_code)

  unfoldable pub get_system_state : Op W String
  get_system_state = do
    state ←
        u.own_hmc.run_command
          (joined ("lssyscfg -m " ∷ u.own_hmc.mg_system ∷ " -r sys -F state" ∷ [])) 60
    last_line state

  -- `count > 120` ends the waiting for a partition, with WAITTIME between the rounds.
  unfoldable pub wait_lpar_state : String → Bool → ℕ → Option (Hmc W) → Op W Unit
  wait_lpar_state exp_state vios timeout remote =
      wait_state (get_lpar_state vios remote) (u.sleep timeout) exp_state 120

  -- `count > 60` ends the waiting for a managed system, with SYS_WAITTIME between the rounds.
  unfoldable pub wait_system_state : String → ℕ → Op W Unit
  wait_system_state exp_state timeout = wait_state get_system_state (u.sleep timeout) exp_state 60

  -- `state in [OpHmcState.NOT_ACTIVE, OpHmcState.NA]`
  abbrev pub is_down : String → Bool
  is_down state = str_eq state lpar_not_active || str_eq state lpar_not_available

  -- chsysstate of the partition `name` with the operation `what`
  abbrev pub change_lpar : Hmc W → String → String → ℕ → Op W (List String)
  change_lpar hmc name what timeout =
      hmc.run_command
        (joined ("chsysstate -m " ∷ hmc.mg_system ∷ " -r lpar -n " ∷ name ∷ " -o " ∷ what ∷ []))
        timeout

  unfoldable pub poweroff_lpar : Option (Hmc W) → Op W Unit
  poweroff_lpar remote = do
    state ← get_lpar_state false remote
    if is_down state then pure tt else (do
      change_lpar (used_hmc u remote) u.lpar_name "shutdown --immed" 60
      wait_lpar_state lpar_not_active false 25 remote)

  -- `for i in range(12)` until the partition is not active
  pub shutdown_rounds : ℕ → Bool → Option (Hmc W) → Op W Unit
  shutdown_rounds zero vios remote = pure tt
  shutdown_rounds (suc rounds) vios remote = do
    new_state ← get_lpar_state vios remote
    if str_eq new_state lpar_not_active
        then pure tt
        else (do pause 5; shutdown_rounds rounds vios remote)

  -- The shutdown of a partition in error; what it raises is only logged.
  pub clear_error : Bool → Option (Hmc W) → Op W Unit
  unfolding shutdown_rounds
  clear_error vios remote =
      catching
        (do
          change_lpar (used_hmc u remote) (target vios remote) "shutdown --immed" 60
          pause 5
          shutdown_rounds 12 vios remote)
        (λ e. pure tt)

  -- The command that starts it, with its profile
  abbrev pub start_operation : String
  start_operation =
      if is_given u.lpar_prof then joined ("on -f " ∷ shown u.lpar_prof ∷ []) else "on"

  pub poweron_lpar : Bool → Option (Hmc W) → Op W ℕ
  unfolding clear_error
  poweron_lpar vios remote = do
    current_state ← get_lpar_state vios remote
    if str_eq current_state lpar_running then pure fw_success else (do
      if str_eq current_state "Error" then clear_error vios remote else pure tt
      get_lpar_state vios remote
      change_lpar (used_hmc u remote) (target vios remote) start_operation 60
      wait_lpar_state lpar_running vios 25 remote
      pause 5
      pure fw_success)

  -- A command to the partition of this HMC, unless it is down
  abbrev pub restarted_by : String → Op W Unit
  restarted_by what = do
    state ← get_lpar_state false none
    if is_down state then pure tt else (do
      change_lpar u.own_hmc u.lpar_name what 60
      wait_lpar_state lpar_running false 25 none)

  pub dumprestart_lpar : Op W Unit
  dumprestart_lpar = restarted_by "dumprestart"

  pub restart_lpar : Op W Unit
  restart_lpar = restarted_by "shutdown --immed --restart"

  abbrev pub change_system : String → Op W (List String)
  change_system what =
      u.own_hmc.run_command
        (joined ("chsysstate -m " ∷ u.own_hmc.mg_system ∷ " -r sys -o " ∷ what ∷ [])) 60

  pub poweroff_system : Op W Unit
  poweroff_system = do
    state ← get_system_state
    if not (str_eq state system_operating)
        then raise op_test_error
        else (do change_system "off"; wait_system_state system_off 200)

  pub poweron_system : Op W Unit
  unfolding poweron_lpar
  poweron_system = do
    state ← get_system_state
    if not (str_eq state system_off) then raise op_test_error else (do
      change_system "on"
      wait_system_state system_operating 200
      if is_given u.own_hmc.lpar_vios then (do poweron_lpar true none; pure tt) else pure tt)
