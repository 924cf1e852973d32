-- ===== src/Hmc/Migrate.antt =====
-- The migration of a partition, class HMCUtil of common/OpTestHMC.py: `migrate_lpar`, `recover_lpar`
-- and `cross_hmc_migration`. The name of the managed system, which a migration changes, is state here.
pub mod Home
use op_test.Prelude.{
  ℕ, Bool, true, false, Option, none, some, String, List, [], ◌∷◌, ◌||◌, not, str_eq, if◌then◌else◌,
}
use op_test.Exec.{pure, raise, modify, catching, ◌>>=◌, ◌>>◌}
use op_test.Exceptions.{OpException, command_failed, op_test_error, index_error}
use op_test.Lines.{joined, is_listed}
use op_test.Hmc.{Op, Hmc, HmcUtil, used_hmc, shown, is_given}

pub record Migrating (W : Type 0) : Type 0 where
  pub mg_system : String
  pub world : W

-- `output[0]`
abbrev pub first_line : {W : Type 0} → List String → Op W String
first_line [] = raise index_error
first_line (x ∷ xs) = pure x

-- The states that a partition has on its way
abbrev pub is_migrating : String → Bool
is_migrating state = str_eq state "Migrating - Running" || str_eq state "Migrating - Not Activated"

-- "%s %s" with the options, where there are any
abbrev pub with_options : String → Option String → String
with_options command options =
    if is_given options then joined (command ∷ " " ∷ shown options ∷ []) else command

abbrev pub on_hmc : {W A : Type 0} → Op W A → Op (Migrating W) A
on_hmc op s = let (r, w) = op s.world in (r, record s { world = w })

module _ {W : Type 0} (u : HmcUtil W) where
  unfoldable pub is_lpar_in_managed_system : Option String → String → Option (Hmc W) → Op W Bool
  is_lpar_in_managed_system mg_system lpar_name remote = do
    lpar_list ←
        (used_hmc u remote).run_command
          (joined ("lssyscfg -r lpar -m " ∷ shown mg_system ∷ " -F name" ∷ [])) 60
    pure (is_listed lpar_name lpar_list)

  abbrev pub listed_at : String → Op W Bool
  listed_at system = is_lpar_in_managed_system (some system) u.lpar_name none

  -- The state of the partition at its destination
  abbrev pub state_at : String → Op W String
  state_at system = do
    output ←
        u.own_hmc.run_command
          (joined (
            "lssyscfg -m " ∷ system ∷ " -r lpar --filter lpar_names=" ∷ u.lpar_name ∷ " -F state"
            ∷ []))
          60
    first_line output

  -- migrlpar with the operation `mode`
  abbrev pub migrate_command : String → String → String → String → String
  migrate_command mode src dest param = joined (
      "migrlpar -o " ∷ mode ∷ " -m " ∷ src ∷ " -t " ∷ dest ∷ " -p " ∷ u.lpar_name ∷ " " ∷ param
      ∷ [])

  -- The validation, then the migration
  abbrev pub both_modes : String → String → Option String → String → ℕ → Op W (List String)
  both_modes src dest options param timeout = do
    u.own_hmc.run_command (with_options (migrate_command "v" src dest param) options) timeout
    u.own_hmc.run_command (with_options (migrate_command "m" src dest param) options) timeout

  pub recover_lpar : String → String → Bool → ℕ → Op W Bool
  recover_lpar src dest stop_lpm timeout = do
    if stop_lpm
        then u.own_hmc.run_command (joined ("migrlpar -o s -m " ∷ src ∷ " -p " ∷ u.lpar_name ∷ []))
            timeout
        else pure []
    u.own_hmc.run_command (joined ("migrlpar -o r -m " ∷ src ∷ " -p " ∷ u.lpar_name ∷ [])) timeout
    there ← listed_at dest
    pure (not there)

  -- What is found at the destination, where the partition is listed there
  unfoldable pub settle_migration : String → String → ℕ → Op (Migrating W) Bool
  unfolding recover_lpar
  settle_migration src dest timeout = do
    lpar_state ← on_hmc (state_at dest)
    if not (is_migrating lpar_state)
        then (do modify (λ s. record s { mg_system = dest }); pure true)
        else (do on_hmc (recover_lpar src dest true timeout); pure false)

  unfoldable pub migrate_between :
      String → String → Option String → String → ℕ → Op (Migrating W) Bool
  migrate_between src dest options param timeout = do
    here ← on_hmc (listed_at src)
    if not here then raise op_test_error else (do
      on_hmc (both_modes src dest options param timeout)
      on_hmc (modify (u.sleep timeout))
      there ← on_hmc (listed_at dest)
      if there then settle_migration src dest timeout else pure false)

  unfoldable pub migrate_lpar :
      Option String → Option String → Option String → String → ℕ → Op (Migrating W) Bool
  migrate_lpar (some src) (some dest) options param timeout =
      migrate_between src dest options param timeout
  migrate_lpar none dest options param timeout = raise op_test_error
  migrate_lpar (some src) none options param timeout = raise op_test_error

  -- `except CommandFailed` with its handler
  abbrev pub if_command_failed : {A : Type 0} → Op W A → OpException → Op W A
  if_command_failed handler (command_failed command output code) = handler
  if_command_failed handler e = raise e

  -- The key is tested, and made where the test fails.
  pub set_ssh_key_auth : String → String → String → Option (Hmc W) → Op W Unit
  set_ssh_key_auth ip user passwd remote = do
    let hmc = used_hmc u remote
    let who = joined ("mkauthkeys -u " ∷ user ∷ " --ip " ∷ ip ∷ [])
    catching (hmc.run_command (joined (who ∷ " --test" ∷ [])) 120)
        (if_command_failed (hmc.run_command (joined (who ∷ " --passwd " ∷ passwd ∷ [])) 120))
    pure tt

  abbrev pub cross_command : String → String → String → String → String → String → String
  cross_command mode src dest user ip param = joined (
      "migrlpar -o " ∷ mode ∷ " -m " ∷ src ∷ " -t " ∷ dest ∷ " -p " ∷ u.lpar_name ∷ " -u " ∷ user
      ∷ " --ip " ∷ ip ∷ " " ∷ param ∷ [])

  pub cross_hmc_between :
      String
      → String
      → String
      → String
      → String
      → Option (Hmc W)
      → Option String
      → String
      → ℕ
      → Op W Unit
  unfolding set_ssh_key_auth
  cross_hmc_between src dest ip user passwd remote options param timeout = do
    let hmc = used_hmc u remote
    here ← is_lpar_in_managed_system (some src) u.lpar_name remote
    if not here then raise op_test_error else (do
      set_ssh_key_auth ip user passwd remote
      hmc.run_command (with_options (cross_command "v" src dest user ip param) options) timeout
      hmc.run_command (with_options (cross_command "m" src dest user ip param) options) timeout
      pure tt)

  -- Without one of the names nothing is asked.
  pub cross_hmc_migration :
      Option String
      → Option String
      → Option String
      → Option String
      → Option String
      → Option (Hmc W)
      → Option String
      → String
      → ℕ
      → Op W Unit
  unfolding cross_hmc_between
  cross_hmc_migration (some src) (some dest) (some ip) (some user) (some passwd) remote options
        param timeout =
      cross_hmc_between src dest ip user passwd remote options param timeout
  cross_hmc_migration src dest ip user passwd remote options param timeout = raise op_test_error
