-- ===== src/Hmc/Tests.antt =====
-- HMCs that answer, and the theorems on the shutdown applied to them.
use op_test.Prelude.{
  ℕ, Bool, true, zero, suc, ◌≡◌, refl, false, none, some, String, List, [], ◌∷◌, ◌||◌, ◌&&◌, str_eq,
  if◌then◌else◌,
}
use op_test.Exec.{ok, err, ◌>>=◌}
use op_test.Exceptions.{op_test_error}
use op_test.Lines.{contains}
use op_test.Hmc.{
  Op, Hmc, HmcUtil, lpar_not_active, system_operating, system_off, get_lpar_state, get_system_state,
  is_down, poweroff_lpar, poweroff_system, shown_state,
}
use op_test.Hmc.Wait.{Timeline, seen, reached}
use op_test.Exec.Triple.{Ends}
use op_test.Hmc.Migrate.{
  is_lpar_in_managed_system, listed_at, settle_migration, migrate_between, migrate_lpar,
}
use op_test.Hmc.Migrate.Home.{TrueListing, IsHome, Moved, migrate_lpar-Moved}
use op_test.Hmc.PowerOff.{poweroff_lpar_outcome, poweroff_system_outcome}

abbrev falling : ℕ → String
falling zero = "Running"
falling (suc zero) = "Shutting Down"
falling (suc (suc n)) = "Not Activated"

-- The world is the number of readings of the reference code.
abbrev lpar_run : String → ℕ → Op ℕ (List String)
lpar_run command timeout w =
    if contains "lssyscfg" command
    then (ok (falling w ∷ []), w)
    else if contains "lsrefcode" command
    then (ok ("" ∷ []), suc w)
    else (ok [], w)

abbrev lpar_hmc : Hmc ℕ
lpar_hmc = record { run_command = lpar_run; mg_system = "m"; lpar_vios = none }

abbrev lpar_util : HmcUtil ℕ
lpar_util = record {
  own_hmc = lpar_hmc;
  lpar_name = "l";
  lpar_prof = some "p";
  sleep = λ seconds w. w;
}

falling-Timeline : Timeline (get_lpar_state lpar_util false none) (λ w. w) falling (λ w. w)
unfolding get_lpar_state ◌>>=◌
falling-Timeline = record { reads = each; pauses = λ w. refl }
  where
    each :
        (w : ℕ)
        → (v : ℕ) × (get_lpar_state lpar_util false none w ≡ (ok (falling w), v)) × (v ≡ suc w)
    each zero = (1, refl, refl)
    each (suc zero) = (2, refl, refl)
    each (suc (suc n)) = (suc (suc (suc n)), refl, refl)

poweroff_lpar_outcome_example :
    (poweroff_lpar lpar_util none 0).0
    ≡ reached (is_down lpar_util (falling 0) || seen lpar_not_active falling 1 121)
poweroff_lpar_outcome_example =
    poweroff_lpar_outcome lpar_util falling (λ w. w) none falling-Timeline
      (record { taken = λ w. ([], w, refl, refl) }) 0

-- It is off in time.
off_in_time : reached (is_down lpar_util (falling 0) || seen lpar_not_active falling 1 121) ≡ ok tt
off_in_time = refl

-- The managed system of the same kind; the world is the number of readings.
abbrev stopping : ℕ → String
stopping zero = "Operating"
stopping (suc zero) = "Power Off In Progress"
stopping (suc (suc n)) = "Power Off"

abbrev system_util : HmcUtil ℕ
system_util = record lpar_util {
  own_hmc = record lpar_hmc {
    run_command = λ command timeout w.
        if contains "lssyscfg" command then (ok (stopping w ∷ []), suc w) else (ok [], w);
  };
}

stopping-Timeline : Timeline (get_system_state system_util) (λ w. w) stopping (λ w. w)
unfolding get_system_state ◌>>=◌
stopping-Timeline = record { reads = λ w. (suc w, refl, refl); pauses = λ w. refl }

poweroff_system_outcome_example :
    (poweroff_system system_util 0).0
    ≡ reached (str_eq (stopping 0) system_operating && seen system_off stopping 1 61)
poweroff_system_outcome_example =
    poweroff_system_outcome system_util stopping (λ w. w) stopping-Timeline
      (record { taken = λ w. ([], w, refl, refl) }) 0

-- A system that is off is not shut down again.
refused :
    reached (str_eq (stopping 2) system_operating && seen system_off stopping 3 61)
    ≡ err op_test_error
refused = refl

-- A partition whose reference code is not one of Linux is booting.
codes :
    (shown_state "Running" "" ≡ "Running")
    × (shown_state "Running" "Linux ppc64le" ≡ "Running")
    × (shown_state "Running" "C20081AB" ≡ "Booting")
codes = (refl, refl, refl)

-- A partition that the HMC moves; the world tells whether it has.
abbrev moving_run : String → ℕ → Op Bool (List String)
moving_run command timeout moved =
    if contains "migrlpar -o m" command
    then (ok [], true)
    else if contains "-m b -F name" command
    then (ok (if moved then "l" ∷ [] else []), moved)
    else if contains "-m a -F name" command
    then (ok (if moved then [] else "l" ∷ []), moved)
    else (ok ("Running" ∷ []), moved)

abbrev moving_util : HmcUtil Bool
moving_util = record {
  own_hmc = record { run_command = moving_run; mg_system = "a"; lpar_vios = none };
  lpar_name = "l";
  lpar_prof = none;
  sleep = λ seconds w. w;
}

moving-TrueListing : TrueListing moving_util "b" "a" (λ moved. moved ≡ true)
unfolding is_lpar_in_managed_system ◌>>=◌
moving-TrueListing = record { lists = record { at = each_world }; stays = record { at = λ w h. h } }
  where
    each_world :
        (w : Bool)
        → Unit {0}
        → Ends
            (λ there v. there ≡ true → v ≡ true)
            (λ e v. Unit {0})
            (listed_at moving_util "b" w).0
            (listed_at moving_util "b" w).1
    each_world true h = λ e. refl
    each_world false h = λ e. e

migrate_lpar-Moved_example :
    Ends
      (Moved moving_util "b" "a" (λ moved. moved ≡ true))
      (λ e. IsHome moving_util "b" "a" (λ moved. moved ≡ true))
      (migrate_lpar moving_util
        (some "a")
        (some "b")
        none
        ""
        300
        (record { mg_system = "a"; world = false })).0
      (migrate_lpar moving_util
        (some "a")
        (some "b")
        none
        ""
        300
        (record { mg_system = "a"; world = false })).1
migrate_lpar-Moved_example =
    migrate_lpar-Moved moving_util "b" "a" (λ moved. moved ≡ true) moving-TrueListing (some "a")
      none "" 300 (record { mg_system = "a"; world = false }) refl

-- It has succeeded.
migrated :
    (migrate_lpar moving_util
      (some "a")
      (some "b")
      none
      ""
      300
      (record { mg_system = "a"; world = false })).0
    ≡ ok true
unfolding migrate_lpar migrate_between settle_migration is_lpar_in_managed_system ◌>>=◌
migrated = refl
