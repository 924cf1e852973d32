-- ===== src/OpenBmc/Dumps.antt =====
-- The dumps and the OCCs of class HostManagement of common/OpTestOpenBMC.py, whose numbers are read off
-- the names in an answer. A file that a dump is written to is not modelled.
pub mod Retried
mod Tests
use Prim.Native.String.{◌++◌ as append}
use op_test.Prelude.{
  ℕ, zero, suc, Bool, true, false, ◌||◌, Option, none, some, String, List, [], ◌∷◌, str_eq,
  if◌then◌else◌,
}
use op_test.Exec.{pure, catching, ◌>>=◌, ◌>>◌}
use op_test.Lines.{is_listed}
use op_test.Json.{Json, arr, no_items, keys, get_field, numbered, equals_one}
use op_test.Http.{Response, get_it, post_it, asking, sending, json_of}
use op_test.OpenBmc.{Op, Rest, http_retry, payload, pause, get_data, post_data}

-- The groups of the names that match
abbrev pub numbers_of : String → List String → List String
numbers_of prefix [] = []
numbers_of prefix (k ∷ ks) =
    let others = numbers_of prefix ks in
    elim (numbered prefix k) [ none ↦ others | some id ↦ id ∷ others ]

module _ {W : Type 0} (rest : Rest W) where
  unfoldable pub list_available_dumps : Option ℕ → Op W Response
  list_available_dumps minutes =
      rest.request get_it (asking "/xyz/openbmc_project/dump/list" minutes)

  unfoldable pub get_dump_ids : Op W (List String)
  unfolding list_available_dumps
  get_dump_ids = do
    r ← list_available_dumps http_retry
    j ← json_of r
    d ← get_field "data" j
    ks ← keys d
    pure (numbers_of "/xyz/openbmc_project/dump/entry/" ks)

  unfoldable pub delete_dump : String → Option ℕ → Op W Response
  delete_dump dump_id minutes = rest.request post_it (
      sending (append "/xyz/openbmc_project/dump/entry/" (append dump_id "/action/Delete"))
        (payload (arr no_items)) minutes)

  unfoldable pub delete_dumps : List String → Op W Unit
  delete_dumps [] = pure tt
  delete_dumps (id ∷ ids) = do delete_dump id http_retry; delete_dumps ids

  unfoldable pub delete_all_dumps : Op W Unit
  delete_all_dumps = do ids ← get_dump_ids; delete_dumps ids

  -- The request for a dump, with what the answer calls it
  unfoldable pub ask_dump : Option ℕ → Op W Json
  ask_dump minutes = do
    r ←
        rest.request post_it
          (sending "/xyz/openbmc_project/dump/action/CreateDump" (payload (arr no_items)) minutes)
    j ← json_of r
    get_field "data" j

  -- Whatever it raises, the dumps are deleted and the request is made once more.
  unfoldable pub create_new_dump : Option ℕ → Op W Json
  create_new_dump minutes = catching (ask_dump minutes) (λ e. do delete_all_dumps; ask_dump minutes)

  -- `for i in range(counter)`; false is its `else`.
  unfoldable pub wait_for_dump_finish : String → ℕ → Op W Bool
  wait_for_dump_finish dump_id zero = pure false
  wait_for_dump_finish dump_id (suc counter) = do
    ids ← get_dump_ids
    if is_listed dump_id ids
        then pure true
        else (do pause rest 5000; wait_for_dump_finish dump_id counter)

  pub get_occ_ids : Option ℕ → Op W (List String)
  get_occ_ids minutes = do
    d ← get_data rest "/org/open_power/control/enumerate" minutes
    ks ← keys d
    pure (numbers_of "/org/open_power/control/occ" ks)

  pub is_occ_active : String → Option ℕ → Op W Bool
  is_occ_active id minutes = do
    d ← get_data rest (append "/org/open_power/control/occ" id) minutes
    active ← get_field "OccActive" d
    pure (equals_one active)
