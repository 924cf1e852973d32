-- ===== src/OpenBmc/Images.antt =====
-- The firmware images of class HostManagement of common/OpTestOpenBMC.py.
pub mod Purposes
use Prim.Native.String.{◌++◌ as append}
use op_test.Prelude.{
  ℕ, zero, suc, ◌+◌, ◌*◌, Bool, true, false, not, Option, none, some, String, List, [], ◌∷◌, ltb,
  str_eq, if◌then◌else◌,
}
use op_test.Exec.{pure, raise, gets, catching, ◌>>=◌, ◌>>◌}
use op_test.Exceptions.{ℤ, http_check, value_error}
use op_test.Json.{Json, num, str, arr, no_items, keys, get_field, at_name, is_null, is_text, named}
use op_test.Http.{delete_it, sending, post_it}
use op_test.OpenBmc.{Op, Rest, http_retry, payload, pause, get_json, get_data, put_data, post_data}

-- xs.remove(x), none where that raises ValueError
abbrev pub remove : String → List String → Option (List String)
remove x [] = none
remove x (y ∷ ys) =
    let rest = remove x ys in
    if str_eq y x then some ys else elim rest [ none ↦ none | some zs ↦ some (y ∷ zs) ]

-- v == purpose
abbrev pub has_purpose : Option String → Json → Bool
has_purpose none v = is_null v
has_purpose (some purpose) v = is_text purpose v

abbrev pub image_uri : String → String → String
image_uri id attribute = append "/xyz/openbmc_project/software/" (append id attribute)

-- xyz.openbmc_project.Software.Activation.Activations
abbrev pub activation : String → String
activation state = append "xyz.openbmc_project.Software.Activation.Activations." state

module _ {W : Type 0} (rest : Rest W) where
  unfoldable pub image_data : String → Option ℕ → Op W Json
  image_data id minutes = get_json rest (image_uri id "") minutes

  -- `i['data'].get('Purpose')` of an image's data
  unfoldable pub purpose_of : String → Option ℕ → Op W Json
  unfolding image_data
  purpose_of id minutes = do i ← image_data id minutes; d ← at_name "data" i; get_field "Purpose" d

  -- An image without a purpose is something special.
  unfoldable pub list_one : Option String → Op W (List String) → Op W (List String)
  list_one none others = others
  list_one (some id) others = do
    purpose ← purpose_of id http_retry
    ids ← others
    pure (if is_null purpose then ids else id ∷ ids)

  unfoldable pub list_ids : List String → Op W (List String)
  unfolding list_one
  list_ids [] = pure []
  list_ids (k ∷ ks) = list_one (named "/xyz/openbmc_project/software/" k) (list_ids ks)

  unfoldable pub get_list_of_image_ids : Option ℕ → Op W (List String)
  get_list_of_image_ids minutes = do
    d ← get_data rest "/xyz/openbmc_project/software/" minutes
    ks ← keys d
    list_ids ks

  abbrev pub removed : Option (List String) → Op W (List String)
  removed none = raise value_error
  removed (some l) = pure l

  -- `for id in l[:]`, which removes from `l` what has another purpose
  unfoldable pub remove_others :
      Option String → Option ℕ → List String → List String → Op W (List String)
  remove_others purpose minutes [] l = pure l
  remove_others purpose minutes (id ∷ copy) l = do
    found ← purpose_of id minutes
    l' ← (if not (has_purpose purpose found) then removed (remove id l) else pure l)
    remove_others purpose minutes copy l'

  unfoldable pub image_ids : Option String → Option ℕ → Op W (List String)
  unfolding get_list_of_image_ids
  image_ids purpose minutes = do
    l ← get_list_of_image_ids minutes
    remove_others purpose minutes l l

  pub host_image_ids : Op W (List String)
  host_image_ids =
      image_ids (some "xyz.openbmc_project.Software.Version.VersionPurpose.Host") http_retry

  pub bmc_image_ids : Op W (List String)
  bmc_image_ids =
      image_ids (some "xyz.openbmc_project.Software.Version.VersionPurpose.BMC") http_retry

  -- `json_data.get('data').get(name)`
  unfoldable pub image_attribute : String → String → Option ℕ → Op W Json
  image_attribute name id minutes = do
    i ← image_data id minutes
    d ← get_field "data" i
    get_field name d

  pub get_image_priority : String → Option ℕ → Op W Json
  get_image_priority id minutes = image_attribute "Priority" id minutes

  pub set_image_priority : String → ℤ → Option ℕ → Op W Unit
  set_image_priority id level minutes =
      put_data rest (image_uri id "/attr/Priority") (num level) minutes

  pub activate_image : String → Option ℕ → Op W Unit
  activate_image id minutes =
      put_data rest (image_uri id "/attr/RequestedActivation")
        (str "xyz.openbmc_project.Software.Activation.RequestedActivations.Active") minutes

  pub is_image_already_active : String → Option ℕ → Op W Bool
  is_image_already_active id minutes = do
    state ← image_attribute "Activation" id minutes
    pure (is_text (activation "Active") state)

  -- The new method, or the old one where that raises.
  pub delete_image : String → Option ℕ → Op W Unit
  delete_image id minutes =
      catching (post_data rest (image_uri id "/action/delete") (arr no_items) minutes) (λ e. do
        rest.request delete_it (sending (image_uri id "") (payload (arr no_items)) minutes)
        pure tt)

  -- `while True`, on fuel; `stuck` is what follows when it runs out.
  unfoldable pub ready_rounds : Op W Bool → ℕ → String → ℕ → Op W Bool
  ready_rounds stuck zero id timeout = stuck
  ready_rounds stuck (suc rounds) id timeout = do
    state ← image_attribute "Activation" id http_retry
    if is_text (activation "Ready") state then pure true else (do
      t ← gets rest.now
      if ltb timeout t
          then raise http_check
          else (do pause rest 5000; ready_rounds stuck rounds id timeout))

  unfoldable pub image_ready_for_activation : Op W Bool → ℕ → String → ℕ → Op W Bool
  image_ready_for_activation stuck rounds id timeout = do
    t ← gets rest.now
    ready_rounds stuck rounds id (t + 60000 * timeout)

  unfoldable pub active_rounds : Op W Bool → ℕ → String → ℕ → Op W Bool
  active_rounds stuck zero id timeout = stuck
  active_rounds stuck (suc rounds) id timeout = do
    state ← image_attribute "Activation" id http_retry
    if is_text (activation "Active") state
        then pure true
        else if is_text (activation "Failed") state
        then pure false
        else (do
          t ← gets rest.now
          if ltb timeout t
              then raise http_check
              else (do pause rest 5000; active_rounds stuck rounds id timeout))

  unfoldable pub wait_for_image_active_complete : Op W Bool → ℕ → String → ℕ → Op W Bool
  wait_for_image_active_complete stuck rounds id timeout = do
    t ← gets rest.now
    active_rounds stuck rounds id (t + 60000 * timeout)
