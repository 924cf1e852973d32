-- ===== src/OpenBmc/Dumps/Tests.antt =====
-- A BMC with room for one dump.
use Prim.Native.String.{◌++◌ as append}
use text.Mathlib.TextLemmas.{append_cancel_left, append_cancel_right}
use op_test.Prelude.{
  ◌≡◌, refl, sym, subst, Bool, true, false, none, some, Option, ℕ, String, List, [], ◌∷◌, str_eq,
  eq_iff, Bool-cases, inl, inr, if◌then◌else◌,
}
use op_test.Exec.{ok, err, ◌>>=◌}
use op_test.Exceptions.{other}
use op_test.Json.{Json, null, str, arr, no_items, obj, field, no_fields}
use op_test.Http.{Response, get_it, post_it}
use op_test.OpenBmc.{Op, Rest, http_retry}
use op_test.OpenBmc.Dumps.{
  get_dump_ids, list_available_dumps, delete_dump, ask_dump, create_new_dump,
}
use op_test.OpenBmc.Dumps.Retried.{DumpStore, without, create_new_dump_returns}

abbrev answer : Json → Response
answer v = record {
  status_code = 200;
  body = some (obj (field "data" v no_fields));
  text = "";
  set_cookie = none;
}

abbrev entry : String
entry = "/xyz/openbmc_project/dump/entry/"

abbrev deletion : String → String
deletion id = append entry (append id "/action/Delete")

abbrev dumps : Bool → List String
dumps full = if full then "7" ∷ [] else []

abbrev created : Bool → Op Bool Response
created true full = (err (other "HTTPCheck"), full)
created false full = (ok (answer (str "7")), true)

-- The request for a dump is the one without minutes.
abbrev posted : Option ℕ → String → Op Bool Response
posted none uri full = created full full
posted (some minutes) uri false = (ok (answer null), false)
posted (some minutes) uri true =
    (ok (answer null), if str_eq uri (deletion "7") then false else true)

abbrev listing : Bool → Json
listing true = obj (field (append entry "7") null no_fields)
listing false = arr no_items

abbrev one_dump : Rest Bool
one_dump = record {
  request = λ verb req full. elim verb [
    | get_it ↦ (ok (answer (listing full)), full)
    | post_it ↦ posted req.minutes req.uri full
    | _ ↦ (ok (answer null), full)
  ];
  ping_func = λ seconds w. (ok 2, w);
  ping_fail_check = λ w. (ok true, w);
  now = λ w. 0;
  sleep = λ ms w. w;
}

other_uri : (id : String) → str_eq "7" id ≡ false → str_eq (deletion id) (deletion "7") ≡ false
other_uri id h = elim (Bool-cases (str_eq (deletion id) (deletion "7"))) [
  | inl e ↦
      let same : id ≡ "7" =
        append_cancel_right id "7" "/action/Delete"
          (append_cancel_left entry _ _ ((eq_iff (deletion id) (deletion "7")).0 e)) in
      let seven : str_eq "7" id ≡ true = (eq_iff "7" id).1 (sym same) in
      let no : ⊥ = cc in elim no [ ]
  | inr e ↦ e
]

other_kept :
    (id : String) (found : Bool)
    → str_eq "7" id ≡ found
    → dumps (if str_eq (deletion id) (deletion "7") then false else true)
      ≡ (if found then [] else "7" ∷ [])
other_kept id true e =
    let same : "7" ≡ id = (eq_iff "7" id).0 e in
    subst (λ x. dumps (if str_eq (deletion x) (deletion "7") then false else true) ≡ []) same refl
other_kept id false e = simp (other_uri id e) refl

one_dump-DumpStore : DumpStore one_dump none dumps
unfolding get_dump_ids list_available_dumps delete_dump ask_dump ◌>>=◌
one_dump-DumpStore = record { lists = told; deletes = deleted; creates = made }
  where
    told :
        (w : Bool)
        → (v : Bool) × (get_dump_ids one_dump w ≡ (ok (dumps w), v)) × (dumps v ≡ dumps w)
    told true = (true, refl, refl)
    told false = (false, refl, refl)

    deleted :
        (id : String) (w : Bool)
        → (r : Response) × (v : Bool) × (delete_dump one_dump id http_retry w ≡ (ok r, v))
          × (dumps v ≡ without id (dumps w))
    deleted id true = (
      answer null,
      (if str_eq (deletion id) (deletion "7") then false else true),
      refl,
      other_kept id (str_eq "7" id) refl,
    )
    deleted id false = (answer null, false, refl, refl)

    made :
        (w : Bool) → dumps w ≡ [] → (j : Json) × (v : Bool) × (ask_dump one_dump none w ≡ (ok j, v))
    made true h = let no : ⊥ = cc in elim no [ ]
    made false h = (str "7", true, refl)

create_new_dump_returns_example :
    (j : Json) × (v : Bool) × (create_new_dump one_dump none true ≡ (ok j, v))
create_new_dump_returns_example =
    create_new_dump_returns one_dump none dumps one_dump-DumpStore true
