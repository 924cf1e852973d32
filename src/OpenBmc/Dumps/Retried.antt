-- ===== src/OpenBmc/Dumps/Retried.antt =====
-- `delete_all_dumps` and `create_new_dump` over a BMC that keeps a list of dumps.
use op_test.Prelude.{
  ◌≡◌, refl, sym, subst, ℕ, true, Option, String, List, [], ◌∷◌, str_eq, eq_iff, Bool-cases, inl,
  inr, if◌then◌else◌,
}
use op_test.Exec.{Result, ok, err, handled, ◌>>=◌, ◌>>◌}
use op_test.Exceptions.{OpException}
use op_test.Lines.{is_listed}
use op_test.Json.{Json}
use op_test.Http.{Response}
use op_test.OpenBmc.{Rest, http_retry}
use op_test.OpenBmc.Dumps.{
  is_listed, get_dump_ids, delete_dump, delete_dumps, delete_all_dumps, ask_dump, create_new_dump,
}

-- The list without an entry
abbrev pub without : String → List String → List String
without x [] = []
without x (y ∷ ys) = let rest = without x ys in if str_eq y x then rest else y ∷ rest

-- The BMC tells the dumps that it has, deletes what it is told to, and makes a dump when it has none.
pub record DumpStore {W : Type 0} (rest : Rest W) (minutes : Option ℕ) (dumps : W → List String)
    : Type 0 where
  pub lists : (w : W) → (v : W) × (get_dump_ids rest w ≡ (ok (dumps w), v)) × (dumps v ≡ dumps w)
  pub deletes :
      (id : String) (w : W)
      → (r : Response) × (v : W) × (delete_dump rest id http_retry w ≡ (ok r, v))
        × (dumps v ≡ without id (dumps w))
  pub creates :
      (w : W) → dumps w ≡ [] → (j : Json) × (v : W) × (ask_dump rest minutes w ≡ (ok j, v))

-- Each entry is one of those.
abbrev Covered : List String → List String → Type 0
Covered xs [] = Unit
Covered xs (y ∷ ys) = (is_listed y xs ≡ true) × Covered xs ys

Covered-without :
    (x : String) (xs ys : List String) → Covered (x ∷ xs) ys → Covered xs (without x ys)
Covered-without x xs [] c = tt
Covered-without x xs (y ∷ ys) c = elim (Bool-cases (str_eq y x)) [
  | inl e ↦ simp e (Covered-without x xs ys c.1)
  | inr e ↦ simp e (simp e at c.0, Covered-without x xs ys c.1)
]

Covered-more : (x : String) (xs ys : List String) → Covered xs ys → Covered (x ∷ xs) ys
Covered-more x xs [] c = tt
Covered-more x xs (y ∷ ys) c = elim (Bool-cases (str_eq y x)) [
  | inl e ↦ (simp e refl, Covered-more x xs ys c.1)
  | inr e ↦ (simp e c.0, Covered-more x xs ys c.1)
]

Covered-self : (xs : List String) → Covered xs xs
Covered-self [] = tt
Covered-self (x ∷ xs) = (simp ((eq_iff x x).1 refl) refl, Covered-more x xs xs (Covered-self xs))

Covered-nil : (ys : List String) → Covered [] ys → ys ≡ []
Covered-nil [] c = refl
Covered-nil (y ∷ ys) c = let no : ⊥ = cc in elim no [ ]

module _ {W : Type 0} (rest : Rest W) (minutes : Option ℕ) (dumps : W → List String)
    (store : DumpStore rest minutes dumps) where
  emptied :
      (xs : List String) (w : W)
      → Covered xs (dumps w)
      → (v : W) × (delete_dumps rest xs w ≡ (ok tt, v)) × (dumps v ≡ [])
  unfolding delete_dumps ◌>>=◌
  emptied [] w c = (w, refl, Covered-nil (dumps w) c)
  emptied (x ∷ xs) w c =
      let (r, v, e, d) = store.deletes x w in
      simp e (emptied xs v (subst (Covered xs) (sym d) (Covered-without x xs (dumps w) c)))

  all_gone : (w : W) → (v : W) × (delete_all_dumps rest w ≡ (ok tt, v)) × (dumps v ≡ [])
  unfolding delete_all_dumps ◌>>=◌
  all_gone w =
      let (v, e, d) = store.lists w in
      simp e (emptied (dumps w) v (subst (Covered (dumps w)) (sym d) (Covered-self (dumps w))))

  -- The second request
  asked_again :
      (w : W)
      → (j : Json) × (v : W) × ((delete_all_dumps rest >> ask_dump rest minutes) w ≡ (ok j, v))
  unfolding ◌>>=◌
  asked_again w = let (v, e, d) = all_gone w in simp e (store.creates v d)

  recovered :
      (r : Result OpException Json) (w : W)
      → (j : Json) × (v : W) × (handled r (λ e. delete_all_dumps rest >> ask_dump rest minutes) w
          ≡ (ok j, v))
  recovered (ok j) w = (j, w, refl)
  recovered (err e) w = asked_again w

  -- Over a BMC that tells its dumps, deletes what it is told to and makes a dump when it has none,
  -- `create_new_dump` returns, whatever the first request raises and however many dumps there are.
  pub create_new_dump_returns :
      (w : W) → (j : Json) × (v : W) × (create_new_dump rest minutes w ≡ (ok j, v))
  unfolding create_new_dump ◌>>=◌
  create_new_dump_returns w = let (r, v) = ask_dump rest minutes w in recovered r v

  -- Over the same BMC `delete_all_dumps` leaves no dump.
  pub delete_all_dumps_empties :
      (w : W) → (v : W) × (delete_all_dumps rest w ≡ (ok tt, v)) × (dumps v ≡ [])
  delete_all_dumps_empties = all_gone
