-- ===== src/Ssh/Pool/Distinct.antt =====
-- The dict of the pool: the keys are distinct, and what a change of one entry does to the others.
use op_test.Prelude.{
  ◌≡◌, refl, sym, subst, ◌∙◌, true, false, Option, none, some, String, [], ◌∷◌, str_eq, eq_iff,
  Bool-cases, inl, inr,
}
use op_test.Ssh.Pool.{ConnectionInfo, Pooled, get, put, update, del}
use op_test.Ssh.Pool.Spared.{InUse, get-del}

-- No key stands twice.
abbrev pub Distinct : Pooled → Type 0
Distinct [] = Unit
Distinct ((k, info) ∷ d) = (get k d ≡ none) × Distinct d

-- Of two keys that differ from the first, none is the other's way round.
not_same : (k q : String) → str_eq k q ≡ false → str_eq q k ≡ false
not_same k q h = elim (Bool-cases (str_eq q k)) [
  | inl e ↦
      let same : k ≡ q = sym ((eq_iff q k).0 e) in
      let yes : str_eq k q ≡ true = (eq_iff k q).1 same in let no : ⊥ = cc in elim no [ ]
  | inr e ↦ e
]

pub get-put_other :
    (k q : String) (info : ConnectionInfo) (d : Pooled)
    → str_eq k q ≡ false
    → get q (put k info d) ≡ get q d
get-put_other k q info [] h = simp h refl
get-put_other k q info ((o, old) ∷ d) h = elim (Bool-cases (str_eq o k)) [
  | inl e ↦ simp (e, subst (λ x. str_eq x q ≡ false) (sym ((eq_iff o k).0 e)) h) refl
  | inr e ↦ elim (Bool-cases (str_eq o q)) [
    | inl f ↦ simp (e, f) refl
    | inr f ↦ simp (e, f) (get-put_other k q info d h)
  ]
]

pub get-put_own :
    (k : String) (info : ConnectionInfo) (d : Pooled) → get k (put k info d) ≡ some info
get-put_own k info [] = simp ((eq_iff k k).1 refl) refl
get-put_own k info ((o, old) ∷ d) = elim (Bool-cases (str_eq o k)) [
  | inl e ↦ simp e refl
  | inr e ↦ simp e (get-put_own k info d)
]

pub get-update_other :
    (k q : String) (f : ConnectionInfo → ConnectionInfo) (d : Pooled)
    → str_eq k q ≡ false
    → get q (update k f d) ≡ get q d
get-update_other k q f [] h = refl
get-update_other k q f ((o, old) ∷ d) h = elim (Bool-cases (str_eq o k)) [
  | inl e ↦ simp (e, subst (λ x. str_eq x q ≡ false) (sym ((eq_iff o k).0 e)) h) refl
  | inr e ↦ elim (Bool-cases (str_eq o q)) [
    | inl g ↦ simp (e, g) refl
    | inr g ↦ simp (e, g) (get-update_other k q f d h)
  ]
]

-- The entry under a key, changed
abbrev pub changed :
    (ConnectionInfo → ConnectionInfo) → Option ConnectionInfo → Option ConnectionInfo
changed f none = none
changed f (some info) = some (f info)

pub get-update_own :
    (k : String) (f : ConnectionInfo → ConnectionInfo) (d : Pooled)
    → get k (update k f d) ≡ changed f (get k d)
get-update_own k f [] = refl
get-update_own k f ((o, old) ∷ d) = elim (Bool-cases (str_eq o k)) [
  | inl e ↦ simp e refl
  | inr e ↦ simp e (get-update_own k f d)
]

-- With distinct keys an entry that is deleted is gone.
pub get-del_own : (k : String) (d : Pooled) → Distinct d → get k (del k d) ≡ none
get-del_own k [] u = refl
get-del_own k ((o, old) ∷ d) u = elim (Bool-cases (str_eq o k)) [
  | inl e ↦ simp e (subst (λ x. get x d ≡ none) ((eq_iff o k).0 e) u.0)
  | inr e ↦ simp e (get-del_own k d u.1)
]

absent-del : (o k : String) (d : Pooled) → Distinct d → get o d ≡ none → get o (del k d) ≡ none
absent-del o k d u h = elim (Bool-cases (str_eq k o)) [
  | inl e ↦ subst (λ x. get o (del x d) ≡ none) (sym ((eq_iff k o).0 e)) (get-del_own o d u)
  | inr e ↦ get-del o k d e ∙ h
]

pub del-Distinct : (k : String) (d : Pooled) → Distinct d → Distinct (del k d)
del-Distinct k [] u = tt
del-Distinct k ((o, old) ∷ d) u = elim (Bool-cases (str_eq o k)) [
  | inl e ↦ simp e u.1
  | inr e ↦ simp e (absent-del o k d u.1 u.0, del-Distinct k d u.1)
]

pub put-Distinct :
    (k : String) (info : ConnectionInfo) (d : Pooled) → Distinct d → Distinct (put k info d)
put-Distinct k info [] u = (refl, tt)
put-Distinct k info ((o, old) ∷ d) u = elim (Bool-cases (str_eq o k)) [
  | inl e ↦ simp e u
  | inr e ↦ simp e (get-put_other k o info d (not_same o k e) ∙ u.0, put-Distinct k info d u.1)
]

pub update-Distinct :
    (k : String) (f : ConnectionInfo → ConnectionInfo) (d : Pooled)
    → Distinct d
    → Distinct (update k f d)
update-Distinct k f [] u = tt
update-Distinct k f ((o, old) ∷ d) u = elim (Bool-cases (str_eq o k)) [
  | inl e ↦ simp e u
  | inr e ↦ simp e (get-update_other k o f d (not_same o k e) ∙ u.0, update-Distinct k f d u.1)
]

absent-InUse : (q : String) (d : Pooled) → get q d ≡ none → InUse q d
absent-InUse q [] h = tt
absent-InUse q ((o, old) ∷ d) h = elim (Bool-cases (str_eq o q)) [
  | inl e ↦ let no : ⊥ = cc (simp e at h) in elim no [ ]
  | inr e ↦ (λ y. let no : ⊥ = cc in elim no [ ], absent-InUse q d (simp e at h))
]

-- With distinct keys the entry that is found is the only one.
pub get-InUse :
    (q : String) (info : ConnectionInfo) (d : Pooled)
    → Distinct d
    → get q d ≡ some info
    → info.in_use ≡ true
    → InUse q d
get-InUse q info [] u h b = tt
get-InUse q info ((o, old) ∷ d) u h b = elim (Bool-cases (str_eq o q)) [
  | inl e ↦
      let first : some old ≡ some info = simp e at h in
      let same : old ≡ info = cc in
      (
        λ y. subst (λ x. x.in_use ≡ true) (sym same) b,
        absent-InUse q d (subst (λ x. get x d ≡ none) ((eq_iff o q).0 e) u.0),
      )
  | inr e ↦ (λ y. let no : ⊥ = cc in elim no [ ], get-InUse q info d u.1 (simp e at h) b)
]
