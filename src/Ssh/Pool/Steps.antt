-- ===== src/Ssh/Pool/Steps.antt =====
-- The pool as a map from keys to entries, and what each call may do to it.
use op_test.Prelude.{
  ◌≡◌, refl, subst, Bool, true, false, ℕ, Option, none, some, String, List, [], ◌∷◌, str_eq, ◌⊎◌,
  inl, inr, if◌then◌else◌,
}
use op_test.Ssh.Pool.{
  Call, get_it, release, close, cleanup_stale, cleanup_everything, Connections, ConnectionInfo,
  ConnectionManager, get, released, get_connection_key, key_of,
}
use op_test.Ssh.Pool.Distinct.{Distinct, changed}

abbrev pub View : Type 0
View = String → Option ConnectionInfo

abbrev pub view : {W : Type 0} → ConnectionManager W → View
view s q = get q s.connections

-- The entry is as it was, or it was not in use and is gone.
abbrev pub Left : Option ConnectionInfo → Option ConnectionInfo → Type 0
Left none after = after ≡ none
Left (some info) after = (after ≡ some info) ⊎ ((after ≡ none) × (info.in_use ≡ false))

-- The entry is as it was, gone, or in use.
abbrev pub Taken : Option ConnectionInfo → Option ConnectionInfo → Type 0
Taken before after =
    (after ≡ before)
    ⊎ (after ≡ none)
    ⊎ ((info : ConnectionInfo) × (after ≡ some info) × (info.in_use ≡ true))

-- What a caller who asks for a connection may find: its own key, and the others.
abbrev pub Got : Bool → Option ConnectionInfo → Option ConnectionInfo → Type 0
Got true before after = Taken before after
Got false before after = Left before after

module _ {W : Type 0} (c : Connections W) where
  abbrev pub Step : Call → View → View → Type 0
  Step (get_it host username password port timeout) v v' =
      (q : String) → Got (str_eq (get_connection_key c host username port) q) (v q) (v' q)
  Step (release k) v v' =
      (now : ℕ) × ((q : String)
        → v' q ≡ (if str_eq (key_of c k) q then changed (released c now) (v q) else v q))
  Step (close k) v v' = (q : String) → v' q ≡ (if str_eq (key_of c k) q then none else v q)
  Step cleanup_stale v v' = (q : String) → Left (v q) (v' q)
  Step cleanup_everything v v' = (q : String) → v' q ≡ none

  -- Steps one after the other
  abbrev pub Steps : List Call → View → View → Type 0
  Steps [] v v' = (q : String) → v' q ≡ v q
  Steps (call ∷ calls) v v' = (mid : View) × Step call v mid × Steps calls mid v'

  abbrev pub Refined : Call → ConnectionManager W → ConnectionManager W → Type 0
  Refined call s s' = Distinct s'.connections × Step call (view s) (view s')

-- Between the two entries
pub Left-same : (x : Option ConnectionInfo) → Left x x
Left-same none = refl
Left-same (some info) = inl refl

pub Left-evict :
    (before : Option ConnectionInfo) (info : ConnectionInfo)
    → info.in_use ≡ false
    → Left before (some info)
    → Left before none
Left-evict none info b h = refl
Left-evict (some old) info b (inl e) =
    let same : info ≡ old = cc in
    inr (refl, subst (λ (x : ConnectionInfo). x.in_use ≡ false) same b)
Left-evict (some old) info b (inr e) = inr (refl, e.1)

pub Got-same : (own : Bool) (x : Option ConnectionInfo) → Got own x x
Got-same true x = inl refl
Got-same false x = Left-same x

pub Got-evict :
    (own : Bool) (before : Option ConnectionInfo) (info : ConnectionInfo)
    → info.in_use ≡ false
    → Got own before (some info)
    → Got own before none
Got-evict true before info b h = inr (inl refl)
Got-evict false before info b h = Left-evict before info b h

pub Got-drop : (own : Bool) → own ≡ true → (before : Option ConnectionInfo) → Got own before none
Got-drop true e before = inr (inl refl)
Got-drop false e before = let no : ⊥ = cc in elim no [ ]

pub Got-take :
    (own : Bool)
    → own ≡ true
    → (before : Option ConnectionInfo) (info : ConnectionInfo) → info.in_use ≡ true
    → Got own before (some info)
Got-take true e before info b = inr (inr (info, refl, b))
Got-take false e before info b = let no : ⊥ = cc in elim no [ ]
