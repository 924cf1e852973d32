-- ===== src/OpenBmc/Images/Purposes.antt =====
-- `image_ids`: which images it leaves in the list.
use mathlib.Core.List.{append_assoc}
use op_test.Prelude.{
  ◌≡◌, refl, subst, Bool, true, false, Option, some, String, List, [], ◌∷◌, ◌++◌, ℕ, str_eq, eq_iff,
  Bool-cases, inl, inr, if◌then◌else◌,
}
use op_test.Exec.{Result, ok, err, continue, ◌>>=◌}
use op_test.Exceptions.{OpException}
use op_test.Json.{Json}
use op_test.OpenBmc.{Rest}
use op_test.OpenBmc.Images.{
  remove, has_purpose, purpose_of, remove_others, get_list_of_image_ids, image_ids,
}

abbrev pub filter {ℓ} : {A : Type ℓ} → (A → Bool) → List A → List A
filter p [] = []
filter p (x ∷ xs) = if p x then x ∷ filter p xs else filter p xs

-- The result of a list, with a function of it
abbrev pub mapped : {A B : Type 0} → (A → B) → Result OpException A → Result OpException B
mapped f (ok a) = ok (f a)
mapped f (err e) = err e

-- The BMC answers for each image with the same purpose, whenever it is asked.
pub record HasPurposes {W : Type 0} (rest : Rest W) (minutes : Option ℕ) (purposes : String → Json)
    : Type 0 where
  pub tells :
      (id : String) (w : W) → (v : W) × (purpose_of rest id minutes w ≡ (ok (purposes id), v))

module _ (p : String → Bool) where
  abbrev Clean : List String → Type 0
  Clean [] = Unit
  Clean (d ∷ ds) = (p d ≡ true) × Clean ds

  Clean-snoc :
      (front : List String) (x : String) → Clean front → p x ≡ true → Clean (front ++ x ∷ [])
  Clean-snoc [] x c h = (h, tt)
  Clean-snoc (d ∷ ds) x c h = (c.0, Clean-snoc ds x c.1 h)

  differs : (d x : String) → p d ≡ true → p x ≡ false → str_eq d x ≡ false
  differs d x hd hx = elim (Bool-cases (str_eq d x)) [
    | inl e ↦ let same : d ≡ x = (eq_iff d x).0 e in let no : ⊥ = cc in elim no [ ]
    | inr e ↦ e
  ]

  -- What is to go is not among those that stay, so that the first one is the one that is looked at.
  remove_next :
      (front : List String) (x : String) (xs : List String)
      → Clean front
      → p x ≡ false
      → remove x (front ++ x ∷ xs) ≡ some (front ++ xs)
  remove_next [] x xs c h = simp ((eq_iff x x).1 refl) refl
  remove_next (d ∷ ds) x xs c h = simp (differs d x c.0 h, remove_next ds x xs c.1 h) refl

module _ {W : Type 0} (rest : Rest W) (minutes : Option ℕ) (purposes : String → Json)
    (known : HasPurposes rest minutes purposes) (purpose : Option String) where
  abbrev pub wanted : String → Bool
  wanted id = has_purpose purpose (purposes id)

  abbrev Left : List String → List String → List String → W → Type 0
  Left front copy l v =
      (remove_others rest purpose minutes copy l v).0 ≡ ok (front ++ filter wanted copy)

  -- What stays joins the front.
  stays :
      (front copy : List String) (id : String) (v : W)
      → Left (front ++ id ∷ []) copy ((front ++ id ∷ []) ++ copy) v
      → (remove_others rest purpose minutes copy (front ++ id ∷ copy) v).0
        ≡ ok (front ++ id ∷ filter wanted copy)
  stays front copy id v next =
      subst
        (λ l.
          (remove_others rest purpose minutes copy l v).0 ≡ ok (front ++ id ∷ filter wanted copy))
        (append_assoc front (id ∷ []) copy)
        (subst
          (λ l. (remove_others rest purpose minutes copy ((front ++ id ∷ []) ++ copy) v).0 ≡ ok l)
          (append_assoc front (id ∷ []) (filter wanted copy)) next)

  one_round :
      (front copy : List String) (id : String) (w : W)
      → Clean wanted front
      → ((v : W) → wanted id ≡ true → Left (front ++ id ∷ []) copy ((front ++ id ∷ []) ++ copy) v)
      → ((v : W) → Left front copy (front ++ copy) v)
      → Left front (id ∷ copy) (front ++ id ∷ copy) w
  unfolding remove_others ◌>>=◌
  one_round front copy id w c keep drop =
      let (v, e) = known.tells id w in
      elim (Bool-cases (wanted id)) [
        | inl h ↦ simp (e, h) (stays front copy id v (keep v h))
        | inr h ↦ simp (e, h, remove_next wanted front id copy c h) (drop v)
      ]

  rounds :
      (front copy : List String) (w : W) → Clean wanted front → Left front copy (front ++ copy) w
  unfolding remove_others ◌>>=◌
  rounds front [] w c = refl
  rounds front (id ∷ copy) w c =
      one_round front copy id w c
        (λ v h. rounds (front ++ id ∷ []) copy v (Clean-snoc wanted front id c h))
        (λ v. rounds front copy v c)

  all_rounds :
      (r : Result OpException (List String)) (w : W)
      → (continue r (λ l. remove_others rest purpose minutes l l) w).0 ≡ mapped (filter wanted) r
  all_rounds (ok l) w = rounds [] l w tt
  all_rounds (err e) w = refl

  -- Where the BMC answers for each image with the same purpose whenever it is asked: `image_ids` is
  -- the list of `get_list_of_image_ids` without the images of another purpose, in its order, also
  -- where an image is listed twice.
  pub image_ids_filtered :
      (w : W)
      → (image_ids rest purpose minutes w).0
        ≡ mapped (filter wanted) (get_list_of_image_ids rest minutes w).0
  unfolding image_ids ◌>>=◌
  image_ids_filtered w = let (r, v) = get_list_of_image_ids rest minutes w in all_rounds r v
