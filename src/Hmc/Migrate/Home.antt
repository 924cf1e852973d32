-- ===== src/Hmc/Migrate/Home.antt =====
-- The managed system that a partition is taken to be on, after a migration.
use op_test.Prelude.{
  ℕ, ◌≡◌, refl, Bool, true, false, Option, none, some, String, not, if◌then◌else◌,
}
use op_test.Exec.{Result, ok, err, pure, ◌>>◌}
use op_test.Exec.Triple.{
  Ends, Triple, Triple-pure, Triple-raise, Triple-if, Triple-modify, Triple-bind, Triple-any,
}
use op_test.Exceptions.{OpException, op_test_error}
use op_test.Hmc.{Op, HmcUtil}
use op_test.Hmc.Migrate.{
  Migrating, on_hmc, listed_at, state_at, is_migrating, recover_lpar, settle_migration,
  migrate_between, migrate_lpar,
}

module _ {W : Type 0} (u : HmcUtil W) (dest home : String) (At : W → Type 0) where
  -- The listing of the destination is true, and the reading of a state moves nothing.
  pub record TrueListing : Type 0 where
    pub lists : Triple (λ w. Unit) (λ there w. there ≡ true → At w) (λ e w. Unit) (listed_at u dest)
    pub stays : Triple At (λ state. At) (λ e w. Unit) (state_at u dest)

  abbrev pub IsHome : Migrating W → Type 0
  IsHome s = s.mg_system ≡ home

  -- Where the migration has succeeded, it is at the destination.
  abbrev pub Moved : Bool → Migrating W → Type 0
  Moved true s = (s.mg_system ≡ dest) × At s.world
  Moved false s = IsHome s

  abbrev Both : (W → Type 0) → Migrating W → Type 0
  Both P s = IsHome s × P s.world

  lifted :
      {A : Type 0} (P : A → W → Type 0) (r : Result OpException A) (s : Migrating W)
      → Ends P (λ e w. Unit) r s.world
      → IsHome s
      → Ends (λ a. Both (P a)) (λ e. IsHome) r s
  lifted P (ok a) s h e = (e, h)
  lifted P (err x) s h e = e

  -- What the HMC does is no change of the name.
  on_hmc-Home :
      {A : Type 0} {P : W → Type 0} {Q : A → W → Type 0} (op : Op W A)
      → Triple P Q (λ e w. Unit) op
      → Triple (Both P) (λ a. Both (Q a)) (λ e. IsHome) (on_hmc op)
  on_hmc-Home {Q = Q} op t = record {
    at = λ s p.
        let (r, w) = op s.world in lifted Q r (record s { world = w }) (t.at s.world p.1) p.0;
  }

  any-Home :
      {A : Type 0} (op : Op W A)
      → Triple (Both (λ w. Unit)) (λ a. Both (λ w. Unit)) (λ e. IsHome) (on_hmc op)
  any-Home op = on_hmc-Home op (Triple-any op)

  module _ (true_listing : TrueListing) where
    settle_migration-Moved :
        (src : String) (timeout : ℕ)
        → Triple (Both At) Moved (λ e. IsHome) (settle_migration u src dest timeout)
    unfolding settle_migration
    settle_migration-Moved src timeout =
        Triple-bind _ _ (on_hmc-Home (state_at u dest) true_listing.stays) (λ state.
          Triple-if (not (is_migrating state)) _
            (on_hmc (recover_lpar u src dest true timeout) >> pure false)
            (λ e.
              Triple-bind {R = λ _ s. (s.mg_system ≡ dest) × At s.world} _ _
                (Triple-modify _ (λ s p. (refl, p.1))) (λ _. Triple-pure true (λ s p. p)))
            (λ e.
              Triple-bind {R = λ _. Both (λ w. Unit)} _ _
                (on_hmc-Home (recover_lpar u src dest true timeout) (Triple-any _))
                (λ _. Triple-pure false (λ s p. p.0))))

    where_listed :
        (there : Bool) (m : Op (Migrating W) Bool)
        → Triple (Both At) Moved (λ e. IsHome) m
        → Triple
            (Both (λ w. there ≡ true → At w))
            Moved
            (λ e. IsHome)
            (if there then m else pure false)
    where_listed true m t = record { at = λ s p. t.at s (p.0, p.1 refl) }
    where_listed false m t = Triple-pure false (λ s p. p.0)

    migrate_between-Moved :
        (src : String) (options : Option String) (param : String) (timeout : ℕ)
        → Triple
            (Both (λ w. Unit))
            Moved
            (λ e. IsHome)
            (migrate_between u src dest options param timeout)
    unfolding migrate_between
    migrate_between-Moved src options param timeout = Triple-bind _ _ (any-Home _) (λ here.
        Triple-if (not here) _ _ (λ e. Triple-raise _ (λ s p. p.0))
          (λ e. Triple-bind _ _ (any-Home _) (λ _. Triple-bind _ _ (any-Home _) (λ _.
            Triple-bind _ _ (on_hmc-Home (listed_at u dest) true_listing.lists) (λ there.
              where_listed there (settle_migration u src dest timeout)
                (settle_migration-Moved src timeout))))))

    -- Where the HMC's listing of the destination is true and the reading of a state moves nothing:
    -- `migrate_lpar` returns true only with the partition at the destination, whose name is then the
    -- name of the managed system. Where it returns false or raises, the name is the one from before.
    pub migrate_lpar-Moved :
        (src : Option String) (options : Option String) (param : String) (timeout : ℕ)
        (s : Migrating W)
        → s.mg_system ≡ home
        → Ends Moved
            (λ e. IsHome)
            (migrate_lpar u src (some dest) options param timeout s).0
            (migrate_lpar u src (some dest) options param timeout s).1
    unfolding migrate_lpar
    migrate_lpar-Moved none options param timeout s h =
        let t = Triple-raise {P = IsHome} {Q = Moved} op_test_error (λ x p. p) in t.at s h
    migrate_lpar-Moved (some src) options param timeout s h =
        (migrate_between-Moved src options param timeout).at s (h, tt)
