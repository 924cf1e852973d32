-- ===== src/OpenBmc/Flash/Once.antt =====
-- Whether the BMC has a virtual PNOR is found out once.
use op_test.Prelude.{◌≡◌, refl, Bool, not, Option, none, some}
use op_test.Exec.{Result, ok, err, continue, pure, modify, ◌>>=◌, ◌>>◌}
use op_test.Exec.Triple.{Ends}
use op_test.Exceptions.{OpException}
use op_test.Bmc.{BmcHost, Op, validate_pflash_tool}
use op_test.OpenBmc.Flash.{OpenBmc, on_bmc, find_out, query_vpnor}

module _ {W : Type 0} (b : BmcHost W) (wait : Op W Bool) where
  -- What is known is not after_asking for.
  known_again :
      (known : Bool) (s : OpenBmc W)
      → s.has_vpnor ≡ some known
      → query_vpnor b wait s ≡ (ok known, s)
  unfolding query_vpnor ◌>>=◌
  known_again known s h = simp h refl

  after_asking :
      (before : Option Bool) (r : Result OpException Bool) (s : OpenBmc W)
      → s.has_vpnor ≡ before
      → let (q, v) =
          continue r
            (λ has_pflash.
              modify (λ x. record x { has_vpnor = some (not has_pflash) }) >> pure (not has_pflash))
            s in
        Ends (λ known x. query_vpnor b wait x ≡ (ok known, x)) (λ e x. x.has_vpnor ≡ before) q v
  unfolding ◌>>=◌
  after_asking before (ok has_pflash) s h =
      known_again (not has_pflash) (record s { has_vpnor = some (not has_pflash) }) refl
  after_asking before (err e) s h = h

  found_out :
      (before : Option Bool) (s : OpenBmc W)
      → s.has_vpnor ≡ before
      → Ends
          (λ known x. query_vpnor b wait x ≡ (ok known, x))
          (λ e x. x.has_vpnor ≡ before)
          (find_out b wait before s).0
          (find_out b wait before s).1
  unfolding on_bmc ◌>>=◌
  found_out (some known) s h = known_again known s h
  found_out none s h =
      let (r, w) = validate_pflash_tool b "" s.world in
      after_asking none r (record s { world = w }) h

  -- What `query_vpnor` returns it returns from then on, without asking the BMC; where it raises, what
  -- was known before is still all that is known.
  pub query_vpnor_once :
      (s : OpenBmc W)
      → Ends
          (λ known x. query_vpnor b wait x ≡ (ok known, x))
          (λ e x. x.has_vpnor ≡ s.has_vpnor)
          (query_vpnor b wait s).0
          (query_vpnor b wait s).1
  unfolding query_vpnor ◌>>=◌
  query_vpnor_once s = found_out s.has_vpnor s refl
