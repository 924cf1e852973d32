-- ===== src/Ipmi/Runtime.antt =====
-- A BMC that does not answer while it is waited for.
use op_test.Prelude.{ℕ, zero, suc, ◌≡◌, refl}
use op_test.Exec.{err, ◌>>=◌}
use op_test.Exceptions.{OpException}
use op_test.Ipmi.{Op, Bmc, runtime_rounds, ipmi_wait_for_bmc_runtime}

module _ {W : Type 0} (b : Bmc W)
    (silent : (w : W)
      → (e : OpException) × (v : W) × (b.run " raw 0x3a 0x0a " w ≡ (err e, v))) where
  rounds_silent :
      (stuck : Op W ℕ) (rounds limit : ℕ) (w : W)
      → (v : W) × (runtime_rounds b stuck rounds limit w ≡ stuck v)
  unfolding runtime_rounds ◌>>=◌
  rounds_silent stuck zero limit w = (w, refl)
  rounds_silent stuck (suc rounds) limit w =
      let (e, v, p) = silent w in
      let (u, q) = rounds_silent stuck rounds limit v in (u, simp (p, q))

  -- While every call of ipmitool raises, `ipmi_wait_for_bmc_runtime` does not end, whatever its time
  -- limit: after any number of rounds it is still in the loop.
  pub ipmi_wait_for_bmc_runtime_silent :
      (stuck : Op W ℕ) (rounds i_timeout : ℕ) (w : W)
      → (v : W) × (ipmi_wait_for_bmc_runtime b stuck rounds i_timeout w ≡ stuck v)
  unfolding ipmi_wait_for_bmc_runtime ◌>>=◌
  ipmi_wait_for_bmc_runtime_silent stuck rounds i_timeout w = rounds_silent stuck rounds _ w
