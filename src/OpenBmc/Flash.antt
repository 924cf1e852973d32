-- ===== src/OpenBmc/Flash.antt =====
-- class OpTestOpenBMC of common/OpTestOpenBMC.py: the commands on the BMC and the flashing of its parts,
-- which go by whether the BMC has a virtual PNOR.
pub mod Once
use op_test.Prelude.{
  ℕ, Bool, true, false, not, Option, none, some, String, List, [], ◌∷◌, if◌then◌else◌,
}
use op_test.Exec.{Exec, pure, raise, gets, modify, catching, ◌>>=◌, ◌>>◌}
use op_test.Exceptions.{OpException, command_failed}
use op_test.Lines.{joined}
use op_test.Bmc.{
  BmcHost, Op, reboot, reboot_nowait, pnor_img_flash_openbmc, flash_part_openbmc,
  skiboot_img_flash_openbmc, skiroot_img_flash_openbmc, validate_pflash_tool,
}

-- The attribute that is found out once, and what the rest works on
pub record OpenBmc (W : Type 0) : Type 0 where
  pub has_vpnor : Option Bool
  pub world : W

abbrev pub Act : Type 0 → Type 0 → Type 0
Act W A = Exec (OpenBmc W) OpException A

module _ {W : Type 0} (b : BmcHost W) (wait_for_bmc_runtime : Op W Bool) where
  unfoldable pub on_bmc : {A : Type 0} → Op W A → Act W A
  on_bmc op s = let (r, w) = op s.world in (r, record s { world = w })

  -- Only a system that is not able to have a virtual PNOR has pflash.
  abbrev pub find_out : Option Bool → Act W Bool
  find_out (some known) = pure known
  find_out none = do
    has_pflash ← on_bmc (validate_pflash_tool b "")
    modify (λ s. record s { has_vpnor = some (not has_pflash) })
    pure (not has_pflash)

  unfoldable pub query_vpnor : Act W Bool
  unfolding on_bmc
  query_vpnor = do known ← gets (λ s. s.has_vpnor); find_out known

  unfoldable pub reboot_openbmc : Act W Unit
  unfolding on_bmc
  reboot_openbmc = do on_bmc (reboot b); on_bmc wait_for_bmc_runtime; pure tt

  pub reboot_nowait_openbmc : Act W Unit
  unfolding on_bmc
  reboot_nowait_openbmc = on_bmc (reboot_nowait b)

  abbrev pub run_on_bmc : String → ℕ → Act W Unit
  run_on_bmc command timeout = do on_bmc (b.ssh_command command timeout); pure tt

  pub flash_pnor : String → Act W Unit
  unfolding on_bmc
  flash_pnor pnor_name = do on_bmc (pnor_img_flash_openbmc b pnor_name); pure tt

  -- The lid is padded, as it has to be aligned.
  unfoldable pub flash_skiboot : String → Act W Unit
  unfolding on_bmc query_vpnor
  flash_skiboot lid_name = do
    vpnor ← query_vpnor
    if not vpnor then (do on_bmc (skiboot_img_flash_openbmc b lid_name); pure tt) else (do
      run_on_bmc "dd if=/dev/zero of=/dev/stdout bs=1M count=1 | tr '\\000' '\\377' > /tmp/ones" 60
      run_on_bmc (joined ("cat /tmp/" ∷ lid_name ∷ " /tmp/ones > /tmp/padded" ∷ [])) 60
      run_on_bmc "dd if=/tmp/padded of=/usr/local/share/pnor/PAYLOAD bs=1M count=1" 60)

  -- `except CommandFailed`, which is only a warning
  abbrev pub only_warned : OpException → Act W Unit
  only_warned (command_failed command output code) = pure tt
  only_warned e = raise e

  unfoldable pub flash_skiroot : String → Act W Unit
  unfolding on_bmc query_vpnor
  flash_skiroot lid_name = do
    vpnor ← query_vpnor
    if not vpnor
        then (do on_bmc (skiroot_img_flash_openbmc b lid_name); pure tt)
        else catching
            (do
              run_on_bmc "rm -f /usr/local/share/pnor/BOOTKERNEL" 60
              run_on_bmc
                  (joined ("ln -s /tmp/" ∷ lid_name ∷ " /usr/local/share/pnor/BOOTKERNEL" ∷ [])) 60)
            only_warned

  unfoldable pub flash_part : String → String → Act W Unit
  unfolding on_bmc query_vpnor
  flash_part lid_name part_name = do
    vpnor ← query_vpnor
    if not vpnor
        then (do on_bmc (flash_part_openbmc b lid_name part_name); pure tt)
        else run_on_bmc
            (joined ("mv /tmp/" ∷ lid_name ∷ " /usr/local/share/pnor/" ∷ part_name ∷ [])) 60

  pub clear_field_mode : Act W Unit
  unfolding on_bmc reboot_openbmc
  clear_field_mode = do
    run_on_bmc "fw_setenv fieldmode" 60
    run_on_bmc "systemctl unmask usr-local.mount" 60
    reboot_openbmc
