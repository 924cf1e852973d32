-- ===== src/Bmc.antt =====
-- class OpTestBMC of common/OpTestBMC.py and its subclass OpTestSMC: the commands on the BMC itself, its
-- reboot and the flashing with pflash. The transfer of an image is not modelled.
use Prim.Native.String.{◌++◌ as append}
use op_test.Prelude.{ℕ, zero, suc, Bool, true, false, String, List, [], ◌∷◌, str_eq, if◌then◌else◌}
use op_test.Exec.{Exec, pure, raise, modify, catching, ◌>>=◌, ◌>>◌}
use op_test.Exceptions.{OpException, command_failed, ssh_session_disconnected, op_test_error, other}
use op_test.Lines.{joined}
use op_test.System.Power.{fw_success}

abbrev pub Op : Type 0 → Type 0 → Type 0
Op W A = Exec W OpException A

-- The SSH connection of the BMC, the pings of its address, and a sleep in seconds. `check_call` is one
-- ping, which raises CalledProcessError where it is not answered.
pub record BmcHost (W : Type 0) : Type 0 where
  pub ssh_command : String → ℕ → Op W (List String)
  pub close : Op W Unit
  pub ping_fail_check : Op W Bool
  pub ping_func : ℕ → Op W ℕ
  pub check_call : Op W Unit
  pub sleep : ℕ → W → W

abbrev pub called_process_error : OpException
called_process_error = other "CalledProcessError"

abbrev pub is_called_process_error : OpException → Bool
is_called_process_error (other name) = str_eq name "CalledProcessError"
is_called_process_error e = false

-- A command that ends the session, or fails, has done what it is for.
abbrev pub rebooting : {W : Type 0} → OpException → Op W Unit
rebooting ssh_session_disconnected = pure tt
rebooting (command_failed command output code) = pure tt
rebooting e = raise e

-- `except CommandFailed`: the tool is not there.
abbrev pub no_tool : {W : Type 0} → OpException → Op W Bool
no_tool (command_failed command output code) = pure false
no_tool e = raise e

-- os.path.join(directory, "pflash"), of a directory without a slash at its end
abbrev pub pflash_in : String → String
pflash_in directory = if str_eq directory "" then "pflash" else append directory "/pflash"

module _ {W : Type 0} (b : BmcHost W) where
  -- The command `reboot`, with what follows it
  unfoldable pub send_reboot : Op W Unit
  send_reboot = do catching (do b.ssh_command "reboot" 60; pure tt) rebooting; b.close

  -- A ping that is not answered is false.
  unfoldable pub pinged : Op W Bool
  pinged =
      catching (do b.check_call; pure true)
        (λ e. if is_called_process_error e then (do modify (b.sleep 10); pure false) else raise e)

  -- `while True` with the failed pings that are left before the last: `retries > 10` ends it.
  unfoldable pub reboot_pings : ℕ → Op W Unit
  reboot_pings zero = do answered ← pinged; if answered then pure tt else raise op_test_error
  reboot_pings (suc rounds) = do
    answered ← pinged
    if answered then pure tt else reboot_pings rounds

  unfoldable pub reboot : Op W ℕ
  unfolding send_reboot
  reboot = do send_reboot; b.ping_fail_check; b.ping_func 7; reboot_pings 10; pure fw_success

  pub reboot_nowait : Op W Unit
  unfolding send_reboot
  reboot_nowait = do send_reboot; b.ping_fail_check; pure tt

  pub pnor_img_flash_ami : String → String → Op W (List String)
  pnor_img_flash_ami i_pflash_dir i_image_name =
      b.ssh_command (joined (i_pflash_dir ∷ "/pflash -e -f -p /tmp/" ∷ i_image_name ∷ [])) 1800

  pub pnor_img_flash_openbmc : String → Op W (List String)
  pnor_img_flash_openbmc i_image_name =
      b.ssh_command (append "pflash -E -f -p /tmp/" i_image_name) 1800

  pub flash_part_ami : String → String → String → Op W (List String)
  flash_part_ami i_pflash_dir i_image_name i_part_name =
      b.ssh_command
        (joined
          (i_pflash_dir ∷ "/pflash -p /tmp/" ∷ i_image_name ∷ " -e -f -P " ∷ i_part_name ∷ []))
        1800

  pub skiboot_img_flash_ami : String → String → Op W (List String)
  unfolding flash_part_ami
  skiboot_img_flash_ami i_pflash_dir i_image_name =
      flash_part_ami i_pflash_dir i_image_name "PAYLOAD"

  pub skiroot_img_flash_ami : String → String → Op W (List String)
  unfolding flash_part_ami
  skiroot_img_flash_ami i_pflash_dir i_image_name =
      flash_part_ami i_pflash_dir i_image_name "BOOTKERNEL"

  unfoldable pub flash_part_openbmc : String → String → Op W (List String)
  flash_part_openbmc i_image_name i_part_name =
      b.ssh_command (joined ("pflash -p /tmp/" ∷ i_image_name ∷ " -e -f -P " ∷ i_part_name ∷ []))
        1800

  unfoldable pub skiboot_img_flash_openbmc : String → Op W (List String)
  skiboot_img_flash_openbmc i_image_name = flash_part_openbmc i_image_name "PAYLOAD"

  unfoldable pub skiroot_img_flash_openbmc : String → Op W (List String)
  skiroot_img_flash_openbmc i_image_name = flash_part_openbmc i_image_name "BOOTKERNEL"

  unfoldable pub validate_pflash_tool : String → Op W Bool
  validate_pflash_tool i_dir =
      catching (do b.ssh_command (append "which " (pflash_in i_dir)) 60; pure true) no_tool

  -- OpTestSMC
  pub smc_flash_part : String → String → String → Op W (List String)
  smc_flash_part i_pflash_dir i_image_name i_part_name =
      b.ssh_command
        (joined (
          i_pflash_dir ∷ "/pflash -p /tmp/rsync_file/" ∷ i_image_name ∷ " -e -f -P " ∷ i_part_name
          ∷ []))
        1800

  pub smc_pnor_img_flash : String → String → Op W (List String)
  smc_pnor_img_flash i_pflash_dir i_image_name =
      b.ssh_command
        (joined (i_pflash_dir ∷ "/pflash -e -f -p /tmp/rsync_file/" ∷ i_image_name ∷ [])) 1800

  pub smc_validate_pflash_tool : String → Op W Bool
  smc_validate_pflash_tool i_dir =
      catching (do b.ssh_command (append "ls " (pflash_in i_dir)) 60; pure true) no_tool
