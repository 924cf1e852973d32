-- ===== src/System/Edges.antt =====
-- The diagram of the host's states: which state a handler may return from which.
use op_test.Prelude.{◌≡◌, refl, ◌⊎◌, inl, inr}
use op_test.Exceptions.{
  OpSystemState, unknown, off, ipling, petitboot, petitboot_shell, booting, os, powering_off,
  unknown_bad,
}

pub data Edge : OpSystemState → OpSystemState → Type 0 where
  lost_off : Edge unknown powering_off
  bad_off : Edge unknown_bad powering_off
  stay_off : Edge off off
  power_on : Edge off ipling
  ipl_off : Edge ipling powering_off
  ipl_done : Edge ipling petitboot
  ipl_bad : Edge ipling unknown_bad
  ipl_lost : Edge ipling unknown
  stay_menu : Edge petitboot petitboot
  menu_shell : Edge petitboot petitboot_shell
  menu_off : Edge petitboot powering_off
  menu_boot : Edge petitboot booting
  stay_shell : Edge petitboot_shell petitboot_shell
  shell_menu : Edge petitboot_shell petitboot
  shell_off : Edge petitboot_shell powering_off
  boot_done : Edge booting os
  boot_bad : Edge booting unknown_bad
  boot_lost : Edge booting unknown
  stay_os : Edge os os
  os_off : Edge os powering_off
  now_off : Edge powering_off off

pub ruleset edges = (
  lost_off, bad_off, stay_off, power_on, ipl_off, ipl_done, ipl_bad, ipl_lost, stay_menu,
  menu_shell, menu_off, menu_boot, stay_shell, shell_menu, shell_off, boot_done, boot_bad,
  boot_lost, stay_os, os_off, now_off,
)

pub data Route : OpSystemState → OpSystemState → Type 0 where
  here : {s : OpSystemState} → Route s s
  step : {s t u : OpSystemState} → Edge s t → Route t u → Route s u

-- The OS is left by a power-off alone.
pub os_left : {t : OpSystemState} → Route os t → (t ≡ os) ⊎ Route powering_off t
os_left here = inl refl
os_left (step stay_os r) = os_left r
os_left (step os_off r) = inr r

-- The OS is entered by its boot alone.
pub os_entered : {s : OpSystemState} → Route s os → (s ≡ os) ⊎ Route s booting
os_entered here = inl refl
os_entered (step e r) = after e (os_entered r)
  where
    after :
        {s t : OpSystemState} → Edge s t → (t ≡ os) ⊎ Route t booting → (s ≡ os) ⊎ Route s booting
    after e (inr r) = inr (step e r)
    after stay_os (inl q) = inl refl
    after boot_done (inl q) = inr here
    after lost_off (inl q) = cc
    after bad_off (inl q) = cc
    after stay_off (inl q) = cc
    after power_on (inl q) = cc
    after ipl_off (inl q) = cc
    after ipl_done (inl q) = cc
    after ipl_bad (inl q) = cc
    after ipl_lost (inl q) = cc
    after stay_menu (inl q) = cc
    after menu_shell (inl q) = cc
    after menu_off (inl q) = cc
    after menu_boot (inl q) = cc
    after stay_shell (inl q) = cc
    after shell_menu (inl q) = cc
    after shell_off (inl q) = cc
    after boot_bad (inl q) = cc
    after boot_lost (inl q) = cc
    after os_off (inl q) = cc
    after now_off (inl q) = cc
