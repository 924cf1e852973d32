-- ===== src/System/Tests.antt =====
-- A host that answers from a script, and the theorems about OpTestSystem.py applied to it.
use op_test.Prelude.{ℕ, ◌≡◌, refl, ◌⊎◌, true, false, none, some, List, [], ◌∷◌, arith}
use op_test.Exec.{ok, err}
use op_test.Exec.Post.{Returns}
use op_test.Exceptions.{
  unknown, off, petitboot, petitboot_shell, booting, os, powering_off, stopping_system, pos,
}
use op_test.System.State.{OpTestSystem, init, ipmi}
use op_test.System.Interface.{Op, Platform}
use op_test.System.Callbacks.{petitboot_expect_table}
use op_test.System.WaitForIt.{WaitArgs, default_vals, sorted_keys, wait_for_it}
use op_test.System.WaitForIt.Hits.{IsHit, wait_for_it-IsHit}
use op_test.System.Measure.{Progress, measure}
use op_test.System.Boot.{state_handler}
use op_test.System.Boot.Progress.{state_handler-Progress}
use op_test.System.Handlers.Transitions.{Next}
use op_test.System.Boot.Transitions.{state_handler_edge}
use op_test.System.Detect.{detect_target}
use op_test.System.Detect.Answers.{IsAnswer, detect_target-IsAnswer}
use op_test.System.Edges.{
  Route, here, step, os_left, os_entered, os_off, boot_done, menu_boot, now_off,
}
use op_test.System.Goto.{run_detect, goto_state}
use op_test.System.Goto.Stopped.{entered, goto_state_stopped, run_detect_spent}
use op_test.Exec.Triple.{Ends}
use op_test.System.Boot.PowerOff.{Never}
use op_test.System.Goto.PowersOff.{goto_state_powers_off, Done as Done_off}
use op_test.System.Goto.Reaches.{Done, goto_state_ends, goto_state_reaches}

-- The rest of the script: the indices that `expect` will return, TIMEOUT where there are no more.
abbrev Script : Type 0
Script = List ℕ

abbrev next : Op Script ℕ
next sh = elim sh.world [ [] ↦ (ok 0, sh) | r ∷ rs ↦ (ok r, record sh { world = rs }) ]

abbrev done : Op Script Unit
done sh = (ok tt, sh)

abbrev answer : {A : Type 0} → A → Op Script A
answer a sh = (ok a, sh)

abbrev scripted : Platform Script
scripted = record {
  connect = done;
  get_console = done;
  close = done;
  send = λ _. done;
  sendline = λ _. done;
  sendcontrol = λ _. done;
  expect = λ _ _. next;
  expect_prompt = "# ";
  before = answer "";
  after = answer "";
  last_line_int = λ _. some (pos 1);
  enable_setup_term_quiet = done;
  disable_setup_term_quiet = done;
  set_ps1 = answer (pos 1);
  try_recover = λ _. done;
  check_nvram_options = answer none;
  ssh_is_alive = answer false;
  ssh_probe = answer (false, false);
  hmc_probe = answer (false, false);
  ssh_disconnected = done;
  ipmi_sdr_clear = answer 0;
  ipmi_power_on = answer 0;
  ipmi_power_off = done;
  ipmi_set_boot_to_petitboot = done;
  ipmi_set_no_override = done;
  ipmi_wait_for_standby_state = λ _. answer 0;
  ipmi_sel_check = answer 0;
  ipmi_sel_elist = done;
  poweron_lpar = answer 0;
  ssh_boot_attempt = answer 0;
  within = λ _. answer true;
}

-- A host that is off, and one whose console shows the login prompt.
abbrev switched_off : OpTestSystem Script
switched_off = init (2 ∷ 2 ∷ []) ipmi off

abbrev booted : OpTestSystem Script
booted = init [] ipmi os

abbrev stopped : OpTestSystem Script
stopped = record switched_off { stop = true }

abbrev detected_twice : OpTestSystem Script
detected_twice = record (init (4 ∷ []) ipmi unknown) { detect_counter = 2 }

abbrev menu_args : WaitArgs
menu_args = default_vals petitboot_expect_table

goto_state_reaches_example :
    Returns
      (Done scripted os)
      (goto_state scripted os switched_off).0
      (goto_state scripted os switched_off).1
goto_state_reaches_example = goto_state_reaches scripted (λ sh. refl) os switched_off

goto_state_ends_example :
    Returns
      (λ done _. done ≡ true)
      (goto_state scripted petitboot booted).0
      (goto_state scripted petitboot booted).1
goto_state_ends_example = goto_state_ends scripted petitboot booted

state_handler-Progress_example :
    Returns
      (Progress os off (measure os off switched_off))
      (state_handler scripted off os switched_off).0
      (state_handler scripted off os switched_off).1
state_handler-Progress_example = state_handler-Progress scripted os off switched_off

state_handler_edge_example :
    Returns
      (Next off)
      (state_handler scripted off os switched_off).0
      (state_handler scripted off os switched_off).1
state_handler_edge_example = state_handler_edge scripted os off switched_off

wait_for_it-IsHit_example :
    Returns
      (IsHit petitboot_expect_table (sorted_keys petitboot_expect_table))
      (wait_for_it scripted menu_args switched_off).0
      (wait_for_it scripted menu_args switched_off).1
wait_for_it-IsHit_example = wait_for_it-IsHit scripted menu_args switched_off (omega arith)

goto_state_stopped_example :
    goto_state scripted os stopped ≡ (err stopping_system, entered scripted os stopped)
unfolding init
goto_state_stopped_example = goto_state_stopped scripted os stopped refl (λ e. cc) refl

detections_spent :
    run_detect scripted os detected_twice
    ≡ (ok unknown, record detected_twice { detect_counter = 3 })
unfolding init
detections_spent = run_detect_spent scripted os detected_twice (omega arith)

detect_target-IsAnswer_example :
    Returns
      (IsAnswer petitboot_shell)
      (detect_target scripted petitboot_shell false booted).0
      (detect_target scripted petitboot_shell false booted).1
detect_target-IsAnswer_example = detect_target-IsAnswer scripted petitboot_shell false booted

os_left_example : (off ≡ os) ⊎ Route powering_off off
os_left_example = os_left (step os_off (step now_off here))

os_entered_example : (petitboot ≡ os) ⊎ Route petitboot booting
os_entered_example = os_entered (step menu_boot (step boot_done here))

goto_state_powers_off_example :
    Ends
      (Done_off scripted)
      Never
      (goto_state scripted off booted).0
      (goto_state scripted off booted).1
unfolding init
goto_state_powers_off_example =
    goto_state_powers_off scripted (λ sh. refl) (λ sh. refl) (λ sh. refl) booted refl refl
