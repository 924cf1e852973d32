-- ===== src/Exceptions.antt =====
-- The exceptions of common/Exceptions.py and common/OpTestError.py that the modelled code raises or
-- catches, with the state that OpTestSystem.py and OPexpect.py store in them. The texts of the
-- messages are left out. The last constructors are those of Python and of unittest.
use op_test.Prelude.{ℕ, String, List, Option}

-- class OpSystemState of common/OpTestSystem.py
pub data OpSystemState : Type 0 where
  unknown off ipling petitboot petitboot_shell booting os powering_off unknown_bad : OpSystemState

pub OpSystemState-discrete : Discrete OpSystemState
OpSystemState-discrete = hlevel

-- The values of `exitcode` and of `reconnect_count` that the code writes go down to -1.
pub data ℤ : Type 0 where
  pos : ℕ → ℤ
  negsuc : ℕ → ℤ

pub data OpException : Type 0 where
  command_failed : String → List String → ℤ → OpException
  ssh_session_disconnected ssh_connection_failed : OpException
  ssh_command_failed : String → ℤ → OpException
  -- these carry what the failure callback returned, if there is one
  kernel_soft_lockup kernel_hard_lockup kernel_oops : Option OpSystemState → OpException
  kernel_kdump kernel_fadump kernel_crash_unknown : Option OpSystemState → OpException
  kernel_bug kernel_panic : Option OpSystemState → OpException
  skiboot_assert skiboot_exception platform_error : Option OpSystemState → OpException
  hostboot_shutdown stopping_system recover_failed http_check console_settings parameter_check :
      OpException
  unexpected_case : OpSystemState → OpException
  wait_for_it : ℤ → OpException
  unknown_state_transition : OpSystemState → OpException
  op_test_error : OpException
  skip_test type_error key_error index_error zero_division_error value_error : OpException
  -- pexpect.TIMEOUT, pexpect.EOF, socket.timeout, paramiko.SSHException and socket.error
  pexpect_timeout pexpect_eof socket_timeout ssh_exception socket_error : OpException
  other : String → OpException
