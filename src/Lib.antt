-- ===== src/Lib.antt =====
-- A model of the core of op-test, the OpenPOWER host test framework: the state machine that
-- drives a host between its boot states over a console and a BMC, the terminal code of its
-- consoles, the commands over IPMI, the REST interface of an OpenBMC with the HTTP code under
-- it, the flashing over a BMC's shell, the commands and the pool over SSH, the power of a
-- partition over an HMC, and the numbers of a device tree test.
--
-- The parts, with the file that models each (paths from the repository's root):
-- - Exceptions.antt: common/Exceptions.py and common/OpTestError.py, and the states of a host
--   (class OpSystemState of common/OpTestSystem.py).
-- - Exec.antt: Python methods that change an object and may raise. Exec/Keeps.antt,
--   Exec/Post.antt, Exec/Triple.antt, Exec/Raises.antt and Exec/Safe.antt hold the rules to reason
--   about them.
-- - System.antt and System/: class OpTestSystem of common/OpTestSystem.py. State.antt is the
--   object with its tunables (`__init__`), Interface.antt what it asks of the console, of the
--   terminal code and of the BMC (one implementation to a platform, so a record of operations),
--   Callbacks.antt the tables of expected strings and their callbacks, WaitForIt.antt
--   `wait_for_it` and `check_it`, Power.antt the sys_ methods over the BMC's commands,
--   Petitboot.antt the way between the Petitboot menu and its shell, Handlers.antt and Boot.antt
--   the state handlers (`run_OFF`, `run_IPLing`, ...), Detect.antt `detect_target` and what it
--   calls, Goto.antt `run_DETECT` and `goto_state`. Edges.antt is the diagram of the states,
--   Measure.antt how far the machine is from its end, and Frame.antt the rules for what the
--   operations of a platform leave alone.
-- - Ssh.antt and Ssh/: commands over SSH without a console. Client.antt is what is used of
--   paramiko and of the clock, Connection.antt class OpTestSSHConnection of
--   common/OpTestSSHConnection.py, Executor.antt class OpTestCommandExecutor of
--   common/OpTestCommandExecutor.py and Pool.antt class OpTestConnectionManager of
--   common/OpTestConnectionManager.py with its ConnectionInfo (Pool/State.antt).
--   Pool/Steps.antt sees the pool as a map from keys to entries with a step to each call.
-- - Expect.antt and Expect/: common/OPexpect.py, pexpect's `expect` with the patterns of failures,
--   and the failure callback (set_system_to_UNKNOWN_BAD). Outcome.antt, Reports.antt, Crash.antt
--   and Skiboot.antt are about what it raises and how its loops end.
-- - Lines.antt: the string methods that common/OpTestUtil.py reads a console's buffer with.
--   Lines/Serial.antt is what a console shows, line by line.
-- - Terminal.antt and Terminal/: the terminal code of common/OpTestUtil.py. State.antt is the
--   console object with its flags, Recover.antt `try_recover`, Prompt.antt `get_versions` and
--   `set_PS1`, Login.antt `get_login`, `check_root` and `get_sudo`, Setup.antt `setup_term`,
--   Password.antt `retry_password`, Command.antt `try_command`, `run_command` and
--   `run_command_ignore_fail`, Ping.antt `PingFunc`. SshConsole.antt is the SSHConsole of
--   common/OpTestSSH.py and IpmiConsole.antt the IPMIConsole of common/OpTestIPMI.py; Spawned.antt
--   is what the two ask of the process they spawn.
-- - Ipmi.antt and Ipmi/: class OpTestIPMI of common/OpTestIPMI.py, with the loops that poll the
--   BMC.
-- - DeviceTree.antt and DeviceTree/: the numbers of testcases/DeviceTreeValidation.py.
-- - Hmc.antt and Hmc/: class HMCUtil of common/OpTestHMC.py, the power of a partition and of a
--   managed system, with the waiting for their states, and the migration (Migrate.antt).
-- - Json.antt: the values of a JSON text, with the methods of a dict and of a list that the
--   REST code uses.
-- - Http.antt and Http/: class Server of common/OpTestUtil.py, a session of requests with its
--   login (`login`, `logout`, `loop_it`). The session of the requests package is a parameter
--   (HttpSession).
-- - OpenBmc.antt and OpenBmc/: common/OpTestOpenBMC.py. OpenBmc.antt is the power and the waits
--   of class HostManagement, Images.antt its images, Dumps.antt its dumps, Settings.antt the
--   rest of its settings, and Flash.antt class OpTestOpenBMC with pflash. Waits.antt is about
--   `wait_bmc`.
-- - Bmc.antt: classes OpTestBMC and OpTestSMC of common/OpTestBMC.py, the reboot and the
--   flashing over the shell of a BMC.
--
-- How the parts meet: the console code and the BMC code hold a reference to the system and may
-- write its state (the failure callback of common/OPexpect.py) and the flags of the terminal.
-- These are the attributes of `Shared`; an operation of a platform changes them in any way, and
-- nothing else. The terminal code works on a record of the console's methods, which the two
-- consoles fill from their own `connect`, `get_console` and `close`; the setup of a terminal,
-- which these call again, is a parameter of them. HostManagement asks through a record `Rest`,
-- which OpenBmc/Over.antt fills from the server object of Http.antt; the flashing runs its
-- commands through a record of the BMC's shell (BmcHost).
--
-- Loops: `wait_for_it` runs loop_max rounds as in the source. `run_DETECT` runs at most two.
-- The SSH polling of `run_BOOTING` sleeps ten seconds in a round, so that max_wait / 10 + 1
-- rounds begin at most. The loop of `goto_state` has no bound in the source; here it has seven
-- rounds for each retry that the watermarks leave and seven more, above the measure of
-- Measure.antt.
--
-- The loops of the SSH connection and of the executor have as many rounds as the attempts that
-- are left, and so have the retries of the terminal code and the waiting for a state of the
-- HMC. The loops of IPMI that wait for a state of the BMC test the clock, so that where
-- ipmitool answers and a sleep takes its time their rounds are the seconds of the limit and two
-- more. `loop_it` and `wait_bmc` end by the clock too, here in milliseconds: their rounds are
-- an argument, and Http/Bound.antt and OpenBmc/Waits.antt hold the number that is enough. Loops
-- that end by an answer of the other side (the reading of a crash, a console that is dead, the
-- pings) are on fuel, with what follows when it runs out as an argument (`stuck`).
--
-- The lock of the pool makes each of its operations one step; what it asks of a connection
-- object is a record of actions, and its references are numbers.
--
-- Not modelled: the texts of messages and of the log, the command line of ssh and of ipmitool,
-- the size of the window, the threads of the console, and what the commands do on a host; a
-- sleep is modelled where the code reads the clock or counts its time. Blanks and digits of
-- `int` and `strip` are those of ASCII. A flag that holds 0 or 1 is a Bool. Of the OpenBMC: the
-- event log, the upload of an image, the download of a dump and the transfer of an image with
-- rsync or scp. The rest of the HMC, the other back ends (FSP, eBMC, the simulators), the
-- configuration, the locks of hosts, the web utilities and the test cases call what is modelled
-- here or run commands whose output is data of a host.
pub mod Prelude
pub mod Exec
pub mod Expect
pub mod Lines
pub mod DeviceTree
pub mod Ipmi
pub mod Json
pub mod Http
pub mod OpenBmc
pub mod Bmc
pub mod Hmc
pub mod Terminal
pub mod Exceptions
pub mod System
pub mod Ssh
