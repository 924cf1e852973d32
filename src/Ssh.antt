-- ===== src/Ssh.antt =====
-- common/OpTestSSHConnection.py, OpTestCommandExecutor.py and OpTestConnectionManager.py: commands over
-- SSH without a console. `Client` is what they use of paramiko and of the clock.
pub mod Client
pub mod Connection
pub mod Executor
pub mod Pool
mod Tests
