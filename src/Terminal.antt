-- ===== src/Terminal.antt =====
-- The code of common/OpTestUtil.py that works on a terminal: the recovery of a console, its prompt,
-- the login, `sudo`, the commands with their exit code and their retries, and the pings.
mod Tests
mod LinkTests
pub mod State
pub mod Recover
pub mod Prompt
pub mod Login
pub mod Setup
pub mod Password
pub mod Command
pub mod Ping
pub mod Spawned
pub mod SshConsole
pub mod IpmiConsole
