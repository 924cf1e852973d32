-- ===== src/System.antt =====
-- common/OpTestSystem.py: the state machine that drives a host from one boot state to another.
-- `State` is the object, `Interface` what it asks of the console and of the BMC, and each other
-- module is a group of methods or of theorems about them.
pub mod State
pub mod Interface
pub mod Callbacks
pub mod WaitForIt
pub mod Power
pub mod Petitboot
pub mod Handlers
pub mod Boot
pub mod Detect
pub mod Goto
pub mod Frame
pub mod Measure
pub mod Edges
mod Tests
