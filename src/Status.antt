-- ===== src/Status.antt =====
-- src/coordination_loop_harness/status.py: the state machine of a run's status.
pub mod Transition
pub mod Legal
pub mod Runs
mod Examples
