-- ===== src/Handoff.antt =====
-- The local handoff of windows_capability.py in src/coordination_loop_harness: the session of the
-- client and its checkpoints, and the inspection of the writer on which they rest.
-- `WindowsBoundaryHold` is `value_error`. The pipe, the process queries and the clock are arguments.
pub mod Wire
pub mod Decimal
pub mod Inspect
pub mod Session
pub mod Checkpoint
pub mod Calls
pub mod Steps
pub mod Order
pub mod Lost
pub mod Inspected
pub mod Passed
mod Examples
