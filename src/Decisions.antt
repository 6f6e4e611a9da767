-- ===== src/Decisions.antt =====
-- src/coordination_loop_harness/decisions.py: owner decisions and the chain of their predecessors.
pub mod Chain
pub mod Verify
pub mod Rounds
pub mod Lineage
pub mod Fuel
pub mod Heads
pub mod Verified
mod Examples
