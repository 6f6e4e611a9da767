-- ===== src/Leases.antt =====
-- src/coordination_loop_harness/leases.py: repository-set leases. What two records may not claim at
-- once (Access to Compatible), what a record must be (Lifecycle to Legacy), the decisions that a
-- change rests on (Scope, Authority), the lock root and the operations on it (Registry, Changes),
-- and what any sequence of them keeps (Apart to Archive).
pub mod Access
pub mod AccessLaws
pub mod Sets
pub mod Overlap
pub mod Compatible
pub mod Lifecycle
pub mod LifecycleFacts
pub mod States
pub mod Validate
pub mod Legacy
pub mod Scope
pub mod Authority
pub mod Registry
pub mod Changes
pub mod Protected
pub mod Observe
pub mod Observed
pub mod Listing
pub mod Apart
pub mod Exclusive
pub mod Replacement
pub mod Release
pub mod Guarded
pub mod Archive
pub mod Distinct
pub mod Exact
pub mod View
pub mod Refines
pub mod Steps
pub mod Fixture
pub mod Runs
mod Examples
mod ObserveExamples
