-- ===== src/Leases/Protected.antt =====
-- ProtectedCustodyVerifier in src/coordination_loop_harness/leases.py: the read-only verification
-- of a custody against roots that only a privileged user can change.
pub mod Tree
pub mod Custody
pub mod Fixed
pub mod Lineage
pub mod Verified
pub mod Fixture
mod Examples
