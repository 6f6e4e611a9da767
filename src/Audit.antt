-- ===== src/Audit.antt =====
-- audit.py in src/coordination_loop_harness: the verification of a recorded audit. The scans of the
-- repository and `record_audit`, which writes the files, are not modelled.
pub mod Verify
pub mod Sound
mod Examples
