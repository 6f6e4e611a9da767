-- ===== src/Bundles.antt =====
-- bundles.py in src/coordination_loop_harness: the seal over the durable files of a run, and its
-- verification.
pub mod Tree
pub mod Seal
pub mod Verify
pub mod Maps
pub mod Links
pub mod Intact
pub mod Sealed
pub mod Bound
pub mod RoundTrip
mod Examples
