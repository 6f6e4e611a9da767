-- ===== src/Util.antt =====
-- src/coordination_loop_harness/util.py and validation.py: what the other parts share,
-- and, in Host and Disk, what the interpreter and the file system supply.
pub mod Host
pub mod Identity
pub mod Scope
pub mod Safe
pub mod Validation
pub mod Disk
pub mod Canonical
pub mod Sort
pub mod Decimal
