-- ===== src/LocalTime.antt =====
-- src/coordination_loop_harness/local_time.py: elapsed deadlines on one boot of one process.
-- The annotated field types are the types here, so the `isinstance` tests on them always pass.
-- The native Windows clock is not modelled: what its `read` gives is an argument, a `Reading`.
-- `LocalTimeHold` is `value_error`; any other exception of the callback is `os_error`.
pub mod Uuid
pub mod Sample
pub mod Deadline
pub mod Checks
pub mod Due
pub mod Latch
pub mod Expiry
mod Examples
