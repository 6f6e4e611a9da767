-- ===== src/Windows.antt =====
-- The Windows boundary of src/coordination_loop_harness: what the windows_* modules decide about
-- the evidence that the native calls give them. `WindowsBoundaryHold` is `value_error`. The native
-- calls themselves are not modelled: the evidence is an argument.
pub mod Security
pub mod Custody
pub mod Policy
pub mod Writer
pub mod WriterFacts
mod Examples
