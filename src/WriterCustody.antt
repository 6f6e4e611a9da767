-- ===== src/WriterCustody.antt =====
-- src/coordination_loop_harness/writer_custody.py: untrusted observations about a writer's custody.
-- The annotated field types are the types here, so the `isinstance` tests always pass. The process-
-- local dictionary is an association list; a `dict` is read by key and, for the stale generations,
-- in the order of its keys, which `sorted` then forgets.
pub mod Store
pub mod Evaluate
pub mod Denial
mod Examples
