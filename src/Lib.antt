-- ===== src/Lib.antt =====
-- A model of coordination-loop-harness, a harness that lets independent workers claim sets of
-- repositories, paths and other resources through lease files in a shared lock root, on the
-- strength of owner decisions that are files of a coordination repository.
--
-- The parts, and the files that model them (sources are under src/coordination_loop_harness/):
-- - leases.py: Leases. A lease record is a JSON value (Json). Leases/Sets and Leases/Access are
--   `_sets` and the access modes, Leases/Overlap is `find_overlaps`; Leases/Lifecycle and
--   Leases/Validate are `_validate_v2_lifecycle` and `_validate_lease`, Leases/Legacy is
--   `_legacy_record_is_valid`; Leases/Scope and Leases/Authority are `_validate_decision_scope`,
--   `_verify_bound_lease_decision`, `_validate_replacement_authority`, `_validate_terminal_release`
--   and `_validate_release_authority`; Leases/Registry is the lock root, the scan of it
--   (`_active_leases`) and `acquire`; Leases/Changes is `replace`, `release` and the archive
--   (`_preserve_previous_candidate`); Leases/Observe is `observe` and `list_leases`, and
--   Leases/Protected is ProtectedCustodyVerifier: Protected/Tree is `_protected_tree` on a tree of
--   what `lstat` and `listxattr` answer, Protected/Custody is `verify`. Leases/View states what the
--   lock root promises, as a table of leases and its steps.
-- - decisions.py: Decisions. Decisions/Chain is `_verify_predecessor_chain`, Decisions/Verify is
--   `verify_decision`. Both read files: a Disk (Util/Disk) is what the repository root holds at
--   one moment.
-- - status.py: Status. Status/Transition is `transition_status`, which asks `verify_decision` for
--   the privileged transitions and returns the document that it writes.
-- - local_time.py: LocalTime. HostSample, LocalIntent and the methods of LocalDeadline, each of
--   which takes the deadline's state and returns the next one.
-- - writer_custody.py: WriterCustody. The evidence store is an argument and a result.
-- - windows_security.py, windows_custody.py, windows_writer.py: Windows. What the modules decide
--   about the evidence that native calls gave them.
-- - windows_capability.py: Handoff. WindowsHandoffSession, whose calls are given what they meet in a
--   World; Handoff/Inspect is WindowsWriterInspector.observe of windows_writer.py. A session holds a
--   LocalDeadline, and every look at the writer checks it.
-- - audit.py: Audit. Audit/Verify is `verify_audit`, on the files of a Disk.
-- - bundles.py: Bundles. Bundles/Tree is `_durable_files`, on a tree of files with their digests and
--   texts; Bundles/Seal is `seal_bundle`, which returns the document that it writes, and
--   Bundles/Verify is `verify_bundle`, which is given what `load_json` of the seal returns.
-- - util.py, validation.py: Util. Identities, path scopes, identifiers, canonical JSON, reading
--   files, `validate_document`.
--
-- How they interact: `acquire`, `replace` and `release` validate the record, verify the decisions
-- that it names on the Disk of the moment, scan the lock root for conflicting claims, and write.
-- They hold the admission mutex from before they read the lock root until they have written, so
-- the root is a state that one operation at a time changes. What an operation sees of the rest of
-- the world may change between two looks: it is given one Moment for each of them, and the
-- theorems hold for all of them.
--
-- Errors are values: Result has Python's exception classes, with the fixed part of the message.
-- Texts whose characters the source walks are lists of code points; integers are Python's, without
-- a bound, and the 64-bit bound of a counter is tested as the source tests it.
--
-- Loops and fuel: all loops but one walk a list or a tree. The stacks of `_durable_files` and
-- `_protected_tree` are recursion over the tree, in `_protected_tree` in the order of the stack;
-- `_durable_files` sorts what it finds, so there the order decides only which of two refusals is
-- raised. The loop over the predecessors of a decision runs on fuel, one round for each file of
-- the Disk and one more. That is enough because each round but the last reads a file that no
-- earlier round read; running out would be an error of the model.
--
-- Arguments of the model (Util/Host, Util/Disk, Moment): case folding and upper case, `resolve`,
-- the path normalisers, `PureWindowsPath.is_absolute`, `datetime.fromisoformat`, `int` of a text,
-- the JSON Schema validator, `json.dumps`, SHA-256, `suffix` and `with_suffix` of paths, the
-- search for secrets in a text, and what clocks, Git, `lstat`, `listxattr` and file identities show.
--
-- Not modelled: `_validate_writer_binding` and `_writer_git_admission_guard`, which run Git, and
-- the comparison of file identities: an operation is given their results. Atomic writes and the
-- making of the mutex file; the native Windows calls; and binding.py, blockers.py, bootstrap.py,
-- cli.py, harness_model.py, mcp_server.py, repository.py, runs.py, windows_acl.py and
-- windows_issuer.py; of windows_capability.py, WindowsPipe and request_source_handoff; of
-- audit.py, `record_audit` and the scans of the repository.

mod Base
pub mod LocalTime
pub mod WriterCustody
pub mod Json
pub mod Util
pub mod Decisions
pub mod Status
pub mod Leases
pub mod Windows
pub mod Handoff
pub mod Audit
pub mod Bundles
