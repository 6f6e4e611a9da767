-- ===== src/Leases/Runs.antt =====
-- Runs of the operations at the records of one lease, for the examples.
use coordination_loop_harnes.Base.{
  true, [], ◌∷◌, codes, ok, err, some, none, ◌++◌, runtime_error, ◌≡◌, refl,
}
use coordination_loop_harnes.Json.{
  Json, obj, field, end, get, put, truthy, json_eq, items_eq, fields_eq,
}
use coordination_loop_harnes.Base.Int.{◌+ℤ◌, ◌-ℤ◌, pos}
use coordination_loop_harnes.Util.Identity.{cut_prefix, canonical_repo, canonical_repo_v2}
use coordination_loop_harnes.Util.Safe.{is_safe_id, is_safe_json_integer}
use coordination_loop_harnes.Util.Disk.{
  load_json, canonical_path, is_relative_to, ensure_within_root,
}
use coordination_loop_harnes.Util.Canonical.{
  canonical_json_bytes, lease_candidate_sha256, validate_canonical_json_numbers,
}
use coordination_loop_harnes.Util.Validation.{load_schema, validate_document}
use coordination_loop_harnes.Util.Scope.{
  is_reserved, has_control, has_invalid, component_safe, components_safe, rest_safe,
  is_v2_absolute_scope, is_repository_relative_path_v2, is_absolute_scope, is_native_absolute_scope,
  canonical_scope, windows_device_scope_alias,
}
use coordination_loop_harnes.Leases.Access.{
  lookup, insert, merge_access, merge_each, combine, paths_overlap, sorted,
}
use coordination_loop_harnes.Leases.Sets.{
  repository_overlap_identities, scope_overlap_identities, item_mode, unhashable_mode, claim_path,
  claim_branch, claim_item, claim_items, claim_scopes, claim_infrastructure, claimed, sets,
}
use coordination_loop_harnes.Leases.Overlap.{
  claim_overlaps, path_overlaps_with, path_overlaps, repository_category, set_overlaps, declared_id,
  id_taken, id_overlaps, overlaps_with, overlaps_each, find_overlaps,
}
use coordination_loop_harnes.Leases.Lifecycle.{
  infrastructure_invalid, active_writer_mismatch, serialized_writers, check_writer,
  has_terminal_field, check_active, generation_invalid, release_incomplete, timestamp,
  check_scope_field, check_binding, check_bindings, check_local_scopes, check_release_time,
  check_released, check_times, check_state, check_repositories, check_scopes, validate_v2_lifecycle,
}
use coordination_loop_harnes.Leases.Validate.{
  texts_distinct, identified, writer_differs, entries_at, bindings_missing, reads_elsewhere,
  check_sole_writer, check_self_write_entry, validate_coordination_self_write,
  is_coordination_self_write, check_native, check_native_items, check_native_scopes, check_v2,
  check_coordination, check_v1_writer, check_other_schema, validate_lease,
}
use coordination_loop_harnes.Leases.Scope.{
  is_owner_name, canonical_v2_repository_scope, branch_entry, opaque_entry,
  canonical_decision_scope_entry, canonical_entries, scope_missing, check_decision_scope,
  validate_decision_scope,
}
use coordination_loop_harnes.Leases.Authority.{
  portable_ref, check_decision_ref, decision_for, check_bound, verify_bound_lease_decision,
  check_succession, validate_replacement_authority,
}
use coordination_loop_harnes.Leases.Registry.{
  v2_terminal, terminal_record_is_valid, scan_record, scan_content, active_leases, others,
  refuse_overlaps, require_unexpired_acquisition, publish_new, overwrite, admit_candidate, acquire,
  LockRoot, readable, Entry,
}
use coordination_loop_harnes.Leases.Changes.{
  changes_any, archived_bytes, check_current, read_entry, preserve_previous_candidate,
  check_schemas, check_replacement, archive, publish_replacement, replace,
}
use coordination_loop_harnes.Decisions.Chain.{
  positive_sequence, markdown_findings, read_previous, next_of, next_decision, previous_findings,
  verify_predecessor_chain,
}
use coordination_loop_harnes.Decisions.Verify.{
  authorizes, digest_invalid, binding_findings, head_findings, lease_findings, later_findings,
  chain_findings, decision_findings, read_decision, verify_decision,
}
use coordination_loop_harnes.Leases.Fixture.{
  text, host, moment, first_lease, second_lease, empty_root, first_root, disk,
}
use coordination_loop_harnes.Util.Identity.{cut_prefix, canonical_repo, canonical_repo_v2}
use coordination_loop_harnes.Util.Safe.{is_safe_id, is_safe_json_integer}
use coordination_loop_harnes.Util.Disk.{
  load_json, canonical_path, is_relative_to, ensure_within_root,
}
use coordination_loop_harnes.Util.Canonical.{
  canonical_json_bytes, lease_candidate_sha256, validate_canonical_json_numbers,
}
use coordination_loop_harnes.Util.Validation.{load_schema, validate_document}
use coordination_loop_harnes.Util.Scope.{
  is_reserved, has_control, has_invalid, component_safe, components_safe, rest_safe,
  is_v2_absolute_scope, is_repository_relative_path_v2, is_absolute_scope, is_native_absolute_scope,
  canonical_scope, windows_device_scope_alias,
}
use coordination_loop_harnes.Leases.Access.{
  lookup, insert, merge_access, merge_each, combine, paths_overlap, sorted,
}
use coordination_loop_harnes.Leases.Sets.{
  repository_overlap_identities, scope_overlap_identities, item_mode, unhashable_mode, claim_path,
  claim_branch, claim_item, claim_items, claim_scopes, claim_infrastructure, claimed, sets,
}
use coordination_loop_harnes.Leases.Overlap.{
  claim_overlaps, path_overlaps_with, path_overlaps, repository_category, set_overlaps, declared_id,
  id_taken, id_overlaps, overlaps_with, overlaps_each, find_overlaps,
}
use coordination_loop_harnes.Leases.Lifecycle.{
  infrastructure_invalid, active_writer_mismatch, serialized_writers, check_writer,
  has_terminal_field, check_active, generation_invalid, release_incomplete, timestamp,
  check_scope_field, check_binding, check_bindings, check_local_scopes, check_release_time,
  check_released, check_times, check_state, check_repositories, check_scopes, validate_v2_lifecycle,
}
use coordination_loop_harnes.Leases.Validate.{
  texts_distinct, identified, writer_differs, entries_at, bindings_missing, reads_elsewhere,
  check_sole_writer, check_self_write_entry, validate_coordination_self_write,
  is_coordination_self_write, check_native, check_native_items, check_native_scopes, check_v2,
  check_coordination, check_v1_writer, check_other_schema, validate_lease,
}
use coordination_loop_harnes.Leases.Scope.{
  is_owner_name, canonical_v2_repository_scope, branch_entry, opaque_entry,
  canonical_decision_scope_entry, canonical_entries, scope_missing, check_decision_scope,
  validate_decision_scope,
}
use coordination_loop_harnes.Leases.Authority.{
  portable_ref, check_decision_ref, decision_for, check_bound, verify_bound_lease_decision,
  check_succession, validate_replacement_authority,
}
use coordination_loop_harnes.Leases.Changes.{
  changes_any, archived_bytes, check_current, read_entry, preserve_previous_candidate,
  check_schemas, check_replacement, archive, publish_replacement, replace,
}
use coordination_loop_harnes.Decisions.Chain.{
  positive_sequence, markdown_findings, read_previous, next_of, next_decision, previous_findings,
  verify_predecessor_chain,
}
use coordination_loop_harnes.Decisions.Verify.{
  authorizes, digest_invalid, binding_findings, head_findings, lease_findings, later_findings,
  chain_findings, decision_findings, read_decision, verify_decision,
}
use coordination_loop_harnes.Leases.Observe.{
  Observation, active, noted, attempted, validation_root, check_observed, v2_findings, v1_findings,
  record_findings, ownership, observe_record, observe_seen, observe, observation_of,
}
use coordination_loop_harnes.Util.Decimal.{digits_of, str_int}
use coordination_loop_harnes.Leases.Protected.Tree.{
  mutable, set_identity, same_identities, traversal, check_attributes, check, check_classified,
  scan, visit, check_above, protected_tree,
}
use coordination_loop_harnes.Leases.Protected.Custody.{
  check_issuer, check_ancestry, check_current_custody, load_archived, lease_entry, loaded,
  check_bytes, previous_generation, lineage, check_roots, verify_current, verify_decisions, verify,
}
use coordination_loop_harnes.Base.Int.{◌+ℤ◌, ◌-ℤ◌, pos}
use coordination_loop_harnes.Util.Identity.{cut_prefix, canonical_repo, canonical_repo_v2}
use coordination_loop_harnes.Util.Safe.{is_safe_id, is_safe_json_integer}
use coordination_loop_harnes.Util.Disk.{
  load_json, canonical_path, is_relative_to, ensure_within_root,
}
use coordination_loop_harnes.Util.Canonical.{
  canonical_json_bytes, lease_candidate_sha256, validate_canonical_json_numbers,
}
use coordination_loop_harnes.Util.Validation.{load_schema, validate_document}
use coordination_loop_harnes.Util.Scope.{
  is_reserved, has_control, has_invalid, component_safe, components_safe, rest_safe,
  is_v2_absolute_scope, is_repository_relative_path_v2, is_absolute_scope, is_native_absolute_scope,
  canonical_scope, windows_device_scope_alias,
}
use coordination_loop_harnes.Leases.Access.{
  lookup, insert, merge_access, merge_each, combine, paths_overlap, sorted,
}
use coordination_loop_harnes.Leases.Sets.{
  repository_overlap_identities, scope_overlap_identities, item_mode, unhashable_mode, claim_path,
  claim_branch, claim_item, claim_items, claim_scopes, claim_infrastructure, claimed, sets,
}
use coordination_loop_harnes.Leases.Overlap.{
  claim_overlaps, path_overlaps_with, path_overlaps, repository_category, set_overlaps, declared_id,
  id_taken, id_overlaps, overlaps_with, overlaps_each, find_overlaps,
}
use coordination_loop_harnes.Leases.Lifecycle.{
  infrastructure_invalid, active_writer_mismatch, serialized_writers, check_writer,
  has_terminal_field, check_active, generation_invalid, release_incomplete, timestamp,
  check_scope_field, check_binding, check_bindings, check_local_scopes, check_release_time,
  check_released, check_times, check_state, check_repositories, check_scopes, validate_v2_lifecycle,
}
use coordination_loop_harnes.Leases.Validate.{
  texts_distinct, identified, writer_differs, entries_at, bindings_missing, reads_elsewhere,
  check_sole_writer, check_self_write_entry, validate_coordination_self_write,
  is_coordination_self_write, check_native, check_native_items, check_native_scopes, check_v2,
  check_coordination, check_v1_writer, check_other_schema, validate_lease,
}
use coordination_loop_harnes.Leases.Scope.{
  is_owner_name, canonical_v2_repository_scope, branch_entry, opaque_entry,
  canonical_decision_scope_entry, canonical_entries, scope_missing, check_decision_scope,
  validate_decision_scope,
}
use coordination_loop_harnes.Leases.Authority.{
  portable_ref, check_decision_ref, decision_for, check_bound, verify_bound_lease_decision,
  check_succession, validate_replacement_authority,
}
use coordination_loop_harnes.Leases.Changes.{
  changes_any, archived_bytes, check_current, read_entry, preserve_previous_candidate,
  check_schemas, check_replacement, archive, publish_replacement, replace,
}
use coordination_loop_harnes.Decisions.Chain.{
  positive_sequence, markdown_findings, read_previous, next_of, next_decision, previous_findings,
  verify_predecessor_chain,
}
use coordination_loop_harnes.Decisions.Verify.{
  authorizes, digest_invalid, binding_findings, head_findings, lease_findings, later_findings,
  chain_findings, decision_findings, read_decision, verify_decision,
}
use coordination_loop_harnes.Leases.Protected.Fixture.{custody, snapshot}

abbrev pub second_root : LockRoot
second_root = record {
  entries = record { name = codes "L1"; content = readable second_lease } ∷ [];
  history = record { lease_id = codes "L1"; generation = pos 1; stored = codes "d1.json" } ∷ [];
}

abbrev pub closed_lease : Json
closed_lease = obj (field "lease_id" (text "L0") (field "state" (text "RELEASED") end))

abbrev pub closed_entry : Entry
closed_entry = record { name = codes "L0"; content = readable closed_lease }

abbrev pub closed_root : LockRoot
closed_root = record empty_root { entries = closed_entry ∷ [] }

abbrev pub later_root : LockRoot
later_root = record first_root { entries = first_root.entries ++ (closed_entry ∷ []) }

abbrev pub sight : Observation
sight = observation_of first_lease [] active

pub runs :
    (validate_v2_lifecycle host first_lease ≡ ok tt)
    × (acquire host (λ n. moment) true first_lease empty_root ≡ ok first_root)
    × (acquire host (λ n. moment) true first_lease closed_root ≡ ok later_root)
    × (replace host (λ n. moment) true second_lease (pos 1) first_root ≡ ok second_root)
    × (acquire host (λ n. moment) true first_lease first_root
        ≡ err (runtime_error "Repository-set overlap detected"))
    × (observe host moment true first_root.entries (codes "L1") (some (ok disk)) none ≡ ok sight)
    × (verify host custody (codes "L1") (pos 2) (codes "d2.json") ≡ ok snapshot)
unfolding get put truthy json_eq items_eq fields_eq ◌+ℤ◌ ◌-ℤ◌ cut_prefix canonical_repo
    canonical_repo_v2 is_safe_id is_safe_json_integer load_json canonical_path is_relative_to
    ensure_within_root canonical_json_bytes lease_candidate_sha256 validate_canonical_json_numbers
    load_schema validate_document is_reserved has_control has_invalid component_safe components_safe
    rest_safe is_v2_absolute_scope is_repository_relative_path_v2 is_absolute_scope
    is_native_absolute_scope canonical_scope windows_device_scope_alias lookup insert merge_access
    merge_each combine paths_overlap sorted repository_overlap_identities scope_overlap_identities
    item_mode unhashable_mode claim_path claim_branch claim_item claim_items claim_scopes
    claim_infrastructure claimed sets claim_overlaps path_overlaps_with path_overlaps
    repository_category set_overlaps declared_id id_taken id_overlaps overlaps_with overlaps_each
    find_overlaps infrastructure_invalid active_writer_mismatch serialized_writers check_writer
    has_terminal_field check_active generation_invalid release_incomplete timestamp
    check_scope_field check_binding check_bindings check_local_scopes check_release_time
    check_released check_times check_state check_repositories check_scopes validate_v2_lifecycle
    texts_distinct identified writer_differs entries_at bindings_missing reads_elsewhere
    check_sole_writer check_self_write_entry validate_coordination_self_write
    is_coordination_self_write check_native check_native_items check_native_scopes check_v2
    check_coordination check_v1_writer check_other_schema validate_lease is_owner_name
    canonical_v2_repository_scope branch_entry opaque_entry canonical_decision_scope_entry
    canonical_entries scope_missing check_decision_scope validate_decision_scope portable_ref
    check_decision_ref decision_for check_bound verify_bound_lease_decision check_succession
    validate_replacement_authority v2_terminal terminal_record_is_valid scan_record scan_content
    active_leases others refuse_overlaps require_unexpired_acquisition publish_new overwrite
    admit_candidate acquire changes_any archived_bytes check_current read_entry
    preserve_previous_candidate check_schemas check_replacement archive publish_replacement replace
    positive_sequence markdown_findings read_previous next_of next_decision previous_findings
    verify_predecessor_chain authorizes digest_invalid binding_findings head_findings lease_findings
    later_findings chain_findings decision_findings read_decision verify_decision noted attempted
    validation_root check_observed v2_findings v1_findings record_findings ownership observe_record
    observe_seen observe digits_of str_int check_issuer check_ancestry check_current_custody
    load_archived lease_entry loaded check_bytes previous_generation lineage check_roots
    verify_current verify_decisions verify protected_tree check_above check check_attributes
    check_classified scan visit traversal mutable set_identity same_identities
runs = (refl, refl, refl, refl, refl, refl, refl)
