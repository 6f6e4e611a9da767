-- ===== src/Decisions/Examples.antt =====
-- The second of two decisions.
use coordination_loop_harnes.Base.{true, [], ◌∷◌, codes, ok, ◌≡◌, refl, is_some}
use coordination_loop_harnes.Json.{get, put, truthy, json_eq, items_eq, fields_eq, int}
use coordination_loop_harnes.Base.Int.{◌+ℤ◌, ◌-ℤ◌, pos}
use coordination_loop_harnes.Util.Safe.{is_safe_id, is_safe_json_integer}
use coordination_loop_harnes.Util.Disk.{
  load_json, canonical_path, is_relative_to, ensure_within_root,
}
use coordination_loop_harnes.Util.Validation.{load_schema, validate_document}
use coordination_loop_harnes.Util.Scope.{
  is_reserved, has_control, has_invalid, component_safe, components_safe, rest_safe,
  is_v2_absolute_scope, is_repository_relative_path_v2, is_absolute_scope, is_native_absolute_scope,
  canonical_scope, windows_device_scope_alias,
}
use coordination_loop_harnes.Decisions.Chain.{
  positive_sequence, markdown_findings, read_previous, next_of, next_decision, previous_findings,
  verify_predecessor_chain,
}
use coordination_loop_harnes.Decisions.Verify.{
  authorizes, digest_invalid, binding_findings, head_findings, lease_findings, later_findings,
  chain_findings, decision_findings, read_decision, verify_decision, report_of, chain_fuel,
}
use coordination_loop_harnes.Decisions.Verified.{Verified, verify_decision-Verified}
use coordination_loop_harnes.Decisions.Fuel.{verify_predecessor_chain_ends}
use coordination_loop_harnes.Leases.Fixture.{host, disk, text, second_decision}

accepted_decision :
    verify_decision host disk
      (codes "/r/d2.json")
      (text "run")
      "lease:expand"
      (text "L1")
      (int (pos 2))
      true
    ≡ ok (report_of second_decision [])
unfolding get put truthy json_eq items_eq fields_eq ◌+ℤ◌ ◌-ℤ◌ is_safe_id is_safe_json_integer
    load_json canonical_path is_relative_to ensure_within_root load_schema validate_document
    is_reserved has_control has_invalid component_safe components_safe rest_safe
    is_v2_absolute_scope is_repository_relative_path_v2 is_absolute_scope is_native_absolute_scope
    canonical_scope windows_device_scope_alias positive_sequence markdown_findings read_previous
    next_of next_decision previous_findings verify_predecessor_chain authorizes digest_invalid
    binding_findings head_findings lease_findings later_findings chain_findings decision_findings
    read_decision verify_decision
accepted_decision = refl

verify_decision-Verified_example :
    Verified host disk
      (text "run")
      "lease:expand"
      (text "L1")
      (int (pos 2))
      true
      (codes "/r/d2.json")
      (report_of second_decision [])
verify_decision-Verified_example =
    verify_decision-Verified host disk (text "run") "lease:expand" (text "L1") (int (pos 2)) true
      (codes "/r/d2.json") (report_of second_decision []) accepted_decision refl

verify_predecessor_chain_ends_example :
    is_some (
      verify_predecessor_chain host disk
        (text "run")
        true
        (codes "/r/d2.json")
        (chain_fuel disk)
        (codes "/r/d2.json" ∷ [])
        second_decision)
    ≡ true
verify_predecessor_chain_ends_example =
    verify_predecessor_chain_ends host disk (text "run") true (codes "/r/d2.json") (λ p q e. refl)
      (codes "/r/d2.json" ∷ []) second_decision
