-- ===== src/Status/Examples.antt =====
-- A run that starts to run.
use coordination_loop_harnes.Base.{none, some, [], ◌∷◌, inl, String, Text, codes, ok, ◌≡◌, refl}
use coordination_loop_harnes.Json.{
  get, put, truthy, json_eq, items_eq, fields_eq, int, null, Json, obj, arr, nil, cons, field, end,
}
use coordination_loop_harnes.Base.Int.{◌+ℤ◌, ◌-ℤ◌, pos, ℤ}
use coordination_loop_harnes.Util.Safe.{is_safe_id, is_safe_json_integer}
use coordination_loop_harnes.Util.Disk.{
  load_json, canonical_path, is_relative_to, ensure_within_root, Disk,
}
use coordination_loop_harnes.Util.Validation.{load_schema, validate_document}
use coordination_loop_harnes.Util.Scope.{
  is_reserved, has_control, has_invalid, component_safe, components_safe, rest_safe,
  is_v2_absolute_scope, is_repository_relative_path_v2, is_absolute_scope, is_native_absolute_scope,
  canonical_scope, windows_device_scope_alias,
}
use coordination_loop_harnes.Decisions.Chain.{
  positive_sequence, markdown_findings, read_previous, next_of, next_decision, previous_findings,
  verify_predecessor_chain,
}
use coordination_loop_harnes.Decisions.Verify.{
  authorizes, digest_invalid, binding_findings, head_findings, lease_findings, later_findings,
  chain_findings, decision_findings, read_decision, verify_decision,
}
use coordination_loop_harnes.Status.Transition.{
  is_legal, privileged, to_int, history_entry, update_status, posix_ref, status_path, authorize,
  check_status, transition_status,
}
use coordination_loop_harnes.Status.Legal.{Transitioned, transition_status-Transitioned}
use coordination_loop_harnes.Status.Runs.{
  Steps, done, step, IsFinal, generation_counts_transitions, final_status_refuses,
}
use coordination_loop_harnes.Leases.Fixture.{host, disk, text}

abbrev status : String → ℤ → Json → Json
status state generation history = obj (
    field "schema_version" (text "coord.status.v2") (
      field "state" (text state)
        (field "generation" (int generation) (field "history" history end))))

abbrev admitted : Json
admitted = status "ADMITTED" (pos 3) (arr nil)

abbrev complete : Json
complete = status "COMPLETE" (pos 5) (arr nil)

abbrev status_file : Text
status_file = codes "/r/runs/run/status.json"

abbrev status_disk : Disk
status_disk = record disk {
  files = (status_file, record { parsed = some admitted; sha256 = [] }) ∷ [];
  directories = codes "/r" ∷ codes "/r/runs/run" ∷ [];
}

abbrev running : Json
running = obj (
    field "schema_version" (text "coord.status.v2") (
      field "state" (text "RUNNING") (
        field "generation" (int (pos 4)) (
          field "history"
            (arr (
              cons
                (obj (
                  field "from" (text "ADMITTED") (
                    field "to" (text "RUNNING") (
                      field "generation" (int (pos 4)) (
                        field "timestamp" (text "5Z")
                          (field "checkpoint" (text "c") (field "decision_ref" null end)))))))
                nil))
            (field "revision" (int (pos 4))
              (field "checkpoint" (text "c") (field "updated_utc" (text "5Z") end)))))))

was_admitted : load_json status_disk status_file ≡ ok admitted
unfolding load_json
was_admitted = refl

starts_running :
    transition_status host status_disk
      (codes "run")
      (codes "running")
      (pos 3)
      (codes "5Z")
      (codes "c")
      none
    ≡ ok (status_file, running)
unfolding get put truthy json_eq items_eq fields_eq ◌+ℤ◌ ◌-ℤ◌ is_safe_id is_safe_json_integer
    load_json canonical_path is_relative_to ensure_within_root load_schema validate_document
    is_reserved has_control has_invalid component_safe components_safe rest_safe
    is_v2_absolute_scope is_repository_relative_path_v2 is_absolute_scope is_native_absolute_scope
    canonical_scope windows_device_scope_alias positive_sequence markdown_findings read_previous
    next_of next_decision previous_findings verify_predecessor_chain authorizes digest_invalid
    binding_findings head_findings lease_findings later_findings chain_findings decision_findings
    read_decision verify_decision is_legal privileged to_int history_entry update_status posix_ref
    status_path authorize check_status transition_status
starts_running = refl

transition_status-Transitioned_example :
    Transitioned host status_disk
      (codes "run")
      (codes "running")
      (pos 3)
      (codes "5Z")
      (codes "c")
      status_file
      running
transition_status-Transitioned_example =
    transition_status-Transitioned host status_disk (codes "run") (codes "running") (pos 3)
      (codes "5Z") (codes "c") none status_file running starts_running

one_step : Steps host admitted 1 running
one_step =
    step done status_disk (codes "run") (codes "running") (pos 3) (codes "5Z") (codes "c") none
      status_file was_admitted starts_running

at_three : get "generation" admitted ≡ int (pos 3)
unfolding get
at_three = refl

generation_counts_transitions_example : get "generation" running ≡ int (pos 3 +ℤ pos 1)
generation_counts_transitions_example =
    generation_counts_transitions host admitted running 1 (pos 3) one_step at_three

is_complete : IsFinal complete
unfolding get
is_complete = inl refl

abbrev complete_disk : Disk
complete_disk = record status_disk {
  files = (status_file, record { parsed = some complete; sha256 = [] }) ∷ [];
}

was_complete : load_json complete_disk status_file ≡ ok complete
unfolding load_json
was_complete = refl

final_status_refuses_example : ¬ (
    transition_status host complete_disk
      (codes "run")
      (codes "running")
      (pos 5)
      (codes "6Z")
      (codes "c")
      none
    ≡ ok (status_file, running))
final_status_refuses_example =
    final_status_refuses host complete_disk (codes "run") (codes "running") (pos 5) (codes "6Z")
      (codes "c") none status_file complete running was_complete is_complete
