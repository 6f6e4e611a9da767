-- ===== src/WriterCustody/Examples.antt =====
-- One store, and the theorems at it.
use coordination_loop_harnes.Base.{
  false, [], ◌∷◌, ◌≢◌, ◌≡◌, refl, ok, some, ◌&&◌, if◌then◌else◌, is_ok,
}
use coordination_loop_harnes.Base.Int.{pos}
use coordination_loop_harnes.WriterCustody.Store.{
  ReleaseEvidence, lookup, key_of, key_eq, validate_evidence, record_release_evidence,
}
use coordination_loop_harnes.WriterCustody.Evaluate.{
  evaluate_successor_admission, get_custody_status, custody_uncertain,
  authenticated_custody_unproven,
}
use coordination_loop_harnes.WriterCustody.Denial.{
  successor_never_permitted, recorded_evidence_is_bound, record_keeps_others,
}

abbrev evidence : ReleaseEvidence
evidence = record {
  resource_id = "owner/repo";
  lease_id = "lease-1";
  generation = pos 3;
  writer_id = "owner/repo";
  release_justification = "outcome recorded";
  recorded_utc = "2026-01-01T00:00:00Z";
  extra = [];
}

evidence_valid : validate_evidence evidence ≡ ok tt
unfolding validate_evidence
evidence_valid = refl

successor_never_permitted_example :
    let d =
      evaluate_successor_admission "owner/repo" "lease-1"
        (pos 3)
        "owner/repo"
        "RELEASED"
        ((key_of evidence, evidence) ∷ []) in
    (d.permitted ≡ false)
    × (d.custody_status ≡ custody_uncertain)
    × (d.findings ≢ [])
    × (get_custody_status "owner/repo" "lease-1"
          (pos 3)
          "owner/repo"
          "RELEASED"
          ((key_of evidence, evidence) ∷ [])
        ≡ custody_uncertain)
successor_never_permitted_example =
    successor_never_permitted "owner/repo" "lease-1" (pos 3) "owner/repo" "RELEASED"
      ((key_of evidence, evidence) ∷ [])

recorded_evidence_is_bound_example :
    (evaluate_successor_admission "owner/repo" "lease-1"
      (pos 3)
      "owner/repo"
      "ACTIVE"
      (record_release_evidence evidence []).1).findings
    ≡ authenticated_custody_unproven ∷ []
recorded_evidence_is_bound_example = recorded_evidence_is_bound evidence [] evidence_valid

record_keeps_others_example : lookup (key_of evidence) (record_release_evidence evidence []).1 ≡ (
    if is_ok (validate_evidence evidence) && key_eq (key_of evidence) (key_of evidence)
    then some evidence
    else lookup (key_of evidence) [])
record_keeps_others_example = record_keeps_others evidence [] (key_of evidence)
