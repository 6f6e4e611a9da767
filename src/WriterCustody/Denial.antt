-- ===== src/WriterCustody/Denial.antt =====
-- No store and no state string lets a successor in, and what the diagnostics say of the store.
use coordination_loop_harnes.Base.{
  false, some, Result-cases, is_ok, ◌&&◌, inl, inr, [], ◌∷◌, ◌≢◌, ◌≡◌, refl, String, eq_refl, ok,
  arith, if◌then◌else◌,
}
use coordination_loop_harnes.Base.Int.{ℤ, eqb_ℤ_iff}
use coordination_loop_harnes.WriterCustody.Store.{
  ReleaseEvidence, Key, EvidenceStore, lookup, key_of, key_eq, key_eq_iff, validate_evidence,
  record_release_evidence, lookup-insert,
}
use coordination_loop_harnes.WriterCustody.Evaluate.{
  custody_uncertain, evaluate_successor_admission, get_custody_status, binding_findings,
  authenticated_custody_unproven,
}

-- Every evaluation, of any arguments and any store, refuses with the status uncertain and at
-- least one finding, and the status query answers uncertain.
pub successor_never_permitted :
    (resource lease : String) (generation : ℤ) (writer state : String) (store : EvidenceStore)
    → let d = evaluate_successor_admission resource lease generation writer state store in
      (d.permitted ≡ false)
      × (d.custody_status ≡ custody_uncertain)
      × (d.findings ≢ [])
      × (get_custody_status resource lease generation writer state store ≡ custody_uncertain)
unfolding evaluate_successor_admission get_custody_status
successor_never_permitted resource lease generation writer state store = ground arith

-- The evidence that recording keeps, and what a later evaluation of the same writer, lease and
-- generation says of it.
self_bound :
    (ev : ReleaseEvidence)
    → binding_findings ev.resource_id ev.lease_id ev.generation ev.writer_id ev ≡ []
unfolding binding_findings
self_bound ev = simp (eq_refl, (eqb_ℤ_iff ev.generation ev.generation).1 refl)

recorded_found :
    (ev : ReleaseEvidence) (store : EvidenceStore)
    → validate_evidence ev ≡ ok tt
    → lookup (key_of ev) (record_release_evidence ev store).1 ≡ some ev
unfolding record_release_evidence
recorded_found ev store h = rw h (
    rw (lookup-insert (key_of ev) (key_of ev) ev store)
      (rw ((key_eq_iff (key_of ev) (key_of ev)).1 refl)))

-- Once valid evidence for an ACTIVE lease's exact generation and writer is recorded, the one
-- finding left is that custody is not authenticated: the diagnostics report no mismatch.
pub recorded_evidence_is_bound :
    (ev : ReleaseEvidence) (store : EvidenceStore)
    → validate_evidence ev ≡ ok tt
    → (evaluate_successor_admission ev.resource_id ev.lease_id ev.generation ev.writer_id "ACTIVE"
        (record_release_evidence ev store).1).findings
      ≡ authenticated_custody_unproven ∷ []
unfolding evaluate_successor_admission
recorded_evidence_is_bound ev store h = rw (recorded_found ev store h) (rw (self_bound ev))

-- Evidence that `record_release_evidence` refuses leaves the store as it was; evidence that it
-- accepts is found under its own key and disturbs no other key.
pub record_keeps_others :
    (ev : ReleaseEvidence) (store : EvidenceStore) (k : Key)
    → lookup k (record_release_evidence ev store).1
      ≡ (if is_ok (validate_evidence ev) && key_eq (key_of ev) k then some ev else lookup k store)
unfolding record_release_evidence
record_keeps_others ev store k = elim (Result-cases (validate_evidence ev)) [
  | inl (a, e) ↦ rw e (lookup-insert (key_of ev) k ev store)
  | inr (x, e) ↦ rw e
]
