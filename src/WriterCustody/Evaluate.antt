-- ===== src/WriterCustody/Evaluate.antt =====
-- `evaluate_successor_admission` and `get_custody_status`.
use coordination_loop_harnes.Base.{
  Bool, false, not, ◌&&◌, Option, none, some, List, [], ◌∷◌, ◌++◌, String, str_eq, if◌then◌else◌,
  is_empty, select, map,
}
use coordination_loop_harnes.Base.Int.{ℤ, eqb_ℤ, leb_ℤ}
use coordination_loop_harnes.WriterCustody.Store.{ReleaseEvidence, Key, EvidenceStore, lookup}

pub data CustodyStatus : Type 0 where
  custody_held custody_released custody_uncertain : CustodyStatus

-- The findings, by the text that the source formats.
pub data Finding : Type 0 where
  writer_mismatch : String → String → Finding
  generation_mismatch : ℤ → ℤ → Finding
  resource_mismatch : String → String → Finding
  lease_mismatch : String → String → Finding
  unrecognised_state : String → Finding
  stale_evidence : List ℤ → ℤ → Finding
  no_evidence : ℤ → Finding
  authenticated_custody_unproven : Finding

pub record AdmissionDecision : Type 0 where
  pub permitted : Bool
  pub custody_status : CustodyStatus
  pub findings : List Finding

abbrev pub deny : List Finding → AdmissionDecision
deny fs = record { permitted = false; custody_status = custody_uncertain; findings = fs }

-- `sorted` on integers, by insertion.
abbrev pub insert_sorted : ℤ → List ℤ → List ℤ
insert_sorted g [] = g ∷ []
insert_sorted g (h ∷ hs) =
    let rest = insert_sorted g hs in if leb_ℤ g h then g ∷ h ∷ hs else h ∷ rest

abbrev pub sorted : List ℤ → List ℤ
sorted [] = []
sorted (g ∷ gs) = insert_sorted g (sorted gs)

-- The keys of the same resource and lease with another generation.
abbrev pub is_stale : String → String → ℤ → Key × ReleaseEvidence → Bool
is_stale resource lease generation (k, _) =
    str_eq k.resource resource && str_eq k.lease lease && not (eqb_ℤ k.at generation)

abbrev pub generation_of : Key × ReleaseEvidence → ℤ
generation_of (k, _) = k.at

unfoldable pub missing : String → String → ℤ → EvidenceStore → Finding
missing resource lease generation store =
    let stale = select (is_stale resource lease generation) store in
    if is_empty stale
    then no_evidence generation
    else stale_evidence (sorted (map generation_of stale)) generation

abbrev pub when : Bool → Finding → List Finding
when b f = if b then f ∷ [] else []

-- The re-validation of evidence found in the store.
unfoldable pub binding_findings : String → String → ℤ → String → ReleaseEvidence → List Finding
binding_findings resource lease generation writer ev =
    when (not (str_eq ev.writer_id writer)) (writer_mismatch ev.writer_id writer)
    ++ (when (not (eqb_ℤ ev.generation generation)) (generation_mismatch ev.generation generation)
        ++ (when (not (str_eq ev.resource_id resource)) (resource_mismatch ev.resource_id resource)
            ++ when (not (str_eq ev.lease_id lease)) (lease_mismatch ev.lease_id lease)))

unfoldable pub on_released : String → Option ReleaseEvidence → AdmissionDecision
on_released writer none = deny (authenticated_custody_unproven ∷ [])
on_released writer (some ev) =
    if not (str_eq ev.writer_id writer)
    then deny (writer_mismatch ev.writer_id writer ∷ [])
    else deny (authenticated_custody_unproven ∷ [])

unfoldable pub on_bound : List Finding → AdmissionDecision
on_bound [] = deny (authenticated_custody_unproven ∷ [])
on_bound (f ∷ fs) = deny (f ∷ fs)

unfoldable pub on_active :
    String → String → ℤ → String → EvidenceStore → Option ReleaseEvidence → AdmissionDecision
unfolding on_bound
on_active resource lease generation writer store none =
    deny (missing resource lease generation store ∷ [])
on_active resource lease generation writer store (some ev) =
    on_bound (binding_findings resource lease generation writer ev)

unfoldable pub evaluate_successor_admission :
    String → String → ℤ → String → String → EvidenceStore → AdmissionDecision
unfolding on_released on_active
evaluate_successor_admission resource lease generation writer state store =
    let key : Key = record { resource = resource; lease = lease; at = generation } in
    if str_eq state "RELEASED"
    then on_released writer (lookup key store)
    else if not (str_eq state "ACTIVE")
    then deny (unrecognised_state state ∷ [])
    else on_active resource lease generation writer store (lookup key store)

unfoldable pub get_custody_status :
    String → String → ℤ → String → String → EvidenceStore → CustodyStatus
get_custody_status resource lease generation writer state store =
    (evaluate_successor_admission resource lease generation writer state store).custody_status
