-- ===== src/WriterCustody/Store.antt =====
-- `ReleaseEvidence` and the evidence store.
use coordination_loop_harnes.Base.{
  Bool, true, ◌&&◌, Option, none, some, List, [], ◌∷◌, String, ◌≡◌, refl, str_eq, eq_iff, codes,
  is_blank, Result, ok, err, value_error, raise_if, ◌>>◌, if◌then◌else◌, arith, ◌↔◌,
}
use coordination_loop_harnes.Base.Int.{ℤ, pos, ltb_ℤ, eqb_ℤ, eqb_ℤ_iff}

pub record ReleaseEvidence : Type 0 where
  pub resource_id : String
  pub lease_id : String
  pub generation : ℤ
  pub writer_id : String
  pub release_justification : String
  pub recorded_utc : String
  pub extra : List (String × String)

pub record Key : Type 0 where
  pub resource : String
  pub lease : String
  pub at : ℤ

unfoldable pub key_eq : Key → Key → Bool
key_eq a b = str_eq a.resource b.resource && str_eq a.lease b.lease && eqb_ℤ a.at b.at

abbrev pub EvidenceStore : Type 0
EvidenceStore = List (Key × ReleaseEvidence)

-- `_EVIDENCE_STORE.get(key)`
unfoldable pub lookup : Key → EvidenceStore → Option ReleaseEvidence
lookup k [] = none
lookup k ((j, e) ∷ s) = if key_eq j k then some e else lookup k s

-- `_EVIDENCE_STORE[key] = evidence`
unfoldable pub insert : Key → ReleaseEvidence → EvidenceStore → EvidenceStore
insert k e [] = (k, e) ∷ []
insert k e ((j, f) ∷ s) = if key_eq j k then (j, e) ∷ s else (j, f) ∷ insert k e s

abbrev pub blank : String → Bool
blank s = is_blank (codes s)

-- `_validate_evidence`
unfoldable pub validate_evidence : ReleaseEvidence → Result (Unit {0})
validate_evidence e = do
  raise_if (blank e.resource_id)
      (value_error "ReleaseEvidence.resource_id must be a non-empty string")
  raise_if (blank e.lease_id) (value_error "ReleaseEvidence.lease_id must be a non-empty string")
  raise_if (ltb_ℤ e.generation (pos 1))
      (value_error "ReleaseEvidence.generation must be a positive integer")
  raise_if (blank e.writer_id) (value_error "ReleaseEvidence.writer_id must be a non-empty string")
  raise_if (blank e.release_justification)
      (value_error "ReleaseEvidence.release_justification must be a non-empty string")
  raise_if (blank e.recorded_utc)
      (value_error "ReleaseEvidence.recorded_utc must be a non-empty string")

abbrev pub key_of : ReleaseEvidence → Key
key_of e = record { resource = e.resource_id; lease = e.lease_id; at = e.generation }

abbrev pub stored :
    Result (Unit {0}) → ReleaseEvidence → EvidenceStore → Result (Unit {0}) × EvidenceStore
stored (ok _) e s = (ok tt, insert (key_of e) e s)
stored (err x) e s = (err x, s)

-- `record_release_evidence`
unfoldable pub record_release_evidence :
    ReleaseEvidence → EvidenceStore → Result (Unit {0}) × EvidenceStore
record_release_evidence e s = stored (validate_evidence e) e s

-- `clear_evidence_store`
unfoldable pub clear_evidence_store : EvidenceStore → EvidenceStore
clear_evidence_store s = []

pub key_eq_iff : (a b : Key) → (key_eq a b ≡ true) ↔ (a ≡ b)
unfolding key_eq
key_eq_iff a b = (
  λ h. ground (arith, eq_iff a.resource b.resource, eq_iff a.lease b.lease, eqb_ℤ_iff a.at b.at),
  λ h. ground (arith, eq_iff a.resource b.resource, eq_iff a.lease b.lease, eqb_ℤ_iff a.at b.at),
)

pub lookup-insert :
    (k j : Key) (e : ReleaseEvidence) (s : EvidenceStore)
    → lookup j (insert k e s) ≡ (if key_eq k j then some e else lookup j s)
unfolding lookup insert
lookup-insert k j e [] = refl
lookup-insert k j e ((i, f) ∷ s) =
    ground (arith, key_eq_iff k j, key_eq_iff i k, key_eq_iff i j, lookup-insert k j e s)
