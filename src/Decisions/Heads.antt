-- ===== src/Decisions/Heads.antt =====
-- What the findings about a decision itself come to, where there are none.
use coordination_loop_harnes.Base.{
  ℕ, Bool, true, false, ◌&&◌, not, Option, none, some, [], String, if◌then◌else◌, ◌≡◌, refl, arith,
  append_nil,
}
use coordination_loop_harnes.Base.Int.{pos}
use coordination_loop_harnes.Json.{Json, int, get, is_null, is_text, int?, json_eq}
use coordination_loop_harnes.Decisions.Chain.{positive_sequence, when, accepted}
use coordination_loop_harnes.Decisions.Verify.{
  digest_invalid, id_findings, sequence_findings, generation_unsafe, binding_findings,
  head_findings, lease_findings,
}

pub holds : (b : Bool) (s : String) → when (not b) s ≡ [] → b ≡ true
holds b s q = ground arith

pub lacks : (b : Bool) (s : String) → when b s ≡ [] → b ≡ false
lacks b s q = ground arith

pub record Head (safe : Bool) (run_id decision : Json) : Type 0 where
  pub version : is_text "coord.decision.v2" (get "schema_version" decision) ≡ true
  pub same_run : json_eq (get "run_id" decision) run_id ≡ true
  pub is_accepted : accepted (get "status" decision) ≡ true
  pub sequence : ℕ
  pub numbered : positive_sequence safe (get "sequence" decision) ≡ some sequence
  pub first_has_none :
      (json_eq (get "sequence" decision) (int (pos 1))
        && not (is_null (get "previous_decision_ref" decision)))
      ≡ false

pub Head-fact :
    (safe : Bool) (run_id decision : Json)
    → head_findings safe run_id decision ≡ []
    → Head safe run_id decision
unfolding head_findings
Head-fact safe run_id decision k =
    let a =
      append_nil
        (when (not (is_text "coord.decision.v2" (get "schema_version" decision)))
          "decision verification requires coord.decision.v2")
        _ k in
    let b =
      append_nil (when (not (json_eq (get "run_id" decision) run_id)) "run_id mismatch") _ a.1 in
    let c =
      append_nil
        (when (not (accepted (get "status" decision))) "decision status must be ACCEPTED or MERGED")
        _ b.1 in
    let o =
      append_nil (sequence_findings (positive_sequence safe (get "sequence" decision))) _ c.1 in
    let n = numbered (positive_sequence safe (get "sequence" decision)) o.0 in
    record {
      version = holds _ _ a.0;
      same_run = holds _ _ b.0;
      is_accepted = holds _ _ c.0;
      sequence = n.0;
      numbered = n.1;
      first_has_none = lacks _ _ o.1;
    }
  where
    numbered : (o : Option ℕ) → sequence_findings o ≡ [] → (n : ℕ) × (o ≡ some n)
    numbered none q = cc
    numbered (some n) q = (n, refl)

-- A decision covers a lease's identity or generation where one is asked for.
abbrev pub Covers : String → Json → Json → Type 0
Covers field wanted decision = is_null wanted ≡ false → json_eq (get field decision) wanted ≡ true

covers_fact : (n e : Bool) (s : String) → when (not n && not e) s ≡ [] → n ≡ false → e ≡ true
covers_fact n e s q k = ground arith

pub lease_fact :
    (safe : Bool) (lease_id lease_generation decision : Json)
    → lease_findings safe lease_id lease_generation decision ≡ []
    → Covers "lease_id" lease_id decision
      × Covers "lease_generation" lease_generation decision
      × (safe ≡ true → digest_invalid (get "lease_candidate_sha256" decision) ≡ false)
unfolding lease_findings binding_findings
lease_fact safe lease_id lease_generation decision k =
    let a =
      append_nil
        (when
          (not (is_null (get "lease_generation" decision))
            && elim (int? (get "lease_generation" decision)) [ none ↦ true | some _ ↦ false ])
          "non-null lease_generation must be an integer")
        _ k in
    let b = append_nil (if safe then binding_findings decision else []) _ a.1 in
    let c =
      append_nil
        (when (not (is_null lease_id) && not (json_eq (get "lease_id" decision) lease_id))
          "decision does not cover lease_id")
        _ b.1 in
    (covers_fact _ _ _ c.0, covers_fact _ _ _ c.1, λ s. bound (rw s at b.0))
  where
    bound :
        binding_findings decision ≡ []
        → digest_invalid (get "lease_candidate_sha256" decision) ≡ false
    bound q =
        let x = append_nil (id_findings (get "lease_id" decision)) _ q in
        let y =
          append_nil
            (when (generation_unsafe (get "lease_generation" decision))
              "lease decision requires a positive safe-integer lease_generation")
            _ x.1 in
        lacks _ _ y.1
