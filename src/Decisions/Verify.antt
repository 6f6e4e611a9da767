-- ===== src/Decisions/Verify.antt =====
-- `verify_decision`.
use coordination_loop_harnes.Base.{
  ℕ, suc, ◌==◌, Bool, true, false, ◌&&◌, ◌||◌, not, Option, none, some, List, [], ◌∷◌, ◌++◌, String,
  Text, codes, starts_with, any, is_hex, is_empty, length, if◌then◌else◌, Result, ok, err,
  type_error, runtime_error, caught, raise_if, ◌>>=◌, ◌>>◌,
}
use coordination_loop_harnes.Base.Int.{pos}
use coordination_loop_harnes.Json.{
  Json, null, str, arr, obj, bool, int, real, Fields, find, get, elements, is_null, is_text,
  is_list, is_object, text?, int?, fields?, json_eq,
}
use coordination_loop_harnes.Util.Host.{Host}
use coordination_loop_harnes.Util.Safe.{is_safe_id, is_safe_json_integer, at_least}
use coordination_loop_harnes.Util.Validation.{validate_document}
use coordination_loop_harnes.Util.Disk.{Disk, load_json, ensure_within}
use coordination_loop_harnes.Decisions.Chain.{
  positive_sequence, when, accepted, markdown_findings, verify_predecessor_chain,
}

-- The report; a decision that could not be read has null fields, as `get` gives them.
pub record Report : Type 0 where
  pub findings : List String
  pub sequence : Json
  pub scope : Json
  pub authorized_actions : Json
  pub lease_candidate_sha256 : Json
  pub previous_decision_ref : Json

abbrev pub is_accepted : Report → Bool
is_accepted r = is_empty r.findings

abbrev pub unread : String → Report
unread finding = record {
  findings = finding ∷ [];
  sequence = null;
  scope = null;
  authorized_actions = null;
  lease_candidate_sha256 = null;
  previous_decision_ref = null;
}

-- `t in s` for texts
abbrev pub contains : Text → Text → Bool
contains [] t = is_empty t
contains (c ∷ s) t = starts_with (c ∷ s) t || contains s t

abbrev pub has_key : String → Fields → Bool
has_key k fs = elim (find k fs) [ none ↦ false | some _ ↦ true ]

-- `action in decision.get("authorized_actions", [])`
unfoldable pub authorizes : String → Json → Option Json → Result Bool
authorizes action decision none = ok false
authorizes action decision (some (arr xs)) = ok (any (is_text action) (elements (arr xs)))
authorizes action decision (some (str s)) = ok (contains s (codes action))
authorizes action decision (some (obj fs)) = ok (has_key action fs)
authorizes action decision (some null) = err (type_error "argument is not iterable")
authorizes action decision (some (bool _)) = err (type_error "argument is not iterable")
authorizes action decision (some (int _)) = err (type_error "argument is not iterable")
authorizes action decision (some (real _ _)) = err (type_error "argument is not iterable")

unfoldable pub digest_invalid : Json → Bool
digest_invalid digest = elim (text? digest) [
  | none ↦ true
  | some s ↦ not (length s == 64) || any (λ c. not (is_hex c)) s
]

abbrev pub id_findings : Json → List String
id_findings lease_id = elim (text? lease_id) [
  | none ↦ "lease decision requires a non-null lease_id" ∷ []
  | some s ↦ when (not (is_safe_id s)) "Invalid decision lease_id"
]

abbrev pub generation_unsafe : Json → Bool
generation_unsafe generation = not (is_safe_json_integer generation) || not (at_least 1 generation)

-- The findings of a decision that must be bound to a candidate lease.
unfoldable pub binding_findings : Json → List String
binding_findings decision =
    id_findings (get "lease_id" decision)
    ++ (when (generation_unsafe (get "lease_generation" decision))
          "lease decision requires a positive safe-integer lease_generation"
        ++ when (digest_invalid (get "lease_candidate_sha256" decision))
            "lease decision requires a non-null candidate SHA-256 binding")

abbrev pub sequence_findings : Option ℕ → List String
sequence_findings none = "decision sequence must be a positive integer" ∷ []
sequence_findings (some _) = []

-- The findings before the predecessors.
unfoldable pub head_findings : Bool → Json → Json → List String
head_findings require_candidate_digest run_id decision =
    when (not (is_text "coord.decision.v2" (get "schema_version" decision)))
      "decision verification requires coord.decision.v2"
    ++ (when (not (json_eq (get "run_id" decision) run_id)) "run_id mismatch"
        ++ (when (not (accepted (get "status" decision)))
              "decision status must be ACCEPTED or MERGED"
            ++ (sequence_findings
                  (positive_sequence require_candidate_digest (get "sequence" decision))
                ++ when
                    (json_eq (get "sequence" decision) (int (pos 1))
                      && not (is_null (get "previous_decision_ref" decision)))
                    "sequence 1 decision must not reference a previous decision")))

-- Those after the authorized actions.
unfoldable pub lease_findings : Bool → Json → Json → Json → List String
lease_findings require_candidate_digest lease_id lease_generation decision =
    when
      (not (is_null (get "lease_generation" decision))
        && elim (int? (get "lease_generation" decision)) [ none ↦ true | some _ ↦ false ])
      "non-null lease_generation must be an integer"
    ++ ((if require_candidate_digest then binding_findings decision else [])
        ++ (when (not (is_null lease_id) && not (json_eq (get "lease_id" decision) lease_id))
              "decision does not cover lease_id"
            ++ when
                (not (is_null lease_generation)
                  && not (json_eq (get "lease_generation" decision) lease_generation))
                "decision does not cover lease generation"))

-- The loop has one round per file of the repository at most, and one more.
abbrev pub chain_fuel : Disk → ℕ
chain_fuel d = suc (length d.files)

abbrev pub answer : Option (Result (List String)) → Result (List String)
answer none = err (runtime_error "the fuel ran out")
answer (some r) = r

unfoldable pub later_findings : Host → Disk → Json → Bool → Text → Json → Result (List String)
later_findings h d run_id require_candidate_digest path decision = d.resolve path >>= λ resolved.
    answer (
      verify_predecessor_chain h d run_id require_candidate_digest path (chain_fuel d)
        (resolved ∷ []) decision)

-- The predecessors are read where the sequence is positive and greater than 1.
abbrev pub if_later : Option ℕ → Result (List String) → Result (List String)
if_later none r = ok []
if_later (some n) r = if n == 1 then ok [] else r

unfoldable pub chain_findings : Host → Disk → Json → Bool → Text → Json → Result (List String)
chain_findings h d run_id require_candidate_digest path decision =
    if_later (positive_sequence require_candidate_digest (get "sequence" decision))
      (later_findings h d run_id require_candidate_digest path decision)

abbrev pub entry : String → Json → Option Json
entry k decision = elim (fields? decision) [ none ↦ none | some fs ↦ find k fs ]

unfoldable pub decision_findings :
    Host → Disk → Json → String → Json → Json → Bool → Text → Json → Result (List String)
decision_findings h d run_id action lease_id lease_generation require_candidate_digest path
      decision =
    do
      errors ← validate_document h decision
      raise_if (is_list (get "status" decision) || is_object (get "status" decision))
          (type_error "unhashable type")
      chain ← chain_findings h d run_id require_candidate_digest path decision
      authorized ← authorizes action decision (entry "authorized_actions" decision)
      ok (
          errors
          ++ (head_findings require_candidate_digest run_id decision
              ++ (chain
                  ++ (when (not authorized) "decision does not authorize action"
                      ++ (lease_findings require_candidate_digest lease_id lease_generation decision
                          ++ markdown_findings d path decision)))))

abbrev pub report_of : Json → List String → Report
report_of decision findings = record {
  findings = findings;
  sequence = get "sequence" decision;
  scope = get "scope" decision;
  authorized_actions = get "authorized_actions" decision;
  lease_candidate_sha256 = get "lease_candidate_sha256" decision;
  previous_decision_ref = get "previous_decision_ref" decision;
}

-- The path and the document.
unfoldable pub read_decision : Disk → Text → Result (Text × Json)
read_decision d path = do p ← ensure_within d false path; v ← load_json d p; ok (p, v)

unfoldable pub verify_decision :
    Host → Disk → Text → Json → String → Json → Json → Bool → Result Report
verify_decision h d path run_id action lease_id lease_generation require_candidate_digest =
    caught (read_decision d path) >>= λ found. elim found [
      | none ↦ ok (unread "the decision cannot be read")
      | some (p, decision) ↦
          decision_findings h d run_id action lease_id lease_generation require_candidate_digest p
            decision
          >>= λ findings. ok (report_of decision findings)
    ]
