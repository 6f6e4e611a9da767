-- ===== src/Decisions/Chain.antt =====
-- `_verify_predecessor_chain`. The fuel counts the rounds of the loop; `none` is fuel run out.
use coordination_loop_harnes.Base.{
  ℕ, zero, suc, ◌-◌, ◌==◌, Bool, true, false, ◌&&◌, ◌||◌, not, Option, none, some, List, [], ◌∷◌,
  ◌++◌, String, Text, text_eq, any, is_empty, if◌then◌else◌, Result, ok, err, type_error, caught,
  raise_if, ◌>>=◌, ◌>>◌,
}
use coordination_loop_harnes.Base.Int.{ℤ, pos, negsuc}
use coordination_loop_harnes.Json.{
  Json, str, int, get, is_null, is_text, is_list, is_object, text?, int?, json_eq,
}
use coordination_loop_harnes.Util.Host.{Host}
use coordination_loop_harnes.Util.Safe.{is_safe_json_integer}
use coordination_loop_harnes.Util.Scope.{is_repository_relative_path_v2}
use coordination_loop_harnes.Util.Validation.{validate_document}
use coordination_loop_harnes.Util.Disk.{Disk, find_file, load_json, ensure_within}

-- A JSON integer of at least 1.
abbrev pub positive? : Option ℤ → Option ℕ
positive? none = none
positive? (some (pos zero)) = none
positive? (some (pos (suc n))) = some (suc n)
positive? (some (negsuc _)) = none

-- `_is_positive_sequence`, with the number
unfoldable pub positive_sequence : Bool → Json → Option ℕ
positive_sequence safe v = if safe && not (is_safe_json_integer v) then none else positive? (int? v)

abbrev pub when : Bool → String → List String
when b finding = if b then finding ∷ [] else []

abbrev pub accepted : Json → Bool
accepted status = is_text "ACCEPTED" status || is_text "MERGED" status

-- The Markdown companion of a decision: present, and with the digest that the decision states.
unfoldable pub markdown_findings : Disk → Text → Json → List String
markdown_findings d path decision = elim (find_file (d.markdown_of path) d.files) [
  | none ↦ "decision Markdown companion missing" ∷ []
  | some f ↦
      when (not (json_eq (get "markdown_sha256" decision) (str f.sha256)))
        "decision Markdown SHA-256 binding mismatch"
]

-- How a round ends before it has read a predecessor, or the predecessor.
pub data Next : Type 0 where
  stop : List String → Next
  follow : ℕ → Text → Text → Json → Next

-- `list.append`
abbrev pub stopped_by : String → Next
stopped_by finding = stop (finding ∷ [])

-- `ensure_within`, `resolve`, the test of the seen paths, and `load_json`
unfoldable pub read_previous : Disk → List Text → ℕ → Text → Result Next
read_previous d seen n ref = caught (ensure_within d false (d.join d.root ref)) >>= λ within.
    elim within [
      | none ↦ ok (stopped_by "previous_decision_ref must stay within the root")
      | some path ↦ d.resolve path >>= λ resolved.
          if any (λ s. text_eq s resolved) seen
          then ok (stopped_by "decision predecessor chain contains a cycle")
          else caught (load_json d path) >>= λ loaded. elim loaded [
            | none ↦ ok (stopped_by "Invalid JSON")
            | some previous ↦ ok (follow n path resolved previous)
          ]
    ]

unfoldable pub next_of : Disk → Bool → List Text → ℕ → Json → Result Next
next_of d portable seen n previous_ref =
    if n == 1
    then ok (
        stop (
          when (not (is_null previous_ref))
            "sequence 1 decision must not reference a previous decision"))
    else elim (text? previous_ref) [
      | none ↦ ok (stopped_by "sequence greater than 1 requires previous_decision_ref")
      | some ref ↦
          if is_empty ref
          then ok (stopped_by "sequence greater than 1 requires previous_decision_ref")
          else if portable && not (is_repository_relative_path_v2 ref)
          then ok
              (stopped_by "previous_decision_ref must use portable repository-relative path syntax")
          else read_previous d seen n ref
    ]

unfoldable pub next_decision : Disk → Bool → List Text → Json → Result Next
next_decision d portable seen current = elim (positive_sequence portable (get "sequence" current)) [
  | none ↦ ok (stopped_by "decision predecessor sequence must be a positive integer")
  | some n ↦ next_of d portable seen n (get "previous_decision_ref" current)
]

-- What a round finds wrong with the predecessor of the decision with sequence `n`.
unfoldable pub previous_findings : Host → Disk → Json → ℕ → Text → Json → Result (List String)
previous_findings h d run_id n path previous = do
  errors ← validate_document h previous
  raise_if (is_list (get "status" previous) || is_object (get "status" previous))
      (type_error "unhashable type")
  ok (
      errors
      ++ (when (not (is_text "coord.decision.v2" (get "schema_version" previous)))
            "decision verification requires coord.decision.v2"
          ++ (markdown_findings d path previous
              ++ (when (not (json_eq (get "run_id" previous) run_id)) "decision run_id mismatch"
                  ++ (when (not (json_eq (get "sequence" previous) (int (pos (n - 1)))))
                        "decision sequence is not contiguous"
                      ++ when (not (accepted (get "status" previous)))
                          "decision is not accepted or merged")))))

abbrev pub prepend : List String → Option (Result (List String)) → Option (Result (List String))
prepend fs none = none
prepend fs (some (err e)) = some (err e)
prepend fs (some (ok gs)) = some (ok (fs ++ gs))

-- The loop, from the decision that it has just accepted for reading.
unfoldable pub verify_predecessor_chain :
    Host → Disk → Json → Bool → Text → ℕ → List Text → Json → Option (Result (List String))
verify_predecessor_chain h d run_id portable decision_path zero seen current = none
verify_predecessor_chain h d run_id portable decision_path (suc fuel) seen current =
    elim (next_decision d portable seen current) [
      | err e ↦ some (err e)
      | ok (stop fs) ↦ some (ok fs)
      | ok (follow n path resolved previous) ↦ elim (previous_findings h d run_id n path previous) [
        | err e ↦ some (err e)
        | ok fs ↦ elim (text_eq path decision_path) [
          | true ↦ some (ok (fs ++ ("decision predecessor chain contains a cycle" ∷ [])))
          | false ↦ prepend fs (
              verify_predecessor_chain h d run_id portable decision_path fuel (resolved ∷ seen)
                previous)
        ]
      ]
    ]
