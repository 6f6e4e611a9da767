-- ===== src/Leases/Authority.antt =====
-- The decisions that a change of the lock root rests on: `_verify_bound_lease_decision` and the
-- functions around it.
use coordination_loop_harnes.Base.{
  ℕ, ltb, Bool, true, ◌&&◌, not, none, some, List, [], ◌∷◌, map, String, Text, codes, text_eq,
  select, if◌then◌else◌, Result, ok, err, value_error, type_error, raise_if, ◌>>=◌, ◌>>◌,
}
use coordination_loop_harnes.Base.Int.{pos, ◌-ℤ◌}
use coordination_loop_harnes.Json.{
  Json, null, str, arr, int, nil, cons, get, put, elements, is_text, int?, text?, json_eq,
}
use coordination_loop_harnes.Util.Host.{Host}
use coordination_loop_harnes.Util.Scope.{is_repository_relative_path_v2}
use coordination_loop_harnes.Util.Disk.{Disk, find_file, ensure_within}
use coordination_loop_harnes.Decisions.Verify.{Report, is_accepted, verify_decision}
use coordination_loop_harnes.Leases.Sets.{is_v2}
use coordination_loop_harnes.Leases.Lifecycle.{timestamp, is_write_item}
use coordination_loop_harnes.Leases.Scope.{validate_decision_scope}

-- A reference that is a portable path inside the repository; otherwise the message.
unfoldable pub portable_ref : String → Json → Result Text
portable_ref message ref = elim (text? ref) [
  | none ↦ err (value_error message)
  | some s ↦ if is_repository_relative_path_v2 s then ok s else err (value_error message)
]

-- `lease:acquire` for the first generation, `lease:expand` for the later ones
abbrev pub action_for : Json → String
action_for lease =
    if json_eq (get "generation" lease) (int (pos 1)) then "lease:acquire" else "lease:expand"

-- `data["generation"] - 1`
abbrev pub before_generation : Json → Result Json
before_generation generation = elim (int? generation) [
  | none ↦ err (type_error "unsupported operand")
  | some z ↦ ok (int (z -ℤ pos 1))
]

abbrev pub first_or_null : List Json → Json
first_or_null [] = null
first_or_null (v ∷ _) = v

-- The record as it was while it was ACTIVE.
unfoldable pub active_candidate_of : Json → Json → Json
active_candidate_of lease generation = put "outcome_sha256" null (
    put "outcome_ref" null (
      put "released_utc" null (
        put "release_authority" null (
          put "release_decision_ref" null (
            put "active_writer_repository"
              (first_or_null (
                map (get "repository")
                  (select is_write_item (elements (get "repositories" lease)))))
              (put "generation" generation (put "state" (str (codes "ACTIVE")) lease)))))))

unfoldable pub check_decision_ref : Json → Result (Unit {0})
check_decision_ref lease =
    if is_v2 lease
    then (portable_ref "A v2 lease decision_ref must use portable repository-relative syntax"
          (get "decision_ref" lease)
        >>= λ _. ok tt)
    else ok tt

module _ (h : Host) (d : Disk) where
  -- `ensure_within(repo_root / ref, repo_root, must_exist=...)`
  abbrev pub within_repository : Bool → Text → Result Text
  within_repository must_exist ref = ensure_within d must_exist (d.join d.root ref)

  unfoldable pub decision_for : Json → Text → String → Result Report
  decision_for lease path action = do
    report ←
        verify_decision h d path (get "run_id" lease) action (get "lease_id" lease)
          (get "generation" lease) (is_v2 lease)
    raise_if (not (is_accepted report)) (value_error "Lease decision verification failed")
    ok report

  -- The scope and the sequence of a decision that was accepted.
  unfoldable pub check_bound : Json → Report → Result (Unit {0})
  check_bound lease report = do
    validate_decision_scope h lease report
    raise_if (is_v2 lease && not (json_eq report.sequence (get "generation" lease)))
        (value_error "decision sequence must match the lease generation")

  -- `_verify_bound_lease_decision`
  unfoldable pub verify_bound_lease_decision : Json → Text → String → Result Report
  verify_bound_lease_decision lease path action = do
    check_decision_ref lease
    report ← decision_for lease path action
    check_bound lease report
    ok report

  -- The part of `_validate_replacement_authority` for a v2 lease.
  unfoldable pub check_succession : Json → Report → Result (Unit {0})
  check_succession current decision = do
    current_ref ←
        portable_ref "Replacement decision must reference the current lease decision"
          (get "decision_ref" current)
    previous_ref ←
        portable_ref "Replacement decision must reference the current lease decision"
          decision.previous_decision_ref
    current_path ← within_repository true current_ref
    _ ← verify_bound_lease_decision current current_path (action_for current)
    previous_path ← within_repository true previous_ref
    raise_if (not (text_eq current_path previous_path))
        (value_error "Replacement decision does not directly follow the current decision")

  -- `_validate_replacement_authority`
  unfoldable pub validate_replacement_authority : Json → Json → Text → Result (Unit {0})
  validate_replacement_authority candidate current path = do
    decision ← verify_bound_lease_decision candidate path "lease:expand"
    if is_v2 candidate then check_succession current decision else ok tt

  -- `_validate_outcome_binding`
  unfoldable pub validate_outcome_binding : Json → Result (Unit {0})
  validate_outcome_binding lease = do
    outcome_ref ←
        portable_ref "A RELEASED v2 lease requires a repository-relative POSIX outcome_ref"
          (get "outcome_ref" lease)
    path ← within_repository true outcome_ref
    elim (find_file path d.files) [
      | none ↦ err (value_error "A RELEASED v2 lease outcome_ref must identify a regular file")
      | some f ↦
          raise_if (not (json_eq (get "outcome_sha256" lease) (str f.sha256)))
            (value_error "Lease outcome SHA-256 binding mismatch")
    ]

  abbrev pub release_action : Json → String
  release_action lease =
      if is_text "STALE_RECOVERY" (get "release_authority" lease)
      then "lease:release-stale"
      else "lease:release"

  -- The decision that releases: accepted, for the one terminal action, on this very record.
  unfoldable pub release_decision : Json → Result Report
  release_decision lease = do
    release_ref ←
        portable_ref "A RELEASED v2 lease requires release_decision_ref"
          (get "release_decision_ref" lease)
    path ← within_repository true release_ref
    decision ←
        verify_decision h d path (get "run_id" lease) (release_action lease) (get "lease_id" lease)
          (get "generation" lease) true
    raise_if (not (is_accepted decision)) (value_error "Lease release decision verification failed")
    raise_if
        (not (
          json_eq decision.authorized_actions
            (arr (cons (str (codes (release_action lease))) nil))))
        (value_error "Release decision must authorize exactly one terminal action")
    validate_decision_scope h lease decision
    raise_if (not (json_eq decision.sequence (get "generation" lease)))
        (value_error "Release decision sequence must match the terminal lease generation")
    ok decision

  -- The decision before it, on the record as it was while ACTIVE.
  unfoldable pub check_active_decision : Json → Report → Result (Unit {0})
  check_active_decision lease decision = do
    active_ref ←
        portable_ref "Release decision must directly follow the active lease decision"
          (get "decision_ref" lease)
    previous_ref ←
        portable_ref "Release decision must directly follow the active lease decision"
          decision.previous_decision_ref
    active_path ← within_repository true active_ref
    previous_path ← within_repository true previous_ref
    raise_if (not (text_eq active_path previous_path))
        (value_error "Release decision does not directly follow the active lease decision")
    generation ← before_generation (get "generation" lease)
    let active_candidate = active_candidate_of lease generation
    active_decision ←
        verify_decision h d active_path (get "run_id" lease) (action_for active_candidate)
          (get "lease_id" lease) generation true
    raise_if (not (is_accepted active_decision))
        (value_error "Active lease decision verification failed")
    validate_decision_scope h active_candidate active_decision
    raise_if (not (json_eq active_decision.sequence generation))
        (value_error "Active decision sequence must match the active lease generation")

  -- `_validate_terminal_release`, at the instant `now`
  unfoldable pub validate_terminal_release : Json → ℕ → Result (Unit {0})
  validate_terminal_release lease now = do
    released ←
        timestamp h "released_utc must be a canonical UTC timestamp" (get "released_utc" lease)
    raise_if (ltb now released) (value_error "A terminal release cannot have a future released_utc")
    validate_outcome_binding lease
    decision ← release_decision lease
    check_active_decision lease decision

  -- `_validate_release_authority`
  unfoldable pub validate_release_authority : Json → Json → ℕ → Result (Unit {0})
  validate_release_authority candidate current now = do
    released ←
        timestamp h "released_utc must be a canonical UTC timestamp" (get "released_utc" candidate)
    raise_if (ltb now released)
        (value_error "Terminal candidate released_utc cannot be in the future")
    expires ←
        timestamp h "expires_utc must be a canonical UTC timestamp" (get "expires_utc" current)
    raise_if
        (not (
          is_text (if ltb expires now then "STALE_RECOVERY" else "NORMAL")
            (get "release_authority" candidate)))
        (value_error "Terminal candidate release authority mismatch")
    validate_terminal_release candidate now
