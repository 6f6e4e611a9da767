-- ===== src/Leases/Changes.antt =====
-- `replace` and `release`, on an entry that is there.
use coordination_loop_harnes.Base.{
  ℕ, Bool, true, false, ◌&&◌, ◌||◌, not, Option, none, some, List, [], ◌∷◌, String, Text, codes,
  text_eq, is_empty, select, any, if◌then◌else◌, Result, ok, err, value_error, type_error,
  runtime_error, raise_if, ◌>>=◌, ◌>>◌,
}
use coordination_loop_harnes.Base.Int.{ℤ, pos, ◌+ℤ◌, eqb_ℤ}
use coordination_loop_harnes.Json.{Json, null, str, int, get, put, is_text, int?, json_eq, truthy}
use coordination_loop_harnes.Util.Host.{Host}
use coordination_loop_harnes.Util.Safe.{is_safe_id}
use coordination_loop_harnes.Util.Canonical.{canonical_json_bytes}
use coordination_loop_harnes.Leases.Sets.{is_v1, is_v2}
use coordination_loop_harnes.Leases.Validate.{validate_lease, text_of, is_coordination_self_write}
use coordination_loop_harnes.Leases.Authority.{
  within_repository, validate_replacement_authority, validate_release_authority,
}
use coordination_loop_harnes.Leases.Registry.{
  Content, readable, unreadable, irregular, Entry, Archived, LockRoot, Moment, current_time,
  refuse_overlaps, others, overwrite,
}

-- Fields that a change must keep.
unfoldable pub changes_any : List String → Json → Json → Bool
changes_any fields candidate current =
    any (λ k. not (json_eq (get k candidate) (get k current))) fields

abbrev pub identity_fields : List String
identity_fields =
    "schema_version" ∷ "run_id" ∷ "owner" ∷ "created_utc" ∷ "coordination_repository" ∷ []

abbrev pub immutable_fields : List String
immutable_fields =
    "schema_version" ∷ "lease_id" ∷ "run_id" ∷ "created_utc" ∷ "heartbeat_utc" ∷ "expires_utc"
    ∷ "owner" ∷ "coordination_repository" ∷ "repositories" ∷ "local_scopes"
    ∷ "infrastructure_scopes" ∷ "decision_ref" ∷ []

abbrev pub bytes_eq : List ℕ → List ℕ → Bool
bytes_eq = text_eq

-- The bytes that the archive holds for a lease at a generation.
unfoldable pub archived_bytes : Text → ℤ → List Archived → Option (List ℕ)
archived_bytes lease_id generation [] = none
archived_bytes lease_id generation (a ∷ history) =
    let rest = archived_bytes lease_id generation history in
    if text_eq a.lease_id lease_id && eqb_ℤ a.generation generation then some a.stored else rest

-- The tests that both operations make of the entry.
unfoldable pub check_current : String → Text → Json → ℤ → Result (Unit {0})
check_current not_active lease_id current expected_generation = do
  raise_if (not (json_eq (get "lease_id" current) (str lease_id)))
      (runtime_error "Lease file is not bound to the requested lease_id")
  raise_if (not (is_text "ACTIVE" (get "state" current))) (runtime_error not_active)
  raise_if (not (json_eq (get "generation" current) (int expected_generation)))
      (runtime_error "Lease generation mismatch")

-- The record of a legacy release.
unfoldable pub legacy_released : Json → ℤ → Text → Text → Json
legacy_released current expected_generation utc_now outcome_ref =
    put "active_writer_repository" null (
      put "outcome_ref" (str outcome_ref) (
        put "released_utc" (str utc_now) (
          put "generation" (int (expected_generation +ℤ pos 1))
            (put "state" (str (codes "RELEASED")) current))))

abbrev pub integer_of : Json → Result ℤ
integer_of v = elim (int? v) [ none ↦ err (type_error "an integer is needed") | some z ↦ ok z ]

module _ (h : Host) where
  abbrev pub exact_content : Bool → Content → Result Json
  exact_content true (readable lease) = ok lease
  exact_content true unreadable = err (value_error "Invalid JSON")
  exact_content true (irregular _) =
      err (value_error "must be a regular file with exactly one link")
  exact_content false c = err (value_error "must use exact case-sensitive directory-entry spelling")

  abbrev pub single : Text → List Entry → Result Json
  single name [] = err (value_error "not found")
  single name (e ∷ []) = exact_content (text_eq e.name name) e.content
  single name (_ ∷ _ ∷ _) =
      err (value_error "must use exact case-sensitive directory-entry spelling")

  -- `_lease_directory_entry`, then `load_json`
  unfoldable pub read_entry : Text → List Entry → Result Json
  read_entry name entries =
      single name (select (λ e. text_eq (h.casefold e.name) (h.casefold name)) entries)

  abbrev pub kept_or_added :
      Text → ℤ → List ℕ → List Archived → Option (List ℕ) → Result (List Archived)
  kept_or_added lease_id generation bytes history none =
      ok (record { lease_id = lease_id; generation = generation; stored = bytes } ∷ history)
  kept_or_added lease_id generation bytes history (some stored) =
      raise_if (not (bytes_eq stored bytes))
        (value_error "Previous lease candidate archive does not match current custody")
      >> ok history

  -- `_preserve_previous_candidate`
  unfoldable pub preserve_previous_candidate : Json → List Archived → Result (List Archived)
  preserve_previous_candidate current history = do
    lease_id ← text_of (get "lease_id" current)
    generation ← integer_of (get "generation" current)
    bytes ← canonical_json_bytes h current
    kept_or_added lease_id generation bytes history (archived_bytes lease_id generation history)

  -- The tests of `replace` on the schemas of both records.
  unfoldable pub check_schemas : Json → Json → Result (Unit {0})
  check_schemas candidate current =
      if is_v2 candidate
      then raise_if (not (is_v2 current))
          (value_error "A v2 replacement requires an existing v2 lease")
        >> (validate_lease h current true true
            >> raise_if (changes_any identity_fields candidate current)
                (value_error "Replacement must preserve lease identity field"))
      else raise_if (not (is_v1 current || is_v2 current))
          (value_error "Unsupported current lease schema_version")
        >> raise_if (not (json_eq (get "schema_version" current) (get "schema_version" candidate)))
            (value_error "Replacement must preserve lease schema_version")

  unfoldable pub check_replacement : Json → ℤ → Result (Unit {0})
  check_replacement candidate expected_generation = do
    raise_if (not (json_eq (get "generation" candidate) (int (expected_generation +ℤ pos 1))))
        (value_error "Replacement generation must equal expected_generation + 1")
    raise_if (not (is_text "ACTIVE" (get "state" candidate)))
        (value_error "Use release() to close a lease")
    raise_if (not (truthy (get "decision_ref" candidate)))
        (value_error "Lease replacement requires decision_ref")

  unfoldable pub archive : Moment → Json → List Archived → Result (List Archived)
  archive m current history =
      if is_v2 current
      then (preserve_previous_candidate current history >>= λ kept. m.entry_unchanged >> ok kept)
      else ok history

  -- `replace`, from the validation of the authority on
  unfoldable pub publish_replacement :
      (ℕ → Moment) → Text → Json → Json → Text → LockRoot → Result LockRoot
  publish_replacement at name candidate current path root = do
    validate_replacement_authority h (at 0).disk candidate current path
    (at 0).writer_binding candidate
    (at 1).git_guard candidate
    (at 1).writer_binding candidate
    refuse_overlaps h (at 2) candidate (others h name root.entries)
    (at 3).writer_binding candidate
    validate_replacement_authority h (at 3).disk candidate current path
    (at 3).entry_unchanged
    history ← archive (at 4) current root.history
    ok (record { entries = overwrite h name candidate root.entries; history = history })

  -- `replace`
  unfoldable pub replace : (ℕ → Moment) → Bool → Json → ℤ → LockRoot → Result LockRoot
  replace at explicit_root candidate expected_generation root = do
    raise_if (is_v2 candidate && not explicit_root)
        (value_error "A v2 lease mutation requires an explicit repo_root")
    validate_lease h candidate true true
    name ← text_of (get "lease_id" candidate)
    current ← read_entry name root.entries
    (at 0).entry_unchanged
    check_current "Only an ACTIVE lease can be replaced" name current expected_generation
    check_schemas candidate current
    check_replacement candidate expected_generation
    ref ← text_of (get "decision_ref" candidate)
    path ← within_repository h (at 0).disk false ref
    publish_replacement at name candidate current path root

  unfoldable pub check_terminal_candidate : Text → Json → Json → ℤ → Result (Unit {0})
  check_terminal_candidate lease_id candidate current expected_generation = do
    raise_if (not (json_eq (get "lease_id" candidate) (str lease_id)))
        (value_error "Terminal candidate lease_id does not match the requested lease")
    raise_if (not (is_text "RELEASED" (get "state" candidate)))
        (value_error "A v2 terminal candidate must have state=RELEASED")
    raise_if (not (json_eq (get "generation" candidate) (int (expected_generation +ℤ pos 1))))
        (value_error "Terminal candidate generation must equal expected_generation + 1")
    raise_if (changes_any immutable_fields candidate current)
        (value_error "Terminal candidate must preserve lease field")

  -- `_validate_release_authority` at the time of one moment
  unfoldable pub authorized_now : Moment → Json → Json → Result (Unit {0})
  authorized_now m candidate current =
      current_time h m >>= λ now. validate_release_authority h m.disk candidate current now

  -- What `release` writes for a v2 record.
  unfoldable pub close_with : (ℕ → Moment) → Text → Json → ℤ → Option Json → Result Json
  close_with at lease_id current expected_generation none =
      err (value_error "A v2 release requires an exact terminal candidate")
  close_with at lease_id current expected_generation (some candidate) = do
    validate_lease h candidate true true
    check_terminal_candidate lease_id candidate current expected_generation
    (at 1).writer_binding current
    authorized_now (at 1) candidate current
    (at 2).git_guard current
    (at 2).writer_binding current
    authorized_now (at 2) candidate current
    (at 3).writer_binding current
    authorized_now (at 3) candidate current
    (at 3).entry_unchanged
    authorized_now (at 4) candidate current
    ok candidate

  unfoldable pub release_v2 : (ℕ → Moment) → Bool → Text → Json → ℤ → Option Json → Result Json
  release_v2 at explicit_root lease_id current expected_generation candidate = do
    raise_if (not explicit_root) (value_error "A v2 lease mutation requires an explicit repo_root")
    validate_lease h current true true
    close_with at lease_id current expected_generation candidate

  -- The tests before a v1 record that writes its own coordination repository is released.
  unfoldable pub check_self_writer : Moment → Json → Result (Unit {0})
  check_self_writer m current =
      if is_coordination_self_write h current
      then validate_lease h current true false >> (m.git_guard current >> m.writer_binding current)
      else ok tt

  -- What it writes for a v1 record: `_write_legacy_release`.
  unfoldable pub release_v1 : (ℕ → Moment) → Json → ℤ → Option Text → Result Json
  release_v1 at current expected_generation none =
      err (value_error "A legacy release requires outcome_ref")
  release_v1 at current expected_generation (some outcome_ref) = do
    raise_if (is_empty outcome_ref) (value_error "A legacy release requires outcome_ref")
    check_self_writer (at 1) current
    (at 2).entry_unchanged
    ok (legacy_released current expected_generation (at 2).utc_now outcome_ref)

  unfoldable pub released_record :
      (ℕ → Moment) → Bool → Text → Json → ℤ → Option Text → Option Json → Result Json
  released_record at explicit_root lease_id current expected_generation outcome_ref candidate =
      if is_v2 current
      then release_v2 at explicit_root lease_id current expected_generation candidate
      else if is_v1 current
      then release_v1 at current expected_generation outcome_ref
      else err (value_error "Unsupported current lease schema_version")

  -- `release`
  unfoldable pub release :
      (ℕ → Moment) → Bool → Text → ℤ → Option Text → Option Json → LockRoot → Result LockRoot
  release at explicit_root lease_id expected_generation outcome_ref candidate root = do
    raise_if (not (is_safe_id lease_id)) (value_error "Invalid lease_id")
    current ← read_entry lease_id root.entries
    (at 0).entry_unchanged
    check_current "Lease is not ACTIVE" lease_id current expected_generation
    closed ←
        released_record at explicit_root lease_id current expected_generation outcome_ref candidate
    ok (record root { entries = overwrite h lease_id closed root.entries })
