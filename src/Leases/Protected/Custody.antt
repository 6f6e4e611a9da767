-- ===== src/Leases/Protected/Custody.antt =====
-- `verify`: the current record byte by byte, and each archived one before it.
use coordination_loop_harnes.Base.{
  ℕ, zero, suc, ◌==◌, Bool, true, false, ◌||◌, not, List, [], ◌∷◌, ◌++◌, String, Text, codes,
  text_eq, is_empty, is_some, select, if◌then◌else◌, Result, ok, err, value_error, raise_if, ◌>>=◌,
  ◌>>◌,
}
use coordination_loop_harnes.Base.Int.{ℤ, pos, negsuc, leb_ℤ}
use coordination_loop_harnes.Json.{Json, str, int, obj, field, end, get, is_text, int?, json_eq}
use coordination_loop_harnes.Util.Host.{Host}
use coordination_loop_harnes.Util.Safe.{is_safe_id, is_safe_json_integer}
use coordination_loop_harnes.Util.Decimal.{str_int}
use coordination_loop_harnes.Util.Disk.{Disk, load_json, ensure_within}
use coordination_loop_harnes.Util.Canonical.{canonical_json_bytes}
use coordination_loop_harnes.Leases.Sets.{is_v2}
use coordination_loop_harnes.Leases.Validate.{validate_lease, text_of}
use coordination_loop_harnes.Leases.Authority.{within_repository, verify_bound_lease_decision}
use coordination_loop_harnes.Leases.Registry.{
  Content, readable, unreadable, irregular, Entry, Moment, require_unexpired_acquisition,
}
use coordination_loop_harnes.Leases.Changes.{changes_any, identity_fields, bytes_eq}
use coordination_loop_harnes.Leases.Protected.Tree.{
  Observer, Tree, Identities, same_identities, protected_tree,
}

abbrev text : String → Json
text s = str (codes s)

-- What `verify` meets.
pub record Custody : Type 0 where
  pub observer : Observer
  -- the two roots before and after the rest
  pub lock_tree : Tree
  pub repo_tree : Tree
  pub lock_tree_after : Tree
  pub repo_tree_after : Tree
  pub mutex_exists : Bool
  -- the directory entries of the lock root, and all files of the two roots
  pub entries : List Entry
  pub locks : Disk
  -- the bytes of the current record, once its identity has been compared
  pub raw : Result (List ℕ)
  -- the repository, the clock, and `_assert_lease_entry_unchanged`
  pub moment : Moment

pub record Snapshot : Type 0 where
  pub lease_id : Text
  pub generation : ℤ
  pub state : String
  pub lease_sha256 : Text
  pub verification : String
  pub custody_resolved : Bool
  pub runtime_gate : String

abbrev pub issuance_root : Json
issuance_root = obj (
    field "schema_version" (text "clh-protected-issuance-root.v1") (
      field "product_owner" (text "CLH") (
        field "issuer_uid" (int (pos 0))
          (field "policy" (text "OPERATOR_FIXED_CLH_ONLY_ISSUANCE") end))))

unfoldable pub check_issuer : Json → Result (Unit {0})
check_issuer issuer =
    raise_if (not (is_some (int? (get "issuer_uid" issuer))) || not (json_eq issuer issuance_root))
      (value_error "HOLD_ROOT_PROTECTION_UNPROVEN: trusted CLH issuance not established")

-- `expected_generation - 1` of a positive number
abbrev pub generations_before : ℤ → ℕ
generations_before (pos zero) = 0
generations_before (pos (suc n)) = n
generations_before (negsuc n) = 0

-- The action that a generation's decision authorizes.
abbrev pub action_at : ℕ → String
action_at generation = if generation == 1 then "lease:acquire" else "lease:expand"

abbrev is_first : ℤ → Bool
is_first (pos n) = n == 1
is_first (negsuc n) = false

abbrev pub current_action : ℤ → String
current_action g = if is_first g then "lease:acquire" else "lease:expand"

-- A record that its Decision follows.
unfoldable pub check_ancestry : Text → ℕ → Json → Json → Result (Unit {0})
check_ancestry lease_id generation previous next_decision =
    raise_if
      (not (json_eq (get "lease_id" previous) (str lease_id))
        || not (json_eq (get "generation" previous) (int (pos generation)))
        || not (is_text "ACTIVE" (get "state" previous))
        || not (is_v2 previous)
        || not (json_eq (get "previous_decision_ref" next_decision) (get "decision_ref" previous)))
      (value_error "Protected historical candidate does not match Decision ancestry")

unfoldable pub check_current_custody : Text → ℤ → Json → Result (Unit {0})
check_current_custody lease_id expected_generation current = do
  raise_if
      (not (json_eq (get "lease_id" current) (str lease_id))
        || not (json_eq (get "generation" current) (int expected_generation)))
      (value_error "Current lease identity/generation does not match expected custody")
  raise_if (not (is_v2 current) || not (is_text "ACTIVE" (get "state" current)))
      (value_error "Current custody is not an ACTIVE v2 lease")

-- `self._lock_root / "lease-history" / lease_id / f"{generation}.json"`
abbrev pub archive_path : Disk → Text → ℕ → Text
archive_path locks lease_id generation =
    locks.join (locks.join (locks.join locks.root (codes "lease-history")) lease_id)
      (str_int (pos generation) ++ codes ".json")

-- The archived record of a generation.
unfoldable pub load_archived : Disk → Text → ℕ → Result Json
load_archived locks lease_id generation =
    ensure_within locks true (archive_path locks lease_id generation) >>= λ archive.
    load_json locks archive

module _ (h : Host) where
  -- A regular file, spelled exactly.
  abbrev pub ordinary : Bool → Content → Result Content
  ordinary true (readable lease) = ok (readable lease)
  ordinary true unreadable = ok unreadable
  ordinary true (irregular _) = err (value_error "must be a regular file with exactly one link")
  ordinary false c = err (value_error "must use exact case-sensitive directory-entry spelling")

  abbrev pub only_match : Text → List Entry → Result Content
  only_match name [] = err (value_error "not found")
  only_match name (e ∷ []) = ordinary (text_eq e.name name) e.content
  only_match name (_ ∷ _ ∷ _) =
      err (value_error "must use exact case-sensitive directory-entry spelling")

  -- `_lease_directory_entry`
  unfoldable pub lease_entry : Text → List Entry → Result Content
  lease_entry name entries =
      only_match name (select (λ e. text_eq (h.casefold e.name) (h.casefold name)) entries)

  -- `load_json` of an entry
  unfoldable pub loaded : Content → Result Json
  loaded (readable lease) = ok lease
  loaded unreadable = err (value_error "Invalid JSON")
  loaded (irregular _) = err (value_error "Invalid JSON")

  unfoldable pub check_bytes : List ℕ → Json → List ℕ → Result (Unit {0})
  check_bytes raw current serialized = do
    raise_if (not (bytes_eq raw serialized))
        (value_error "Serialized custody differs from current protected generation/state")
    canonical ← canonical_json_bytes h current
    raise_if (not (bytes_eq canonical serialized))
        (value_error "Serialized custody differs from current protected generation/state")

  module _ (d locks : Disk) where
    -- One round of the loop: the archived record of a generation, and its decision.
    unfoldable pub previous_generation : Text → ℕ → Text → Json → Result Json
    previous_generation lease_id generation next_ref next_candidate = do
      next_decision ← load_json d (d.join d.root next_ref)
      previous ← load_archived locks lease_id generation
      check_ancestry lease_id generation previous next_decision
      raise_if (changes_any identity_fields previous next_candidate)
          (value_error "Protected lineage changes replacement identity field")
      validate_lease h previous true false
      ref ← text_of (get "decision_ref" previous)
      path ← within_repository h d true ref
      _ ← verify_bound_lease_decision h d previous path (action_at generation)
      ok previous

    -- The loop from a generation down to the first one.
    unfoldable pub lineage : Text → ℕ → Text → Json → Result (Unit {0})
    lineage lease_id zero next_ref next_candidate = ok tt
    lineage lease_id (suc n) next_ref next_candidate = do
      previous ← previous_generation lease_id (suc n) next_ref next_candidate
      ref ← text_of (get "decision_ref" previous)
      lineage lease_id n ref previous

  unfoldable pub check_roots : Custody → Identities → Identities → Result (Unit {0})
  check_roots w before_locks before_repo = do
    after_locks ← protected_tree h w.observer w.lock_tree_after
    raise_if (not (same_identities after_locks before_locks))
        (value_error "Protected custody changed during verification")
    after_repo ← protected_tree h w.observer w.repo_tree_after
    raise_if (not (same_identities after_repo before_repo))
        (value_error "Protected Decision/issuance roots changed during verification")

  -- The part of `verify` on the current record.
  unfoldable pub verify_current : Custody → Text → ℤ → List ℕ → Result Json
  verify_current w lease_id expected_generation serialized = do
    content ← lease_entry lease_id w.entries
    raw ← w.raw
    current ← loaded content
    check_bytes raw current serialized
    check_current_custody lease_id expected_generation current
    validate_lease h current true false
    ok current

  unfoldable pub verify_decisions : Custody → Text → ℤ → Json → Result (Unit {0})
  verify_decisions w lease_id expected_generation current = do
    ref ← text_of (get "decision_ref" current)
    path ← within_repository h w.moment.disk true ref
    _ ←
        verify_bound_lease_decision h w.moment.disk current path
          (current_action expected_generation)
    lineage w.moment.disk w.locks lease_id (generations_before expected_generation) ref current

  -- `verify`
  unfoldable pub verify : Custody → Text → ℤ → List ℕ → Result Snapshot
  verify w lease_id expected_generation serialized = do
    raise_if (not (is_safe_id lease_id)) (value_error "Invalid lease_id")
    raise_if
        (not (is_safe_json_integer (int expected_generation)) || leb_ℤ expected_generation (pos 0))
        (value_error "Expected lease generation must be a positive safe integer")
    raise_if (is_empty serialized) (value_error "Exact serialized custody bytes are required")
    before_locks ← protected_tree h w.observer w.lock_tree
    before_repo ← protected_tree h w.observer w.repo_tree
    issuer ←
        load_json w.moment.disk
          (w.moment.disk.join w.moment.disk.root (codes "CLH-ISSUANCE-ROOT.json"))
    check_issuer issuer
    raise_if w.mutex_exists (value_error "Authority mutation is in progress; custody is unresolved")
    current ← verify_current w lease_id expected_generation serialized
    verify_decisions w lease_id expected_generation current
    w.moment.entry_unchanged
    check_roots w before_locks before_repo
    require_unexpired_acquisition h w.moment current
    ok (record {
      lease_id = lease_id;
      generation = expected_generation;
      state = "ACTIVE";
      lease_sha256 = h.sha256 serialized;
      verification = "PROTECTED_CLH_SNAPSHOT_ONLY";
      custody_resolved = false;
      runtime_gate = "AUTHENTICATED_CONSUMER_BOUNDARY_UNQUALIFIED";
    })
