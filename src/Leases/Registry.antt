-- ===== src/Leases/Registry.antt =====
-- The lock root and the operations on it: `acquire`, `replace` and `release`. Each operation runs
-- under the admission mutex, so the root changes by that operation alone; what it sees of the rest
-- of the world is an argument, one moment for each time that it looks.
use coordination_loop_harnes.Base.{
  ℕ, ltb, Bool, true, false, ◌&&◌, ◌||◌, not, none, some, List, [], ◌∷◌, Text, codes, text_eq,
  is_empty, select, if◌then◌else◌, Result, ok, err, value_error, type_error, os_error,
  runtime_error, key_error, raise_if, ◌>>=◌, ◌>>◌,
}
use coordination_loop_harnes.Base.Int.{ℤ, pos}
use coordination_loop_harnes.Json.{Json, str, int, obj, end, field, get, is_text, text?, json_eq}
use coordination_loop_harnes.Util.Host.{Host}
use coordination_loop_harnes.Util.Validation.{validate_document}
use coordination_loop_harnes.Util.Disk.{Disk}
use coordination_loop_harnes.Leases.Sets.{is_v1, is_v2}
use coordination_loop_harnes.Leases.Overlap.{Found, find_overlaps}
use coordination_loop_harnes.Leases.Lifecycle.{timestamp}
use coordination_loop_harnes.Leases.Validate.{validate_lease, text_of}
use coordination_loop_harnes.Leases.Legacy.{legacy_terminal_record_is_valid}
use coordination_loop_harnes.Leases.Authority.{
  within_repository, verify_bound_lease_decision, validate_terminal_release,
}

-- What a directory entry of the lock root yields: a record; nothing, where it cannot be read; or,
-- for an entry that is misspelled, linked or no regular file, what could be read of it.
pub data Content : Type 0 where
  readable : Json → Content
  unreadable : Content
  irregular : Json → Content

pub record Entry : Type 0 where
  -- the file name without the suffix `.lease.json`
  pub name : Text
  pub content : Content

-- An archived record: the lease, its generation, and the bytes.
pub record Archived : Type 0 where
  pub lease_id : Text
  pub generation : ℤ
  pub stored : List ℕ

pub record LockRoot : Type 0 where
  pub entries : List Entry
  pub history : List Archived

-- What an operation sees at one moment.
pub record Moment : Type 0 where
  pub disk : Disk
  -- `datetime.now(UTC)`, in microseconds, and `utc_now()`
  pub now : ℕ
  pub utc_now : Text
  -- `_validate_writer_binding`, `_writer_git_admission_guard` and `_assert_lease_entry_unchanged`,
  -- which look at Git and at file identities
  pub writer_binding : Json → Result (Unit {0})
  pub git_guard : Json → Result (Unit {0})
  pub entry_unchanged : Result (Unit {0})

-- `except (OSError, TypeError, ValueError): return False`
abbrev pub attempt : Result Bool → Result Bool
attempt (ok b) = ok b
attempt (err (value_error _)) = ok false
attempt (err (type_error _)) = ok false
attempt (err (os_error _)) = ok false
attempt (err (runtime_error m)) = err (runtime_error m)
attempt (err (key_error m)) = err (key_error m)

abbrev opaque : Json
opaque = obj (field "state" (str (codes "UNKNOWN_OPAQUE")) end)

abbrev terminal : Text → Json
terminal name =
    obj (field "lease_id" (str name) (field "state" (str (codes "TERMINAL_RELEASED")) end))

abbrev pub is_named : Text → Json → Bool
is_named name lease = elim (text? (get "lease_id" lease)) [ none ↦ false | some s ↦ text_eq s name ]

abbrev pub same_name : Text → Entry → Bool
same_name name e = text_eq e.name name

module _ (h : Host) where
  abbrev pub current_time : Moment → Result ℕ
  current_time m = timestamp h "current_utc must be a canonical UTC timestamp" (str m.utc_now)

  unfoldable pub v2_terminal : Moment → Json → Result Bool
  v2_terminal m lease = do
    errors ← validate_document h lease
    if not (is_empty errors)
        then ok false
        else validate_lease h lease true false
          >> (if not (is_text "RELEASED" (get "state" lease))
              then ok false
              else current_time m >>= λ now.
                  validate_terminal_release h m.disk lease now >> ok true)

  -- `_terminal_record_is_valid`, with a repository root
  unfoldable pub terminal_record_is_valid : Moment → Json → Result Bool
  terminal_record_is_valid m lease =
      if is_v1 lease
      then legacy_terminal_record_is_valid h lease
      else if is_v2 lease
      then attempt (v2_terminal m lease)
      else attempt (validate_document h lease >>= λ errors. ok false)

  abbrev pub supported : Json → Bool
  supported lease = is_v1 lease || is_v2 lease

  -- A record that the scan could read.
  unfoldable pub scan_record : Moment → Text → Json → Result Json
  scan_record m name lease =
      if is_text "RELEASED" (get "state" lease) && supported lease && is_named name lease
      then (terminal_record_is_valid m lease >>= λ valid.
          ok (if valid then terminal name else lease))
      else ok lease

  unfoldable pub scan_content : Moment → Text → Content → Result Found
  scan_content m name (readable lease) =
      scan_record m name lease >>= λ seen. ok (record { inferred_id = name; lease = seen })
  scan_content m name unreadable = ok (record { inferred_id = name; lease = opaque })
  scan_content m name (irregular retained) = ok (record { inferred_id = name; lease = retained })

  -- `_active_leases`
  unfoldable pub active_leases : Moment → List Entry → Result (List Found)
  active_leases m [] = ok []
  active_leases m (e ∷ es) = do
    one ← scan_content m e.name e.content
    rest ← active_leases m es
    ok (one ∷ rest)

  -- The entries of other names: `excluding_path`.
  unfoldable pub others : Text → List Entry → List Entry
  others name entries = select (λ e. not (same_name name e)) entries

  unfoldable pub refuse_overlaps : Moment → Json → List Entry → Result (Unit {0})
  refuse_overlaps m candidate entries = do
    found ← active_leases m entries
    overlaps ← find_overlaps h candidate found
    raise_if (not (is_empty overlaps)) (runtime_error "Repository-set overlap detected")

  -- `_require_unexpired_acquisition`
  unfoldable pub require_unexpired_acquisition : Moment → Json → Result (Unit {0})
  require_unexpired_acquisition m candidate =
      if is_v2 candidate
      then (timestamp h "expires_utc must be a canonical UTC timestamp"
            (get "expires_utc" candidate)
          >>= λ expires.
              raise_if (ltb expires m.now)
                (value_error "Lease candidate has expired before acquisition publication"))
      else ok tt

  -- `write_json_atomic` with `create_new`
  unfoldable pub publish_new : Text → Json → LockRoot → Result LockRoot
  publish_new name lease root =
      if is_empty (select (same_name name) root.entries)
      then ok (record root {
        entries = record { name = name; content = readable lease } ∷ root.entries;
      })
      else err (os_error "File exists")

  -- `write_json_atomic` over the entry that is there
  unfoldable pub overwrite : Text → Json → List Entry → List Entry
  overwrite name lease [] = []
  overwrite name lease (e ∷ es) =
      let rest = overwrite name lease es in
      if same_name name e then record { name = name; content = readable lease } ∷ es else e ∷ rest

  -- The tests of `acquire` before the mutex.
  unfoldable pub admit_candidate : Moment → Bool → Json → Result Text
  admit_candidate m explicit_root candidate = do
    raise_if (is_v2 candidate && not explicit_root)
        (value_error "A v2 lease mutation requires an explicit repo_root")
    validate_lease h candidate false true
    require_unexpired_acquisition m candidate
    raise_if
        (not (is_text "ACTIVE" (get "state" candidate))
          || not (json_eq (get "generation" candidate) (int (pos 1))))
        (value_error "A new lease must have state=ACTIVE and generation=1")
    ref ← text_of (get "decision_ref" candidate)
    path ← within_repository h m.disk false ref
    _ ← verify_bound_lease_decision h m.disk candidate path "lease:acquire"
    m.writer_binding candidate
    ok path

  -- `acquire`
  unfoldable pub acquire : (ℕ → Moment) → Bool → Json → LockRoot → Result LockRoot
  acquire at explicit_root candidate root = do
    path ← admit_candidate (at 0) explicit_root candidate
    name ← text_of (get "lease_id" candidate)
    _ ← verify_bound_lease_decision h (at 1).disk candidate path "lease:acquire"
    (at 1).git_guard candidate
    (at 1).writer_binding candidate
    refuse_overlaps (at 2) candidate root.entries
    (at 3).writer_binding candidate
    _ ← verify_bound_lease_decision h (at 3).disk candidate path "lease:acquire"
    require_unexpired_acquisition (at 4) candidate
    publish_new name candidate root
