-- ===== src/Leases/Observe.antt =====
-- `observe` and `list_leases`: what one looks at, without the mutex.
use coordination_loop_harnes.Base.{
  ltb, Bool, true, false, not, Option, none, some, List, [], ◌∷◌, ◌++◌, String, Text, is_empty,
  if◌then◌else◌, Result, ok, err, value_error, type_error, os_error, runtime_error, key_error,
  raise_if, ◌>>=◌, ◌>>◌, text_eq,
}
use coordination_loop_harnes.Json.{Json, null, str, get, is_text, json_eq}
use coordination_loop_harnes.Util.Host.{Host}
use coordination_loop_harnes.Util.Safe.{is_safe_id}
use coordination_loop_harnes.Util.Sort.{sort_by}
use coordination_loop_harnes.Util.Disk.{Disk}
use coordination_loop_harnes.Leases.Access.{text_leb}
use coordination_loop_harnes.Leases.Sets.{is_v1, is_v2}
use coordination_loop_harnes.Leases.Lifecycle.{timestamp, validate_v2_lifecycle}
use coordination_loop_harnes.Leases.Validate.{validate_lease}
use coordination_loop_harnes.Leases.Legacy.{legacy_record_is_valid, legacy_terminal_record_is_valid}
use coordination_loop_harnes.Leases.Authority.{validate_terminal_release}
use coordination_loop_harnes.Leases.Registry.{Entry, Moment, current_time}
use coordination_loop_harnes.Leases.Changes.{read_entry}

-- `ownership_status`
pub data Ownership : Type 0 where
  unknown_fail_closed terminal_released active_legacy active stale_active : Ownership

-- What `observe` returns; the lease's identity and the path repeat its arguments.
pub record Observation : Type 0 where
  pub state : Json
  pub ownership_status : Ownership
  pub active_writer_repository : Json
  pub generation : Json
  pub automatic_reclaim : Bool
  pub findings : List String

-- `except (OSError, TypeError, ValueError) as exc: findings.append(str(exc))`
unfoldable pub noted : Result (Unit {0}) → Result (List String)
noted (ok _) = ok []
noted (err (value_error m)) = ok (m ∷ [])
noted (err (type_error m)) = ok (m ∷ [])
noted (err (os_error m)) = ok (m ∷ [])
noted (err (runtime_error m)) = err (runtime_error m)
noted (err (key_error m)) = err (key_error m)

-- The same where a record is read: the message, or the record.
pub data Seen : Type 0 where
  failed : String → Seen
  seen : Json → Seen

unfoldable pub attempted : Result Json → Result Seen
attempted (ok lease) = ok (seen lease)
attempted (err (value_error m)) = ok (failed m)
attempted (err (type_error m)) = ok (failed m)
attempted (err (os_error m)) = ok (failed m)
attempted (err (runtime_error m)) = err (runtime_error m)
attempted (err (key_error m)) = err (key_error m)

-- `validation_root`, and the findings on it: `repo_root` may be missing, or name no repository.
unfoldable pub validation_root : Option (Result Disk) → Result (List String × Option Disk)
validation_root none = ok ("Cannot verify a v2 lease without explicit repo_root" ∷ [], none)
validation_root (some (ok d)) = ok ([], some d)
validation_root (some (err (value_error m))) = ok (m ∷ [], none)
validation_root (some (err (type_error m))) = err (type_error m)
validation_root (some (err (os_error m))) = err (os_error m)
validation_root (some (err (runtime_error m))) = err (runtime_error m)
validation_root (some (err (key_error m))) = err (key_error m)

abbrev pub unreadable_observation : String → Observation
unreadable_observation message = record {
  state = null;
  ownership_status = unknown_fail_closed;
  active_writer_repository = null;
  generation = null;
  automatic_reclaim = false;
  findings = message ∷ [];
}

abbrev pub observation_of : Json → List String → Ownership → Observation
observation_of lease findings status = record {
  state = get "state" lease;
  ownership_status = status;
  active_writer_repository = get "active_writer_repository" lease;
  generation = get "generation" lease;
  automatic_reclaim = false;
  findings = findings;
}

-- `observed_utc or utc_now()`
abbrev pub observed_text : Moment → Option Text → Text
observed_text m none = m.utc_now
observed_text m (some s) = if is_empty s then m.utc_now else s

module _ (h : Host) (m : Moment) where
  -- The validation of a v2 record.
  unfoldable pub check_observed : Option Disk → Json → Result (Unit {0})
  check_observed none lease =
      validate_v2_lifecycle h lease
      >> raise_if (is_text "RELEASED" (get "state" lease))
          (value_error "Cannot verify terminal release without repo_root")
  check_observed (some d) lease =
      validate_lease h lease true false
      >> (if is_text "RELEASED" (get "state" lease)
          then (current_time h m >>= λ now. validate_terminal_release h d lease now)
          else ok tt)

  unfoldable pub v2_findings : Option (Result Disk) → Json → Result (List String)
  v2_findings repo lease = do
    root ← validation_root repo
    more ← noted (check_observed root.1 lease)
    ok (root.0 ++ more)

  unfoldable pub v1_findings : Json → Result (List String)
  v1_findings lease = do
    valid ← legacy_record_is_valid h lease
    if not valid
        then ok ("Legacy lease structure or lifecycle is invalid" ∷ [])
        else if is_text "RELEASED" (get "state" lease)
        then (legacy_terminal_record_is_valid h lease >>= λ terminal.
            ok (if terminal then [] else "Legacy terminal lease evidence is incomplete" ∷ []))
        else ok []

  unfoldable pub record_findings : Option (Result Disk) → Json → Result (List String)
  record_findings repo lease =
      if is_v2 lease
      then v2_findings repo lease
      else if is_v1 lease
      then v1_findings lease
      else ok ("Unsupported lease schema_version" ∷ [])

  -- `status`
  unfoldable pub ownership : Option Text → Json → List String → Result Ownership
  ownership observed_utc lease findings =
      if not (is_empty findings)
      then ok unknown_fail_closed
      else if is_text "RELEASED" (get "state" lease)
      then ok terminal_released
      else if not (is_text "ACTIVE" (get "state" lease))
      then ok unknown_fail_closed
      else if is_v1 lease
      then ok active_legacy
      else do
        observed ←
            timestamp h "observed_utc must be a canonical UTC timestamp"
              (str (observed_text m observed_utc))
        expires ←
            timestamp h "expires_utc must be a canonical UTC timestamp" (get "expires_utc" lease)
        ok (if ltb expires observed then stale_active else active)

  -- The part of `observe` that has read the record.
  unfoldable pub observe_record :
      Text → Option (Result Disk) → Option Text → Json → Result Observation
  observe_record lease_id repo observed_utc lease = do
    more ← record_findings repo lease
    let findings =
        (if json_eq (get "lease_id" lease) (str lease_id)
          then []
          else "Lease file is not bound to the requested lease_id" ∷ [])
        ++ more
    status ← ownership observed_utc lease findings
    ok (observation_of lease findings status)

  unfoldable pub observe_seen :
      Text → Option (Result Disk) → Option Text → Seen → Result Observation
  observe_seen lease_id repo observed_utc (failed message) = ok (unreadable_observation message)
  observe_seen lease_id repo observed_utc (seen lease) =
      observe_record lease_id repo observed_utc lease

  -- `observe`; `exists` says whether the path is there or is a link.
  unfoldable pub observe :
      Bool → List Entry → Text → Option (Result Disk) → Option Text → Result Observation
  observe exists entries lease_id repo observed_utc = do
    raise_if (not (is_safe_id lease_id)) (value_error "Invalid lease_id")
    raise_if (not exists) (value_error "Lease file not found")
    found ← attempted (read_entry h lease_id entries >>= λ lease. m.entry_unchanged >> ok lease)
    observe_seen lease_id repo observed_utc found

  -- The order of `_lease_scan_paths`.
  abbrev pub entry_leb : Entry → Entry → Bool
  entry_leb a b =
      if text_eq (h.casefold a.name) (h.casefold b.name)
      then text_leb a.name b.name
      else text_leb (h.casefold a.name) (h.casefold b.name)

  unfoldable pub list_each : List Entry → List Entry → Result (List Json)
  list_each entries [] = ok []
  list_each entries (e ∷ es) = do
    lease ← read_entry h e.name entries
    m.entry_unchanged
    rest ← list_each entries es
    ok (lease ∷ rest)

  -- `list_leases`; `exists` says whether the lock root is there.
  unfoldable pub list_leases : Bool → List Entry → Result (List Json)
  list_leases exists entries =
      if exists then list_each entries (sort_by entry_leb entries) else ok []
