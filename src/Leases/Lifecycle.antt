-- ===== src/Leases/Lifecycle.antt =====
-- `_timestamp` and `_validate_v2_lifecycle`.
use mathlib.Core.List.{reverse}
use coordination_loop_harnes.Base.{
  ℕ, ◌==◌, leb, ltb, Bool, true, ◌&&◌, ◌||◌, not, Option, none, some, List, [], ◌∷◌, String, Text,
  codes, text_eq, strip, is_space, is_empty, any, length, if◌then◌else◌, Result, ok, err,
  value_error, type_error, raise_if, ◌>>=◌, ◌>>◌,
}
use coordination_loop_harnes.Json.{
  Json, null, str, arr, obj, bool, int, real, Fields, end, field, find, get, elements, is_list,
  is_object, is_null, is_text, text?, truthy, fields?,
}
use coordination_loop_harnes.Util.Host.{Host}
use coordination_loop_harnes.Util.Safe.{is_safe_json_integer, at_least}
use coordination_loop_harnes.Util.Scope.{is_v2_absolute_scope, canonical_scope}

abbrev pub refused : String → Result (Unit {0})
refused message = err (value_error message)

abbrev pub unhashable : Json → Bool
unhashable v = is_list v || is_object v

-- `value[:-1]` where the value ends in "Z"
abbrev pub zulu : Text → Option Text
zulu s = elim (reverse s) [ [] ↦ none | c ∷ r ↦ if c == b'Z' then some (reverse r) else none ]

abbrev pub or_refused {ℓ} : {A : Type ℓ} → String → Option A → Result A
or_refused message none = err (value_error message)
or_refused message (some a) = ok a

-- The keys of a dictionary, and the characters of a text, as `for` reads them.
abbrev pub keys_of : Fields → List Json
keys_of end = []
keys_of (field k v fs) = str (codes k) ∷ keys_of fs

abbrev pub characters : Text → List Json
characters [] = []
characters (c ∷ s) = str (c ∷ []) ∷ characters s

-- `for value in data.get(key, [])`
abbrev pub iterate : Option Json → Result (List Json)
iterate none = ok []
iterate (some (arr xs)) = ok (elements (arr xs))
iterate (some (obj fs)) = ok (keys_of fs)
iterate (some (str s)) = ok (characters s)
iterate (some null) = err (type_error "not iterable")
iterate (some (bool _)) = err (type_error "not iterable")
iterate (some (int _)) = err (type_error "not iterable")
iterate (some (real _ _)) = err (type_error "not iterable")

abbrev pub entry : String → Json → Option Json
entry k lease = elim (fields? lease) [ none ↦ none | some fs ↦ find k fs ]

abbrev pub is_write_item : Json → Bool
is_write_item item = is_text "WRITE" (get "mode" item)

-- `infrastructure_scopes` entries: text, not empty, and equal to their own `strip()`.
unfoldable pub infrastructure_invalid : Json → Bool
infrastructure_invalid v = elim (text? v) [
  | none ↦ true
  | some s ↦ is_empty s || not (text_eq s (strip is_space s))
]

abbrev pub terminal_fields : List String
terminal_fields =
    "release_decision_ref" ∷ "release_authority" ∷ "released_utc" ∷ "outcome_ref" ∷ "outcome_sha256"
    ∷ []

-- `active_writer` against the serialized names of the WRITE repositories.
unfoldable pub active_writer_mismatch : Json → List Text → Bool
active_writer_mismatch writer [] = true
active_writer_mismatch writer (w ∷ []) = elim (text? writer) [
  | none ↦ true
  | some s ↦ not (text_eq s w)
]
active_writer_mismatch writer (w ∷ v ∷ ws) = true

-- The texts of the WRITE items.
unfoldable pub serialized_writers : List Json → List Text
serialized_writers [] = []
serialized_writers (item ∷ items) =
    let rest = serialized_writers items in
    elim (text? (get "repository" item)) [
      | none ↦ rest
      | some name ↦ if is_write_item item then name ∷ rest else rest
    ]

unfoldable pub check_writer : Json → List Text → Result (Unit {0})
check_writer active_writer writers =
    if is_null active_writer
    then raise_if (not (is_empty writers))
        (value_error "A lease with no active writer must not contain WRITE repositories")
    else raise_if (active_writer_mismatch active_writer writers) (
        value_error
          "ACTIVE leases require active_writer_repository to exactly match the serialized identity of the single WRITE repository")

unfoldable pub has_terminal_field : Json → Bool
has_terminal_field lease = any (λ k. not (is_null (get k lease))) terminal_fields

unfoldable pub check_active : Json → List Text → Result (Unit {0})
check_active lease writers = do
  raise_if (has_terminal_field lease)
      (value_error "An ACTIVE v2 lease cannot contain terminal release fields")
  raise_if (not (truthy (get "decision_ref" lease)))
      (value_error "An ACTIVE v2 lease requires decision_ref")
  check_writer (get "active_writer_repository" lease) writers

unfoldable pub generation_invalid : Json → Bool
generation_invalid generation = not (is_safe_json_integer generation) || not (at_least 1 generation)

abbrev pub known_authority : Json → Bool
known_authority a = is_text "NORMAL" a || is_text "STALE_RECOVERY" a

unfoldable pub release_incomplete : Json → Bool
release_incomplete lease =
    not (known_authority (get "release_authority" lease))
    || not (truthy (get "outcome_ref" lease))
    || not (truthy (get "outcome_sha256" lease))

abbrev pub incomplete_message : String
incomplete_message = "A RELEASED v2 lease requires release authority, decision, and outcome binding"

module _ (h : Host) where
  -- `_timestamp`
  unfoldable pub timestamp : String → Json → Result ℕ
  timestamp message value = elim (text? value) [
    | none ↦ err (value_error message)
    | some s ↦ elim (zulu s) [
      | none ↦ err (value_error message)
      | some t ↦ or_refused message (h.instant t)
    ]
  ]

  -- One of the path fields of an item.
  unfoldable pub check_scope_field : Json → Result (Unit {0})
  check_scope_field value = if is_null value then ok tt else elim (text? value) [
    | none ↦ refused "A v2 lease requires an absolute path"
    | some s ↦
        if is_v2_absolute_scope s
        then elim (canonical_scope h s) [
          | ok _ ↦ ok tt
          | err _ ↦ refused "A v2 lease contains an invalid path"
        ]
        else refused "A v2 lease requires an absolute path"
  ]

  unfoldable pub check_binding : Json → Result (Unit {0})
  check_binding item = elim (text? (get "repository" item)) [
    | none ↦ refused "A v2 lease contains an invalid repository binding"
    | some _ ↦
        check_scope_field (get "canonical_path" item)
        >> check_scope_field (get "worktree_root" item)
  ]

  unfoldable pub check_bindings : List Json → Result (Unit {0})
  check_bindings [] = ok tt
  check_bindings (item ∷ items) = do check_binding item; check_bindings items

  -- A local scope; the source tests its type and its grammar in one condition.
  unfoldable pub check_local_scopes : List Json → Result (Unit {0})
  check_local_scopes [] = ok tt
  check_local_scopes (v ∷ vs) = do
    raise_if (is_null v) (value_error "A v2 lease requires absolute local_scopes")
    check_scope_field v
    check_local_scopes vs

  unfoldable pub check_release_time : Json → ℕ → ℕ → ℕ → Result (Unit {0})
  check_release_time authority released heartbeat expires = do
    raise_if (ltb released heartbeat) (value_error "released_utc must not precede heartbeat_utc")
    raise_if (is_text "NORMAL" authority && ltb expires released)
        (value_error "A NORMAL release cannot record a timestamp after expiry")
    raise_if (is_text "STALE_RECOVERY" authority && leb released expires)
        (value_error "A STALE_RECOVERY release must record a timestamp after expiry")

  unfoldable pub check_released : Json → ℕ → ℕ → Result (Unit {0})
  check_released lease heartbeat expires = do
    raise_if (not (at_least 2 (get "generation" lease)))
        (value_error "A RELEASED v2 lease generation must be at least 2")
    raise_if (is_null (get "released_utc" lease) || not (truthy (get "release_decision_ref" lease)))
        (value_error incomplete_message)
    raise_if (unhashable (get "release_authority" lease)) (type_error "unhashable type")
    raise_if (release_incomplete lease) (value_error incomplete_message)
    released ← timestamp "released_utc must be a canonical UTC timestamp" (get "released_utc" lease)
    check_release_time (get "release_authority" lease) released heartbeat expires
    raise_if (not (is_null (get "active_writer_repository" lease)))
        (value_error "A RELEASED lease must not have an active writer")

  unfoldable pub check_times : ℕ → ℕ → ℕ → Result (Unit {0})
  check_times created heartbeat expires = do
    raise_if (ltb heartbeat created) (value_error "heartbeat_utc must not precede created_utc")
    raise_if (leb expires heartbeat) (value_error "expires_utc must be later than heartbeat_utc")

  unfoldable pub check_state : Json → Result (Unit {0})
  check_state state = do
    raise_if (unhashable state) (type_error "unhashable type")
    raise_if (not (is_text "ACTIVE" state || is_text "RELEASED" state))
        (value_error "A v2 lease state must be ACTIVE or RELEASED")

  unfoldable pub check_repositories : Json → Result (List Text)
  check_repositories repositories = do
    raise_if (not (is_list repositories) || is_empty (elements repositories))
        (value_error "A v2 lease requires at least one repository binding")
    check_bindings (elements repositories)
    raise_if (leb 2 (length (serialized_writers (elements repositories))))
        (value_error "A v2 lease cannot contain more than one WRITE repository")
    ok (serialized_writers (elements repositories))

  unfoldable pub check_scopes : Json → Result (Unit {0})
  check_scopes lease = do
    local_scopes ← iterate (entry "local_scopes" lease)
    check_local_scopes local_scopes
    infrastructure_scopes ← iterate (entry "infrastructure_scopes" lease)
    raise_if (any infrastructure_invalid infrastructure_scopes) (
        value_error
          "A v2 lease requires non-empty infrastructure_scopes without surrounding whitespace")

  -- `_validate_v2_lifecycle`
  unfoldable pub validate_v2_lifecycle : Json → Result (Unit {0})
  validate_v2_lifecycle lease = do
    raise_if (generation_invalid (get "generation" lease))
        (value_error "A v2 lease generation must be a positive safe integer")
    created ← timestamp "created_utc must be a canonical UTC timestamp" (get "created_utc" lease)
    heartbeat ←
        timestamp "heartbeat_utc must be a canonical UTC timestamp" (get "heartbeat_utc" lease)
    expires ← timestamp "expires_utc must be a canonical UTC timestamp" (get "expires_utc" lease)
    check_times created heartbeat expires
    check_state (get "state" lease)
    writers ← check_repositories (get "repositories" lease)
    check_scopes lease
    if is_text "ACTIVE" (get "state" lease)
        then check_active lease writers
        else check_released lease heartbeat expires
