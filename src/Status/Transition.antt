-- ===== src/Status/Transition.antt =====
-- `transition_status`: what it reads, decides and writes.
use coordination_loop_harnes.Base.{
  ℕ, zero, suc, ◌^◌, ◌/◌, Bool, true, false, ◌&&◌, ◌||◌, not, Option, none, some, List, [], ◌∷◌,
  ◌++◌, String, Text, codes, text_eq, drop_prefix, any, is_empty, if◌then◌else◌, Result, ok, err,
  value_error, type_error, runtime_error, raise_if, ◌>>=◌, ◌>>◌,
}
use coordination_loop_harnes.Base.Int.{ℤ, pos, negsuc, ◌+ℤ◌}
use coordination_loop_harnes.Json.{
  Json, null, str, arr, obj, bool, int, real, Items, nil, cons, end, field, get, put, text?,
  is_text, json_eq, of_bool,
}
use coordination_loop_harnes.Util.Host.{Host}
use coordination_loop_harnes.Util.Safe.{is_safe_id}
use coordination_loop_harnes.Util.Scope.{replace_char}
use coordination_loop_harnes.Util.Validation.{validate_document}
use coordination_loop_harnes.Util.Disk.{Disk, load_json, ensure_within, ensure_within_root}
use coordination_loop_harnes.Decisions.Verify.{is_accepted, verify_decision}
use coordination_loop_harnes.Leases.Lifecycle.{entry, iterate}

-- `LEGAL_TRANSITIONS`
abbrev pub legal_transitions : List (String × List String)
legal_transitions =
    ("PLANNED", "ADMITTED" ∷ "ABORTED" ∷ [])
    ∷ ("ADMITTED", "RUNNING" ∷ "ABORTED" ∷ [])
    ∷ ("RUNNING", "BLOCKED" ∷ "OWNER_ACTION_REQUIRED" ∷ "COMPLETE" ∷ "ABORTED" ∷ [])
    ∷ ("BLOCKED", "RUNNING" ∷ "OWNER_ACTION_REQUIRED" ∷ "ABORTED" ∷ [])
    ∷ ("OWNER_ACTION_REQUIRED", "RUNNING" ∷ "ABORTED" ∷ [])
    ∷ ("COMPLETE", [])
    ∷ ("ABORTED", [])
    ∷ []

abbrev pub is_one_of : List String → Text → Bool
is_one_of names t = any (λ s. text_eq (codes s) t) names

-- `target in LEGAL_TRANSITIONS.get(current, set())`
unfoldable pub is_legal : List (String × List String) → Text → Text → Bool
is_legal [] current target = false
is_legal ((from, targets) ∷ table) current target =
    let rest = is_legal table current target in
    if text_eq (codes from) current then is_one_of targets target else rest

-- `PRIVILEGED.get((current, target))`
unfoldable pub privileged : Text → Text → Option String
privileged current target =
    if text_eq (codes "PLANNED") current && text_eq (codes "ADMITTED") target
    then some "status:admit"
    else if (text_eq (codes "BLOCKED") current || text_eq (codes "OWNER_ACTION_REQUIRED") current)
        && text_eq (codes "RUNNING") target
    then some "status:resume"
    else none

-- `str(state)`, as far as it can be a key of the table: a value that is no text prints as none of them.
abbrev pub state_text : Json → Text
state_text state = elim (text? state) [ none ↦ [] | some s ↦ s ]

abbrev pub negated : ℕ → ℤ
negated zero = pos 0
negated (suc n) = negsuc n

abbrev pub or_value_error {ℓ} : {A : Type ℓ} → Option A → Result A
or_value_error none = err (value_error "invalid literal for int()")
or_value_error (some a) = ok a

-- `int(value)`
unfoldable pub to_int : Host → Json → Result ℤ
to_int h (int z) = ok z
to_int h (bool b) = ok (of_bool b)
to_int h (real (pos n) e) = ok (pos (n / 2 ^ e))
to_int h (real (negsuc n) e) = ok (negated (suc n / 2 ^ e))
to_int h (str s) = or_value_error (h.int_of_text s)
to_int h null = err (type_error "int() argument")
to_int h (arr _) = err (type_error "int() argument")
to_int h (obj _) = err (type_error "int() argument")

abbrev pub or_default {ℓ} : {A : Type ℓ} → Option A → A → A
or_default none a = a
or_default (some b) a = b

abbrev pub items_of : List Json → Items
items_of [] = nil
items_of (v ∷ vs) = cons v (items_of vs)

-- The record that a transition appends to the history.
unfoldable pub history_entry : Text → Text → ℤ → Text → Text → Json → Json
history_entry current target generation timestamp checkpoint decision_ref = obj (
    field "from" (str current) (
      field "to" (str target) (
        field "generation" (int (generation +ℤ pos 1)) (
          field "timestamp" (str timestamp)
            (field "checkpoint" (str checkpoint) (field "decision_ref" decision_ref end))))))

-- `status.update({...})`
unfoldable pub update_status : Json → Text → ℤ → ℤ → Text → Text → List Json → Json
update_status status target generation revision checkpoint timestamp history =
    put "history" (arr (items_of history)) (
      put "updated_utc" (str timestamp) (
        put "checkpoint" (str checkpoint) (
          put "revision" (int (revision +ℤ pos 1))
            (put "generation" (int (generation +ℤ pos 1)) (put "state" (str target) status)))))

-- `decision_path.relative_to(root).as_posix()`
unfoldable pub posix_ref : Disk → Text → Text
posix_ref d path = replace_char d.separator b'/' (drop_prefix path (d.root ++ (d.separator ∷ [])))

-- The path of `status.json` of a run.
unfoldable pub status_path : Disk → Text → Result Text
status_path d run_id = do
  run_root ← ensure_within d true (d.join (d.join d.root (codes "runs")) run_id)
  ensure_within_root d run_root true (d.join run_root (codes "status.json"))

-- The decision for a transition that needs one, as the history records it.
unfoldable pub authorize : Host → Disk → Text → Option String → Option Text → Result Json
authorize h d run_id none decision_path = ok null
authorize h d run_id (some action) none = err (value_error "requires decision action")
authorize h d run_id (some action) (some path) = do
  resolved ← ensure_within d true path
  verification ← verify_decision h d resolved (str run_id) action null null false
  raise_if (not (is_accepted verification)) (value_error "Decision verification failed")
  ok (str (posix_ref d resolved))

-- The tests on the status that was read.
unfoldable pub check_status : Json → Text → ℤ → Result (Unit {0})
check_status status target expected_generation = do
  raise_if (not (is_text "coord.status.v2" (get "schema_version" status)))
      (value_error "status transition requires coord.status.v2")
  raise_if (not (is_legal legal_transitions (state_text (get "state" status)) target))
      (value_error "Illegal status transition")
  raise_if (not (json_eq (get "generation" status) (int expected_generation)))
      (runtime_error "Status generation mismatch")

-- `transition_status`: the path and the document that it writes there.
unfoldable pub transition_status :
    Host → Disk → Text → Text → ℤ → Text → Text → Option Text → Result (Text × Json)
transition_status h d run_id target expected_generation timestamp checkpoint decision_path = do
  raise_if (not (is_safe_id run_id)) (value_error "Invalid run_id")
  path ← status_path d run_id
  status ← load_json d path
  check_status status (h.upper target) expected_generation
  decision_ref ←
      authorize h d run_id (privileged (state_text (get "state" status)) (h.upper target))
        decision_path
  history ← iterate (entry "history" status)
  revision ← to_int h (or_default (entry "revision" status) (int expected_generation))
  let document =
      update_status status (h.upper target) expected_generation revision checkpoint timestamp (
        history
        ++ (history_entry (state_text (get "state" status)) (h.upper target) expected_generation
              timestamp checkpoint decision_ref
            ∷ []))
  errors ← validate_document h document
  raise_if (not (is_empty errors)) (value_error "Updated status validation failed")
  ok (path, document)
