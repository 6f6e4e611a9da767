-- ===== src/Leases/Legacy.antt =====
-- `_legacy_record_is_valid` and the terminal form of a v1 record.
use coordination_loop_harnes.Base.{
  ℕ, ◌==◌, Bool, true, false, ◌&&◌, ◌||◌, not, Option, none, some, List, [], ◌∷◌, map, String, Text,
  text_eq, str_in, is_space, is_hex, is_empty, is_some, all, length, if◌then◌else◌, Result, ok, err,
  type_error, ◌>>=◌, decimal_value,
}
use coordination_loop_harnes.Json.{
  Json, Fields, end, field, find, get, elements, is_null, is_text, is_list, text?, fields?,
}
use coordination_loop_harnes.Util.Host.{Host}
use coordination_loop_harnes.Util.Safe.{is_safe_id, at_least}
use coordination_loop_harnes.Util.Identity.{canonical_repo}
use coordination_loop_harnes.Leases.Lifecycle.{unhashable}
use coordination_loop_harnes.Leases.Validate.{
  Identified, identity_of, writers_of, texts_eq, text_in, texts_distinct,
}

abbrev required_keys : List String
required_keys =
    "schema_version" ∷ "lease_id" ∷ "run_id" ∷ "state" ∷ "generation" ∷ "created_utc" ∷ "owner"
    ∷ "coordination_repository" ∷ "repositories" ∷ "local_scopes" ∷ "infrastructure_scopes"
    ∷ "active_writer_repository" ∷ "decision_ref" ∷ []

abbrev allowed_keys : List String
allowed_keys = "released_utc" ∷ "outcome_ref" ∷ required_keys

abbrev repository_keys : List String
repository_keys = "repository" ∷ "mode" ∷ "canonical_path" ∷ "worktree_root" ∷ "exact_sha" ∷ []

abbrev has_keys : List String → Fields → Bool
has_keys ks fs = all (λ k. is_some (find k fs)) ks

abbrev only_keys : List String → Fields → Bool
only_keys ks end = true
only_keys ks (field k v fs) = str_in k ks && only_keys ks fs

abbrev holds_text : (Text → Bool) → Json → Bool
holds_text p v = elim (text? v) [ none ↦ false | some s ↦ p s ]

abbrev text_or_null : Json → Bool
text_or_null v = is_null v || is_some (text? v)

-- `[^/\s]+/[^/\s]+`
abbrev is_part_char : ℕ → Bool
is_part_char c = not (c == b'/') && not (is_space c)

abbrev is_part : Text → Bool
is_part s = not (is_empty s) && all is_part_char s

abbrev second_part : Text → Bool
second_part [] = false
second_part (c ∷ s) =
    let rest = second_part s in if c == b'/' then is_part s else is_part_char c && rest

-- `_repository_name_is_structural`
unfoldable pub repository_name_is_structural : Json → Bool
repository_name_is_structural v = elim (text? v) [
  | none ↦ false
  | some [] ↦ false
  | some (c ∷ s) ↦ is_part_char c && second_part s
]

-- `^\d{4}-\d{2}-\d{2}T`
abbrev date_pattern : List (Option ℕ)
date_pattern =
    none ∷ none ∷ none ∷ none ∷ some b'-' ∷ none ∷ none ∷ some b'-' ∷ none ∷ none ∷ some b'T' ∷ []

abbrev matches : List (Option ℕ) → Text → Bool
matches [] s = true
matches (_ ∷ _) [] = false
matches (none ∷ ps) (c ∷ s) = is_some (decimal_value c) && matches ps s
matches (some b ∷ ps) (c ∷ s) = c == b && matches ps s

unfoldable pub is_dated : Json → Bool
is_dated v = holds_text (matches date_pattern) v

unfoldable pub header_is_valid : Json → Bool
header_is_valid lease =
    (is_text "ACTIVE" (get "state" lease) || is_text "RELEASED" (get "state" lease))
    && at_least 1 (get "generation" lease)
    && holds_text (λ s. not (is_empty s)) (get "owner" lease)
    && is_dated (get "created_utc" lease)
    && repository_name_is_structural (get "coordination_repository" lease)
    && text_or_null (get "decision_ref" lease)
    && text_or_null (get "released_utc" lease)
    && text_or_null (get "outcome_ref" lease)

abbrev is_sha : Text → Bool
is_sha s = length s == 40 && all is_hex s

abbrev mode_known : Json → Bool
mode_known mode = is_text "READ" mode || is_text "WRITE" mode

-- The tests on an item before the one on its mode, and those after it.
unfoldable pub item_shape_is_valid : Json → Bool
item_shape_is_valid item = elim (fields? item) [
  | none ↦ false
  | some fs ↦
      has_keys ("repository" ∷ "mode" ∷ []) fs
      && only_keys repository_keys fs
      && repository_name_is_structural (get "repository" item)
]

unfoldable pub item_fields_are_valid : Json → Bool
item_fields_are_valid item =
    text_or_null (get "canonical_path" item)
    && text_or_null (get "worktree_root" item)
    && (is_null (get "exact_sha" item) || holds_text is_sha (get "exact_sha" item))

abbrev text_list_is_valid : Json → Bool
text_list_is_valid v = is_list v && all (λ x. is_some (text? x)) (elements v)

abbrev texts_of : List Json → List Text
texts_of [] = []
texts_of (v ∷ vs) = let rest = texts_of vs in elim (text? v) [ none ↦ rest | some s ↦ s ∷ rest ]

unfoldable pub scopes_are_valid : Json → Bool
scopes_are_valid v = text_list_is_valid v && texts_distinct (texts_of (elements v))

abbrev cons_item : Identified → Option (List Identified) → Option (List Identified)
cons_item p none = none
cons_item p (some ps) = some (p ∷ ps)

abbrev ids_are_safe : Json → Bool
ids_are_safe lease =
    holds_text is_safe_id (get "lease_id" lease) && holds_text is_safe_id (get "run_id" lease)

module _ (h : Host) where
  -- The loop over the items: `none` where it returns `False`.
  unfoldable pub legacy_items : List Json → Result (Option (List Identified))
  legacy_items [] = ok (some [])
  legacy_items (item ∷ items) =
      let rest = legacy_items items in
      if not (item_shape_is_valid item)
      then ok none
      else if unhashable (get "mode" item)
      then err (type_error "unhashable type")
      else if not (mode_known (get "mode" item)) || not (item_fields_are_valid item)
      then ok none
      else elim (text? (get "repository" item)) [
        | none ↦ ok none
        | some name ↦ rest >>= λ o. ok (cons_item (canonical_repo h name, item) o)
      ]

  abbrev legacy_writer_matches : Json → List Text → Bool
  legacy_writer_matches active_writer [] = false
  legacy_writer_matches active_writer (w ∷ []) =
      holds_text (λ s. text_eq (canonical_repo h s) w) active_writer
  legacy_writer_matches active_writer (w ∷ _ ∷ _) = false

  -- The tests on who writes.
  unfoldable pub legacy_writer_is_valid : Json → List Identified → Bool
  legacy_writer_is_valid lease repositories =
      if is_text "ACTIVE" (get "state" lease)
      then holds_text (λ s. not (is_empty s)) (get "decision_ref" lease)
        && (if is_null (get "active_writer_repository" lease)
            then is_empty (writers_of repositories)
            else legacy_writer_matches (get "active_writer_repository" lease)
                (writers_of repositories))
        && holds_text
            (λ c.
              not (text_in (canonical_repo h c) (map identity_of repositories))
              || texts_eq (writers_of repositories) (canonical_repo h c ∷ []))
            (get "coordination_repository" lease)
      else is_null (get "active_writer_repository" lease)

  unfoldable pub legacy_body_is_valid : Json → Option (List Identified) → Bool
  legacy_body_is_valid lease none = false
  legacy_body_is_valid lease (some repositories) =
      texts_distinct (map identity_of repositories)
      && legacy_writer_is_valid lease repositories
      && scopes_are_valid (get "local_scopes" lease)
      && scopes_are_valid (get "infrastructure_scopes" lease)

  -- `_legacy_record_is_valid`
  unfoldable pub legacy_record_is_valid : Json → Result Bool
  legacy_record_is_valid lease = elim (fields? lease) [
    | none ↦ ok false
    | some fs ↦
        if not (has_keys required_keys fs)
          || not (only_keys allowed_keys fs)
          || not (ids_are_safe lease)
        then ok false
        else if unhashable (get "state" lease)
        then err (type_error "unhashable type")
        else if not (header_is_valid lease) || is_empty (elements (get "repositories" lease))
        then ok false
        else legacy_items (elements (get "repositories" lease)) >>= λ o.
            ok (legacy_body_is_valid lease o)
  ]

  abbrev filled : Json → Bool
  filled v = holds_text (λ s. not (is_empty s)) v

  -- `_legacy_terminal_record_is_valid`
  unfoldable pub legacy_terminal_record_is_valid : Json → Result Bool
  legacy_terminal_record_is_valid lease = legacy_record_is_valid lease >>= λ valid. ok (
      valid
      && is_text "RELEASED" (get "state" lease)
      && filled (get "released_utc" lease)
      && filled (get "outcome_ref" lease))
