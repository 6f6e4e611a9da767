-- ===== src/Leases/Validate.antt =====
-- `_validate_lease`, with the exception for a coordination repository that writes itself.
use coordination_loop_harnes.Base.{
  Bool, true, false, ◌&&◌, ◌||◌, not, none, some, List, [], ◌∷◌, map, Text, text_eq, is_blank,
  is_empty, any, all, select, if◌then◌else◌, Result, ok, err, value_error, type_error, raise_if,
  ◌>>=◌, ◌>>◌,
}
use coordination_loop_harnes.Json.{Json, get, elements, is_null, is_text, is_object, text?, truthy}
use coordination_loop_harnes.Util.Host.{Host}
use coordination_loop_harnes.Util.Identity.{canonical_repo, canonical_repo_v2}
use coordination_loop_harnes.Util.Scope.{is_native_absolute_scope}
use coordination_loop_harnes.Util.Validation.{validate_document}
use coordination_loop_harnes.Leases.Sets.{is_v2}
use coordination_loop_harnes.Leases.Lifecycle.{validate_v2_lifecycle, is_write_item}

-- A value that the source uses as a text; anything else raises.
abbrev pub text_of : Json → Result Text
text_of v = elim (text? v) [ none ↦ err (type_error "a text is needed") | some s ↦ ok s ]

-- An item of `repositories` with its canonical identity.
abbrev pub Identified : Type 0
Identified = Text × Json

abbrev pub identity_of : Identified → Text
identity_of p = p.0

abbrev pub is_writer : Identified → Bool
is_writer p = is_write_item p.1

abbrev pub writers_of : List Identified → List Text
writers_of ps = map identity_of (select is_writer ps)

abbrev pub texts_eq : List Text → List Text → Bool
texts_eq [] [] = true
texts_eq [] (_ ∷ _) = false
texts_eq (_ ∷ _) [] = false
texts_eq (s ∷ ss) (t ∷ ts) = text_eq s t && texts_eq ss ts

abbrev pub text_in : Text → List Text → Bool
text_in s ts = any (λ t. text_eq s t) ts

-- `len(xs) == len(set(xs))`
unfoldable pub texts_distinct : List Text → Bool
texts_distinct [] = true
texts_distinct (s ∷ ss) = not (text_in s ss) && texts_distinct ss

module _ (h : Host) where
  abbrev pub canonicalizer : Json → Text → Text
  canonicalizer lease name = if is_v2 lease then canonical_repo_v2 h name else canonical_repo h name

  -- `[canonicalizer(item["repository"]) for item in repositories]`, beside the items
  unfoldable pub identified : Json → List Json → Result (List Identified)
  identified lease [] = ok []
  identified lease (item ∷ items) = do
    name ← text_of (get "repository" item)
    rest ← identified lease items
    ok ((canonicalizer lease name, item) ∷ rest)

  -- `active_writer is None or canonicalizer(active_writer) != identity`
  unfoldable pub writer_differs : Json → Text → Result Bool
  writer_differs lease identity =
      if is_null (get "active_writer_repository" lease)
      then ok true
      else text_of (get "active_writer_repository" lease) >>= λ name.
          ok (not (text_eq (canonicalizer lease name) identity))

  unfoldable pub entries_at : Text → List Identified → List Identified
  entries_at coordination repositories =
      select (λ p. text_eq (identity_of p) coordination) repositories

  abbrev binding_missing : Json → Bool
  binding_missing v = elim (text? v) [ none ↦ true | some s ↦ is_blank s ]

  unfoldable pub bindings_missing : Json → Bool
  bindings_missing item =
      binding_missing (get "canonical_path" item)
      || binding_missing (get "worktree_root" item)
      || binding_missing (get "exact_sha" item)

  unfoldable pub reads_elsewhere : Text → List Identified → Bool
  reads_elsewhere coordination repositories =
      all (λ p. text_eq (identity_of p) coordination || is_text "READ" (get "mode" p.1))
        repositories

  -- The tests after the one on `active_writer_repository`.
  unfoldable pub check_sole_writer : Json → List Identified → Text → Json → Result (Unit {0})
  check_sole_writer lease repositories coordination item = do
    raise_if (not (texts_eq (writers_of repositories) (coordination ∷ []))) (
        value_error
          "Coordination self-write requires the coordination repository to be the sole WRITE repository")
    raise_if (not (reads_elsewhere coordination repositories))
        (value_error "Coordination self-write requires every other repository to be READ")
    raise_if (bindings_missing item)
        (value_error "Coordination self-write requires exact coordination repository binding")
    raise_if (not (is_text "ACTIVE" (get "state" lease)))
        (value_error "Coordination self-write requires state=ACTIVE")

  unfoldable pub check_self_write_entry : Json → List Identified → Text → Json → Result (Unit {0})
  check_self_write_entry lease repositories coordination item = do
    raise_if (not (is_write_item item))
        (value_error "Coordination self-write requires the coordination repository to be WRITE")
    differs ← writer_differs lease coordination
    raise_if differs (
        value_error
          "Coordination self-write requires active_writer_repository to match coordination_repository")
    check_sole_writer lease repositories coordination item

  -- `_validate_coordination_self_write`
  unfoldable pub validate_coordination_self_write :
      Json → List Identified → Text → Result (Unit {0})
  validate_coordination_self_write lease repositories coordination =
      elim (entries_at coordination repositories) [
        | [] ↦ err (
            value_error
              "Coordination self-write requires exactly one coordination repository entry")
        | p ∷ ps ↦ elim ps [
          | [] ↦ check_self_write_entry lease repositories coordination p.1
          | _ ∷ _ ↦ err (
              value_error
                "Coordination self-write requires exactly one coordination repository entry")
        ]
      ]

  -- `_is_coordination_self_write`
  unfoldable pub is_coordination_self_write : Json → Bool
  is_coordination_self_write lease = elim (text? (get "coordination_repository" lease)) [
    | none ↦ false
    | some coordination ↦
        any
          (λ item.
            is_object item
            && elim (text? (get "repository" item)) [
              | none ↦ false
              | some name ↦ text_eq (canonicalizer lease name) (canonicalizer lease coordination)
            ]
            && is_write_item item)
          (elements (get "repositories" lease))
  ]

  -- A path field that is not absolute on this host.
  unfoldable pub check_native : Json → Result (Unit {0})
  check_native v =
      if is_null v
      then ok tt
      else text_of v >>= λ s.
          raise_if (not (is_native_absolute_scope h s))
            (value_error "A v2 lease requires a host-native absolute path")

  unfoldable pub check_native_items : List Json → Result (Unit {0})
  check_native_items [] = ok tt
  check_native_items (item ∷ items) = do
    check_native (get "canonical_path" item)
    check_native (get "worktree_root" item)
    check_native_items items

  unfoldable pub check_native_scopes : List Json → Result (Unit {0})
  check_native_scopes [] = ok tt
  check_native_scopes (v ∷ vs) = do
    s ← text_of v
    raise_if (not (is_native_absolute_scope h s))
        (value_error "A v2 lease requires host-native absolute local_scopes")
    check_native_scopes vs

  unfoldable pub check_v2 : Json → Bool → Result (Unit {0})
  check_v2 lease require_native_paths =
      if is_v2 lease
      then validate_v2_lifecycle h lease
        >> (if require_native_paths
            then check_native_items (elements (get "repositories" lease))
              >> check_native_scopes (elements (get "local_scopes" lease))
            else ok tt)
      else ok tt

  -- What a record may say of its coordination repository.
  unfoldable pub check_coordination : Json → Bool → List Identified → Text → Result (Unit {0})
  check_coordination lease allow_coordination_self_write repositories coordination =
      if text_in coordination (map identity_of repositories)
      then raise_if (not allow_coordination_self_write)
          (value_error "The coordination repository cannot also be a product repository")
        >> (if is_text "ACTIVE" (get "state" lease)
            then validate_coordination_self_write lease repositories coordination
            else raise_if (not (texts_eq (writers_of repositories) (coordination ∷ []))) (
                value_error
                  "A released coordination self-write lease must preserve its sole WRITE identity"))
      else ok tt

  unfoldable pub check_v1_writer : Json → List Text → Result (Unit {0})
  check_v1_writer lease [] = raise_if (not (is_null (get "active_writer_repository" lease))) (
      value_error
        "ACTIVE leases require exactly one WRITE repository matching active_writer_repository")
  check_v1_writer lease (w ∷ ws) =
      if is_null (get "active_writer_repository" lease)
      then err (value_error "A lease with no active writer must not contain WRITE repositories")
      else if not (is_empty ws)
      then err (
          value_error
            "ACTIVE leases require exactly one WRITE repository matching active_writer_repository")
      else writer_differs lease w >>= λ differs. raise_if differs (
          value_error
            "ACTIVE leases require exactly one WRITE repository matching active_writer_repository")

  -- The tests on a record of any other schema than v2.
  unfoldable pub check_other_schema : Json → List Text → Result (Unit {0})
  check_other_schema lease writers =
      if is_v2 lease
      then ok tt
      else if is_text "ACTIVE" (get "state" lease)
      then raise_if (not (truthy (get "decision_ref" lease)))
          (value_error "An ACTIVE lease requires decision_ref")
        >> check_v1_writer lease writers
      else raise_if (not (is_null (get "active_writer_repository" lease)))
          (value_error "A RELEASED lease must not have an active writer")

  -- `_validate_lease`
  unfoldable pub validate_lease : Json → Bool → Bool → Result (Unit {0})
  validate_lease lease allow_coordination_self_write require_native_paths = do
    errors ← validate_document h lease
    raise_if (not (is_empty errors)) (value_error "Lease validation failed")
    check_v2 lease require_native_paths
    repositories ← identified lease (elements (get "repositories" lease))
    raise_if (not (texts_distinct (map identity_of repositories)))
        (value_error "Lease repositories must be unique")
    name ← text_of (get "coordination_repository" lease)
    check_coordination lease allow_coordination_self_write repositories (canonicalizer lease name)
    check_other_schema lease (writers_of repositories)
