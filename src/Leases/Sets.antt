-- ===== src/Leases/Sets.antt =====
-- `_sets`: the resources that a lease record claims, with the identities that stand for them.
use coordination_loop_harnes.Base.{
  Bool, ◌&&◌, ◌||◌, not, Option, none, some, List, [], ◌∷◌, ◌++◌, String, Text, codes, text_eq,
  starts_with, strip, is_space, is_blank, is_empty, is_some, select, any, if◌then◌else◌, Result, ok,
  err, type_error,
}
use coordination_loop_harnes.Json.{Json, get, elements, is_list, is_object, is_text, text?}
use coordination_loop_harnes.Util.Host.{Host, is_nt, is_posix}
use coordination_loop_harnes.Util.Identity.{canonical_repo, canonical_repo_v2}
use coordination_loop_harnes.Util.Scope.{
  is_absolute_scope, canonical_scope, windows_device_scope_alias, replace_char,
}
use coordination_loop_harnes.Leases.Access.{
  Mode, read, write, Claims, lookup, insert, merge_each, text_leb,
}

abbrev pub v2_schema : String
v2_schema = "coord.repo-set-lease.v2"

abbrev pub v1_schema : String
v1_schema = "coord.repo-set-lease.v1"

abbrev pub is_v2 : Json → Bool
is_v2 lease = is_text v2_schema (get "schema_version" lease)

abbrev pub is_v1 : Json → Bool
is_v1 lease = is_text v1_schema (get "schema_version" lease)

-- `sorted(set(...))` of identities, by insertion.
abbrev pub insert_unique : Text → List Text → List Text
insert_unique s [] = s ∷ []
insert_unique s (t ∷ ts) =
    let rest = insert_unique s ts in
    if text_eq s t then t ∷ ts else if text_leb s t then s ∷ t ∷ ts else t ∷ rest

abbrev pub sorted_set : List Text → List Text
sorted_set [] = []
sorted_set (s ∷ ts) = insert_unique s (sorted_set ts)

abbrev pub kept : Result Text → List Text
kept (ok s) = s ∷ []
kept (err e) = []

pub record Sets : Type 0 where
  pub repository : Claims
  pub path : Claims
  pub branch : Claims
  pub infrastructure : Claims
  pub coordination_repository : Claims

-- The text of a string that is not blank.
abbrev pub visible : Json → Option Text
visible v = elim (text? v) [ none ↦ none | some s ↦ if is_blank s then none else some s ]

module _ (h : Host) where
  -- `_repository_overlap_identities`
  unfoldable pub repository_overlap_identities : Bool → Text → List Text
  repository_overlap_identities include_v2_alias value =
      sorted_set
        (canonical_repo h value ∷ (if include_v2_alias then canonical_repo_v2 h value ∷ [] else []))

  -- The spelling that the host's own root gives a path of the other dialect.
  host_alias : Text → List Text
  host_alias raw =
      if is_nt h.os && starts_with raw (codes "/") && not (starts_with raw (codes "//"))
      then elim (h.resolve raw) [ ok r ↦ h.casefold (replace_char b'\\' b'/' r) ∷ [] | err _ ↦ [] ]
      else if is_posix h.os && starts_with raw (codes "//")
      then kept (h.resolve raw)
      else []

  device_alias : Text → List Text
  device_alias raw = elim (windows_device_scope_alias h raw) [
    | none ↦ []
    | some alias ↦ kept (canonical_scope h alias)
  ]

  -- `_scope_overlap_identities`
  unfoldable pub scope_overlap_identities : Bool → Text → List Text
  unfolding host_alias device_alias
  scope_overlap_identities require_absolute value =
      let raw = strip is_space value in
      if require_absolute && not (is_absolute_scope h raw)
      then []
      else select (λ s. not (is_empty s))
          (sorted_set (kept (canonical_scope h value) ++ (device_alias raw ++ host_alias raw)))

  -- `item.get("mode") if shared_access else "WRITE"`, and WRITE for any other mode
  unfoldable pub item_mode : Bool → Json → Mode
  item_mode shared item = if shared && is_text "READ" (get "mode" item) then read else write

  -- `mode not in {...}` hashes the mode, so a list or a dictionary there raises `TypeError`.
  unfoldable pub unhashable_mode : Bool → Json → Bool
  unhashable_mode shared item =
      shared
      && is_object item
      && is_some (text? (get "repository" item))
      && (is_list (get "mode" item) || is_object (get "mode" item))

  abbrev pub with_suffix : Text → List Text → List Text
  with_suffix s [] = []
  with_suffix s (v ∷ vs) = (v ++ s) ∷ with_suffix s vs

  unfoldable pub claim_path : Bool → Mode → Json → Claims → Claims
  claim_path require_absolute mode value paths = elim (visible value) [
    | none ↦ paths
    | some s ↦ merge_each paths (scope_overlap_identities require_absolute s) mode
  ]

  unfoldable pub claim_branch : List Text → Mode → Json → Claims → Claims
  claim_branch identities mode value branches = elim (visible value) [
    | none ↦ branches
    | some s ↦ merge_each branches (with_suffix (b':' ∷ h.casefold s) identities) mode
  ]

  -- The body of the loop over the repositories, for an item whose name is a text.
  unfoldable pub claim_item : Bool → Bool → Json → Text → Sets → Sets
  claim_item shared require_absolute item name sets =
      let identities = repository_overlap_identities shared name in
      let mode = item_mode shared item in
      record sets {
        repository = merge_each sets.repository identities mode;
        path =
            claim_path require_absolute mode (get "worktree_root" item)
              (claim_path require_absolute mode (get "canonical_path" item) sets.path);
        branch = claim_branch identities mode (get "branch_ref" item) sets.branch;
      }

  unfoldable pub claim_items : Bool → Bool → List Json → Sets → Sets
  claim_items shared require_absolute [] sets = sets
  claim_items shared require_absolute (item ∷ items) sets =
      claim_items shared require_absolute items (elim (text? (get "repository" item)) [
        | none ↦ sets
        | some name ↦
            if is_object item then claim_item shared require_absolute item name sets else sets
      ])

  unfoldable pub claim_scopes : Bool → List Json → Claims → Claims
  claim_scopes require_absolute [] paths = paths
  claim_scopes require_absolute (v ∷ vs) paths =
      claim_scopes require_absolute vs (claim_path require_absolute write v paths)

  unfoldable pub claim_infrastructure : List Json → Claims → Claims
  claim_infrastructure [] claims = claims
  claim_infrastructure (v ∷ vs) claims = claim_infrastructure vs (elim (visible v) [
    | none ↦ claims
    | some s ↦ insert (h.casefold (strip is_space s)) write claims
  ])

  abbrev or_read : Option Mode → Mode
  or_read none = read
  or_read (some m) = m

  unfoldable pub claim_coordination : Bool → Claims → List Text → Claims → Claims
  claim_coordination shared repositories [] claims = claims
  claim_coordination shared repositories (v ∷ vs) claims =
      claim_coordination shared repositories vs
        (insert v (if shared then or_read (lookup v repositories) else write) claims)

  -- The claims of a record whose modes can all be hashed.
  unfoldable pub claimed : Json → Sets
  unfolding claim_coordination
  claimed lease =
      let shared = is_v2 lease in
      let require_absolute = not (is_v1 lease) in
      let sets = claim_items shared require_absolute (elements (get "repositories" lease)) (record {
        repository = [];
        path = [];
        branch = [];
        infrastructure = [];
        coordination_repository = [];
      }) in
      record sets {
        path = claim_scopes require_absolute (elements (get "local_scopes" lease)) sets.path;
        infrastructure = claim_infrastructure (elements (get "infrastructure_scopes" lease)) [];
        coordination_repository = elim (visible (get "coordination_repository" lease)) [
          | none ↦ []
          | some name ↦
              claim_coordination shared sets.repository (repository_overlap_identities shared name)
                []
        ];
      }

  -- `_sets`
  unfoldable pub sets : Json → Result Sets
  sets lease =
      if any (unhashable_mode (is_v2 lease)) (elements (get "repositories" lease))
      then err (type_error "unhashable type")
      else ok (claimed lease)
