-- ===== src/Leases/Scope.antt =====
-- The canonical entries of a decision's scope, and `_validate_decision_scope`.
use coordination_loop_harnes.Base.{
  ℕ, zero, suc, ◌==◌, leb, Bool, true, false, ◌&&◌, ◌||◌, not, Option, none, some, List, [], ◌∷◌,
  ◌++◌, Text, codes, text_eq, starts_with, strip, is_space, is_digit, is_empty, ends_with, any, all,
  if◌then◌else◌, Result, ok, err, value_error, raise_if, caught, ◌>>=◌, ◌>>◌,
}
use coordination_loop_harnes.Json.{Json, str, elements, is_list, text?, json_eq}
use coordination_loop_harnes.Util.Host.{Host}
use coordination_loop_harnes.Util.Identity.{canonical_repo_v2}
use coordination_loop_harnes.Util.Scope.{is_v2_absolute_scope, is_absolute_scope, canonical_scope}
use coordination_loop_harnes.Util.Canonical.{lease_candidate_sha256}
use coordination_loop_harnes.Decisions.Verify.{Report}
use coordination_loop_harnes.Leases.Access.{Claims}
use coordination_loop_harnes.Leases.Sets.{Sets, sets, is_v2}
use coordination_loop_harnes.Leases.Validate.{text_in, texts_eq, texts_distinct}

-- `[a-z0-9]` and `[a-z0-9._-]`
abbrev is_lower : ℕ → Bool
is_lower c = (leb b'a' c && leb c b'z') || is_digit c

abbrev is_name_char : ℕ → Bool
is_name_char c = is_lower c || c == b'.' || c == b'_' || c == b'-'

abbrev is_name : Text → Bool
is_name [] = false
is_name (c ∷ s) = is_lower c && all is_name_char s

abbrev owner_rest : Text → Bool
owner_rest [] = false
owner_rest (c ∷ s) =
    let rest = owner_rest s in if c == b'/' then is_name s else is_name_char c && rest

-- `[a-z0-9][a-z0-9._-]*/[a-z0-9][a-z0-9._-]*`
unfoldable pub is_owner_name : Text → Bool
is_owner_name [] = false
is_owner_name (c ∷ s) = is_lower c && owner_rest s

-- `s.find(marker)`
abbrev index_of : Text → Text → Option ℕ
index_of marker [] = if is_empty marker then some 0 else none
index_of marker (c ∷ s) =
    let rest = index_of marker s in
    if starts_with (c ∷ s) marker then some 0 else elim rest [ none ↦ none | some n ↦ some (suc n) ]

abbrev first : ℕ → Text → Text
first zero s = []
first (suc n) [] = []
first (suc n) (c ∷ s) = c ∷ first n s

abbrev after : ℕ → Text → Text
after zero s = s
after (suc n) [] = []
after (suc n) (c ∷ s) = after n s

abbrev count : ℕ → Text → ℕ
count c [] = 0
count c (b ∷ s) = let rest = count c s in if b == c then suc rest else rest

-- The keys of one category of claims.
abbrev keys : Claims → List Text
keys [] = []
keys ((s, m) ∷ c) = s ∷ keys c

abbrev pub required_resources : Sets → List Text
required_resources s =
    keys s.repository
    ++ (keys s.path ++ (keys s.branch ++ (keys s.infrastructure ++ keys s.coordination_repository)))

abbrev scope_invalid : Json → Bool
scope_invalid v = elim (text? v) [
  | none ↦ true
  | some s ↦ is_empty s || not (text_eq s (strip is_space s))
]

-- The texts of a list all of whose entries are texts.
abbrev texts : List Json → List Text
texts [] = []
texts (v ∷ vs) = elim (text? v) [ none ↦ texts vs | some s ↦ s ∷ texts vs ]

module _ (h : Host) where
  -- `_canonical_v2_repository_scope`
  unfoldable pub canonical_v2_repository_scope : Text → Result Text
  canonical_v2_repository_scope value =
      let canonical = canonical_repo_v2 h value in
      if not (is_owner_name canonical) || ends_with canonical (codes ".git")
      then err (value_error "Lease decision repository scope is not canonical owner/name syntax")
      else ok canonical

  -- The identity, or the folded text where the prefix is no repository.
  or_folded : Text → Text → Result Text → Result Text
  or_folded scope suffix r =
      caught r >>= λ o. ok (elim o [ none ↦ h.casefold scope | some name ↦ name ++ suffix ])

  unfoldable pub branch_entry : Text → ℕ → Result Text
  unfolding or_folded
  branch_entry scope n =
      or_folded scope (b':' ∷ h.casefold (after (suc n) scope))
        (canonical_v2_repository_scope (first n scope))

  unfoldable pub opaque_entry : Text → Result Text
  unfolding or_folded
  opaque_entry scope =
      if any (λ c. c == b':') scope
      then ok (h.casefold scope)
      else if count b'/' scope == 1
      then or_folded scope [] (canonical_v2_repository_scope scope)
      else ok (h.casefold scope)

  -- `_canonical_decision_scope_entry`
  unfoldable pub canonical_decision_scope_entry : Text → Result Text
  canonical_decision_scope_entry scope =
      if is_v2_absolute_scope scope
      then canonical_scope h scope
      else if is_absolute_scope h scope
      then err (value_error "Lease decision path scope is not valid v2 absolute-path syntax")
      else elim (index_of (codes ":refs/heads/") (h.casefold scope)) [
        | none ↦ opaque_entry scope
        | some zero ↦ opaque_entry scope
        | some (suc n) ↦ branch_entry scope (suc n)
      ]

  unfoldable pub canonical_entries : List Text → Result (List Text)
  canonical_entries [] = ok []
  canonical_entries (s ∷ ss) = do
    entry ← canonical_decision_scope_entry s
    entries ← canonical_entries ss
    ok (entry ∷ entries)

  unfoldable pub scope_missing : Json → List Text → Result Bool
  scope_missing lease scopes =
      sets h lease >>= λ s. ok (any (λ r. not (text_in r scopes)) (required_resources s))

  -- The tests on the scope of a decision on a v2 lease.
  unfoldable pub check_decision_scope : Json → Report → Result (Unit {0})
  check_decision_scope lease report = do
    raise_if (not (is_list report.scope)) (value_error "Lease decision scope is not a list")
    raise_if (any scope_invalid (elements report.scope))
        (value_error "Lease decision scope entries must be non-empty canonical strings")
    entries ← canonical_entries (texts (elements report.scope))
    raise_if (not (texts_eq (texts (elements report.scope)) entries))
        (value_error "Lease decision scope entries must use canonical resource identity")
    raise_if (not (texts_distinct entries))
        (value_error "Lease decision scope entries must be unique")
    missing ← scope_missing lease entries
    raise_if missing (value_error "Lease decision scope does not include every reserved resource")
    digest ← lease_candidate_sha256 h lease
    raise_if (not (json_eq report.lease_candidate_sha256 (str digest)))
        (value_error "Lease decision candidate SHA-256 binding mismatch")

  -- `_validate_decision_scope`
  unfoldable pub validate_decision_scope : Json → Report → Result (Unit {0})
  validate_decision_scope lease report =
      if is_v2 lease then check_decision_scope lease report else ok tt
