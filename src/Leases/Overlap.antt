-- ===== src/Leases/Overlap.antt =====
-- `find_overlaps`, over the records that the scan of the lock root found.
use coordination_loop_harnes.Base.{
  Bool, false, ◌&&◌, ◌||◌, Option, none, some, List, [], ◌∷◌, ◌++◌, Text, codes, text_eq, is_some,
  if◌then◌else◌, Result, ok, ◌>>=◌,
}
use coordination_loop_harnes.Json.{Json, get, text?}
use coordination_loop_harnes.Util.Host.{Host}
use coordination_loop_harnes.Util.Safe.{is_safe_id}
use coordination_loop_harnes.Leases.Access.{
  Mode, Claims, lookup, access_conflicts, combine, paths_overlap, sorted,
}
use coordination_loop_harnes.Leases.Sets.{Sets, sets}

pub data Category : Type 0 where
  lease_id coordination_repository repository branch infrastructure path : Category

pub record Overlap : Type 0 where
  pub holder : Text
  pub category : Category
  pub value : Text

-- A record of the lock root with the identity that its file name gives it.
pub record Found : Type 0 where
  pub inferred_id : Text
  pub lease : Json

abbrev pub overlap_at : Bool → Text → Category → Text → List Overlap
overlap_at conflict holder category value =
    if conflict then record { holder = holder; category = category; value = value } ∷ [] else []

abbrev pub conflict_with : Mode → Option Mode → Bool
conflict_with m none = false
conflict_with m (some n) = access_conflicts m n

-- The loop over the identities that both sides claim.
unfoldable pub claim_overlaps : (Text → Category) → Text → Claims → Claims → List Overlap
claim_overlaps category holder [] other = []
claim_overlaps category holder ((v, m) ∷ c) other =
    overlap_at (conflict_with m (lookup v other)) holder (category v) v
    ++ claim_overlaps category holder c other

-- `f"{left} <-> {right}"`
abbrev pub arrow : Text → Text → Text
arrow left right = left ++ (codes " <-> " ++ right)

unfoldable pub path_overlaps_with : Text → Text → Mode → Claims → List Overlap
path_overlaps_with holder left m [] = []
path_overlaps_with holder left m ((right, n) ∷ c) =
    overlap_at (paths_overlap left right && access_conflicts m n) holder path (arrow left right)
    ++ path_overlaps_with holder left m c

unfoldable pub path_overlaps : Text → Claims → Claims → List Overlap
path_overlaps holder [] other = []
path_overlaps holder ((left, m) ∷ c) other =
    path_overlaps_with holder left m other ++ path_overlaps holder c other

unfoldable pub repository_category : Sets → Sets → Text → Category
repository_category a b v =
    if is_some (lookup v a.coordination_repository) || is_some (lookup v b.coordination_repository)
    then coordination_repository
    else repository

-- `_combined_repository_access`
abbrev pub combined : Sets → Claims
combined s = combine s.repository s.coordination_repository

-- What a candidate's claims and another record's claims have in conflict.
unfoldable pub set_overlaps : Text → Sets → Sets → List Overlap
set_overlaps holder a b =
    claim_overlaps (repository_category a b) holder (sorted (combined a)) (combined b)
    ++ (claim_overlaps (λ _. branch) holder (sorted a.branch) b.branch
        ++ (claim_overlaps (λ _. infrastructure) holder (sorted a.infrastructure) b.infrastructure
            ++ path_overlaps holder (sorted a.path) (sorted b.path)))

-- The declared `lease_id` of a record, if it is a safe identifier.
unfoldable pub declared_id : Json → Option Text
declared_id lease = elim (text? (get "lease_id" lease)) [
  | none ↦ none
  | some s ↦ if is_safe_id s then some s else none
]

module _ (h : Host) where
  abbrev folded_eq : Text → Text → Bool
  folded_eq s t = text_eq (h.casefold s) (h.casefold t)

  unfoldable pub id_taken : Text → Option Text → Text → Bool
  id_taken inferred declared candidate =
      folded_eq candidate inferred
      || elim declared [ none ↦ false | some d ↦ folded_eq candidate d ]

  abbrev pub or_inferred : Option Text → Text → Text
  or_inferred none inferred = inferred
  or_inferred (some d) inferred = d

  unfoldable pub id_overlaps : Json → Found → List Overlap
  id_overlaps candidate other = elim (text? (get "lease_id" candidate)) [
    | none ↦ []
    | some c ↦
        overlap_at (id_taken other.inferred_id (declared_id other.lease) c)
          (or_inferred (declared_id other.lease) other.inferred_id) lease_id c
  ]

  -- One round of the loop.
  unfoldable pub overlaps_with : Json → Sets → Found → Result (List Overlap)
  overlaps_with candidate a other = sets h other.lease >>= λ b. ok (
      id_overlaps candidate other
      ++ set_overlaps (or_inferred (declared_id other.lease) other.inferred_id) a b)

  unfoldable pub overlaps_each : Json → Sets → List Found → Result (List Overlap)
  overlaps_each candidate a [] = ok []
  overlaps_each candidate a (other ∷ others) = do
    one ← overlaps_with candidate a other
    rest ← overlaps_each candidate a others
    ok (one ++ rest)

  -- `find_overlaps(candidate, ...)` over what `_active_leases` returned
  unfoldable pub find_overlaps : Json → List Found → Result (List Overlap)
  find_overlaps candidate others = sets h candidate >>= λ a. overlaps_each candidate a others
