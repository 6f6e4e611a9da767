-- ===== src/Leases/Distinct.antt =====
-- The maps of a record's claims have each key once.
use coordination_loop_harnes.Base.{
  Bool, true, false, Option, none, some, List, [], ◌∷◌, Text, text_eq, if◌then◌else◌, ok, err, ◌≡◌,
  refl, ap, subst, ◌∙◌, arith, not, Exn, strip, is_space,
}
use coordination_loop_harnes.Json.{Json, get, text?, elements, is_object}
use coordination_loop_harnes.Util.Host.{Host}
use coordination_loop_harnes.Leases.Access.{
  Mode, write, Claims, lookup, insert, merge_access, merge_each, combine, sorted, insert_sorted,
  text_leb,
}
use coordination_loop_harnes.Leases.AccessLaws.{text_eq_iff, lookup-insert}
use coordination_loop_harnes.Leases.Compatible.{lookup-sorted, lookup-insert_sorted}
use coordination_loop_harnes.Leases.Sets.{
  Sets, sets, claimed, is_v1, is_v2, claim_path, claim_branch, claim_item, claim_items,
  claim_scopes, claim_infrastructure, claim_coordination, visible, scope_overlap_identities,
  with_suffix, repository_overlap_identities,
}

abbrev pub Distinct : Claims → Type 0
Distinct [] = Unit
Distinct ((v, m) ∷ c) = (lookup v c ≡ none) × Distinct c

text_eq_sym : (s t : Text) {b : Bool} → text_eq t s ≡ b → text_eq s t ≡ b
text_eq_sym s t e = ground (arith, text_eq_iff s t, text_eq_iff t s)

insert-Distinct : (v : Text) (m : Mode) (c : Claims) → Distinct c → Distinct (insert v m c)
unfolding lookup insert
insert-Distinct v m [] d = (refl, tt)
insert-Distinct v m ((w, n) ∷ c) (free, d) = split (text_eq w v) refl (insert-Distinct v m c d)
  where
    split :
        (b : Bool)
        → text_eq w v ≡ b
        → Distinct (insert v m c)
        → Distinct (if b then (w, m) ∷ c else (w, n) ∷ insert v m c)
    split true e later = (free, d)
    split false e later = (
      lookup-insert v w m c ∙ ap (λ b. if b then some m else lookup w c) (text_eq_sym v w e) ∙ free,
      later,
    )

merge_access-Distinct :
    (c : Claims) (v : Text) (m : Mode) → Distinct c → Distinct (merge_access c v m)
unfolding merge_access
merge_access-Distinct c v m d = insert-Distinct v _ c d

merge_each-Distinct :
    (c : Claims) (vs : List Text) (m : Mode) → Distinct c → Distinct (merge_each c vs m)
unfolding merge_each
merge_each-Distinct c [] m d = d
merge_each-Distinct c (v ∷ vs) m d =
    merge_each-Distinct (merge_access c v m) vs m (merge_access-Distinct c v m d)

pub combine-Distinct : (c d : Claims) → Distinct c → Distinct (combine c d)
unfolding combine
combine-Distinct c [] x = x
combine-Distinct c ((v, m) ∷ d) x =
    combine-Distinct (merge_access c v m) d (merge_access-Distinct c v m x)

insert_sorted-Distinct :
    (v : Text) (m : Mode) (c : Claims)
    → lookup v c ≡ none
    → Distinct c
    → Distinct (insert_sorted (v, m) c)
unfolding lookup
insert_sorted-Distinct v m [] free d = (refl, tt)
insert_sorted-Distinct v m ((w, n) ∷ c) free (rest, d) =
    let (differ, free_later) = other (text_eq w v) (lookup v c) free in
    split (text_leb v w) (text_eq_sym v w differ) (insert_sorted-Distinct v m c free_later d)
  where
    other :
        (b : Bool) (o : Option Mode) → (if b then some n else o) ≡ none → (b ≡ false) × (o ≡ none)
    other true o k = cc
    other false o k = (refl, k)

    split :
        (b : Bool)
        → text_eq v w ≡ false
        → Distinct (insert_sorted (v, m) c)
        → Distinct (if b then (v, m) ∷ (w, n) ∷ c else (w, n) ∷ insert_sorted (v, m) c)
    split true differ later = (free, (rest, d))
    split false differ later = (
      lookup-insert_sorted w v m c ∙ ap (λ b. if b then some m else lookup w c) differ ∙ rest,
      later,
    )

pub sorted-Distinct : (c : Claims) → Distinct c → Distinct (sorted c)
unfolding sorted
sorted-Distinct [] d = tt
sorted-Distinct ((v, m) ∷ c) (free, d) =
    insert_sorted-Distinct v m (sorted c) (lookup-sorted v c ∙ free) (sorted-Distinct c d)

-- Each map of the claims of a record.
pub record DistinctSets (s : Sets) : Type 0 where
  pub repository : Distinct s.repository
  pub path : Distinct s.path
  pub branch : Distinct s.branch
  pub infrastructure : Distinct s.infrastructure
  pub coordination_repository : Distinct s.coordination_repository

module _ (h : Host) where
  claim_path-Distinct :
      (r : Bool) (m : Mode) (v : Json) (c : Claims) → Distinct c → Distinct (claim_path h r m v c)
  unfolding claim_path
  claim_path-Distinct r m v c d = by_text (visible v)
    where
      by_text :
          (o : Option Text)
          → Distinct
              (elim o [ none ↦ c | some s ↦ merge_each c (scope_overlap_identities h r s) m ])
      by_text none = d
      by_text (some s) = merge_each-Distinct c (scope_overlap_identities h r s) m d

  claim_branch-Distinct :
      (ids : List Text) (m : Mode) (v : Json) (c : Claims)
      → Distinct c
      → Distinct (claim_branch h ids m v c)
  unfolding claim_branch
  claim_branch-Distinct ids m v c d = by_text (visible v)
    where
      by_text :
          (o : Option Text)
          → Distinct (elim o [
            | none ↦ c
            | some s ↦ merge_each c (with_suffix h (b':' ∷ h.casefold s) ids) m
          ])
      by_text none = d
      by_text (some s) = merge_each-Distinct c (with_suffix h (b':' ∷ h.casefold s) ids) m d

  claim_item-DistinctSets :
      (shared r : Bool) (item : Json) (name : Text) (s : Sets)
      → DistinctSets s
      → DistinctSets (claim_item h shared r item name s)
  unfolding claim_item
  claim_item-DistinctSets shared r item name s d = record {
    repository = merge_each-Distinct s.repository _ _ d.repository;
    path = claim_path-Distinct r _ _ _ (claim_path-Distinct r _ _ _ d.path);
    branch = claim_branch-Distinct _ _ _ _ d.branch;
    infrastructure = d.infrastructure;
    coordination_repository = d.coordination_repository;
  }

  claim_items-DistinctSets :
      (shared r : Bool) (items : List Json) (s : Sets)
      → DistinctSets s
      → DistinctSets (claim_items h shared r items s)
  unfolding claim_items
  claim_items-DistinctSets shared r [] s d = d
  claim_items-DistinctSets shared r (item ∷ items) s d =
      claim_items-DistinctSets shared r items _
        (by_name (text? (get "repository" item)) (is_object item))
    where
      by_name :
          (o : Option Text) (b : Bool)
          → DistinctSets
              (elim o [ none ↦ s | some name ↦ if b then claim_item h shared r item name s else s ])
      by_name none b = d
      by_name (some name) true = claim_item-DistinctSets shared r item name s d
      by_name (some name) false = d

  claim_scopes-Distinct :
      (r : Bool) (vs : List Json) (c : Claims) → Distinct c → Distinct (claim_scopes h r vs c)
  unfolding claim_scopes
  claim_scopes-Distinct r [] c d = d
  claim_scopes-Distinct r (v ∷ vs) c d =
      claim_scopes-Distinct r vs (claim_path h r write v c) (claim_path-Distinct r write v c d)

  claim_infrastructure-Distinct :
      (vs : List Json) (c : Claims) → Distinct c → Distinct (claim_infrastructure h vs c)
  unfolding claim_infrastructure
  claim_infrastructure-Distinct [] c d = d
  claim_infrastructure-Distinct (v ∷ vs) c d =
      claim_infrastructure-Distinct vs _ (by_text (visible v))
    where
      by_text :
          (o : Option Text)
          → Distinct (elim o [ none ↦ c | some s ↦ insert (h.casefold (strip is_space s)) write c ])
      by_text none = d
      by_text (some s) = insert-Distinct _ write c d

  claim_coordination-Distinct :
      (shared : Bool) (rs : Claims) (vs : List Text) (c : Claims)
      → Distinct c
      → Distinct (claim_coordination h shared rs vs c)
  unfolding claim_coordination
  claim_coordination-Distinct shared rs [] c d = d
  claim_coordination-Distinct shared rs (v ∷ vs) c d =
      claim_coordination-Distinct shared rs vs _ (insert-Distinct v _ c d)

  coordination-Distinct :
      (shared : Bool) (rs : Claims) (o : Option Text)
      → Distinct (elim o [
        | none ↦ []
        | some name ↦
            claim_coordination h shared rs (repository_overlap_identities h shared name) []
      ])
  coordination-Distinct shared rs none = tt
  coordination-Distinct shared rs (some name) =
      claim_coordination-Distinct shared rs (repository_overlap_identities h shared name) [] tt

  pub sets-DistinctSets : (lease : Json) (s : Sets) → sets h lease ≡ ok s → DistinctSets s
  unfolding sets claimed
  sets-DistinctSets lease s k = subst DistinctSets (same _ _ _ k) (record {
    repository = items.repository;
    path = claim_scopes-Distinct _ (elements (get "local_scopes" lease)) _ items.path;
    branch = items.branch;
    infrastructure =
        claim_infrastructure-Distinct (elements (get "infrastructure_scopes" lease)) [] tt;
    coordination_repository =
        coordination-Distinct _ _ (visible (get "coordination_repository" lease));
  })
    where
      same : (b : Bool) (x : Sets) (e : Exn) → (if b then err e else ok x) ≡ ok s → x ≡ s
      same true x e q = cc
      same false x e q = cc

      items : DistinctSets (
          claim_items h
            (is_v2 lease)
            (not (is_v1 lease))
            (elements (get "repositories" lease))
            (record {
              repository = [];
              path = [];
              branch = [];
              infrastructure = [];
              coordination_repository = [];
            }))
      items = claim_items-DistinctSets _ _ (elements (get "repositories" lease)) _ (record {
        repository = tt;
        path = tt;
        branch = tt;
        infrastructure = tt;
        coordination_repository = tt;
      })
