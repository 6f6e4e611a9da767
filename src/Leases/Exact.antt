-- ===== src/Leases/Exact.antt =====
-- Claims that are compatible have no overlaps: the comparison refuses nothing else.
use coordination_loop_harnes.Base.{
  Bool, true, false, ◌&&◌, Option, none, some, List, [], ◌∷◌, ◌++◌, Text, if◌then◌else◌, ok, ◌≡◌,
  ◌↔◌, refl, sym, ap, ◌∙◌, arith,
}
use coordination_loop_harnes.Json.{Json}
use coordination_loop_harnes.Util.Host.{Host}
use coordination_loop_harnes.Leases.Access.{
  Mode, Claims, lookup, access_conflicts, paths_overlap, sorted,
}
use coordination_loop_harnes.Leases.AccessLaws.{text_eq_iff}
use coordination_loop_harnes.Leases.Sets.{Sets, sets}
use coordination_loop_harnes.Leases.Overlap.{
  Category, overlap_at, conflict_with, claim_overlaps, path_overlaps_with, path_overlaps,
  set_overlaps, combined, repository_category, branch, infrastructure, arrow,
}
use coordination_loop_harnes.Leases.Compatible.{
  Shared, SharedPaths, Compatible, lookup-sorted, set_overlaps-Compatible,
}
use coordination_loop_harnes.Leases.Distinct.{
  Distinct, DistinctSets, combine-Distinct, sorted-Distinct, sets-DistinctSets,
}

-- What a map says of its first key, and of the others.
lookup_first : (v : Text) (m : Mode) (c : Claims) → lookup v ((v, m) ∷ c) ≡ some m
unfolding lookup
lookup_first v m c = ap (λ b. if b then some m else lookup v c) ((text_eq_iff v v).1 refl)

lookup_later :
    (u v : Text) (m n : Mode) (c : Claims)
    → lookup v c ≡ none
    → lookup u c ≡ some n
    → lookup u ((v, m) ∷ c) ≡ some n
unfolding lookup
lookup_later u v m n c free k = ground (arith, text_eq_iff v u)

quiet :
    (b : Bool) (holder : Text) (c : Category) (v : Text) → b ≡ false → overlap_at b holder c v ≡ []
quiet b holder c v h = ground arith

both_nil {ℓ} : {A : Type ℓ} {xs ys : List A} → xs ≡ [] → ys ≡ [] → xs ++ ys ≡ []
both_nil {ys = ys} a b = ap (λ z. z ++ ys) a ∙ b

no_conflict :
    (m : Mode) (o : Option Mode)
    → ((n : Mode) → o ≡ some n → access_conflicts m n ≡ false)
    → conflict_with m o ≡ false
no_conflict m none s = refl
no_conflict m (some n) s = s n refl

Shared-claim_overlaps :
    (category : Text → Category) (holder : Text) (c d : Claims)
    → Distinct c
    → Shared c d
    → claim_overlaps category holder c d ≡ []
unfolding claim_overlaps
Shared-claim_overlaps category holder [] d x s = refl
Shared-claim_overlaps category holder ((w, k) ∷ c) d (free, x) s =
    both_nil
      (quiet _ holder (category w) w
        (no_conflict k (lookup w d) (λ n p. s w k n (lookup_first w k c) p)))
      (Shared-claim_overlaps category holder c d x
        (λ v m n p q. s v m n (lookup_later v w k m c free p) q))

-- The paths of the second record against one of the first.
quiet_paths :
    (holder left : Text) (k : Mode) (d : Claims)
    → Distinct d
    → ((q : Text) (n : Mode)
        → lookup q d ≡ some n
        → paths_overlap left q ≡ true
        → access_conflicts k n ≡ false)
    → path_overlaps_with holder left k d ≡ []
unfolding path_overlaps_with
quiet_paths holder left k [] x s = refl
quiet_paths holder left k ((right, r) ∷ d) (free, x) s =
    both_nil
      (quiet _ holder Category.path (arrow left right) (
        alone (paths_overlap left right) (access_conflicts k r)
          (s right r (lookup_first right r d))))
      (quiet_paths holder left k d x (λ q n p o. s q n (lookup_later q right r n d free p) o))
  where
    alone : (a b : Bool) → (a ≡ true → b ≡ false) → (a && b) ≡ false
    alone true b f = f refl
    alone false b f = refl

SharedPaths-path_overlaps :
    (holder : Text) (c d : Claims)
    → Distinct c
    → Distinct d
    → SharedPaths c d
    → path_overlaps holder c d ≡ []
unfolding path_overlaps
SharedPaths-path_overlaps holder [] d x y s = refl
SharedPaths-path_overlaps holder ((left, k) ∷ c) d (free, x) y s =
    both_nil (quiet_paths holder left k d y (λ q n p o. s left q k n (lookup_first left k c) p o)) (
      SharedPaths-path_overlaps holder c d x y
        (λ p q m n a b o. s p q m n (lookup_later p left k m c free a) b o))

Compatible-set_overlaps :
    (holder : Text) (a b : Sets)
    → DistinctSets a
    → DistinctSets b
    → Compatible a b
    → set_overlaps holder a b ≡ []
unfolding set_overlaps
Compatible-set_overlaps holder a b x y s =
    both_nil
      (quiet_claims (repository_category a b) (combined a) (combined b)
        (combine-Distinct a.repository a.coordination_repository x.repository) s.repositories)
      (both_nil (quiet_claims (λ _. branch) a.branch b.branch x.branch s.branches) (
        both_nil
          (quiet_claims (λ _. infrastructure) a.infrastructure b.infrastructure x.infrastructure
            s.infrastructures)
          (SharedPaths-path_overlaps holder (sorted a.path) (sorted b.path)
            (sorted-Distinct a.path x.path) (sorted-Distinct b.path y.path)
            (λ p q m n u v o.
              s.paths p q m n (sym (lookup-sorted p a.path) ∙ u) (sym (lookup-sorted q b.path) ∙ v)
                o))))
  where
    quiet_claims :
        (category : Text → Category) (c d : Claims)
        → Distinct c
        → Shared c d
        → claim_overlaps category holder (sorted c) d ≡ []
    quiet_claims category c d z t =
        Shared-claim_overlaps category holder (sorted c) d (sorted-Distinct c z)
          (λ v m n p q. t v m n (sym (lookup-sorted v c) ∙ p) q)

-- For the claims of any two records, the comparison reports nothing exactly where no repository,
-- branch, infrastructure identity or pair of nested paths is claimed by both with WRITE on either
-- side: it misses no conflict, and it refuses no record for a resource that both only read.
pub set_overlaps_iff :
    (h : Host) (holder : Text) (x y : Json) (a b : Sets)
    → sets h x ≡ ok a
    → sets h y ≡ ok b
    → (set_overlaps holder a b ≡ []) ↔ Compatible a b
set_overlaps_iff h holder x y a b k l = (
  set_overlaps-Compatible holder a b,
  Compatible-set_overlaps holder a b (sets-DistinctSets h x a k) (sets-DistinctSets h y b l),
)
