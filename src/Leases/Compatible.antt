-- ===== src/Leases/Compatible.antt =====
-- What the absence of overlaps means: the claims of two records are compatible.
use coordination_loop_harnes.Base.{
  Bool, true, false, ◌&&◌, some, [], ◌∷◌, Text, text_eq, if◌then◌else◌, ◌≡◌, refl, arith, ◌∙◌,
  append_nil,
}
use coordination_loop_harnes.Leases.Access.{
  Mode, Claims, lookup, access_conflicts, paths_overlap, sorted, insert_sorted, text_leb,
}
use coordination_loop_harnes.Leases.AccessLaws.{text_eq_iff, paths_overlap_comm}
use coordination_loop_harnes.Leases.Sets.{Sets}
use coordination_loop_harnes.Leases.Overlap.{
  Category, overlap_at, conflict_with, claim_overlaps, path_overlaps_with, path_overlaps,
  set_overlaps, combined, repository_category, branch, infrastructure, arrow,
}

-- A resource that two records claim is READ on both sides.
abbrev pub Shared : Claims → Claims → Type 0
Shared c d =
    (v : Text) (m n : Mode)
    → lookup v c ≡ some m
    → lookup v d ≡ some n
    → access_conflicts m n ≡ false

-- So is any pair of paths of which one contains the other.
abbrev pub SharedPaths : Claims → Claims → Type 0
SharedPaths c d =
    (p q : Text) (m n : Mode)
    → lookup p c ≡ some m
    → lookup q d ≡ some n
    → paths_overlap p q ≡ true
    → access_conflicts m n ≡ false

pub record Compatible (a b : Sets) : Type 0 where
  pub repositories : Shared (combined a) (combined b)
  pub branches : Shared a.branch b.branch
  pub infrastructures : Shared a.infrastructure b.infrastructure
  pub paths : SharedPaths a.path b.path

conflicts_comm : (m n : Mode) → access_conflicts m n ≡ access_conflicts n m
conflicts_comm m n = ground arith

Shared-sym : (c d : Claims) → Shared c d → Shared d c
Shared-sym c d s v m n p q = conflicts_comm m n ∙ s v n m q p

-- Compatibility does not depend on which record asked.
pub Compatible-sym : (a b : Sets) → Compatible a b → Compatible b a
Compatible-sym a b c = record {
  repositories = Shared-sym (combined a) (combined b) c.repositories;
  branches = Shared-sym a.branch b.branch c.branches;
  infrastructures = Shared-sym a.infrastructure b.infrastructure c.infrastructures;
  paths = λ p q m n x y o. conflicts_comm m n ∙ c.paths q p n m y x (paths_overlap_comm q p ∙ o);
}

pub text_leb_refl : (s : Text) → text_leb s s ≡ true
text_leb_refl [] = refl
text_leb_refl (a ∷ s) = ground (arith, text_leb_refl s)

pub lookup-insert_sorted :
    (u v : Text) (m : Mode) (c : Claims)
    → lookup u (insert_sorted (v, m) c) ≡ (if text_eq v u then some m else lookup u c)
unfolding lookup
lookup-insert_sorted u v m [] = refl
lookup-insert_sorted u v m ((w, n) ∷ c) =
    ground (arith, text_eq_iff v u, text_eq_iff w u, text_leb_refl v, lookup-insert_sorted u v m c)

pub lookup-sorted : (u : Text) (c : Claims) → lookup u (sorted c) ≡ lookup u c
unfolding sorted lookup
lookup-sorted u [] = refl
lookup-sorted u ((v, m) ∷ c) =
    lookup-insert_sorted u v m (sorted c)
    ∙ (λ i. if text_eq v u then some m else lookup-sorted u c i)

overlap_at_nil :
    (b : Bool) (holder : Text) (c : Category) (v : Text) → overlap_at b holder c v ≡ [] → b ≡ false
overlap_at_nil b holder c v h = ground arith

claim_overlaps_nil :
    (category : Text → Category) (holder : Text) (c d : Claims)
    → claim_overlaps category holder c d ≡ []
    → Shared c d
unfolding claim_overlaps lookup
claim_overlaps_nil category holder [] d h v m n p q = cc
claim_overlaps_nil category holder ((w, k) ∷ c) d h v m n p q =
    let parts = append_nil (overlap_at (conflict_with k (lookup w d)) holder (category w) w) _ h in
    let here = overlap_at_nil (conflict_with k (lookup w d)) holder (category w) w parts.0 in
    ground (arith, text_eq_iff w v, claim_overlaps_nil category holder c d parts.1 v m n)

path_with_nil :
    (holder left : Text) (k : Mode) (d : Claims)
    → path_overlaps_with holder left k d ≡ []
    → (q : Text) (n : Mode) → lookup q d ≡ some n
    → paths_overlap left q ≡ true
    → access_conflicts k n ≡ false
unfolding path_overlaps_with lookup
path_with_nil holder left k [] h q n y o = cc
path_with_nil holder left k ((right, r) ∷ d) h q n y o =
    let parts =
      append_nil
        (overlap_at (paths_overlap left right && access_conflicts k r) holder Category.path
          (arrow left right))
        _ h in
    let here =
      overlap_at_nil (paths_overlap left right && access_conflicts k r) holder Category.path _
        parts.0 in
    ground (arith, text_eq_iff right q, path_with_nil holder left k d parts.1 q n)

path_overlaps_nil : (holder : Text) (c d : Claims) → path_overlaps holder c d ≡ [] → SharedPaths c d
unfolding path_overlaps lookup
path_overlaps_nil holder [] d h p q m n x y o = cc
path_overlaps_nil holder ((left, k) ∷ c) d h p q m n x y o =
    let parts = append_nil (path_overlaps_with holder left k d) _ h in
    let here = path_with_nil holder left k d parts.0 q n y in
    ground (arith, text_eq_iff left p, path_overlaps_nil holder c d parts.1 p q m n)

Shared-sorted : (c d : Claims) → Shared (sorted c) d → Shared c d
Shared-sorted c d s v m n p q = s v m n (lookup-sorted v c ∙ p) q

-- If `set_overlaps` reports nothing then no repository, branch, infrastructure identity or pair of
-- nested paths is claimed by both records with WRITE on either side.
pub set_overlaps-Compatible :
    (holder : Text) (a b : Sets) → set_overlaps holder a b ≡ [] → Compatible a b
unfolding set_overlaps
set_overlaps-Compatible holder a b h =
    let repos =
      append_nil
        (claim_overlaps (repository_category a b) holder (sorted (combined a)) (combined b)) _ h in
    let branches =
      append_nil (claim_overlaps (λ _. branch) holder (sorted a.branch) b.branch) _ repos.1 in
    let infra =
      append_nil
        (claim_overlaps (λ _. infrastructure) holder (sorted a.infrastructure) b.infrastructure) _
        branches.1 in
    record {
      repositories =
          Shared-sorted (combined a) (combined b) (claim_overlaps_nil _ holder _ _ repos.0);
      branches = Shared-sorted a.branch b.branch (claim_overlaps_nil _ holder _ _ branches.0);
      infrastructures =
          Shared-sorted a.infrastructure b.infrastructure (claim_overlaps_nil _ holder _ _ infra.0);
      paths = λ p q m n x y.
          path_overlaps_nil holder (sorted a.path) (sorted b.path) infra.1 p q m n
            (lookup-sorted p a.path ∙ x) (lookup-sorted q b.path ∙ y);
    }
