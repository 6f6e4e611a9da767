-- ===== src/Leases/AccessLaws.antt =====
-- The laws of merged claims.
use coordination_loop_harnes.Base.{
  Bool, true, ◌||◌, some, List, [], ◌∷◌, Text, text_eq, if◌then◌else◌, starts_with, ◌≡◌, refl,
  arith, ◌↔◌,
}
use coordination_loop_harnes.Leases.Access.{
  Mode, write, Claims, lookup, insert, merge_access, merge_each, paths_overlap, slashed,
}

pub text_eq_iff : (s t : Text) → (text_eq s t ≡ true) ↔ (s ≡ t)
text_eq_iff [] [] = (λ h. refl, λ h. refl)
text_eq_iff [] (b ∷ t) = (λ h. cc, λ h. cc)
text_eq_iff (a ∷ s) [] = (λ h. cc, λ h. cc)
text_eq_iff (a ∷ s) (b ∷ t) =
    (λ h. ground (arith, text_eq_iff s t), λ h. ground (arith, text_eq_iff s t))

pub lookup-insert :
    (v w : Text) (m : Mode) (c : Claims)
    → lookup w (insert v m c) ≡ (if text_eq v w then some m else lookup w c)
unfolding lookup insert
lookup-insert v w m [] = refl
lookup-insert v w m ((u, n) ∷ c) =
    ground (arith, text_eq_iff v w, text_eq_iff u v, text_eq_iff u w, lookup-insert v w m c)

-- A WRITE claim stays one whatever is merged after it.
pub merge_access-write :
    (c : Claims) (v w : Text) (m : Mode)
    → lookup w c ≡ some write
    → lookup w (merge_access c v m) ≡ some write
unfolding merge_access
merge_access-write c v w m h = rw (lookup-insert v w _ c) (ground (arith, text_eq_iff v w))

-- A merged WRITE claim is held.
pub merge_access-writes : (c : Claims) (v : Text) → lookup v (merge_access c v write) ≡ some write
unfolding merge_access
merge_access-writes c v = rw (lookup-insert v v _ c) (ground (arith, text_eq_iff v v))

pub merge_each-write :
    (c : Claims) (vs : List Text) (w : Text) (m : Mode)
    → lookup w c ≡ some write
    → lookup w (merge_each c vs m) ≡ some write
unfolding merge_each
merge_each-write c [] w m h = h
merge_each-write c (v ∷ vs) w m h =
    merge_each-write (merge_access c v m) vs w m (merge_access-write c v w m h)

pub paths_overlap_comm : (s t : Text) → paths_overlap s t ≡ paths_overlap t s
unfolding paths_overlap
paths_overlap_comm s t =
    swap (text_eq s t) (text_eq t s) (starts_with s (slashed t)) (starts_with t (slashed s))
      (text_eq_iff s t) (text_eq_iff t s)
  where
    swap :
        (a b c d : Bool)
        → (a ≡ true) ↔ (s ≡ t)
        → (b ≡ true) ↔ (t ≡ s)
        → (a || (c || d)) ≡ (b || (d || c))
    swap a b c d p q = ground arith
