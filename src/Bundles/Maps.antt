-- ===== src/Bundles/Maps.antt =====
-- Dictionaries from paths to digests, and the differences that `verify_bundle` lists.
use coordination_loop_harnes.Util.Sort.{sort_by, sort_by-eq-nil}
use coordination_loop_harnes.Base.{
  Bool, true, false, not, Option, none, some, List, [], ◌∷◌, Text, text_eq, select, if◌then◌else◌,
  ◌≡◌, refl, sym, ap, ◌∙◌, arith,
}
use coordination_loop_harnes.Leases.AccessLaws.{text_eq_iff}
use coordination_loop_harnes.Leases.Access.{text_leb}

abbrev pub Digests : Type 0
Digests = List (Text × Text)

unfoldable pub digest_at : Text → Digests → Option Text
digest_at path [] = none
digest_at path ((q, d) ∷ m) = if text_eq q path then some d else digest_at path m

-- `m[path] = digest`
unfoldable pub set_digest : Text → Text → Digests → Digests
set_digest path digest [] = (path, digest) ∷ []
set_digest path digest ((q, d) ∷ m) =
    if text_eq q path then (q, digest) ∷ m else (q, d) ∷ set_digest path digest m

abbrev pub paths_of : Digests → List Text
paths_of [] = []
paths_of ((q, d) ∷ m) = q ∷ paths_of m

abbrev pub is_absent : Option Text → Bool
is_absent none = true
is_absent (some _) = false

abbrev pub differ : Option Text → Option Text → Bool
differ none b = false
differ (some x) none = false
differ (some x) (some y) = not (text_eq x y)

-- `sorted(set(a) - set(b))`
unfoldable pub only_in : Digests → Digests → List Text
only_in a b = sort_by text_leb (select (λ q. is_absent (digest_at q b)) (paths_of a))

-- The paths in both, with different digests.
unfoldable pub changed_in : Digests → Digests → List Text
changed_in a b =
    sort_by text_leb (select (λ q. differ (digest_at q a) (digest_at q b)) (paths_of a))

none_passes :
    (test : Text → Bool) (path v : Text) (m : Digests)
    → select test (paths_of m) ≡ []
    → digest_at path m ≡ some v
    → test path ≡ false
unfolding digest_at
none_passes test path v [] k e = cc
none_passes test path v ((q, d) ∷ m) k e =
    ground (arith, text_eq_iff q path, none_passes test path v m)

-- Where no path is in one dictionary only, and none has two digests, they are one mapping.
pub same_digests :
    (a b : Digests)
    → only_in a b ≡ []
    → only_in b a ≡ []
    → changed_in a b ≡ []
    → (path : Text) → digest_at path a ≡ digest_at path b
unfolding only_in changed_in
same_digests a b left right both path = go (digest_at path a) (digest_at path b) refl refl
  where
    equal : (c : Bool) → not c ≡ false → c ≡ true
    equal c k = ground arith

    go :
        (x y : Option Text)
        → digest_at path a ≡ x
        → digest_at path b ≡ y
        → digest_at path a ≡ digest_at path b
    go none none p q = p ∙ sym q
    go (some v) none p q =
        let t = none_passes _ path v a (sort_by-eq-nil _ _ left) p in
        absurd (cc (ap is_absent q, t))
    go none (some w) p q =
        let t = none_passes _ path w b (sort_by-eq-nil _ _ right) q in
        absurd (cc (ap is_absent p, t))
    go (some v) (some w) p q =
        let t = none_passes _ path v a (sort_by-eq-nil _ _ both) p in
        let u : differ (some v) (some w) ≡ false = (λ i. differ (sym p i) (sym q i)) ∙ t in
        p ∙ ap some ((text_eq_iff v w).0 (equal _ u)) ∙ sym q
