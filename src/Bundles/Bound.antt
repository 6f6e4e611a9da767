-- ===== src/Bundles/Bound.antt =====
-- What a seal states of the pairs of JSON and Markdown files that it was made from.
use coordination_loop_harnes.Util.Sort.{All, All-append, All-sort_by}
use coordination_loop_harnes.Base.{
  Bool, true, false, ◌&&◌, ◌||◌, not, Option, none, some, List, [], ◌∷◌, Text, text_eq, any, select,
  map, if◌then◌else◌, ok, ◌≡◌, refl, subst, arith,
}
use coordination_loop_harnes.Json.{str, get, json_eq}
use coordination_loop_harnes.Bundles.Tree.{Durable, Paths}
use coordination_loop_harnes.Bundles.Seal.{
  Binding, find_durable, binding_of, binding_leb, binding_json, bindings_from, bindings, is_json,
}
use coordination_loop_harnes.Bundles.Maps.{Digests, digest_at}
use coordination_loop_harnes.Bundles.Verify.{
  target_findings, binding_findings, key_eq, declared_keys, binding_key, sort_keys, each_once,
  keys_only_in, key_findings,
}
use coordination_loop_harnes.Bundles.Sealed.{text_refl, select-eq-nil, select_later}

-- Both files of a pair are there with the digests that it states.
abbrev pub Holds : Digests → Binding → Type 0
Holds actual b =
    (digest_at b.json_path actual ≡ some b.json_sha256)
    × (digest_at b.markdown_path actual ≡ some b.markdown_sha256)

abbrev pub Kept : Digests → Durable → Type 0
Kept actual f = digest_at f.path actual ≡ some f.sha256

find-Kept :
    (actual : Digests) (q : Text) (fs : List Durable) (m : Durable)
    → All (Kept actual) fs
    → find_durable q fs ≡ some m
    → Kept actual m
find-Kept actual q [] m a e = cc
find-Kept actual q (f ∷ fs) m (k, ks) e = pick (text_eq f.path q) (find-Kept actual q fs m ks) e
  where
    same : (a b : Durable) → some a ≡ some b → a ≡ b
    same a b r = cc

    pick :
        (b : Bool)
        → (find_durable q fs ≡ some m → Kept actual m)
        → (if b then some f else find_durable q fs) ≡ some m
        → Kept actual m
    pick true ih r = subst (Kept actual) (same f m r) k
    pick false ih r = ih r

module _ (p : Paths) (actual : Digests) (files : List Durable)
    (kept : All (Kept actual) files) where
  binding_of-Holds :
      (f : Durable) (o : Option Durable)
      → Kept actual f
      → find_durable (p.markdown f.path) files ≡ o
      → All (Holds actual) (binding_of f o)
  binding_of-Holds f none k e = tt
  binding_of-Holds f (some m) k e = ((k, find-Kept actual (p.markdown f.path) files m kept e), tt)

  bindings_from-Holds :
      (fs : List Durable) → All (Kept actual) fs → All (Holds actual) (bindings_from p files fs)
  unfolding bindings_from
  bindings_from-Holds [] ks = tt
  bindings_from-Holds (f ∷ fs) (k, ks) =
      All-append (Holds actual) _ _ (either (is_json p f)) (bindings_from-Holds fs ks)
    where
      either :
          (b : Bool)
          → All
              (Holds actual)
              (if b then binding_of f (find_durable (p.markdown f.path) files) else [])
      either true = binding_of-Holds f _ k refl
      either false = tt

  pub bindings-Holds : All (Holds actual) (bindings p files)
  unfolding bindings
  bindings-Holds =
      All-sort_by (Holds actual) binding_leb (bindings_from p files files)
        (bindings_from-Holds files kept)

-- The findings on a target that is as stated.
target_holds :
    (actual : Digests) (path digest : Text)
    → digest_at path actual ≡ some digest
    → target_findings actual (str path) (str digest) ≡ ok []
unfolding target_findings json_eq
target_holds actual path digest e = rw (e, text_refl digest) refl

pub targets_hold :
    (actual : Digests) (bs : List Binding)
    → All (Holds actual) bs
    → binding_findings actual (map binding_json bs) ≡ ok []
unfolding binding_findings binding_json get
targets_hold actual [] a = refl
targets_hold actual (b ∷ bs) ((j, m), a) =
    rw
      (
        target_holds actual b.json_path b.json_sha256 j,
        target_holds actual b.markdown_path b.markdown_sha256 m,
        targets_hold actual bs a,
      )
      refl

pub declared_keys-map :
    (bs : List Binding) → declared_keys (map binding_json bs) ≡ ok (map binding_key bs)
unfolding declared_keys binding_json get
declared_keys-map [] = refl
declared_keys-map (b ∷ bs) = rw (declared_keys-map bs) refl

key_refl : (b : Binding) → key_eq (binding_key b) (binding_key b) ≡ true
unfolding json_eq
key_refl b = both _ _ (text_refl b.json_path) (text_refl b.markdown_path)
  where
    both : (x y : Bool) → x ≡ true → y ≡ true → (x && y) ≡ true
    both x y e f = ground arith

-- Every pair is among the pairs.
all_declared :
    (bs : List Binding)
    → select (λ b. not (any (key_eq (binding_key b)) (map binding_key bs))) bs ≡ []
all_declared [] = refl
all_declared (b ∷ bs) =
    select_later (λ c. not (any (key_eq (binding_key c)) (map binding_key (b ∷ bs)))) b bs
      (here (key_eq (binding_key b) (binding_key b)) _ (key_refl b))
      (select-eq-nil (λ c. not (any (key_eq (binding_key c)) (map binding_key (b ∷ bs))))
        (λ c. not (any (key_eq (binding_key c)) (map binding_key bs))) bs
        (λ c. later (key_eq (binding_key c) (binding_key b)) _) (all_declared bs))
  where
    here : (x y : Bool) → x ≡ true → not (x || y) ≡ false
    here x y e = ground arith

    later : (x y : Bool) → not y ≡ false → not (x || y) ≡ false
    later x y e = ground arith

select-map {ℓ κ} :
    {A : Type ℓ} {B : Type κ} (test : B → Bool) (f : A → B) (xs : List A)
    → select (λ x. test (f x)) xs ≡ []
    → select test (map f xs) ≡ []
select-map test f [] k = refl
select-map test f (x ∷ xs) k = ground (arith, select-map test f xs)

-- The pairs that a seal lists are found as they were.
pub pairs_as_sealed : (bs : List Binding) → key_findings bs (map binding_key bs) ≡ ok []
unfolding key_findings keys_only_in each_once sort_keys
pairs_as_sealed bs =
    rw
      (
        select-map (λ k. not (any (key_eq k) (map binding_key bs))) binding_key bs
            (all_declared bs),
        all_declared bs,
      )
      refl
