-- ===== src/Bundles/Sealed.antt =====
-- What a seal states of the files that it was made from.
use coordination_loop_harnes.Util.Sort.{sort_by, All}
use coordination_loop_harnes.Base.{
  ℕ, suc, ◌+◌, ◌==◌, Bool, true, false, ◌&&◌, not, Option, none, some, List, [], ◌∷◌, ◌++◌, Text,
  text_eq, all, select, map, length, if◌then◌else◌, ◌≡◌, refl, ap, ◌∙◌, arith,
}
use coordination_loop_harnes.Json.{Json, get, to_list}
use coordination_loop_harnes.Leases.AccessLaws.{text_eq_iff}
use coordination_loop_harnes.Leases.Access.{text_leb}
use coordination_loop_harnes.Bundles.Tree.{Durable}
use coordination_loop_harnes.Bundles.Seal.{entry_json, items_by}
use coordination_loop_harnes.Bundles.Maps.{
  Digests, digest_at, set_digest, paths_of, is_absent, differ, only_in, changed_in,
}
use coordination_loop_harnes.Bundles.Verify.{
  malformed_entries, declared_from, actual_from, file_findings,
}

-- The scan lists no path twice.
unfoldable pub distinct : List Durable → Bool
distinct [] = true
distinct (f ∷ fs) = all (λ g. not (text_eq g.path f.path)) fs && distinct fs

pub text_refl : (s : Text) → text_eq s s ≡ true
text_refl s = (text_eq_iff s s).1 refl

digest_at-set_digest :
    (q path d : Text) (m : Digests)
    → digest_at q (set_digest path d m) ≡ (if text_eq path q then some d else digest_at q m)
unfolding digest_at set_digest
digest_at-set_digest q path d [] = refl
digest_at-set_digest q path d ((w, e) ∷ m) = ground (
  arith,
  text_eq_iff path q,
  text_eq_iff w path,
  text_eq_iff w q,
  digest_at-set_digest q path d m,
)

length-set_digest :
    (path d : Text) (m : Digests)
    → digest_at path m ≡ none
    → length (set_digest path d m) ≡ suc (length m)
unfolding digest_at set_digest
length-set_digest path d [] e = refl
length-set_digest path d ((w, x) ∷ m) e = ground (arith, length-set_digest path d m)

other_digest :
    (q : Text) (fs : List Durable) (m : Digests)
    → all (λ g. not (text_eq g.path q)) fs ≡ true
    → digest_at q (actual_from fs m) ≡ digest_at q m
unfolding actual_from
other_digest q [] m e = refl
other_digest q (f ∷ fs) m e =
    other_digest q fs (set_digest f.path f.sha256 m) (second _ _ e)
    ∙ digest_at-set_digest q f.path f.sha256 m
    ∙ ap (λ b. if b then some f.sha256 else digest_at q m) (first _ _ e)
  where
    first : (a b : Bool) → (not a && b) ≡ true → a ≡ false
    first a b k = ground arith

    second : (a b : Bool) → (a && b) ≡ true → b ≡ true
    second a b k = ground arith

left : (a b : Bool) → (a && b) ≡ true → a ≡ true
left a b k = ground arith

right : (a b : Bool) → (a && b) ≡ true → b ≡ true
right a b k = ground arith

-- Each file has its digest in the dictionary.
pub actual_digests :
    (fs : List Durable) (m : Digests)
    → distinct fs ≡ true
    → All (λ f. digest_at f.path (actual_from fs m) ≡ some f.sha256) fs
unfolding distinct actual_from
actual_digests [] m d = tt
actual_digests (f ∷ fs) m d = (
  other_digest f.path fs (set_digest f.path f.sha256 m) (left _ _ d)
      ∙ digest_at-set_digest f.path f.path f.sha256 m
      ∙ ap (λ b. if b then some f.sha256 else digest_at f.path m) (text_refl f.path),
  actual_digests fs (set_digest f.path f.sha256 m) (right _ _ d),
)

abbrev Fresh : List Durable → Digests → Type 0
Fresh fs m = All (λ f. digest_at f.path m ≡ none) fs

still_Fresh :
    (f : Durable) (fs : List Durable) (m : Digests)
    → all (λ g. not (text_eq g.path f.path)) fs ≡ true
    → Fresh fs m
    → Fresh fs (set_digest f.path f.sha256 m)
still_Fresh f [] m d e = tt
still_Fresh f (g ∷ gs) m d (e, es) = (
  digest_at-set_digest g.path f.path f.sha256 m
      ∙ ap (λ b. if b then some f.sha256 else digest_at g.path m) (apart g.path f.path (left _ _ d))
      ∙ e,
  still_Fresh f gs m (right _ _ d) es,
)
  where
    apart : (s t : Text) → not (text_eq s t) ≡ true → text_eq t s ≡ false
    apart s t k = ground (arith, text_eq_iff s t, text_eq_iff t s)

length-actual_from :
    (fs : List Durable) (m : Digests)
    → distinct fs ≡ true
    → Fresh fs m
    → length (actual_from fs m) ≡ length m + length fs
unfolding distinct actual_from
length-actual_from [] m d e = omega arith
length-actual_from (f ∷ fs) m d (e, es) =
    length-actual_from fs (set_digest f.path f.sha256 m) (right _ _ d)
      (still_Fresh f fs m (left _ _ d) es)
    ∙ omega (arith, length-set_digest f.path f.sha256 m e)

all_Fresh : (fs : List Durable) → Fresh fs []
unfolding digest_at
all_Fresh [] = tt
all_Fresh (f ∷ fs) = (refl, all_Fresh fs)

pub select-eq-nil {ℓ} :
    {A : Type ℓ} (test wider : A → Bool) (xs : List A)
    → ((x : A) → wider x ≡ false → test x ≡ false)
    → select wider xs ≡ []
    → select test xs ≡ []
select-eq-nil test wider [] h k = refl
select-eq-nil test wider (x ∷ xs) h k = ground (arith, h x, select-eq-nil test wider xs h)

pub select_none {ℓ} :
    {A : Type ℓ} (test : A → Bool) (xs : List A) → ((x : A) → test x ≡ false) → select test xs ≡ []
select_none test [] h = refl
select_none test (x ∷ xs) h = ground (arith, h x, select_none test xs h)

pub select_later {ℓ} :
    {A : Type ℓ} (test : A → Bool) (x : A) (xs : List A)
    → test x ≡ false
    → select test xs ≡ []
    → select test (x ∷ xs) ≡ []
select_later test x xs e k = ground arith

all_there : (m : Digests) → select (λ q. is_absent (digest_at q m)) (paths_of m) ≡ []
unfolding digest_at
all_there [] = refl
all_there ((q, d) ∷ m) =
    select_later (λ r. is_absent (digest_at r ((q, d) ∷ m))) q (paths_of m)
      (ap (λ b. is_absent (if b then some d else digest_at q m)) (text_refl q))
      (select-eq-nil (λ r. is_absent (digest_at r ((q, d) ∷ m))) (λ r. is_absent (digest_at r m))
        (paths_of m) (λ r. more (text_eq q r) (digest_at r m)) (all_there m))
  where
    more :
        (b : Bool) (o : Option Text)
        → is_absent o ≡ false
        → is_absent (if b then some d else o) ≡ false
    more true o e = refl
    more false o e = e

-- A dictionary differs from itself nowhere.
nothing_only_in : (a : Digests) → only_in a a ≡ []
unfolding only_in sort_by
nothing_only_in a = ap (sort_by text_leb) (all_there a)

nothing_changed : (a : Digests) → changed_in a a ≡ []
unfolding changed_in sort_by
nothing_changed a = ap (sort_by text_leb) (
    select_none (λ q. differ (digest_at q a) (digest_at q a)) (paths_of a)
      (λ q. same (digest_at q a)))
  where
    same : (o : Option Text) → differ o o ≡ false
    same none = refl
    same (some s) = ap not (text_refl s)

pub to_list-items_by {ℓ} :
    {A : Type ℓ} (f : A → Json) (xs : List A) → to_list (items_by f xs) ≡ map f xs
to_list-items_by f [] = refl
to_list-items_by f (x ∷ xs) = ap (λ l. f x ∷ l) (to_list-items_by f xs)

declared_from-map :
    (fs : List Durable) (m : Digests) → declared_from (map entry_json fs) m ≡ actual_from fs m
unfolding declared_from actual_from entry_json get
declared_from-map [] m = refl
declared_from-map (f ∷ fs) m = declared_from-map fs (set_digest f.path f.sha256 m)

length-map {ℓ κ} :
    {A : Type ℓ} {B : Type κ} (f : A → B) (xs : List A) → length (map f xs) ≡ length xs
length-map f [] = refl
length-map f (x ∷ xs) = ap suc (length-map f xs)

-- The files that a seal lists are found as they were.
pub files_as_sealed :
    (fs : List Durable)
    → distinct fs ≡ true
    → file_findings (map entry_json fs) (declared_from (map entry_json fs) []) (actual_from fs [])
      ≡ []
unfolding file_findings
files_as_sealed fs d =
    rw
      (
        declared_from-map fs [],
        nothing_only_in (actual_from fs []),
        nothing_changed (actual_from fs []),
      )
      (counted _ _
        (length-actual_from fs [] d (all_Fresh fs) ∙ omega (arith, length-map entry_json fs)))
  where
    counted : (a b : ℕ) → a ≡ b → (if a == b then [] else malformed_entries ∷ []) ++ [] ≡ []
    counted a b e = ground arith
