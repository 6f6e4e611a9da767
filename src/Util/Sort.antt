-- ===== src/Util/Sort.antt =====
-- `sorted`, by a test of order, and what it keeps.
use coordination_loop_harnes.Base.{
  Bool, true, false, List, [], ◌∷◌, ◌++◌, if◌then◌else◌, ◌≡◌, refl, sym, ap, subst, ◌∙◌, select,
  ◌⊎◌, inl, inr,
}

module _ {ℓ} {A : Type ℓ} where
  abbrev pub insert_by : (A → A → Bool) → A → List A → List A
  insert_by le a [] = a ∷ []
  insert_by le a (b ∷ bs) = let rest = insert_by le a bs in if le a b then a ∷ b ∷ bs else b ∷ rest

  -- `sorted`, by a test of order
  unfoldable pub sort_by : (A → A → Bool) → List A → List A
  sort_by le [] = []
  sort_by le (a ∷ as') = insert_by le a (sort_by le as')

abbrev pub All {ℓ κ} : {A : Type ℓ} → (A → Type κ) → List A → Type κ
All P [] = Unit
All P (x ∷ xs) = P x × All P xs

-- One of the elements of a list.
abbrev pub In : {A : Type 0} → A → List A → Type 0
In x [] = ⊥
In x (y ∷ ys) = (x ≡ y) ⊎ In x ys

insert_by-ne-nil {ℓ} :
    {A : Type ℓ} (le : A → A → Bool) (a : A) (bs : List A) → insert_by le a bs ≡ [] → ⊥
insert_by-ne-nil le a [] k = cc
insert_by-ne-nil le a (b ∷ bs) k = split (le a b) k
  where
    split : (c : Bool) → (if c then a ∷ b ∷ bs else b ∷ insert_by le a bs) ≡ [] → ⊥
    split true q = cc
    split false q = cc

pub sort_by-eq-nil {ℓ} :
    {A : Type ℓ} (le : A → A → Bool) (xs : List A) → sort_by le xs ≡ [] → xs ≡ []
unfolding sort_by
sort_by-eq-nil le [] k = refl
sort_by-eq-nil le (x ∷ xs) k = absurd (insert_by-ne-nil le x (sort_by le xs) k)

pub All-append {ℓ κ} :
    {A : Type ℓ} (P : A → Type κ) (xs ys : List A) → All P xs → All P ys → All P (xs ++ ys)
All-append P [] ys a b = b
All-append P (x ∷ xs) ys (a, as') b = (a, All-append P xs ys as' b)

All-insert_by {ℓ κ} :
    {A : Type ℓ} (P : A → Type κ) (le : A → A → Bool) (x : A) (xs : List A)
    → P x
    → All P xs
    → All P (insert_by le x xs)
All-insert_by P le x [] a as' = (a, tt)
All-insert_by P le x (y ∷ ys) a (b, bs) = split (le x y) (All-insert_by P le x ys a bs)
  where
    split :
        (c : Bool)
        → All P (insert_by le x ys)
        → All P (if c then x ∷ y ∷ ys else y ∷ insert_by le x ys)
    split true h = (a, (b, bs))
    split false h = (b, h)

pub All-sort_by {ℓ κ} :
    {A : Type ℓ} (P : A → Type κ) (le : A → A → Bool) (xs : List A)
    → All P xs
    → All P (sort_by le xs)
unfolding sort_by
All-sort_by P le [] a = tt
All-sort_by P le (x ∷ xs) (a, as') =
    All-insert_by P le x (sort_by le xs) a (All-sort_by P le xs as')

In-insert_by :
    {A : Type 0} (le : A → A → Bool) (x y : A) (ys : List A)
    → (x ≡ y) ⊎ In x ys
    → In x (insert_by le y ys)
In-insert_by le x y [] i = i
In-insert_by le x y (z ∷ zs) i = split (le y z) (In-insert_by le x y zs) i
  where
    split :
        (c : Bool)
        → ((x ≡ y) ⊎ In x zs → In x (insert_by le y zs))
        → (x ≡ y) ⊎ ((x ≡ z) ⊎ In x zs)
        → In x (if c then y ∷ z ∷ zs else z ∷ insert_by le y zs)
    split true h j = j
    split false h (inl e) = inr (h (inl e))
    split false h (inr (inl e)) = inl e
    split false h (inr (inr e)) = inr (h (inr e))

-- Sorting loses nothing.
pub In-sort_by :
    {A : Type 0} (le : A → A → Bool) (x : A) (xs : List A) → In x xs → In x (sort_by le xs)
unfolding sort_by
In-sort_by le x [] i = absurd i
In-sort_by le x (y ∷ ys) (inl e) = In-insert_by le x y (sort_by le ys) (inl e)
In-sort_by le x (y ∷ ys) (inr i) = In-insert_by le x y (sort_by le ys) (inr (In-sort_by le x ys i))

pub All-In : {A : Type 0} (xs : List A) → All (λ x. In x xs) xs
All-In [] = tt
All-In {A = A} (x ∷ xs) = (inl refl, weaken xs (All-In xs))
  where
    weaken : (ys : List A) → All (λ y. In y xs) ys → All (λ y. In y (x ∷ xs)) ys
    weaken [] a = tt
    weaken (y ∷ ys) (a, as') = (inr a, weaken ys as')

pub In-select :
    {A : Type 0} (test : A → Bool) (x : A) (xs : List A)
    → test x ≡ true
    → In x xs
    → In x (select test xs)
In-select test x [] t i = i
In-select test x (y ∷ ys) t (inl e) =
    subst (λ b. In x (if b then y ∷ select test ys else select test ys)) (sym t ∙ ap test e) (inl e)
In-select test x (y ∷ ys) t (inr i) = later (test y) (In-select test x ys t i)
  where
    later :
        (b : Bool) → In x (select test ys) → In x (if b then y ∷ select test ys else select test ys)
    later true j = inr j
    later false j = j
