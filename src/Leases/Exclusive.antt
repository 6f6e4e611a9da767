-- ===== src/Leases/Exclusive.antt =====
-- `acquire`, `replace` and `release` keep the ACTIVE records of the lock root compatible.
use coordination_loop_harnes.Base.{
  ℕ, Bool, true, false, not, none, some, List, [], ◌∷◌, Text, text_eq, is_empty, select,
  if◌then◌else◌, ok, err, os_error, ◌≡◌, refl, sym, ap, subst, ◌⊎◌, inl, inr, >>=-eq-ok, Bool-cases,
}
use coordination_loop_harnes.Json.{Json, get, is_text}
use coordination_loop_harnes.Util.Host.{Host}
use coordination_loop_harnes.Leases.AccessLaws.{text_eq_iff}
use coordination_loop_harnes.Leases.Registry.{
  readable, Entry, LockRoot, Moment, same_name, others, refuse_overlaps, overwrite, publish_new,
  acquire, admit_candidate, require_unexpired_acquisition,
}
use coordination_loop_harnes.Leases.Validate.{text_of}
use coordination_loop_harnes.Leases.Authority.{verify_bound_lease_decision}
use coordination_loop_harnes.Leases.Apart.{
  live, Apart, ApartFrom, Exclusive, Apart-sym, refuse_overlaps-ApartFrom,
}

abbrev pub written_entry : Text → Json → Entry
written_entry name lease = record { name = name; content = readable lease }

module _ (h : Host) where
  pub dead_apart : (e : Entry) (es : List Entry) → live e ≡ none → ApartFrom h e es
  dead_apart e [] d = tt
  dead_apart e (f ∷ fs) d = (λ j k x y. absurd (clash j x), dead_apart e fs d)
    where
      clash : (j : Json) → live e ≡ some j → ⊥
      clash j x = cc

  abbrev pub folded : Text → Entry → Bool
  folded name e = text_eq (h.casefold e.name) (h.casefold name)

  pub same_folded : (name : Text) (e : Entry) → same_name name e ≡ true → folded name e ≡ true
  same_folded name e k =
      (text_eq_iff (h.casefold e.name) (h.casefold name)).1
        (ap h.casefold ((text_eq_iff e.name name).0 k))

  -- Where no entry has the name, in whatever spelling, no entry is left out.
  others_all :
      (name : Text) (es : List Entry) → select (folded name) es ≡ [] → others h name es ≡ es
  unfolding others
  others_all name [] k = refl
  others_all name (e ∷ es) k =
      let t = none_here (folded name e) (select (folded name) es) k in
      kept (same_name name e) (different t.0) (others_all name es t.1)
    where
      none_here :
          (b : Bool) (r : List Entry) → (if b then e ∷ r else r) ≡ [] → (b ≡ false) × (r ≡ [])
      none_here true r q = cc
      none_here false r q = (refl, q)

      different : folded name e ≡ false → same_name name e ≡ false
      different q = elim (Bool-cases (same_name name e)) [
        | inl s ↦ absurd (both (same_folded name e s) q)
        | inr s ↦ s
      ]
        where
          both : {b : Bool} → b ≡ true → b ≡ false → ⊥
          both p r = cc

      kept :
          (b : Bool)
          → b ≡ false
          → select (λ f. not (same_name name f)) es ≡ es
          → (if not b
              then e ∷ select (λ f. not (same_name name f)) es
              else select (λ f. not (same_name name f)) es)
            ≡ e ∷ es
      kept b p q = cc

  pub Apart-overwrite :
      (e : Entry) (name : Text) (lease : Json) (es : List Entry)
      → ApartFrom h e es
      → Apart h e (written_entry name lease)
      → ApartFrom h e (overwrite h name lease es)
  unfolding overwrite
  Apart-overwrite e name lease [] p q = tt
  Apart-overwrite e name lease (f ∷ fs) p q =
      apart_if (same_name name f) (written_entry name lease ∷ fs) (f ∷ overwrite h name lease fs)
        (q, p.1) (p.0, Apart-overwrite e name lease fs p.1 q)
    where
      apart_if :
          (b : Bool) (x y : List Entry)
          → ApartFrom h e x
          → ApartFrom h e y
          → ApartFrom h e (if b then x else y)
      apart_if true x y a c = a
      apart_if false x y a c = c

  -- At most one entry of a list.
  abbrev pub AtMostOne : List Entry → Type 0
  AtMostOne r = (r ≡ []) ⊎ ((x : Entry) × (r ≡ x ∷ []))

  pub head_only :
      (b : Bool) (e : Entry) (r : List Entry)
      → b ≡ true
      → AtMostOne (if b then e ∷ r else r)
      → r ≡ []
  head_only true e r p (inl q) = cc
  head_only true e r p (inr (x, q)) = cc
  head_only false e r p q = cc

  tail_too :
      (b : Bool) (e : Entry) (r : List Entry) → AtMostOne (if b then e ∷ r else r) → AtMostOne r
  tail_too true e r q = inl (head_only true e r refl q)
  tail_too false e r q = q

  -- A record takes the place of the one entry of its name.
  pub Exclusive-overwrite :
      (name : Text) (lease : Json) (es : List Entry)
      → Exclusive h es
      → AtMostOne (select (folded name) es)
      → ApartFrom h (written_entry name lease) (others h name es)
      → Exclusive h (overwrite h name lease es)
  unfolding overwrite others
  Exclusive-overwrite name lease [] ex one new = tt
  Exclusive-overwrite name lease (e ∷ es) ex one new = elim (Bool-cases (same_name name e)) [
    | inl s ↦
        let none_left =
          head_only (folded name e) e (select (folded name) es) (same_folded name e s) one in
        let rest =
          subst
            (λ b.
              ApartFrom h (written_entry name lease)
                (if not b then e ∷ others h name es else others h name es))
            s new in
        subst
          (λ b.
            Exclusive h
              (if b then written_entry name lease ∷ es else e ∷ overwrite h name lease es))
          (sym s)
          (subst (ApartFrom h (written_entry name lease)) (others_all name es none_left) rest, ex.1)
    | inr s ↦
        let rest =
          subst
            (λ b.
              ApartFrom h (written_entry name lease)
                (if not b then e ∷ others h name es else others h name es))
            s new in
        subst
          (λ b.
            Exclusive h
              (if b then written_entry name lease ∷ es else e ∷ overwrite h name lease es))
          (sym s)
          (
            Apart-overwrite e name lease es ex.0 (Apart-sym h (written_entry name lease) e rest.0),
            Exclusive-overwrite name lease es ex.1
                (tail_too (folded name e) e (select (folded name) es) one) rest.1,
          )
  ]

  -- The candidate's entry, whether the candidate is ACTIVE or not.
  pub new_apart :
      (m : Moment) (name : Text) (candidate : Json) (entries : List Entry)
      → refuse_overlaps h m candidate entries ≡ ok tt
      → ApartFrom h (written_entry name candidate) entries
  new_apart m name candidate entries k =
      elim (Bool-cases (is_text "ACTIVE" (get "state" candidate))) [
        | inl a ↦
            refuse_overlaps-ApartFrom h m candidate entries k (written_entry name candidate)
              (ap (λ b. if b then some candidate else none) a)
        | inr r ↦
            dead_apart (written_entry name candidate) entries
              (ap (λ b. if b then some candidate else none) r)
      ]

  pub published :
      (name : Text) (lease : Json) (root after : LockRoot)
      → publish_new h name lease root ≡ ok after
      → after.entries ≡ written_entry name lease ∷ root.entries
  unfolding publish_new
  published name lease root after k = added (is_empty (select (same_name name) root.entries)) k
    where
      the_entries : (a : LockRoot) → ok a ≡ ok after → after.entries ≡ a.entries
      the_entries a q = let e : a ≡ after = cc in λ i. (sym e i).entries

      added :
          (b : Bool)
          → (if b
              then ok (record root {
                entries = record { name = name; content = readable lease } ∷ root.entries;
              })
              else err (os_error "File exists"))
            ≡ ok after
          → after.entries ≡ written_entry name lease ∷ root.entries
      added true q = the_entries _ q
      added false q = cc

  -- A successful `acquire` from a lock root whose ACTIVE records are pairwise compatible leaves one:
  -- the new record, which is the only change, is compatible with each of them.
  pub acquire-Exclusive :
      (at : ℕ → Moment) (explicit_root : Bool) (candidate : Json) (root after : LockRoot)
      → Exclusive h root.entries
      → acquire h at explicit_root candidate root ≡ ok after
      → Exclusive h after.entries
  unfolding acquire
  acquire-Exclusive at explicit_root candidate root after ex k =
      let (path, _, k1) = >>=-eq-ok (admit_candidate h (at 0) explicit_root candidate) _ k in
      let (name, _, k2) = >>=-eq-ok (text_of (get "lease_id" candidate)) _ k1 in
      let (_, _, k3) =
        >>=-eq-ok (verify_bound_lease_decision h (at 1).disk candidate path "lease:acquire") _ k2 in
      let (_, _, k4) = >>=-eq-ok ((at 1).git_guard candidate) _ k3 in
      let (_, _, k5) = >>=-eq-ok ((at 1).writer_binding candidate) _ k4 in
      let (_, clear, k6) = >>=-eq-ok (refuse_overlaps h (at 2) candidate root.entries) _ k5 in
      let (_, _, k7) = >>=-eq-ok ((at 3).writer_binding candidate) _ k6 in
      let (_, _, k8) =
        >>=-eq-ok (verify_bound_lease_decision h (at 3).disk candidate path "lease:acquire") _ k7 in
      let (_, _, k9) = >>=-eq-ok (require_unexpired_acquisition h (at 4) candidate) _ k8 in
      subst (Exclusive h) (sym (published name candidate root after k9))
        (new_apart (at 2) name candidate root.entries clear, ex)
