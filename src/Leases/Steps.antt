-- ===== src/Leases/Steps.antt =====
-- Each change of the lock root is a step of the table, so a closed lease stays closed.
use coordination_loop_harnes.Base.{
  ℕ, Bool, true, false, ◌&&◌, ◌||◌, not, none, some, List, [], ◌∷◌, Text, text_eq, is_empty, select,
  if◌then◌else◌, ok, err, os_error, raise_if, ◌>>◌, ◌≡◌, refl, sym, subst, ◌∙◌, arith, inl, inr,
  >>=-eq-ok, raise_if-eq-ok, Bool-cases, Exn,
}
use coordination_loop_harnes.Base.Int.{ℤ, pos, ◌+ℤ◌}
use coordination_loop_harnes.Json.{Json, int, get, is_text, json_eq, truthy}
use coordination_loop_harnes.Util.Host.{Host}
use coordination_loop_harnes.Leases.AccessLaws.{text_eq_iff}
use coordination_loop_harnes.Leases.Sets.{is_v2}
use coordination_loop_harnes.Leases.Validate.{validate_lease, text_of}
use coordination_loop_harnes.Leases.Authority.{verify_bound_lease_decision}
use coordination_loop_harnes.Leases.Registry.{
  readable, Entry, LockRoot, Moment, same_name, refuse_overlaps, publish_new, acquire,
  admit_candidate, require_unexpired_acquisition,
}
use coordination_loop_harnes.Leases.Changes.{check_replacement}
use coordination_loop_harnes.Leases.Exclusive.{published}
use coordination_loop_harnes.Leases.Replacement.{replace-Replaced}
use coordination_loop_harnes.Leases.Release.{check_current-active, release-Released}
use coordination_loop_harnes.Leases.View.{View, view, IsActive, At, Sets, Step, claim, renew, close}
use coordination_loop_harnes.Leases.Refines.{added-Sets, read_entry-view, overwrite-Sets}
use coordination_loop_harnes.Leases.Guarded.{
  Change, acquired, replaced, released, Changes, unchanged, then_one,
}

free_name : (name : Text) (es : List Entry) → select (same_name name) es ≡ [] → view es name ≡ none
unfolding view
free_name name [] k = refl
free_name name (e ∷ es) k = ground (arith, free_name name es)

module _ (h : Host) where
  admitted_fact :
      (m : Moment) (explicit_root : Bool) (candidate : Json) {path : Text}
      → admit_candidate h m explicit_root candidate ≡ ok path
      → IsActive candidate × At candidate (pos 1)
  unfolding admit_candidate
  admitted_fact m explicit_root candidate k =
      let (_, k1) = raise_if-eq-ok (is_v2 candidate && not explicit_root) _ _ k in
      let (_, _, k2) = >>=-eq-ok (validate_lease h candidate false true) _ k1 in
      let (_, _, k3) = >>=-eq-ok (require_unexpired_acquisition h m candidate) _ k2 in
      let (t, _) =
        raise_if-eq-ok
          (not (is_text "ACTIVE" (get "state" candidate))
            || not (json_eq (get "generation" candidate) (int (pos 1))))
          _ _ k3 in
      both (is_text "ACTIVE" (get "state" candidate))
        (json_eq (get "generation" candidate) (int (pos 1))) t
    where
      both : (a b : Bool) → (not a || not b) ≡ false → (a ≡ true) × (b ≡ true)
      both a b q = ground arith

  was_free :
      (name : Text) (lease : Json) (root after : LockRoot)
      → publish_new h name lease root ≡ ok after
      → select (same_name name) root.entries ≡ []
  unfolding publish_new
  was_free name lease root after k = empty (select (same_name name) root.entries) k
    where
      empty :
          (r : List Entry)
          → (if is_empty r
              then ok (record root {
                entries = record { name = name; content = readable lease } ∷ root.entries;
              })
              else err (os_error "File exists"))
            ≡ ok after
          → r ≡ []
      empty [] q = refl
      empty (x ∷ r) q = cc

  acquire-Step :
      (at : ℕ → Moment) (explicit_root : Bool) (candidate : Json) (root after : LockRoot)
      → acquire h at explicit_root candidate root ≡ ok after
      → Step (view root.entries) (view after.entries)
  unfolding acquire
  acquire-Step at explicit_root candidate root after k =
      let (path, a, k1) = >>=-eq-ok (admit_candidate h (at 0) explicit_root candidate) _ k in
      let (name, _, k2) = >>=-eq-ok (text_of (get "lease_id" candidate)) _ k1 in
      let (_, _, k3) =
        >>=-eq-ok (verify_bound_lease_decision h (at 1).disk candidate path "lease:acquire") _ k2 in
      let (_, _, k4) = >>=-eq-ok ((at 1).git_guard candidate) _ k3 in
      let (_, _, k5) = >>=-eq-ok ((at 1).writer_binding candidate) _ k4 in
      let (_, _, k6) = >>=-eq-ok (refuse_overlaps h (at 2) candidate root.entries) _ k5 in
      let (_, _, k7) = >>=-eq-ok ((at 3).writer_binding candidate) _ k6 in
      let (_, _, k8) =
        >>=-eq-ok (verify_bound_lease_decision h (at 3).disk candidate path "lease:acquire") _ k7 in
      let (_, _, k9) = >>=-eq-ok (require_unexpired_acquisition h (at 4) candidate) _ k8 in
      let (is_active, first) = admitted_fact (at 0) explicit_root candidate a in
      subst (λ z. Step (view root.entries) (view z))
        (sym (published h name candidate root after k9))
        (claim name candidate (free_name name root.entries (was_free name candidate root after k9))
          is_active first (added-Sets name candidate root.entries))

  replacement_fact :
      (candidate : Json) (generation : ℤ)
      → check_replacement h candidate generation ≡ ok tt
      → IsActive candidate × At candidate (generation +ℤ pos 1)
  unfolding check_replacement
  replacement_fact candidate generation k =
      both (json_eq (get "generation" candidate) (int (generation +ℤ pos 1)))
        (is_text "ACTIVE" (get "state" candidate)) (truthy (get "decision_ref" candidate)) _ _ _ k
    where
      both :
          (a b c : Bool) (x y z : Exn)
          → (raise_if (not a) x >> (raise_if (not b) y >> raise_if (not c) z)) ≡ ok tt
          → (b ≡ true) × (a ≡ true)
      both a b c x y z q = ground arith

  pub Change-Step :
      (root after : LockRoot) → Change h root after → Step (view root.entries) (view after.entries)
  Change-Step root after (acquired at explicit_root candidate k) =
      acquire-Step at explicit_root candidate root after k
  Change-Step root after (replaced at explicit_root candidate generation k) =
      let r = replace-Replaced h at explicit_root candidate generation root after k in
      let (was_active, was_at) =
        check_current-active h "Only an ACTIVE lease can be replaced" r.name r.current generation
          r.checked in
      let (is_active, next) = replacement_fact candidate generation r.successor in
      let was = read_entry-view h r.name root.entries r.current r.was in
      subst (λ z. Step (view root.entries) (view z)) (sym r.published.entries)
        (renew r.name r.current candidate generation was was_active was_at is_active next
          (overwrite-Sets h r.name r.current candidate root.entries was))
  Change-Step root after (released at explicit_root lease_id generation outcome_ref candidate k) =
      let r =
        release-Released h at explicit_root lease_id generation outcome_ref candidate root after
          k in
      let was = read_entry-view h lease_id root.entries r.current r.was in
      subst (λ z. Step (view root.entries) (view z)) (sym r.entries)
        (close lease_id r.current r.closed generation was r.was_active r.was_at r.is_closed.0
          r.is_closed.1 (overwrite-Sets h lease_id r.current r.closed root.entries was))

  -- A step leaves a record that is not ACTIVE.
  kept_by_step :
      (before after : View) (name : Text) (lease : Json)
      → Step before after
      → before name ≡ some (readable lease)
      → is_text "ACTIVE" (get "state" lease) ≡ false
      → after name ≡ some (readable lease)
  kept_by_step before after name lease s b d = by_step s
    where
      untouched :
          (n : Text) (new : Json)
          → Sets n new before after
          → (n ≡ name → ⊥)
          → after name ≡ some (readable lease)
      untouched n new set differ = elim (Bool-cases (text_eq n name)) [
        | inl e ↦ absurd (differ ((text_eq_iff n name).0 e))
        | inr e ↦ set.elsewhere name e ∙ b
      ]

      was_active : (old : Json) → before name ≡ some (readable old) → IsActive old → ⊥
      was_active old v a =
          clash (is_text "ACTIVE" (get "state" lease))
            (subst (λ z. is_text "ACTIVE" (get "state" z) ≡ true) (same old (sym v ∙ b)) a) d
        where
          same : (x : Json) → some (readable x) ≡ some (readable lease) → x ≡ lease
          same x q = cc

          clash : (c : Bool) → c ≡ true → c ≡ false → ⊥
          clash c p q = cc

      was_none : before name ≡ none → ⊥
      was_none v = cc

      by_step : Step before after → after name ≡ some (readable lease)
      by_step (claim n new free _ _ set) =
          untouched n new set (λ e. was_none (subst (λ z. before z ≡ none) e free))
      by_step (renew n old new g v a _ _ _ set) =
          untouched n new set
            (λ e. was_active old (subst (λ z. before z ≡ some (readable old)) e v) a)
      by_step (close n old new g v a _ _ _ set) =
          untouched n new set
            (λ e. was_active old (subst (λ z. before z ≡ some (readable old)) e v) a)

  -- Once the record of a lease is no longer ACTIVE, no sequence of operations changes it: whatever
  -- acquisitions, replacements and releases succeed, the lease is never claimed again.
  pub Changes-final :
      (root after : LockRoot) (name : Text) (lease : Json)
      → Changes h root after
      → view root.entries name ≡ some (readable lease)
      → is_text "ACTIVE" (get "state" lease) ≡ false
      → view after.entries name ≡ some (readable lease)
  Changes-final root after name lease unchanged v d = v
  Changes-final root after name lease (then_one {before} cs c) v d =
      kept_by_step (view before.entries) (view after.entries) name lease
        (Change-Step before after c) (Changes-final root before name lease cs v d) d
