-- ===== src/Leases/Protected/Lineage.antt =====
-- What a verified custody rests on: the whole chain of archived records.
use coordination_loop_harnes.Base.{
  ℕ, zero, suc, ◌<◌, ◌≤◌, Bool, true, false, ◌||◌, not, Text, ok, ◌≡◌, refl, sym, ap, subst, ◌∙◌,
  arith, ◌⊎◌, inl, inr, >>=-eq-ok, raise_if-eq-ok,
}
use coordination_loop_harnes.Base.Int.{pos}
use coordination_loop_harnes.Json.{Json, str, int, get, is_text, json_eq}
use coordination_loop_harnes.Util.Host.{Host}
use coordination_loop_harnes.Util.Disk.{Disk, load_json}
use coordination_loop_harnes.Decisions.Verify.{Report}
use coordination_loop_harnes.Leases.Sets.{is_v2}
use coordination_loop_harnes.Leases.Validate.{validate_lease, text_of}
use coordination_loop_harnes.Leases.Authority.{within_repository, verify_bound_lease_decision}
use coordination_loop_harnes.Leases.Changes.{changes_any, identity_fields}
use coordination_loop_harnes.Leases.Protected.Custody.{
  action_at, check_ancestry, load_archived, previous_generation, lineage,
}

module _ (h : Host) (d locks : Disk) (lease_id : Text) where
  -- An archived record and the record that follows it, whose decision is `next_ref`.
  pub record Ancestor (generation : ℕ) (next_ref : Text) (newer : Json) : Type 0 where
    pub older : Json
    pub archived : load_archived locks lease_id generation ≡ ok older
    pub of_lease : json_eq (get "lease_id" older) (str lease_id) ≡ true
    pub at_generation : json_eq (get "generation" older) (int (pos generation)) ≡ true
    pub was_active : is_text "ACTIVE" (get "state" older) ≡ true
    pub v2 : is_v2 older ≡ true
    pub valid : validate_lease h older true false ≡ ok tt
    pub same_identity : changes_any identity_fields older newer ≡ false
    pub newer_decision : Json
    pub decided : load_json d (d.join d.root next_ref) ≡ ok newer_decision
    pub follows :
        json_eq (get "previous_decision_ref" newer_decision) (get "decision_ref" older) ≡ true
    pub path : Text
    pub report : Report
    pub authorized : verify_bound_lease_decision h d older path (action_at generation) ≡ ok report

  Ancestor-fact :
      (generation : ℕ) (next_ref : Text) (newer previous : Json)
      → previous_generation h d locks lease_id generation next_ref newer ≡ ok previous
      → (a : Ancestor generation next_ref newer) × (a.older ≡ previous)
  unfolding previous_generation check_ancestry
  Ancestor-fact generation next_ref newer previous k =
      let (next_decision, a, k1) = >>=-eq-ok (load_json d (d.join d.root next_ref)) _ k in
      let (older, b, k2) = >>=-eq-ok (load_archived locks lease_id generation) _ k1 in
      let (t, k3) =
        raise_if-eq-ok
          (not (json_eq (get "lease_id" older) (str lease_id))
            || not (json_eq (get "generation" older) (int (pos generation)))
            || not (is_text "ACTIVE" (get "state" older))
            || not (is_v2 older)
            || not (json_eq (get "previous_decision_ref" next_decision) (get "decision_ref" older)))
          _ _ k2 in
      let (same, k4) = raise_if-eq-ok (changes_any identity_fields older newer) _ _ k3 in
      let (_, v, k5) = >>=-eq-ok (validate_lease h older true false) _ k4 in
      let (ref, _, k6) = >>=-eq-ok (text_of (get "decision_ref" older)) _ k5 in
      let (path, _, k7) = >>=-eq-ok (within_repository h d true ref) _ k6 in
      let (report, r, k8) =
        >>=-eq-ok (verify_bound_lease_decision h d older path (action_at generation)) _ k7 in
      let (t1, t2, t3, t4, t5) = five _ _ _ _ _ t in
      (
        record {
          older = older;
          archived = b;
          of_lease = t1;
          at_generation = t2;
          was_active = t3;
          v2 = t4;
          valid = v;
          same_identity = same;
          newer_decision = next_decision;
          decided = a;
          follows = t5;
          path = path;
          report = report;
          authorized = r;
        },
        payload older k8,
      )
    where
      five :
          (a b c e f : Bool)
          → (not a || not b || not c || not e || not f) ≡ false
          → (a ≡ true) × (b ≡ true) × (c ≡ true) × (e ≡ true) × (f ≡ true)
      five a b c e f q = ground arith

      payload : (v : Json) → ok v ≡ ok previous → v ≡ previous
      payload v q = cc

  -- The archived record of a generation, and the one after it: the last of them is followed by the
  -- given record, each other by the archived record of the next generation.
  pub record Succession (last generation : ℕ) (next : Json) : Type 0 where
    pub newer : Json
    pub newer_is :
        ((generation ≡ last) × (newer ≡ next))
        ⊎ (load_archived locks lease_id (suc generation) ≡ ok newer)
    pub ref : Text
    pub newer_ref : text_of (get "decision_ref" newer) ≡ ok ref
    pub ancestor : Ancestor generation ref newer

  pub lineage-Succession :
      (n : ℕ) (next_ref : Text) (next : Json)
      → text_of (get "decision_ref" next) ≡ ok next_ref
      → lineage h d locks lease_id n next_ref next ≡ ok tt
      → (generation : ℕ) → 0 < generation
      → generation ≤ n
      → Succession n generation next
  unfolding lineage
  lineage-Succession zero next_ref next named k generation p q = absurd (omega arith)
  lineage-Succession (suc n) next_ref next named k generation p q =
      let (previous, a, k1) =
        >>=-eq-ok (previous_generation h d locks lease_id (suc n) next_ref next) _ k in
      let (ref, r, k2) = >>=-eq-ok (text_of (get "decision_ref" previous)) _ k1 in
      by_generation previous (Ancestor-fact (suc n) next_ref next previous a)
        (λ below. lineage-Succession n ref previous r k2 generation p below)
    where
      at_last :
          generation ≡ suc n
          → (older : Json) → (a : Ancestor (suc n) next_ref next) × (a.older ≡ older)
          → Succession (suc n) generation next
      at_last e older (a, _) =
          subst (λ g. Succession (suc n) g next) (sym e)
            (record {
              newer = next;
              newer_is = inl (refl, refl);
              ref = next_ref;
              newer_ref = named;
              ancestor = a;
            })

      -- The next archived record, where the induction stopped at the given one.
      lifted :
          (older : Json)
          → (a : Ancestor (suc n) next_ref next) × (a.older ≡ older)
          → Succession n generation older
          → Succession (suc n) generation next
      lifted older (a, e) s = record {
        newer = s.newer;
        newer_is = inr (found s.newer_is);
        ref = s.ref;
        newer_ref = s.newer_ref;
        ancestor = s.ancestor;
      }
        where
          found :
              ((generation ≡ n) × (s.newer ≡ older))
                ⊎ (load_archived locks lease_id (suc generation) ≡ ok s.newer)
              → load_archived locks lease_id (suc generation) ≡ ok s.newer
          found (inl (g, x)) =
              ap (λ z. load_archived locks lease_id (suc z)) g ∙ a.archived ∙ ap ok (e ∙ sym x)
          found (inr x) = x

      by_generation :
          (older : Json)
          → (a : Ancestor (suc n) next_ref next) × (a.older ≡ older)
          → (generation ≤ n → Succession n generation older)
          → Succession (suc n) generation next
      by_generation older a rest = elim (place generation n q) [
        | inl e ↦ at_last e older a
        | inr below ↦ lifted older a (rest below)
      ]
        where
          place : (g n : ℕ) → g ≤ suc n → (g ≡ suc n) ⊎ (g ≤ n)
          place g n le = ground arith
