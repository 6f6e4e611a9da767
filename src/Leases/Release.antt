-- ===== src/Leases/Release.antt =====
-- What a successful `release` leaves.
use coordination_loop_harnes.Base.{
  ℕ, Bool, true, false, not, Option, none, some, Text, codes, text_eq, is_empty, if◌then◌else◌,
  Result, ok, err, ◌≡◌, refl, ap, subst, ◌∙◌, arith, ◌⊎◌, inl, inr, >>=-eq-ok, raise_if-eq-ok, Exn,
  String, raise_if, ◌>>◌, sym,
}
use coordination_loop_harnes.Base.Int.{ℤ, pos, ◌+ℤ◌, eqb_ℤ, eqb_ℤ_iff}
use coordination_loop_harnes.Json.{
  Json, null, bool, int, real, str, arr, obj, get, put, is_text, is_object, json_eq, shift,
}
use coordination_loop_harnes.Json.Update.{get-put, get-put_other, put-IsObject}
use coordination_loop_harnes.Leases.AccessLaws.{text_eq_iff}
use coordination_loop_harnes.Util.Host.{Host}
use coordination_loop_harnes.Util.Safe.{is_safe_id}
use coordination_loop_harnes.Leases.Sets.{is_v1, is_v2}
use coordination_loop_harnes.Leases.Validate.{validate_lease}
use coordination_loop_harnes.Leases.Registry.{LockRoot, Moment, others, overwrite}
use coordination_loop_harnes.Leases.Changes.{
  read_entry, check_current, legacy_released, check_terminal_candidate, authorized_now, close_with,
  release_v2, check_self_writer, release_v1, released_record, release,
}
use coordination_loop_harnes.Leases.Apart.{Exclusive}
use coordination_loop_harnes.Leases.Exclusive.{written_entry, dead_apart, Exclusive-overwrite}
use coordination_loop_harnes.Leases.Replacement.{read_alone}

module _ (h : Host) where
  -- What `release` leaves: the next generation, and no longer ACTIVE.
  abbrev pub Closed : ℤ → Json → Type 0
  Closed generation closed =
      (is_text "ACTIVE" (get "state" closed) ≡ false)
      × (json_eq (get "generation" closed) (int (generation +ℤ pos 1)) ≡ true)

  legacy_released-Closed :
      (current : Json) (generation : ℤ) (utc_now outcome_ref : Text)
      → is_object current ≡ true
      → Closed generation (legacy_released current generation utc_now outcome_ref)
  unfolding legacy_released json_eq
  legacy_released-Closed current generation utc_now outcome_ref o =
      let s1 = put "state" (str (codes "RELEASED")) current in
      let s2 = put "generation" (int (generation +ℤ pos 1)) s1 in
      let s3 = put "released_utc" (str utc_now) s2 in
      let s4 = put "outcome_ref" (str outcome_ref) s3 in
      let state =
        get-put_other "active_writer_repository" "state" null s4 refl
        ∙ get-put_other "outcome_ref" "state" _ s3 refl
        ∙ get-put_other "released_utc" "state" _ s2 refl
        ∙ get-put_other "generation" "state" _ s1 refl
        ∙ get-put "state" (str (codes "RELEASED")) current o in
      let next =
        get-put_other "active_writer_repository" "generation" null s4 refl
        ∙ get-put_other "outcome_ref" "generation" _ s3 refl
        ∙ get-put_other "released_utc" "generation" _ s2 refl
        ∙ get-put "generation" (int (generation +ℤ pos 1)) s1
            (put-IsObject "state" (str (codes "RELEASED")) current o) in
      (
        ap (is_text "ACTIVE") state,
        ap (λ v. json_eq v (int (generation +ℤ pos 1))) next
            ∙ next_eq (shift (generation +ℤ pos 1) 0),
      )
    where
      next_eq : (z : ℤ) → eqb_ℤ z z ≡ true
      next_eq z = (eqb_ℤ_iff z z).1 refl

  release_v1-Closed :
      (at : ℕ → Moment) (current : Json) (generation : ℤ) (outcome_ref : Option Text)
      (closed : Json)
      → is_object current ≡ true
      → release_v1 h at current generation outcome_ref ≡ ok closed
      → Closed generation closed
  unfolding release_v1
  release_v1-Closed at current generation none closed o k = cc
  release_v1-Closed at current generation (some ref) closed o k =
      let (_, k1) = raise_if-eq-ok (is_empty ref) _ _ k in
      let (_, _, k2) = >>=-eq-ok (check_self_writer h (at 1) current) _ k1 in
      let (_, _, k3) = >>=-eq-ok (at 2).entry_unchanged _ k2 in
      subst (Closed generation) (same (legacy_released current generation (at 2).utc_now ref) k3)
        (legacy_released-Closed current generation (at 2).utc_now ref o)
    where
      same : (v : Json) → ok v ≡ ok closed → v ≡ closed
      same v q = cc

  released_not_active : (v : Json) → is_text "RELEASED" v ≡ true → is_text "ACTIVE" v ≡ false
  released_not_active (str t) k =
      ap (λ s. text_eq s (codes "ACTIVE")) ((text_eq_iff t (codes "RELEASED")).0 k)
  released_not_active null k = cc
  released_not_active (bool b) k = cc
  released_not_active (int z) k = cc
  released_not_active (real z e) k = cc
  released_not_active (arr xs) k = cc
  released_not_active (obj fs) k = cc

  check_terminal_candidate-Closed :
      (lease_id : Text) (candidate current : Json) (generation : ℤ)
      → check_terminal_candidate h lease_id candidate current generation ≡ ok tt
      → Closed generation candidate
  unfolding check_terminal_candidate
  check_terminal_candidate-Closed lease_id candidate current generation k =
      let (_, k1) =
        raise_if-eq-ok (not (json_eq (get "lease_id" candidate) (str lease_id))) _ _ k in
      let (s, k2) = raise_if-eq-ok (not (is_text "RELEASED" (get "state" candidate))) _ _ k1 in
      let (g, _) =
        raise_if-eq-ok (not (json_eq (get "generation" candidate) (int (generation +ℤ pos 1)))) _ _
          k2 in
      (
        released_not_active (get "state" candidate)
            (positive (is_text "RELEASED" (get "state" candidate)) s),
        positive (json_eq (get "generation" candidate) (int (generation +ℤ pos 1))) g,
      )
    where
      positive : (b : Bool) → not b ≡ false → b ≡ true
      positive b q = ground arith

  close_with-Closed :
      (at : ℕ → Moment) (lease_id : Text) (current : Json) (generation : ℤ)
      (candidate : Option Json) (closed : Json)
      → close_with h at lease_id current generation candidate ≡ ok closed
      → Closed generation closed
  unfolding close_with
  close_with-Closed at lease_id current generation none closed k = cc
  close_with-Closed at lease_id current generation (some candidate) closed k =
      let (_, _, k1) = >>=-eq-ok (validate_lease h candidate true true) _ k in
      let (_, c, k2) =
        >>=-eq-ok (check_terminal_candidate h lease_id candidate current generation) _ k1 in
      let (_, _, k3) = >>=-eq-ok ((at 1).writer_binding current) _ k2 in
      let (_, _, k4) = >>=-eq-ok (authorized_now h (at 1) candidate current) _ k3 in
      let (_, _, k5) = >>=-eq-ok ((at 2).git_guard current) _ k4 in
      let (_, _, k6) = >>=-eq-ok ((at 2).writer_binding current) _ k5 in
      let (_, _, k7) = >>=-eq-ok (authorized_now h (at 2) candidate current) _ k6 in
      let (_, _, k8) = >>=-eq-ok ((at 3).writer_binding current) _ k7 in
      let (_, _, k9) = >>=-eq-ok (authorized_now h (at 3) candidate current) _ k8 in
      let (_, _, k10) = >>=-eq-ok (at 3).entry_unchanged _ k9 in
      let (_, _, k11) = >>=-eq-ok (authorized_now h (at 4) candidate current) _ k10 in
      subst (Closed generation) (same candidate k11)
        (check_terminal_candidate-Closed lease_id candidate current generation c)
    where
      same : (v : Json) → ok v ≡ ok closed → v ≡ closed
      same v q = cc

  released_record-Closed :
      (at : ℕ → Moment) (explicit_root : Bool) (lease_id : Text) (current : Json) (generation : ℤ)
      (outcome_ref : Option Text) (candidate : Option Json) (closed : Json)
      → is_object current ≡ true
      → released_record h at explicit_root lease_id current generation outcome_ref candidate
        ≡ ok closed
      → Closed generation closed
  unfolding released_record release_v2
  released_record-Closed at explicit_root lease_id current generation outcome_ref candidate closed o
        k =
      elim (pick (is_v2 current) (is_v1 current) _ _ _ k) [
        | inl v2 ↦
            let (_, k1) = raise_if-eq-ok (not explicit_root) _ _ v2 in
            let (_, _, k2) = >>=-eq-ok (validate_lease h current true true) _ k1 in
            close_with-Closed at lease_id current generation candidate closed k2
        | inr v1 ↦ release_v1-Closed at current generation outcome_ref closed o v1
      ]
    where
      pick :
          (a b : Bool) (x y : Result Json) (e : Exn)
          → (if a then x else if b then y else err e) ≡ ok closed
          → (x ≡ ok closed) ⊎ (y ≡ ok closed)
      pick a b x y e q = ground arith

  active_object : (v : Json) → is_text "ACTIVE" (get "state" v) ≡ true → is_object v ≡ true
  unfolding get
  active_object (obj fs) k = refl
  active_object null k = cc
  active_object (bool b) k = cc
  active_object (int z) k = cc
  active_object (real z e) k = cc
  active_object (str s) k = cc
  active_object (arr xs) k = cc

  -- What both `replace` and `release` know of the record that they change.
  pub check_current-active :
      (message : String) (name : Text) (current : Json) (generation : ℤ)
      → check_current message name current generation ≡ ok tt
      → (is_text "ACTIVE" (get "state" current) ≡ true)
        × (json_eq (get "generation" current) (int generation) ≡ true)
  unfolding check_current
  check_current-active message name current generation k =
      tests (json_eq (get "lease_id" current) (str name)) (is_text "ACTIVE" (get "state" current))
        (json_eq (get "generation" current) (int generation)) _ _ _ k
    where
      tests :
          (a b c : Bool) (x y z : Exn)
          → (raise_if (not a) x >> (raise_if (not b) y >> raise_if (not c) z)) ≡ ok tt
          → (b ≡ true) × (c ≡ true)
      tests a b c x y z q = ground arith

  -- What a successful `release` went through.
  pub record Released (lease_id : Text) (generation : ℤ) (root after : LockRoot) : Type 0 where
    pub current : Json
    pub closed : Json
    pub was : read_entry h lease_id root.entries ≡ ok current
    pub was_active : is_text "ACTIVE" (get "state" current) ≡ true
    pub was_at : json_eq (get "generation" current) (int generation) ≡ true
    pub is_closed : Closed generation closed
    pub entries : after.entries ≡ overwrite h lease_id closed root.entries

  pub release-Released :
      (at : ℕ → Moment) (explicit_root : Bool) (lease_id : Text) (generation : ℤ)
      (outcome_ref : Option Text) (candidate : Option Json) (root after : LockRoot)
      → release h at explicit_root lease_id generation outcome_ref candidate root ≡ ok after
      → Released lease_id generation root after
  unfolding release
  release-Released at explicit_root lease_id generation outcome_ref candidate root after k =
      let (_, k1) = raise_if-eq-ok (not (is_safe_id lease_id)) _ _ k in
      let (current, was, k2) = >>=-eq-ok (read_entry h lease_id root.entries) _ k1 in
      let (_, _, k3) = >>=-eq-ok (at 0).entry_unchanged _ k2 in
      let (_, c, k4) =
        >>=-eq-ok (check_current "Lease is not ACTIVE" lease_id current generation) _ k3 in
      let (closed, r, k5) =
        >>=-eq-ok
          (released_record h at explicit_root lease_id current generation outcome_ref candidate) _
          k4 in
      let (was_active, was_at) =
        check_current-active "Lease is not ACTIVE" lease_id current generation c in
      record {
        current = current;
        closed = closed;
        was = was;
        was_active = was_active;
        was_at = was_at;
        is_closed =
            released_record-Closed at explicit_root lease_id current generation outcome_ref
              candidate closed (active_object current was_active) r;
        entries = ap (λ z. z.entries) (done _ k5);
      }
    where
      done : (a : LockRoot) → ok a ≡ ok after → after ≡ a
      done a q = cc

  pub release-Exclusive :
      (at : ℕ → Moment) (explicit_root : Bool) (lease_id : Text) (generation : ℤ)
      (outcome_ref : Option Text) (candidate : Option Json) (root after : LockRoot)
      → Exclusive h root.entries
      → release h at explicit_root lease_id generation outcome_ref candidate root ≡ ok after
      → Exclusive h after.entries
  release-Exclusive at explicit_root lease_id generation outcome_ref candidate root after ex k =
      let r =
        release-Released at explicit_root lease_id generation outcome_ref candidate root after k in
      let dead = ap (λ b. if b then some r.closed else none) r.is_closed.0 in
      subst (Exclusive h) (sym r.entries) (
        Exclusive-overwrite h lease_id r.closed root.entries ex
          (read_alone h lease_id root.entries r.current r.was)
          (dead_apart h (written_entry lease_id r.closed) (others h lease_id root.entries) dead))
