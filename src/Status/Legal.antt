-- ===== src/Status/Legal.antt =====
-- What a transition of a run's status shows and writes.
use coordination_loop_harnes.Base.{
  Bool, true, false, not, Option, none, some, List, [], ◌∷◌, ◌++◌, String, Text, is_empty, ok,
  raise_if, ◌>>◌, ◌≡◌, refl, ap, subst, ◌∙◌, arith, >>=-eq-ok, raise_if-eq-ok, Exn,
}
use coordination_loop_harnes.Base.Int.{ℤ, pos, ◌+ℤ◌}
use coordination_loop_harnes.Json.{Json, null, str, arr, int, get, put, is_text, is_object, json_eq}
use coordination_loop_harnes.Json.Update.{get-put, get-put_other, put-IsObject}
use coordination_loop_harnes.Util.Host.{Host}
use coordination_loop_harnes.Util.Validation.{validate_document}
use coordination_loop_harnes.Util.Disk.{Disk, load_json, ensure_within}
use coordination_loop_harnes.Leases.Lifecycle.{entry, iterate}
use coordination_loop_harnes.Decisions.Verify.{Report, is_accepted, verify_decision}
use coordination_loop_harnes.Decisions.Verified.{Verified, verify_decision-Verified}
use coordination_loop_harnes.Status.Transition.{
  legal_transitions, is_legal, privileged, state_text, to_int, or_default, items_of, history_entry,
  update_status, posix_ref, status_path, authorize, check_status, transition_status,
}

-- The decision that a privileged transition rests on, and the reference that the history keeps.
abbrev pub Decided : Host → Disk → Text → Option String → Json → Type 0
Decided h d run_id none decision_ref = decision_ref ≡ null
Decided h d run_id (some action) decision_ref =
    (path : Text) × (report : Report) × Verified h d (str run_id) action null null false path report
    × (decision_ref ≡ str (posix_ref d path))

empty_nil : (r : Report) → is_accepted r ≡ true → r.findings ≡ []
empty_nil r k = go r.findings k
  where
    go : (fs : List String) → is_empty fs ≡ true → fs ≡ []
    go [] q = refl
    go (f ∷ fs) q = cc

authorize_fact :
    (h : Host) (d : Disk) (run_id : Text) (action : Option String) (decision_path : Option Text)
    (ref : Json)
    → authorize h d run_id action decision_path ≡ ok ref
    → Decided h d run_id action ref
unfolding authorize
authorize_fact h d run_id none path ref k = cc
authorize_fact h d run_id (some action) none ref k = cc
authorize_fact h d run_id (some action) (some path) ref k =
    let (p, _, k1) = >>=-eq-ok (ensure_within d true path) _ k in
    let (r, v, k2) = >>=-eq-ok (verify_decision h d p (str run_id) action null null false) _ k1 in
    let (a, k3) = raise_if-eq-ok (not (is_accepted r)) _ _ k2 in
    (
      p,
      r,
      verify_decision-Verified h d (str run_id) action null null false p r v
          (empty_nil r (positive (is_accepted r) a)),
      same (str (posix_ref d p)) k3,
    )
  where
    positive : (b : Bool) → not b ≡ false → b ≡ true
    positive b q = ground arith

    same : (v : Json) → ok v ≡ ok ref → ref ≡ v
    same v q = cc

loaded_object : (d : Disk) (p : Text) (v : Json) → load_json d p ≡ ok v → is_object v ≡ true
unfolding load_json
loaded_object d p v k = ground arith

-- The fields of an updated status that the next transition reads.
update_fact :
    (status : Json) (target : Text) (generation revision : ℤ) (checkpoint timestamp : Text)
    (history : List Json)
    → is_object status ≡ true
    → let doc = update_status status target generation revision checkpoint timestamp history in
      (get "state" doc ≡ str target)
      × (get "generation" doc ≡ int (generation +ℤ pos 1))
      × (get "history" doc ≡ arr (items_of history))
unfolding update_status
update_fact status target generation revision checkpoint timestamp history o =
    let s1 = put "state" (str target) status in
    let o1 = put-IsObject "state" (str target) status o in
    let s2 = put "generation" (int (generation +ℤ pos 1)) s1 in
    let o2 = put-IsObject "generation" (int (generation +ℤ pos 1)) s1 o1 in
    let s3 = put "revision" (int (revision +ℤ pos 1)) s2 in
    let o3 = put-IsObject "revision" (int (revision +ℤ pos 1)) s2 o2 in
    let s4 = put "checkpoint" (str checkpoint) s3 in
    let o4 = put-IsObject "checkpoint" (str checkpoint) s3 o3 in
    let s5 = put "updated_utc" (str timestamp) s4 in
    let o5 = put-IsObject "updated_utc" (str timestamp) s4 o4 in
    (
      get-put_other "history" "state" _ s5 refl
          ∙ get-put_other "updated_utc" "state" _ s4 refl
          ∙ get-put_other "checkpoint" "state" _ s3 refl
          ∙ get-put_other "revision" "state" _ s2 refl
          ∙ get-put_other "generation" "state" _ s1 refl
          ∙ get-put "state" (str target) status o,
      get-put_other "history" "generation" _ s5 refl
          ∙ get-put_other "updated_utc" "generation" _ s4 refl
          ∙ get-put_other "checkpoint" "generation" _ s3 refl
          ∙ get-put_other "revision" "generation" _ s2 refl
          ∙ get-put "generation" _ s1 o1,
      get-put "history" _ s5 o5,
    )

module _ (h : Host) (d : Disk) (run_id target : Text) (generation : ℤ)
    (timestamp checkpoint : Text) where
  pub record Transitioned (path : Text) (doc : Json) : Type 0 where
    pub status : Json
    pub decision_ref : Json
    pub past : List Json
    pub was : load_json d path ≡ ok status
    pub legal : is_legal legal_transitions (state_text (get "state" status)) (h.upper target) ≡ true
    pub expected : json_eq (get "generation" status) (int generation) ≡ true
    pub decided :
        Decided h d run_id
          (privileged (state_text (get "state" status)) (h.upper target))
          decision_ref
    pub new_state : get "state" doc ≡ str (h.upper target)
    pub new_generation : get "generation" doc ≡ int (generation +ℤ pos 1)
    pub past_kept : iterate (entry "history" status) ≡ ok past
    pub appended :
        get "history" doc
        ≡ arr (
            items_of (
              past
              ++ (history_entry
                    (state_text (get "state" status))
                    (h.upper target)
                    generation
                    timestamp
                    checkpoint
                    decision_ref
                  ∷ [])))
    pub schema_valid : validate_document h doc ≡ ok []

  status_fact :
      (status : Json)
      → check_status status (h.upper target) generation ≡ ok tt
      → (is_legal legal_transitions (state_text (get "state" status)) (h.upper target) ≡ true)
        × (json_eq (get "generation" status) (int generation) ≡ true)
  unfolding check_status
  status_fact status k =
      tests (is_text "coord.status.v2" (get "schema_version" status))
        (is_legal legal_transitions (state_text (get "state" status)) (h.upper target))
        (json_eq (get "generation" status) (int generation)) _ _ _ k
    where
      tests :
          (a b c : Bool) (x y z : Exn)
          → (raise_if (not a) x >> (raise_if (not b) y >> raise_if (not c) z)) ≡ ok tt
          → (b ≡ true) × (c ≡ true)
      tests a b c x y z q = ground arith

  -- A transition that succeeds goes from the state of the stored status to a target that the table
  -- allows, at the expected generation, and with a verified decision where the transition is
  -- privileged. What it writes has that state, the next generation, the whole earlier history with
  -- one record more, and is valid by its schema.
  pub transition_status-Transitioned :
      (decision_path : Option Text) (path : Text) (doc : Json)
      → transition_status h d run_id target generation timestamp checkpoint decision_path
        ≡ ok (path, doc)
      → Transitioned path doc
  unfolding transition_status
  transition_status-Transitioned decision_path path doc k =
      let (_, k1) = raise_if-eq-ok _ _ _ k in
      let (p, _, k2) = >>=-eq-ok (status_path d run_id) _ k1 in
      let (status, was, k3) = >>=-eq-ok (load_json d p) _ k2 in
      let (_, c, k4) = >>=-eq-ok (check_status status (h.upper target) generation) _ k3 in
      let (ref, a, k5) =
        >>=-eq-ok
          (authorize h d run_id (privileged (state_text (get "state" status)) (h.upper target))
            decision_path)
          _ k4 in
      let (past, i, k6) = >>=-eq-ok (iterate (entry "history" status)) _ k5 in
      let (revision, _, k7) =
        >>=-eq-ok (to_int h (or_default (entry "revision" status) (int generation))) _ k6 in
      let document =
        update_status status (h.upper target) generation revision checkpoint timestamp (
          past
          ++ (history_entry (state_text (get "state" status)) (h.upper target) generation timestamp
                checkpoint ref
              ∷ [])) in
      let (errors, v, k8) = >>=-eq-ok (validate_document h document) _ k7 in
      let (none_left, k9) = raise_if-eq-ok (not (is_empty errors)) _ _ k8 in
      let legal = status_fact status c in
      let fields =
        update_fact status (h.upper target) generation revision checkpoint timestamp _
          (loaded_object d p status was) in
      subst (λ (z : Text × Json). Transitioned z.0 z.1) (written (p, document) k9)
        (record {
          status = status;
          decision_ref = ref;
          past = past;
          was = was;
          legal = legal.0;
          expected = legal.1;
          decided =
              authorize_fact h d run_id
                (privileged (state_text (get "state" status)) (h.upper target)) decision_path ref a;
          new_state = fields.0;
          new_generation = fields.1;
          past_kept = i;
          appended = fields.2;
          schema_valid = v ∙ ap ok (empty errors none_left);
        })
    where
      written : (z : Text × Json) → ok z ≡ ok (path, doc) → z ≡ (path, doc)
      written z q = cc

      empty : (fs : List String) → not (is_empty fs) ≡ false → fs ≡ []
      empty [] q = refl
      empty (f ∷ fs) q = cc
