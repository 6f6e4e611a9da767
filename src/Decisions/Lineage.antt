-- ===== src/Decisions/Lineage.antt =====
-- What an empty list of findings says of a decision's predecessors.
use coordination_loop_harnes.Base.{
  ℕ, zero, suc, ◌-◌, Bool, true, false, ◌||◌, not, Option, none, some, List, [], ◌∷◌, ◌++◌, String,
  Text, text_eq, Result, ok, err, ◌≡◌, refl, sym, ap, ◌∙◌, arith, inl, inr, >>=-eq-ok,
  raise_if-eq-ok, Bool-cases, append_nil,
}
use coordination_loop_harnes.Base.Int.{pos}
use coordination_loop_harnes.Json.{
  Json, int, get, is_null, is_text, is_list, is_object, text?, json_eq,
}
use coordination_loop_harnes.Util.Host.{Host}
use coordination_loop_harnes.Util.Validation.{validate_document}
use coordination_loop_harnes.Util.Disk.{Disk, load_json, ensure_within}
use coordination_loop_harnes.Decisions.Chain.{
  Next, stop, follow, positive_sequence, when, accepted, markdown_findings, next_decision,
  previous_findings, prepend, verify_predecessor_chain,
}
use coordination_loop_harnes.Decisions.Rounds.{
  Followed, follow_fact, stop_fact, positive_suc, sequence_int,
}

module _ (h : Host) (d : Disk) (run_id : Json) (portable : Bool) where
  -- A predecessor that stands: valid by its schema, with its Markdown companion, of the same run,
  -- accepted.
  pub record Stands (path : Text) (decision : Json) : Type 0 where
    pub is_there : load_json d path ≡ ok decision
    pub schema_valid : validate_document h decision ≡ ok []
    pub version : is_text "coord.decision.v2" (get "schema_version" decision) ≡ true
    pub companion : markdown_findings d path decision ≡ []
    pub same_run : json_eq (get "run_id" decision) run_id ≡ true
    pub is_accepted : accepted (get "status" decision) ≡ true

  -- A decision with sequence n, with n - 1 predecessors, each named by the one after it, down to
  -- one that names none.
  pub data Lineage : ℕ → Json → Type 0 where
    origin :
        {v : Json}
        → positive_sequence portable (get "sequence" v) ≡ some 1
        → is_null (get "previous_decision_ref" v) ≡ true
        → Lineage 1 v
    successor :
        {n : ℕ} {v previous : Json} {ref path : Text}
        → positive_sequence portable (get "sequence" v) ≡ some (suc n)
        → text? (get "previous_decision_ref" v) ≡ some ref
        → ensure_within d false (d.join d.root ref) ≡ ok path
        → Stands path previous
        → Lineage n previous
        → Lineage (suc n) v

  previous_fact :
      (n : ℕ) (path : Text) (v : Json)
      → load_json d path ≡ ok v
      → previous_findings h d run_id n path v ≡ ok []
      → Stands path v × (json_eq (get "sequence" v) (int (pos (n - 1))) ≡ true)
  unfolding previous_findings
  previous_fact n path v loaded k =
      let (errors, e, k1) = >>=-eq-ok (validate_document h v) _ k in
      let (_, k2) =
        raise_if-eq-ok (is_list (get "status" v) || is_object (get "status" v)) _ _ k1 in
      let a = append_nil errors _ (payload _ k2) in
      let b =
        append_nil
          (when (not (is_text "coord.decision.v2" (get "schema_version" v)))
            "decision verification requires coord.decision.v2")
          _ a.1 in
      let c = append_nil (markdown_findings d path v) _ b.1 in
      let r =
        append_nil (when (not (json_eq (get "run_id" v) run_id)) "decision run_id mismatch") _
          c.1 in
      let s =
        append_nil
          (when (not (json_eq (get "sequence" v) (int (pos (n - 1)))))
            "decision sequence is not contiguous")
          _ r.1 in
      (
        record {
          is_there = loaded;
          schema_valid = e ∙ ap ok a.0;
          version = holds _ _ b.0;
          companion = c.0;
          same_run = holds _ _ r.0;
          is_accepted = holds _ _ s.1;
        },
        holds _ _ s.0,
      )
    where
      payload : (fs : List String) → ok fs ≡ ok [] → fs ≡ []
      payload fs q = cc

      holds : (b : Bool) (s : String) → when (not b) s ≡ [] → b ≡ true
      holds b s q = ground arith

  Lineage-sequence :
      {n : ℕ} {v : Json} → Lineage n v → positive_sequence portable (get "sequence" v) ≡ some n
  Lineage-sequence (origin p _) = p
  Lineage-sequence (successor p _ _ _ _) = p

  prepend_nil :
      (fs : List String) (o : Option (Result (List String)))
      → prepend fs o ≡ some (ok [])
      → (fs ≡ []) × (o ≡ some (ok []))
  prepend_nil fs none k = cc
  prepend_nil fs (some (err e)) k = cc
  prepend_nil fs (some (ok gs)) k =
      let t = append_nil fs gs (cc) in (t.0, ap (λ g. some (ok g)) t.1)

  extend :
      (seen : List Text) (v : Json) (n : ℕ) (path resolved : Text) (previous : Json)
      → Followed d portable seen v n path resolved previous
      → previous_findings h d run_id n path previous ≡ ok []
      → (m : ℕ) × Lineage m previous
      → (m : ℕ) × Lineage m v
  extend seen v n path resolved previous f k (m, l) =
      let (s, q) = previous_fact n path previous f.is_there k in
      let same = sequence_int portable (get "sequence" previous) m (n - 1) (Lineage-sequence l) q in
      let at =
        f.at_n
        ∙ ap some (sym (ap suc same ∙ positive_suc d portable (get "sequence" v) n f.at_n)) in
      (suc m, successor at f.named f.within s l)

  module _ (decision_path : Text) where
    -- The rest of the loop gives a lineage, as far as the fuel goes.
    abbrev Continues : ℕ → Type 0
    Continues fuel =
        (seen : List Text) (v : Json)
        → verify_predecessor_chain h d run_id portable decision_path fuel seen v ≡ some (ok [])
        → (n : ℕ) × Lineage n v

    -- The rest of a round that has read a predecessor.
    abbrev judged :
        ℕ → List Text → Json → Text → Result (List String) → Option (Result (List String))
    judged fuel seen previous path (err e) = some (err e)
    judged fuel seen previous path (ok fs) = elim (text_eq path decision_path) [
      | true ↦ some (ok (fs ++ ("decision predecessor chain contains a cycle" ∷ [])))
      | false ↦
          prepend fs (verify_predecessor_chain h d run_id portable decision_path fuel seen previous)
    ]

    not_nil :
        (gs : List String)
        → some (ok (gs ++ ("decision predecessor chain contains a cycle" ∷ []))) ≡ some (ok [])
        → ⊥
    not_nil [] e = cc
    not_nil (g ∷ gs) e = cc

    judged_fact :
        (fuel : ℕ) (seen : List Text) (path : Text) (previous : Json) (w : Result (List String))
        → judged fuel seen previous path w ≡ some (ok [])
        → (w ≡ ok [])
          × (verify_predecessor_chain h d run_id portable decision_path fuel seen previous
              ≡ some (ok []))
    judged_fact fuel seen path previous (err e) q = cc
    judged_fact fuel seen path previous (ok fs) q = elim (Bool-cases (text_eq path decision_path)) [
      | inl same ↦ absurd (not_nil fs (rw (same, judged) at q))
      | inr other ↦ let t = prepend_nil fs _ (rw (other, judged) at q) in (ap ok t.0, t.1)
    ]

    the_findings : (gs : List String) → some (ok gs) ≡ some (ok []) → gs ≡ []
    the_findings gs e = cc

    abbrev round : ℕ → List Text → Result Next → Option (Result (List String))
    round fuel seen (err e) = some (err e)
    round fuel seen (ok (stop fs)) = some (ok fs)
    round fuel seen (ok (follow n path resolved previous)) =
        judged fuel (resolved ∷ seen) previous path (previous_findings h d run_id n path previous)

    round_fact :
        (fuel : ℕ) (seen : List Text) (v : Json) (r : Result Next)
        → Continues fuel
        → next_decision d portable seen v ≡ r
        → round fuel seen r ≡ some (ok [])
        → (m : ℕ) × Lineage m v
    round_fact fuel seen v (err e) ih p q = cc
    round_fact fuel seen v (ok (stop fs)) ih p q =
        let t = stop_fact d portable seen v (p ∙ ap (λ g. ok (stop g)) (the_findings fs q)) in
        (1, origin t.0 t.1)
    round_fact fuel seen v (ok (follow n path resolved previous)) ih p q =
        let t =
          judged_fact fuel (resolved ∷ seen) path previous
            (previous_findings h d run_id n path previous) q in
        extend seen v n path resolved previous
          (follow_fact d portable seen v n path resolved previous p) t.0
          (ih (resolved ∷ seen) previous t.1)

    -- A chain without a finding is a lineage down to a first decision.
    pub chain-Lineage : (fuel : ℕ) → Continues fuel
    unfolding verify_predecessor_chain
    chain-Lineage zero seen v k = cc
    chain-Lineage (suc fuel) seen v k =
        round_fact fuel seen v (next_decision d portable seen v) (chain-Lineage fuel) refl k
