-- ===== src/Decisions/Verified.antt =====
-- What a decision that `verify_decision` accepts is.
use coordination_loop_harnes.Base.{
  ℕ, ◌==◌, Bool, true, false, ◌&&◌, ◌||◌, not, Option, none, some, List, [], ◌∷◌, String, Text,
  Result, ok, ◌>>=◌, ◌≡◌, refl, sym, ap, subst, ◌∙◌, arith, inl, inr, >>=-eq-ok, raise_if-eq-ok,
  Bool-cases, append_nil, caught, caught-some,
}
use coordination_loop_harnes.Json.{Json, get, is_text, is_list, is_object, json_eq}
use coordination_loop_harnes.Util.Host.{Host}
use coordination_loop_harnes.Util.Validation.{validate_document}
use coordination_loop_harnes.Util.Disk.{Disk, load_json, ensure_within}
use coordination_loop_harnes.Decisions.Chain.{
  positive_sequence, when, accepted, markdown_findings, verify_predecessor_chain,
}
use coordination_loop_harnes.Decisions.Rounds.{sequence_one}
use coordination_loop_harnes.Decisions.Lineage.{Lineage, origin, chain-Lineage}
use coordination_loop_harnes.Decisions.Heads.{holds, Head, Head-fact, Covers, lease_fact}
use coordination_loop_harnes.Decisions.Verify.{
  Report, report_of, unread, entry, authorizes, digest_invalid, head_findings, lease_findings,
  chain_fuel, chain_findings, answer, later_findings, if_later, decision_findings, read_decision,
  verify_decision,
}

pair_ok : (a b : Text × Json) → ok a ≡ ok b → (a.0 ≡ b.0) × (a.1 ≡ b.1)
pair_ok a b k = let e : a ≡ b = cc in (λ i. (e i).0, λ i. (e i).1)

report_eq : (a b : Report) → ok a ≡ ok b → a ≡ b
report_eq a b k = cc

module _ (h : Host) (d : Disk) (run_id : Json) (action : String) (lease_id lease_generation : Json)
    (safe : Bool) where
  -- An accepted decision: read from a path inside the root, valid by its schema, of the run,
  -- accepted, authorizing the action, covering the lease, with its Markdown companion, and with an
  -- unbroken lineage of predecessors.
  pub record Verified (path : Text) (report : Report) : Type 0 where
    pub found : Text
    pub decision : Json
    pub within : ensure_within d false path ≡ ok found
    pub is_there : load_json d found ≡ ok decision
    pub schema_valid : validate_document h decision ≡ ok []
    pub version : is_text "coord.decision.v2" (get "schema_version" decision) ≡ true
    pub same_run : json_eq (get "run_id" decision) run_id ≡ true
    pub is_accepted : accepted (get "status" decision) ≡ true
    pub authorized : authorizes action decision (entry "authorized_actions" decision) ≡ ok true
    pub covers_lease : Covers "lease_id" lease_id decision
    pub covers_generation : Covers "lease_generation" lease_generation decision
    pub digested : safe ≡ true → digest_invalid (get "lease_candidate_sha256" decision) ≡ false
    pub companion : markdown_findings d found decision ≡ []
    pub sequence : ℕ
    pub lineage : Lineage h d run_id safe sequence decision
    pub reported : report ≡ report_of decision []

  Lineage-fact :
      (path : Text) (decision : Json)
      → Head safe run_id decision
      → chain_findings h d run_id safe path decision ≡ ok []
      → (n : ℕ) × Lineage h d run_id safe n decision
  unfolding chain_findings later_findings
  Lineage-fact path decision head k = elim (Bool-cases (head.sequence == 1)) [
    | inl first ↦
        let at = head.numbered ∙ ap some (one head.sequence first) in
        (
          1,
          origin at
              (absent _ _ (sequence_one safe (get "sequence" decision) at) head.first_has_none),
        )
    | inr more ↦
        let later =
          reached (positive_sequence safe (get "sequence" decision)) head.sequence _ head.numbered
            more k in
        let (resolved, _, k1) = >>=-eq-ok (d.resolve path) _ later in
        chain-Lineage h d run_id safe path (chain_fuel d) (resolved ∷ []) decision (
          answered
            (verify_predecessor_chain h d run_id safe path (chain_fuel d) (resolved ∷ []) decision)
            k1)
  ]
    where
      one : (n : ℕ) → (n == 1) ≡ true → n ≡ 1
      one n e = ground arith

      absent : (a b : Bool) → a ≡ true → (a && not b) ≡ false → b ≡ true
      absent a b p q = ground arith

      answered : (o : Option (Result (List String))) → answer o ≡ ok [] → o ≡ some (ok [])
      answered none q = cc
      answered (some r) q = ap some q

      reached :
          (o : Option ℕ) (n : ℕ) (r : Result (List String))
          → o ≡ some n
          → (n == 1) ≡ false
          → if_later o r ≡ ok []
          → r ≡ ok []
      reached none n r p q e = cc
      reached (some m) n r p q e = ground arith

  read_fact :
      (path found : Text) (decision : Json)
      → read_decision d path ≡ ok (found, decision)
      → (ensure_within d false path ≡ ok found) × (load_json d found ≡ ok decision)
  unfolding read_decision
  read_fact path found decision k =
      let (p, a, k1) = >>=-eq-ok (ensure_within d false path) _ k in
      let (v, b, k2) = >>=-eq-ok (load_json d p) _ k1 in
      let same = pair_ok (p, v) (found, decision) k2 in
      (a ∙ ap ok same.0, subst (λ z. load_json d z ≡ ok decision) same.0 (b ∙ ap ok same.1))

  found_fact :
      (path found : Text) (decision : Json) (fs : List String)
      → read_decision d path ≡ ok (found, decision)
      → decision_findings h d run_id action lease_id lease_generation safe found decision ≡ ok []
      → Verified path (report_of decision [])
  unfolding decision_findings
  found_fact path found decision fs r k =
      let (errors, e, k1) = >>=-eq-ok (validate_document h decision) _ k in
      let (_, k2) =
        raise_if-eq-ok (is_list (get "status" decision) || is_object (get "status" decision)) _ _
          k1 in
      let (chain, c, k3) = >>=-eq-ok (chain_findings h d run_id safe found decision) _ k2 in
      let (authorized, z, k4) =
        >>=-eq-ok (authorizes action decision (entry "authorized_actions" decision)) _ k3 in
      let f1 = append_nil errors _ (payload _ k4) in
      let f2 = append_nil (head_findings safe run_id decision) _ f1.1 in
      let f3 = append_nil chain _ f2.1 in
      let f4 = append_nil (when (not authorized) "decision does not authorize action") _ f3.1 in
      let f5 = append_nil (lease_findings safe lease_id lease_generation decision) _ f4.1 in
      let head = Head-fact safe run_id decision f2.0 in
      let lease = lease_fact safe lease_id lease_generation decision f5.0 in
      let line = Lineage-fact found decision head (c ∙ ap ok f3.0) in
      let there = read_fact path found decision r in
      record {
        found = found;
        decision = decision;
        within = there.0;
        is_there = there.1;
        schema_valid = e ∙ ap ok f1.0;
        version = head.version;
        same_run = head.same_run;
        is_accepted = head.is_accepted;
        authorized = z ∙ ap ok (holds authorized _ f4.0);
        covers_lease = lease.0;
        covers_generation = lease.1;
        digested = lease.2;
        companion = f5.1;
        sequence = line.0;
        lineage = line.1;
        reported = refl;
      }
    where
      payload : (fs : List String) → ok fs ≡ ok [] → fs ≡ []
      payload fs q = cc

  -- A report of `verify_decision` without a finding is that of a decision inside the root that is
  -- valid by its schema, of the run, accepted, authorizes the action, covers the lease and the
  -- generation asked for, has the candidate digest where one is required, and its Markdown
  -- companion; and whose sequence counts an unbroken chain of accepted predecessors of the same
  -- run, down to a first decision that names none.
  pub verify_decision-Verified :
      (path : Text) (report : Report)
      → verify_decision h d path run_id action lease_id lease_generation safe ≡ ok report
      → report.findings ≡ []
      → Verified path report
  unfolding verify_decision
  verify_decision-Verified path report k empty =
      let (o, e, k1) = >>=-eq-ok (caught (read_decision d path)) _ k in read o e k1
    where
      read :
          (o : Option (Text × Json))
          → caught (read_decision d path) ≡ ok o
          → elim o [
            | none ↦ ok (unread "the decision cannot be read")
            | some (p, v) ↦
                decision_findings h d run_id action lease_id lease_generation safe p v
                >>= λ findings. ok (report_of v findings)
          ]
            ≡ ok report
          → Verified path report
      read none p q = cc
      read (some (found, decision)) p q =
          let (fs, f, q1) =
            >>=-eq-ok
              (decision_findings h d run_id action lease_id lease_generation safe found decision) _
              q in
          let none_left : fs ≡ [] = cc in
          subst (Verified path)
            (report_eq (report_of decision []) report
              (ap (λ g. ok (report_of decision g)) (sym none_left) ∙ q1))
            (found_fact path found decision fs
              (caught-some (read_decision d path) (found, decision) p) (f ∙ ap ok none_left))
