-- ===== src/Audit/Sound.antt =====
-- What an audit that `verify_audit` passes is.
use coordination_loop_harnes.Base.{
  ℕ, ◌<◌, ◌==◌, Bool, true, false, not, ◌&&◌, Option, none, some, List, [], ◌∷◌, String, Text,
  is_empty, if◌then◌else◌, ok, ◌>>=◌, ◌≡◌, refl, sym, ap, ◌∙◌, arith, >>=-eq-ok, append_nil, caught,
  caught-some,
}
use coordination_loop_harnes.Base.Int.{pos}
use coordination_loop_harnes.Json.{Json, str, int, get, is_text, json_eq}
use coordination_loop_harnes.Util.Host.{Host}
use coordination_loop_harnes.Util.Validation.{validate_document}
use coordination_loop_harnes.Util.Disk.{Disk, File, find_file, load_json}
use coordination_loop_harnes.Decisions.Chain.{when}
use coordination_loop_harnes.Decisions.Heads.{holds}
use coordination_loop_harnes.Audit.Verify.{
  audit_result_semantic_findings, listed_findings, finding_length, companion_at, companion_findings,
  AuditReport, claims_of, audit_findings, verify_audit,
}

-- The result fits the number of findings.
pub record Consistent (result : Json) (count : ℕ) : Type 0 where
  pub passed : is_text "PASS" result ≡ true → count ≡ 0
  pub failed : is_text "FAIL" result ≡ true → 0 < count
  pub blocked : is_text "BLOCKED" result ≡ true → 0 < count

semantic_fact :
    (result : Json) (count : ℕ)
    → audit_result_semantic_findings result count ≡ []
    → Consistent result count
unfolding audit_result_semantic_findings
semantic_fact result count k = record { passed = tests.0; failed = tests.1; blocked = tests.2 }
  where
    cases :
        (p f b : Bool) (x y z : String)
        → (if p && not (count == 0)
            then x ∷ []
            else if f && count == 0
            then y ∷ []
            else if b && count == 0
            then z ∷ []
            else [])
          ≡ []
        → (p ≡ true → count ≡ 0) × (f ≡ true → 0 < count) × (b ≡ true → 0 < count)
    cases p f b x y z q = ground arith

    tests :
        (is_text "PASS" result ≡ true → count ≡ 0)
        × (is_text "FAIL" result ≡ true → 0 < count)
        × (is_text "BLOCKED" result ≡ true → 0 < count)
    tests = cases _ _ _ _ _ _ k

companion_fact :
    (d : Disk) (path : Text) (audit : Json)
    → companion_findings d path audit ≡ []
    → (f : File) × (find_file (d.markdown_of path) d.files ≡ some f)
      × (json_eq (get "markdown_sha256" audit) (str f.sha256) ≡ true)
unfolding companion_findings
companion_fact d path audit k = read (find_file (d.markdown_of path) d.files) refl k
  where
    read :
        (o : Option File)
        → find_file (d.markdown_of path) d.files ≡ o
        → companion_at audit o ≡ []
        → (f : File) × (find_file (d.markdown_of path) d.files ≡ some f)
          × (json_eq (get "markdown_sha256" audit) (str f.sha256) ≡ true)
    read none e q = cc
    read (some f) e q = (f, e, holds _ _ q)

module _ (h : Host) (d : Disk) (path : Text) where
  -- An audit that is bound to its files and consistent.
  pub record Sound (audit : Json) : Type 0 where
    pub schema_valid : validate_document h audit ≡ ok []
    pub version : is_text "coord.audit.v2" (get "schema_version" audit) ≡ true
    pub companion : File
    pub found : find_file (d.markdown_of path) d.files ≡ some companion
    pub bound : json_eq (get "markdown_sha256" audit) (str companion.sha256) ≡ true
    pub count : ℕ
    pub counted : finding_length (listed_findings audit) ≡ ok count
    pub stated : json_eq (get "finding_count" audit) (int (pos count)) ≡ true
    pub consistent : Consistent (get "result" audit) count

  Sound-fact : (audit : Json) → audit_findings h d path audit ≡ ok [] → Sound audit
  unfolding audit_findings
  Sound-fact audit k =
      let (errors, e, k1) = >>=-eq-ok (validate_document h audit) _ k in
      let (count, c, k2) = >>=-eq-ok (finding_length (listed_findings audit)) _ k1 in
      let f1 = append_nil errors _ (payload _ k2) in
      let f2 =
        append_nil
          (when (not (is_text "coord.audit.v2" (get "schema_version" audit)))
            "audit verification requires coord.audit.v2")
          _ f1.1 in
      let f3 = append_nil (companion_findings d path audit) _ f2.1 in
      let f4 =
        append_nil
          (when (not (json_eq (get "finding_count" audit) (int (pos count))))
            "finding_count does not match findings")
          _ f3.1 in
      let (file, there, same) = companion_fact d path audit f3.0 in
      record {
        schema_valid = e ∙ ap ok f1.0;
        version = holds _ _ f2.0;
        companion = file;
        found = there;
        bound = same;
        count = count;
        counted = c;
        stated = holds _ _ f4.0;
        consistent = semantic_fact (get "result" audit) count f4.1;
      }
    where
      payload : (fs : List String) → ok fs ≡ ok [] → fs ≡ []
      payload fs q = cc

  -- A report of `verify_audit` that is ok is that of an audit which is valid by its schema and of
  -- version 2; whose Markdown companion is there, with the digest that the audit states; which
  -- counts its findings; and whose result fits them: none where it is PASS, at least one where it
  -- is FAIL or BLOCKED.
  pub verify_audit-Sound :
      (report : AuditReport)
      → verify_audit h d path ≡ ok report
      → report.is_ok ≡ true
      → (audit : Json) × (load_json d path ≡ ok audit)
        × Sound audit
        × (report.document ≡ some (claims_of path audit))
  unfolding verify_audit
  verify_audit-Sound report k good =
      let (o, e, k1) = >>=-eq-ok (caught (load_json d path)) _ k in read o e k1
    where
      empty : (fs : List String) → is_empty fs ≡ true → fs ≡ []
      empty [] q = refl
      empty (x ∷ xs) q = cc

      same : (a b : AuditReport) → ok a ≡ ok b → a ≡ b
      same a b q = cc

      read :
          (o : Option Json)
          → caught (load_json d path) ≡ ok o
          → elim o [
            | none ↦ ok (record {
              is_ok = false;
              findings = "the audit cannot be read" ∷ [];
              document = none;
            })
            | some audit ↦ audit_findings h d path audit >>= λ findings. ok (record {
              is_ok = is_empty findings;
              findings = findings;
              document = some (claims_of path audit);
            })
          ]
            ≡ ok report
          → (audit : Json) × (load_json d path ≡ ok audit)
            × Sound audit
            × (report.document ≡ some (claims_of path audit))
      read none p q = cc
      read (some audit) p q =
          let (fs, f, q1) = >>=-eq-ok (audit_findings h d path audit) _ q in
          let s = same _ report q1 in
          let none_left = empty fs ((λ i. (s i).is_ok) ∙ good) in
          (
            audit,
            caught-some (load_json d path) audit p,
            Sound-fact audit (f ∙ ap ok none_left),
            λ i. (sym s i).document,
          )
