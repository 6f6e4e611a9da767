-- ===== src/Audit/Verify.antt =====
-- `_audit_result_semantic_findings` and `verify_audit`. The path is a resolved one.
use coordination_loop_harnes.Base.{
  ℕ, ◌==◌, Bool, false, not, ◌&&◌, Option, none, some, List, [], ◌∷◌, ◌++◌, String, Text, length,
  is_empty, if◌then◌else◌, Result, ok, err, type_error, caught, ◌>>=◌,
}
use coordination_loop_harnes.Base.Int.{pos}
use coordination_loop_harnes.Json.{
  Json, null, bool, int, real, str, arr, obj, get, to_list, count_fields, fields?, find, is_text,
  json_eq,
}
use coordination_loop_harnes.Util.Host.{Host}
use coordination_loop_harnes.Util.Validation.{validate_document}
use coordination_loop_harnes.Util.Disk.{Disk, File, find_file, load_json}
use coordination_loop_harnes.Decisions.Chain.{when}

-- A result that is no text fits any count.
unfoldable pub audit_result_semantic_findings : Json → ℕ → List String
audit_result_semantic_findings result finding_count =
    if is_text "PASS" result && not (finding_count == 0)
    then "PASS audit cannot contain findings" ∷ []
    else if is_text "FAIL" result && finding_count == 0
    then "FAIL audit requires at least one finding" ∷ []
    else if is_text "BLOCKED" result && finding_count == 0
    then "BLOCKED audit requires at least one explicit blocker reason" ∷ []
    else []

-- `audit.get("findings", [])`
abbrev pub listed_findings : Json → Option Json
listed_findings audit = elim (fields? audit) [ none ↦ none | some fs ↦ find "findings" fs ]

-- `len` of it
unfoldable pub finding_length : Option Json → Result ℕ
finding_length none = ok 0
finding_length (some (arr xs)) = ok (length (to_list xs))
finding_length (some (str s)) = ok (length s)
finding_length (some (obj fs)) = ok (count_fields fs)
finding_length (some null) = err (type_error "object has no len()")
finding_length (some (bool _)) = err (type_error "object has no len()")
finding_length (some (int _)) = err (type_error "object has no len()")
finding_length (some (real _ _)) = err (type_error "object has no len()")

-- The findings about the Markdown companion, which may not be there.
abbrev pub companion_at : Json → Option File → List String
companion_at audit none = "audit Markdown companion missing" ∷ []
companion_at audit (some f) =
    when (not (json_eq (get "markdown_sha256" audit) (str f.sha256)))
      "audit Markdown SHA-256 binding mismatch"

unfoldable pub companion_findings : Disk → Text → Json → List String
companion_findings d path audit = companion_at audit (find_file (d.markdown_of path) d.files)

-- What the report repeats of the audit.
pub record AuditClaims : Type 0 where
  pub audit : Text
  pub result : Json
  pub asserted_read_only : Json
  pub asserted_launched : Json
  pub verified_read_only : Json
  pub verified_launched : Json

-- The report; that of an audit which could not be read has no more than findings.
pub record AuditReport : Type 0 where
  pub is_ok : Bool
  pub findings : List String
  pub document : Option AuditClaims

abbrev pub claims_of : Text → Json → AuditClaims
claims_of path audit = record {
  audit = path;
  result = get "result" audit;
  asserted_read_only = get "read_only_asserted" audit;
  asserted_launched = get "independently_launched_asserted" audit;
  verified_read_only = get "read_only_verified" audit;
  verified_launched = get "independently_launched_verified" audit;
}

unfoldable pub audit_findings : Host → Disk → Text → Json → Result (List String)
audit_findings h d path audit = do
  errors ← validate_document h audit
  count ← finding_length (listed_findings audit)
  ok (
      errors
      ++ (when (not (is_text "coord.audit.v2" (get "schema_version" audit)))
            "audit verification requires coord.audit.v2"
          ++ (companion_findings d path audit
              ++ (when (not (json_eq (get "finding_count" audit) (int (pos count))))
                    "finding_count does not match findings"
                  ++ audit_result_semantic_findings (get "result" audit) count))))

unfoldable pub verify_audit : Host → Disk → Text → Result AuditReport
verify_audit h d path = caught (load_json d path) >>= λ loaded. elim loaded [
  | none ↦
      ok (record { is_ok = false; findings = "the audit cannot be read" ∷ []; document = none })
  | some audit ↦ audit_findings h d path audit >>= λ findings. ok (record {
    is_ok = is_empty findings;
    findings = findings;
    document = some (claims_of path audit);
  })
]
