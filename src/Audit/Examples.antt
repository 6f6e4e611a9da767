-- ===== src/Audit/Examples.antt =====
-- An audit with one finding.
use coordination_loop_harnes.Base.{true, none, some, [], ◌∷◌, ◌++◌, codes, ok, ◌≡◌, refl, Text}
use coordination_loop_harnes.Base.Int.{pos}
use coordination_loop_harnes.Json.{Json, int, arr, obj, cons, nil, field, end, get, json_eq}
use coordination_loop_harnes.Util.Disk.{Disk, load_json}
use coordination_loop_harnes.Util.Validation.{validate_document, load_schema}
use coordination_loop_harnes.Leases.Fixture.{host, disk, text}
use coordination_loop_harnes.Audit.Verify.{
  claims_of, AuditReport, audit_result_semantic_findings, finding_length, companion_findings,
  audit_findings, verify_audit,
}
use coordination_loop_harnes.Audit.Sound.{Sound, verify_audit-Sound}

abbrev audit : Json
audit = obj (
    field "schema_version" (text "coord.audit.v2") (
      field "result" (text "FAIL") (
        field "finding_count" (int (pos 1)) (
          field "findings" (arr (cons (text "late") nil))
            (field "markdown_sha256" (text "ff") end)))))

abbrev path : Text
path = codes "/r/audits/a.json"

abbrev audit_disk : Disk
audit_disk = record disk {
  markdown_of = λ p. p ++ codes ".md";
  files =
      (path, record { parsed = some audit; sha256 = codes "00" })
      ∷ (path ++ codes ".md", record { parsed = none; sha256 = codes "ff" })
      ∷ [];
}

abbrev passing : AuditReport
passing = record { is_ok = true; findings = []; document = some (claims_of path audit) }

passes_audit : verify_audit host audit_disk path ≡ ok passing
unfolding verify_audit audit_findings companion_findings finding_length
    audit_result_semantic_findings load_json validate_document load_schema get json_eq
passes_audit = refl

verify_audit-Sound_example :
    (v : Json) × (load_json audit_disk path ≡ ok v)
    × Sound host audit_disk path v
    × (passing.document ≡ some (claims_of path v))
verify_audit-Sound_example = verify_audit-Sound host audit_disk path passing passes_audit refl
