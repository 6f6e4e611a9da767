-- ===== src/Util/Validation.antt =====
-- validation.py: `validate_document`. The JSON Schema validator is an argument.
use coordination_loop_harnes.Base.{
  true, false, none, some, List, [], ◌∷◌, String, Text, codes, text_eq, Result, ok, err,
  value_error,
}
use coordination_loop_harnes.Json.{Json, get, text?}
use coordination_loop_harnes.Util.Host.{Host}

-- The keys of `SCHEMA_BY_VERSION`.
abbrev schema_versions : List String
schema_versions =
    "coord.request.v1" ∷ "coord.plan.v1" ∷ "coord.goal.v1" ∷ "coord.manifest.v1" ∷ "coord.status.v1"
    ∷ "coord.outcome.v1" ∷ "coord.decision.v1" ∷ "coord.audit.v1" ∷ "coord.audit.v2"
    ∷ "coord.decision.v2" ∷ "coord.status.v2" ∷ "coord.bundle-seal.v1" ∷ "coord.repo-set-lease.v1"
    ∷ "coord.repo-set-lease.v2" ∷ "coord.template-provenance.v1" ∷ "coord.harness-model.v1"
    ∷ "coord.profile-pack.v1" ∷ []

-- `load_schema`, whose schema the version names
unfoldable pub load_schema : List String → Text → Result String
load_schema [] version = err (value_error "Unsupported schema_version")
load_schema (v ∷ vs) version = elim (text_eq (codes v) version) [
  | true ↦ ok v
  | false ↦ load_schema vs version
]

unfoldable pub validate_document : Host → Json → Result (List String)
validate_document h document = elim (text? (get "schema_version" document)) [
  | none ↦ ok ("schema_version must be a string" ∷ [])
  | some version ↦ elim (load_schema schema_versions version) [
    | err e ↦ err e
    | ok schema ↦ ok (h.schema_findings schema document)
  ]
]
