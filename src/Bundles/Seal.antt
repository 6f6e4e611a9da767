-- ===== src/Bundles/Seal.antt =====
-- `_entry`, `_bindings` and `seal_bundle`.
use coordination_loop_harnes.Util.Sort.{sort_by}
use coordination_loop_harnes.Base.{
  Bool, false, not, Option, none, some, List, [], ◌∷◌, ◌++◌, String, Text, codes, text_eq, is_empty,
  if◌then◌else◌, Result, ok, err, value_error, raise_if, ◌>>=◌, ◌>>◌,
}
use coordination_loop_harnes.Json.{Json, bool, str, arr, obj, Items, nil, cons, end, field}
use coordination_loop_harnes.Util.Host.{Host}
use coordination_loop_harnes.Util.Safe.{is_safe_id}
use coordination_loop_harnes.Util.Validation.{validate_document}
use coordination_loop_harnes.Leases.Access.{text_leb}
use coordination_loop_harnes.Bundles.Tree.{Base, Durable, Paths, durable_files}

abbrev pub text : String → Json
text s = str (codes s)

-- A JSON file and the Markdown file beside it, each with its digest.
pub record Binding : Type 0 where
  pub json_path : Text
  pub json_sha256 : Text
  pub markdown_path : Text
  pub markdown_sha256 : Text

abbrev pub find_durable : Text → List Durable → Option Durable
find_durable path [] = none
find_durable path (f ∷ fs) = if text_eq f.path path then some f else find_durable path fs

-- The order of the pairs of paths.
abbrev pub binding_leb : Binding → Binding → Bool
binding_leb a b =
    if text_eq a.json_path b.json_path
    then text_leb a.markdown_path b.markdown_path
    else text_leb a.json_path b.json_path

abbrev pub binding_of : Durable → Option Durable → List Binding
binding_of f none = []
binding_of f (some m) =
    record {
      json_path = f.path;
      json_sha256 = f.sha256;
      markdown_path = m.path;
      markdown_sha256 = m.sha256;
    }
    ∷ []

-- `_entry`
unfoldable pub entry_json : Durable → Json
entry_json f = obj (field "path" (str f.path) (field "sha256" (str f.sha256) end))

unfoldable pub binding_json : Binding → Json
binding_json b = obj (
    field "json_path" (str b.json_path) (
      field "json_sha256" (str b.json_sha256) (
        field "markdown_path" (str b.markdown_path)
          (field "markdown_sha256" (str b.markdown_sha256) end))))

abbrev pub items_by {ℓ} : {A : Type ℓ} → (A → Json) → List A → Items
items_by f [] = nil
items_by f (x ∷ xs) = cons (f x) (items_by f xs)

abbrev pub seal_document : Text → List Durable → List Binding → Json
seal_document run_id files bindings = obj (
    field "schema_version" (text "coord.bundle-seal.v1") (
      field "run_id" (str run_id) (
        field "algorithm" (text "sha256") (
          field "encoding" (text "utf-8") (
            field "files" (arr (items_by entry_json files)) (
              field "markdown_json_bindings" (arr (items_by binding_json bindings))
                (field "local_evidence_included" (bool false) end)))))))

module _ (p : Paths) where
  abbrev pub is_json : Durable → Bool
  is_json f = text_eq (p.suffix f.path) (codes ".json")

  unfoldable pub bindings_from : List Durable → List Durable → List Binding
  bindings_from files [] = []
  bindings_from files (f ∷ fs) =
      (if is_json f then binding_of f (find_durable (p.markdown f.path) files) else [])
      ++ bindings_from files fs

  -- `_bindings`
  unfoldable pub bindings : List Durable → List Binding
  bindings files = sort_by binding_leb (bindings_from files files)

  -- `sensitive` says whether one of `SECRET_PATTERNS` is found in a text.
  unfoldable pub check_contents : (Text → Bool) → List Durable → Result (Unit {0})
  check_contents sensitive [] = ok tt
  check_contents sensitive (f ∷ fs) = elim f.content [
    | none ↦ err (value_error "Durable object is not valid UTF-8")
    | some text ↦
        raise_if (sensitive text) (value_error "Refusing to seal sensitive durable object")
        >> check_contents sensitive fs
  ]

  -- `seal_bundle`: the document that it writes
  unfoldable pub seal_bundle : Host → (Text → Bool) → (String → Base) → Text → Result Json
  seal_bundle h sensitive tree run_id = do
    raise_if (not (is_safe_id run_id)) (value_error "Invalid run_id")
    files ← durable_files p tree run_id
    raise_if (is_empty files) (value_error "No durable objects found for run")
    check_contents sensitive files
    errors ← validate_document h (seal_document run_id files (bindings files))
    raise_if (not (is_empty errors)) (value_error "Bundle seal validation failed")
    ok (seal_document run_id files (bindings files))
