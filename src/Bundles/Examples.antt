-- ===== src/Bundles/Examples.antt =====
-- A run with a JSON file, its Markdown companion and an image.
use coordination_loop_harnes.Util.Sort.{sort_by}
use coordination_loop_harnes.Base.{
  true, false, ◌&&◌, ◌==◌, none, some, List, [], ◌∷◌, String, Text, codes, is_empty, str_eq,
  if◌then◌else◌, ok, ◌≡◌, refl, ◌++◌,
}
use coordination_loop_harnes.Json.{Json, get}
use coordination_loop_harnes.Util.Safe.{is_safe_id}
use coordination_loop_harnes.Util.Validation.{validate_document, load_schema}
use coordination_loop_harnes.Leases.Fixture.{host}
use coordination_loop_harnes.Bundles.Tree.{
  file, directory, nil, entry, Base, absent, present, Durable, Paths, durable_files, is_durable,
  scan_node, scan_entries, scan_base, scan_directories,
}
use coordination_loop_harnes.Bundles.Seal.{
  entry_json, binding_json, bindings_from, bindings, seal_document, check_contents, seal_bundle,
}
use coordination_loop_harnes.Bundles.Verify.{verify_bundle}
use coordination_loop_harnes.Bundles.Sealed.{distinct}
use coordination_loop_harnes.Bundles.Intact.{Intact, verify_bundle-Intact}
use coordination_loop_harnes.Bundles.RoundTrip.{
  intact, put_seal, put_in_base, write_seal, verify_bundle-seal_bundle,
}

abbrev suffix_of : Text → Text
suffix_of [] = []
suffix_of (c ∷ s) =
    let rest = suffix_of s in if is_empty rest then if c == b'.' then c ∷ s else [] else rest

abbrev stem_of : Text → Text
stem_of [] = []
stem_of (c ∷ s) =
    let rest = stem_of s in if c == b'.' && is_empty (suffix_of s) then [] else c ∷ rest

abbrev paths : Paths
paths = record { suffix = suffix_of; markdown = λ path. stem_of path ++ codes ".md" }

abbrev tree : String → Base
tree d =
    if str_eq d "runs"
    then present (
        directory (
          entry (codes "a.json") (file (codes "0a") (some (codes "{}"))) (
            entry (codes "a.md") (file (codes "0b") (some (codes "x")))
              (entry (codes "a.png") (file (codes "0c") none) nil))))
    else absent

abbrev sealed_tree : String → Base
sealed_tree d =
    if str_eq d "runs"
    then present (
        directory (
          entry (codes "a.json") (file (codes "0a") (some (codes "{}"))) (
            entry (codes "a.md") (file (codes "0b") (some (codes "x"))) (
              entry (codes "a.png") (file (codes "0c") none)
                (entry (codes "bundle-seal.json") (file (codes "0d") none) nil)))))
    else tree d

abbrev durable : List Durable
durable =
    record { path = codes "runs/r1/a.json"; sha256 = codes "0a"; content = some (codes "{}") }
    ∷ record { path = codes "runs/r1/a.md"; sha256 = codes "0b"; content = some (codes "x") }
    ∷ []

abbrev seal : Json
seal = seal_document (codes "r1") durable (
    record {
      json_path = codes "runs/r1/a.json";
      json_sha256 = codes "0a";
      markdown_path = codes "runs/r1/a.md";
      markdown_sha256 = codes "0b";
    }
    ∷ [])

finds : durable_files paths tree (codes "r1") ≡ ok durable
unfolding durable_files scan_directories scan_base scan_entries scan_node is_durable sort_by
finds = refl

seals : seal_bundle paths host (λ s. false) tree (codes "r1") ≡ ok seal
unfolding seal_bundle durable_files scan_directories scan_base scan_entries scan_node is_durable
    sort_by check_contents bindings bindings_from validate_document load_schema is_safe_id get
    entry_json binding_json
seals = refl

writes : write_seal (file (codes "0d") none) tree ≡ ok sealed_tree
unfolding write_seal put_in_base put_seal
writes = refl

all_distinct : distinct durable ≡ true
unfolding distinct
all_distinct = refl

verify_bundle-seal_bundle_example :
    verify_bundle host paths sealed_tree (ok seal) (codes "r1") ≡ ok intact
verify_bundle-seal_bundle_example =
    verify_bundle-seal_bundle host paths (λ s. false) tree sealed_tree (codes "r1") (codes "0d")
      none seal durable seals writes finds all_distinct

verify_bundle-Intact_example : Intact host paths sealed_tree seal (codes "r1")
verify_bundle-Intact_example =
    verify_bundle-Intact host paths sealed_tree seal (codes "r1") intact
      verify_bundle-seal_bundle_example refl
