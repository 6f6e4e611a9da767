-- ===== src/Bundles/Tree.antt =====
-- `_durable_files`: the walk over what a repository holds for a run, which refuses links.
use coordination_loop_harnes.Util.Sort.{sort_by}
use coordination_loop_harnes.Base.{
  Bool, ◌&&◌, not, Option, List, [], ◌∷◌, ◌++◌, String, Text, codes, text_eq, any, if◌then◌else◌,
  Result, ok, err, value_error, ◌>>=◌,
}
use coordination_loop_harnes.Leases.Access.{text_leb}

-- What a directory entry is. A file has its digest and, if it is UTF-8, its text; a link is a
-- symbolic link or another reparse point.
mutual
  pub data Node : Type 0 where
    file : Text → Option Text → Node
    directory : Entries → Node
    link : Node
    special : Node

  pub data Entries : Type 0 where
    nil : Entries
    entry : Text → Node → Entries → Entries

-- What stands where the files of a run in a durable directory would be.
pub data Base : Type 0 where
  absent : Base
  behind_link : Base
  present : Node → Base

-- A durable file by its path relative to the root.
pub record Durable : Type 0 where
  pub path : Text
  pub sha256 : Text
  pub content : Option Text

-- `pathlib` on the names and paths of files: `suffix.lower()` and `with_suffix(".md")`
pub record Paths : Type 0 where
  pub suffix : Text → Text
  pub markdown : Text → Text

abbrev pub durable_directories : List String
durable_directories = "requests" ∷ "plans" ∷ "runs" ∷ "decisions" ∷ "audits" ∷ "handoffs" ∷ []

abbrev pub durable_suffixes : List String
durable_suffixes = ".json" ∷ ".md" ∷ ".txt" ∷ []

abbrev pub seal_name : Text
seal_name = codes "bundle-seal.json"

abbrev pub below : Text → Text → Text
below path name = path ++ (b'/' ∷ name)

-- `_is_reparse_point` of the path or of a directory above it
abbrev pub refusal : String
refusal = "Refusing durable path through symbolic link or reparse point"

module _ (p : Paths) where
  unfoldable pub is_durable : Text → Text → Bool
  is_durable path name =
      any (λ s. text_eq (p.suffix path) (codes s)) durable_suffixes && not (text_eq name seal_name)

  -- What the walk finds from an entry on.
  unfoldable mutual
    pub scan_node : Text → Text → Node → Result (List Durable)
    scan_node path name (file sha256 content) =
        if is_durable path name
        then ok (record { path = path; sha256 = sha256; content = content } ∷ [])
        else ok []
    scan_node path name (directory es) = scan_entries path es
    scan_node path name link = err (value_error refusal)
    scan_node path name special = ok []

    pub scan_entries : Text → Entries → Result (List Durable)
    scan_entries path nil = ok []
    scan_entries path (entry name node es) = scan_node (below path name) name node >>= λ first.
        scan_entries path es >>= λ rest. ok (first ++ rest)

  unfoldable pub scan_base : Text → Base → Result (List Durable)
  scan_base path absent = ok []
  scan_base path behind_link = err (value_error refusal)
  scan_base path (present link) = err (value_error refusal)
  scan_base path (present (directory es)) = scan_entries path es
  scan_base path (present (file _ _)) = err (value_error "durable run root must be a directory")
  scan_base path (present special) = err (value_error "durable run root must be a directory")

  -- The loop over the durable directories.
  unfoldable pub scan_directories : (String → Base) → Text → List String → Result (List Durable)
  scan_directories tree run_id [] = ok []
  scan_directories tree run_id (d ∷ ds) = scan_base (below (codes d) run_id) (tree d) >>= λ first.
      scan_directories tree run_id ds >>= λ rest. ok (first ++ rest)

  -- `_durable_files`
  unfoldable pub durable_files : (String → Base) → Text → Result (List Durable)
  durable_files tree run_id = scan_directories tree run_id durable_directories >>= λ found.
      ok (sort_by (λ a b. text_leb a.path b.path) found)
