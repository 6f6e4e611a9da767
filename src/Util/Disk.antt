-- ===== src/Util/Disk.antt =====
-- `load_json`, `sha256_file`, `canonical_path` and `ensure_within` on what a repository root holds
-- at one moment. Path resolution and the joining of paths are `pathlib`'s, and arguments.
use coordination_loop_harnes.Base.{
  ℕ, Bool, false, ◌&&◌, ◌||◌, not, Option, none, some, List, [], ◌∷◌, ◌++◌, Text, text_eq,
  starts_with, is_some, any, os_error, Result, ok, err, value_error, raise_if, ◌>>=◌, ◌>>◌,
  if◌then◌else◌,
}
use coordination_loop_harnes.Json.{Json, is_object}

-- A file: the value of its JSON text, if it is one, and its digest in hexadecimal.
pub record File : Type 0 where
  pub parsed : Option Json
  pub sha256 : Text

pub record Disk : Type 0 where
  -- the repository root, resolved
  pub root : Text
  -- the regular files, by resolved path
  pub files : List (Text × File)
  -- the directories, by resolved path
  pub directories : List Text
  -- `path / ref`
  pub join : Text → Text → Text
  -- `Path(p).expanduser().resolve()`
  pub resolve : Text → Result Text
  -- `p.with_suffix(".md")`
  pub markdown_of : Text → Text
  -- `os.sep`
  pub separator : ℕ

abbrev pub find_file : Text → List (Text × File) → Option File
find_file p [] = none
find_file p ((q, f) ∷ fs) = if text_eq q p then some f else find_file p fs

abbrev pub is_file : Disk → Text → Bool
is_file d p = is_some (find_file p d.files)

abbrev pub is_directory : Disk → Text → Bool
is_directory d p = any (λ q. text_eq q p) d.directories

-- `load_json`, without an expected identity
unfoldable pub load_json : Disk → Text → Result Json
load_json d p = elim (find_file p d.files) [
  | none ↦
      err
        (if is_directory d p then os_error "Is a directory" else value_error "JSON file not found")
  | some f ↦ elim f.parsed [
    | none ↦ err (value_error "Invalid JSON")
    | some v ↦ if is_object v then ok v else err (value_error "Expected a JSON object")
  ]
]

-- `canonical_path`: what `resolve` raises becomes a `ValueError`, a missing file too where one is wanted.
unfoldable pub canonical_path : Disk → Bool → Text → Result Text
canonical_path d must_exist p = elim (d.resolve p) [
  | err _ ↦ err (value_error "Cannot safely resolve path")
  | ok q ↦
      if must_exist && not (is_file d q || is_directory d q)
      then err (value_error "Cannot safely resolve path")
      else ok q
]

-- `relative_to` accepts the path.
unfoldable pub is_relative_to : Disk → Text → Text → Bool
is_relative_to d p root = text_eq p root || starts_with p (root ++ (d.separator ∷ []))

-- `ensure_within(path, root)`
unfoldable pub ensure_within_root : Disk → Text → Bool → Text → Result Text
ensure_within_root d root must_exist p = do
  resolved_root ← canonical_path d false root
  q ← canonical_path d must_exist p
  raise_if (not (is_relative_to d q resolved_root)) (value_error "must stay within")
  ok q

abbrev pub ensure_within : Disk → Bool → Text → Result Text
ensure_within d must_exist p = ensure_within_root d d.root must_exist p
