-- ===== src/Util/Host.antt =====
-- What the interpreter and the operating system supply: Unicode's case folding, path resolution
-- against the file system, the path normalisers, and the JSON Schema validator. Each is an argument
-- of the definitions that use it.
use coordination_loop_harnes.Base.{ℕ, Bool, List, Option, String, Text, Result}
use coordination_loop_harnes.Base.Int.{ℤ}
use coordination_loop_harnes.Json.{Json}

-- `os.name`
pub data Os : Type 0 where
  nt posix other_os : Os

pub record Host : Type 0 where
  pub os : Os
  -- `str.casefold`
  pub casefold : Text → Text
  -- `str.upper`
  pub upper : Text → Text
  -- `int(s)`; `none` where it raises `ValueError`
  pub int_of_text : Text → Option ℤ
  -- `str(canonical_path(p))`: `expanduser`, then `Path.resolve`
  pub resolve : Text → Result Text
  -- `ntpath.normpath`, `posixpath.normpath`
  pub nt_normpath : Text → Text
  pub posix_normpath : Text → Text
  -- `PureWindowsPath(p).is_absolute()`
  pub windows_absolute : Text → Bool
  -- the instant of `datetime.fromisoformat(s + "+00:00")`, in microseconds; `none` where it raises
  pub instant : Text → Option ℕ
  -- what `Draft202012Validator` finds in a document by the schema of that version
  pub schema_findings : String → Json → List String
  -- `json.dumps` with sorted keys and a newline, in UTF-8
  pub dumped : Json → Result (List ℕ)
  -- the SHA-256 of some bytes, in hexadecimal
  pub sha256 : List ℕ → Text

abbrev pub is_nt : Os → Bool
is_nt nt = Bool.true
is_nt posix = Bool.false
is_nt other_os = Bool.false

abbrev pub is_posix : Os → Bool
is_posix posix = Bool.true
is_posix nt = Bool.false
is_posix other_os = Bool.false
