-- ===== src/Util/Scope.antt =====
-- The path grammar of v2 leases and the canonical form of a scope.
use mathlib.Core.List.{reverse}
use coordination_loop_harnes.Base.{
  ℕ, ◌==◌, ◌-◌, leb, ltb, Bool, false, ◌&&◌, ◌||◌, not, Option, none, some, List, [], ◌∷◌, ◌++◌,
  select, Text, codes, starts_with, drop_prefix, text_eq, strip, strip_left, is_space, is_digit,
  if◌then◌else◌, all, any, map, is_empty, Result, ok, ◌>>=◌, length,
}
use coordination_loop_harnes.Util.Host.{Host, is_nt, is_posix}
use coordination_loop_harnes.Util.Safe.{is_letter}
use coordination_loop_harnes.Util.Identity.{is_slash}

abbrev pub is_separator : ℕ → Bool
is_separator c = c == b'/' || c == b'\\'

-- `WINDOWS_DRIVE_PATH_RE.match`: `[A-Za-z]:[\\/]`
abbrev pub is_drive : Text → Bool
is_drive [] = false
is_drive (a ∷ []) = false
is_drive (a ∷ b ∷ []) = false
is_drive (a ∷ b ∷ c ∷ s) = is_letter a && b == b':' && is_separator c

-- `WINDOWS_DEVICE_PATH_RE.match`: `(?:\\\\|//)[?.](?:\\|/)`
abbrev pub is_device : Text → Bool
is_device [] = false
is_device (a ∷ []) = false
is_device (a ∷ b ∷ []) = false
is_device (a ∷ b ∷ c ∷ []) = false
is_device (a ∷ b ∷ c ∷ d ∷ s) =
    ((a == b'\\' && b == b'\\') || (a == b'/' && b == b'/'))
    && (c == b'?' || c == b'.')
    && is_separator d

-- `s.replace(from, to)` for single characters
abbrev pub replace_char : ℕ → ℕ → Text → Text
replace_char from to s = map (λ c. if c == from then to else c) s

-- `s.split("/")`
abbrev pub split_slash : Text → List Text
split_slash [] = [] ∷ []
split_slash (c ∷ s) =
    let rest = split_slash s in
    if is_slash c then [] ∷ rest else elim rest [ [] ↦ (c ∷ []) ∷ [] | p ∷ ps ↦ (c ∷ p) ∷ ps ]

abbrev pub upper : ℕ → ℕ
upper c = if leb b'a' c && leb c b'z' then c - 32 else c

abbrev pub reserved_names : List Text
reserved_names = codes "CON" ∷ codes "PRN" ∷ codes "AUX" ∷ codes "NUL" ∷ []

-- The component without what follows its first dot: `(?:\..*)?$`.
abbrev pub before_dot : Text → Text
before_dot [] = []
before_dot (c ∷ s) = let rest = before_dot s in if c == b'.' then [] else c ∷ rest

abbrev pub is_port : Text → Bool
is_port [] = false
is_port (a ∷ []) = false
is_port (a ∷ b ∷ []) = false
is_port (a ∷ b ∷ c ∷ []) = false
is_port (a ∷ b ∷ c ∷ d ∷ []) =
    (text_eq (a ∷ b ∷ c ∷ []) (codes "COM") || text_eq (a ∷ b ∷ c ∷ []) (codes "LPT"))
    && leb b'1' d
    && leb d b'9'
is_port (a ∷ b ∷ c ∷ d ∷ e ∷ s) = false

-- `WINDOWS_RESERVED_COMPONENT_RE.fullmatch`, with case ignored
unfoldable pub is_reserved : Text → Bool
is_reserved s =
    let stem = map upper (before_dot s) in any (text_eq stem) reserved_names || is_port stem

unfoldable pub has_control : Text → Bool
has_control s = any (λ c. ltb c 32 || c == 127) s

-- A member of `<>:"|?*`.
unfoldable pub has_invalid : Text → Bool
has_invalid s = any (λ c. any (λ d. c == d) (codes "<>:\"|?*")) s

abbrev pub ends_dot_or_space : Text → Bool
ends_dot_or_space s = elim (reverse s) [ [] ↦ false | c ∷ _ ↦ c == b'.' || c == b' ' ]

unfoldable pub component_safe : Text → Bool
component_safe s =
    not (is_empty s)
    && not (has_control s)
    && not (has_invalid s)
    && not (text_eq s (codes ".") || text_eq s (codes ".."))
    && not (ends_dot_or_space s)
    && not (is_reserved s)

-- `_portable_v2_path_components_are_safe`
unfoldable pub components_safe : List Text → Bool
components_safe cs = all component_safe cs

unfoldable pub rest_safe : Text → Bool
rest_safe suffix = is_empty suffix || components_safe (split_slash suffix)

abbrev pub drop_drive : Text → Text
drop_drive s = drop_prefix s (codes "c:/")

unfoldable pub is_v2_absolute_scope : Text → Bool
is_v2_absolute_scope value =
    let raw = strip is_space value in
    if is_empty raw
      || not (text_eq raw value)
      || is_device raw
      || starts_with raw (codes "\\\\")
      || starts_with raw (codes "//")
    then false
    else if is_drive raw
    then rest_safe (drop_drive (replace_char b'\\' b'/' raw))
    else if starts_with raw (codes "/") && not (any (λ c. c == b'\\') raw)
    then rest_safe (drop_prefix raw (codes "/"))
    else false

-- `REPOSITORY_RELATIVE_PATH_RE`
abbrev pub relative_char : ℕ → Bool
relative_char c = is_letter c || is_digit c || c == b'.' || c == b'_' || c == b'/' || c == b'-'

unfoldable pub is_repository_relative_path_v2 : Text → Bool
is_repository_relative_path_v2 value =
    not (
      is_empty value
      || not (text_eq value (strip is_space value))
      || any (λ c. c == b'\\') value
      || starts_with value (codes "/")
      || is_drive value
      || not (all relative_char value))
    && components_safe (split_slash value)

-- `"/".join(parts)`
abbrev join_slash : List Text → Text
join_slash [] = []
join_slash (p ∷ []) = p
join_slash (p ∷ q ∷ ps) = p ++ b'/' ∷ join_slash (q ∷ ps)

-- `[part for part in s.split("/") if part]`
abbrev parts_of : Text → List Text
parts_of s = select (λ p. not (is_empty p)) (split_slash s)

module _ (h : Host) where
  -- `is_absolute_scope`
  unfoldable pub is_absolute_scope : Text → Bool
  is_absolute_scope value =
      let raw = strip is_space value in
      not (is_empty raw) && (h.windows_absolute raw || starts_with raw (codes "/"))

  unfoldable pub is_native_absolute_scope : Text → Bool
  is_native_absolute_scope value =
      let raw = strip is_space value in
      if not (is_v2_absolute_scope raw)
      then false
      else if is_nt h.os
      then is_drive raw
      else if is_posix h.os
      then starts_with raw (codes "/") && not (starts_with raw (codes "//"))
      else false

  abbrev rstrip_slash : Text → Text
  rstrip_slash s = reverse (strip_left is_slash (reverse s))

  -- `re.fullmatch(r"[A-Za-z]:/", s)`
  abbrev is_drive_root : Text → Bool
  is_drive_root s = is_drive s && length s == 3 && not (any (λ c. c == b'\\') s)

  finish_windows : Text → Text
  finish_windows normalized =
      let slashed = replace_char b'\\' b'/' normalized in
      if is_drive_root slashed then h.casefold slashed else h.casefold (rstrip_slash slashed)

  unfoldable pub canonical_scope : Text → Result Text
  unfolding finish_windows
  canonical_scope value =
      let raw = strip is_space value in
      if is_empty raw
      then ok raw
      else if is_drive raw || starts_with raw (codes "\\\\") || starts_with raw (codes "//")
      then (let normalized = h.nt_normpath (replace_char b'/' b'\\' raw) in
          if is_nt h.os
          then h.resolve normalized >>= (λ r. ok (finish_windows r))
          else ok (finish_windows normalized))
      else (let normalized = replace_char b'\\' b'/' raw in
          if starts_with normalized (codes "/")
          then (if is_posix h.os
              then h.resolve normalized
              else ok (h.casefold (h.posix_normpath normalized)))
          else h.resolve normalized >>= (λ r. ok (replace_char b'\\' b'/' r)))

  -- `windows_device_scope_alias`
  unfoldable pub windows_device_scope_alias : Text → Option Text
  windows_device_scope_alias value =
      let raw = strip is_space value in
      let suffix = drop_prefix (replace_char b'\\' b'/' raw) (codes "//?/") in
      let parts = parts_of (drop_prefix suffix (codes "unc/")) in
      if not (is_device raw)
      then none
      else if is_drive suffix
      then some suffix
      else if starts_with (h.casefold suffix) (codes "unc/") && leb 2 (length parts)
      then some (codes "//" ++ join_slash parts)
      else none
