-- ===== src/Util/Identity.antt =====
-- `canonical_repo`, `canonical_repo_v2` and the grammar of repository names.
use mathlib.Core.List.{reverse}
use coordination_loop_harnes.Base.{
  ℕ, ◌==◌, Bool, List, [], ◌∷◌, Text, codes, starts_with, drop_prefix, remove_suffix, ends_with,
  strip, is_space, if◌then◌else◌,
}
use coordination_loop_harnes.Util.Host.{Host}

abbrev prefixes : List Text
prefixes =
    codes "https://github.com/"
    ∷ codes "http://github.com/"
    ∷ codes "ssh://git@github.com/"
    ∷ codes "git@github.com:"
    ∷ []

-- The loop over the prefixes: the first that `tested` starts with is cut off `value`.
unfoldable pub cut_prefix : List Text → Text → Text → Text
cut_prefix [] tested value = value
cut_prefix (p ∷ ps) tested value =
    if starts_with tested p then drop_prefix value p else cut_prefix ps tested value

abbrev pub is_slash : ℕ → Bool
is_slash c = c == b'/'

module _ (h : Host) where
  unfoldable pub canonical_repo : Text → Text
  unfolding cut_prefix
  canonical_repo value =
      let trimmed = remove_suffix (strip is_space value) (codes ".git") in
      h.casefold (strip is_slash (cut_prefix prefixes trimmed trimmed))

  unfoldable pub canonical_repo_v2 : Text → Text
  unfolding cut_prefix
  canonical_repo_v2 value =
      let trimmed = strip is_space value in
      let bare = strip is_slash (cut_prefix prefixes (h.casefold trimmed) trimmed) in
      h.casefold (
        if ends_with (h.casefold bare) (codes ".git")
        then reverse (drop_prefix (reverse bare) (codes ".git"))
        else bare)
