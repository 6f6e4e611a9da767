-- ===== src/Leases/Access.antt =====
-- Resource maps of a lease: READ and WRITE claims, merged and compared.
use coordination_loop_harnes.Base.{
  ltb, ◌==◌, Bool, true, false, ◌&&◌, ◌||◌, Option, none, some, List, [], ◌∷◌, ◌++◌, Text, text_eq,
  starts_with, if◌then◌else◌,
}

pub data Mode : Type 0 where
  read write : Mode

-- A `dict[str, str]` from a resource identity to its mode.
abbrev pub Claims : Type 0
Claims = List (Text × Mode)

unfoldable pub lookup : Text → Claims → Option Mode
lookup v [] = none
lookup v ((w, m) ∷ c) = if text_eq w v then some m else lookup v c

unfoldable pub insert : Text → Mode → Claims → Claims
insert v m [] = (v, m) ∷ []
insert v m ((w, n) ∷ c) = if text_eq w v then (w, m) ∷ c else (w, n) ∷ insert v m c

abbrev pub is_write : Mode → Bool
is_write write = true
is_write read = false

abbrev pub holds_write : Option Mode → Bool
holds_write none = false
holds_write (some m) = is_write m

-- `_merge_access`
unfoldable pub merge_access : Claims → Text → Mode → Claims
merge_access target value mode =
    insert value (if holds_write (lookup value target) || is_write mode then write else read) target

-- The same mode for several identities of one resource.
unfoldable pub merge_each : Claims → List Text → Mode → Claims
merge_each target [] mode = target
merge_each target (v ∷ vs) mode = merge_each (merge_access target v mode) vs mode

-- `_access_conflicts`
abbrev pub access_conflicts : Mode → Mode → Bool
access_conflicts left right = is_write left || is_write right

-- The loop of `_combined_repository_access` over the coordination repositories.
unfoldable pub combine : Claims → Claims → Claims
combine combined [] = combined
combine combined ((v, m) ∷ rest) = combine (merge_access combined v m) rest

-- `left if left.endswith("/") else left + "/"`
abbrev pub ends_slash : Text → Bool
ends_slash [] = false
ends_slash (c ∷ []) = c == b'/'
ends_slash (c ∷ d ∷ s) = ends_slash (d ∷ s)

abbrev pub slashed : Text → Text
slashed s = if ends_slash s then s else s ++ b'/' ∷ []

-- `_paths_overlap`
unfoldable pub paths_overlap : Text → Text → Bool
paths_overlap left right =
    text_eq left right || (starts_with left (slashed right) || starts_with right (slashed left))

-- Python's order on texts, and `sorted` on the keys of a map.
abbrev pub text_leb : Text → Text → Bool
text_leb [] t = true
text_leb (a ∷ s) [] = false
text_leb (a ∷ s) (b ∷ t) = ltb a b || (a == b && text_leb s t)

abbrev pub insert_sorted : Text × Mode → Claims → Claims
insert_sorted e [] = e ∷ []
insert_sorted (v, m) ((w, n) ∷ c) =
    let rest = insert_sorted (v, m) c in if text_leb v w then (v, m) ∷ (w, n) ∷ c else (w, n) ∷ rest

unfoldable pub sorted : Claims → Claims
sorted [] = []
sorted (e ∷ c) = insert_sorted e (sorted c)
