-- ===== src/Util/Safe.antt =====
-- `require_safe_id` and `is_safe_json_integer`.
use coordination_loop_harnes.Base.{
  ℕ, leb, ◌==◌, Bool, false, ◌&&◌, ◌||◌, none, some, [], ◌∷◌, Text, length, all, is_digit,
}
use coordination_loop_harnes.Base.Int.{pos, negsuc, leb_ℤ}
use coordination_loop_harnes.Json.{Json, int?}

abbrev pub is_letter : ℕ → Bool
is_letter c = (leb b'a' c && leb c b'z') || (leb b'A' c && leb c b'Z')

abbrev pub id_tail : ℕ → Bool
id_tail c = is_letter c || is_digit c || c == b'.' || c == b'_' || c == b'-'

-- `SAFE_ID_RE.fullmatch(value)`: `[A-Za-z0-9][A-Za-z0-9._-]{0,127}`
unfoldable pub is_safe_id : Text → Bool
is_safe_id [] = false
is_safe_id (c ∷ s) = (is_letter c || is_digit c) && leb (length s) 127 && all id_tail s

-- `abs(value) <= (1 << 53) - 1` for an `int` that is no `bool`
unfoldable pub is_safe_json_integer : Json → Bool
is_safe_json_integer v = elim (int? v) [
  | none ↦ false
  | some z ↦ leb_ℤ z (pos 9_007_199_254_740_991) && leb_ℤ (negsuc 9_007_199_254_740_990) z
]

abbrev pub at_least : ℕ → Json → Bool
at_least n v = elim (int? v) [ none ↦ false | some z ↦ leb_ℤ (pos n) z ]
