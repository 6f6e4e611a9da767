-- ===== src/Util/Decimal.antt =====
-- `str` of an `int`.
use coordination_loop_harnes.Base.{ℕ, zero, suc, ◌+◌, ◌/◌, ◌%◌, [], ◌∷◌, Text}
use coordination_loop_harnes.Base.Int.{ℤ, pos, negsuc}

-- The digits of a number before those in the last argument. The fuel is more than their count.
unfoldable pub digits_of : ℕ → ℕ → Text → Text
digits_of zero n s = s
digits_of (suc fuel) n s = elim (n / 10) [
  | zero ↦ (n % 10 + b'0') ∷ s
  | suc m ↦ digits_of fuel (suc m) ((n % 10 + b'0') ∷ s)
]

-- `str` of an `int`
unfoldable pub str_int : ℤ → Text
unfolding digits_of
str_int (pos n) = digits_of (suc n) n []
str_int (negsuc n) = b'-' ∷ digits_of (suc (suc n)) (suc n) []
