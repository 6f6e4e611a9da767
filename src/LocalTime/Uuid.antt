-- ===== src/LocalTime/Uuid.antt =====
-- `uuid.UUID(s)` of the standard library: its integer and its canonical text. The 32 digits are
-- read as plain hexadecimal digits.
use coordination_loop_harnes.Base.{
  ℕ, zero, suc, ◌+◌, ◌-◌, ◌*◌, ◌/◌, ◌%◌, ◌^◌, Bool, true, false, ◌||◌, ◌&&◌, Option, none, some, [],
  ◌∷◌, ◌++◌, Text, codes, starts_with, drop_prefix, strip, is_digit, leb, ltb, ◌==◌, if◌then◌else◌,
  length, String,
}

-- `s.replace(p, "")` for a non-empty `p`, with the length of `s` as fuel.
erase_all : ℕ → Text → Text → Text
erase_all zero p s = s
erase_all (suc n) p [] = []
erase_all (suc n) p (c ∷ s) = elim (starts_with (c ∷ s) p) [
  | true ↦ erase_all n p (drop_prefix (c ∷ s) p)
  | false ↦ c ∷ erase_all n p s
]

erase_each : Text → Text → Text
unfolding erase_all
erase_each p s = erase_all (length s) p s

is_brace : ℕ → Bool
is_brace c = c == b'{' || c == b'}'

hex_value : ℕ → Option ℕ
hex_value c =
    if is_digit c
    then some (c - b'0')
    else if leb b'a' c && leb c b'f'
    then some (c - b'a' + 10)
    else if leb b'A' c && leb c b'F'
    then some (c - b'A' + 10)
    else none

hex_number : ℕ → Text → Option ℕ
unfolding hex_value
hex_number n [] = some n
hex_number n (c ∷ s) = elim (hex_value c) [ none ↦ none | some d ↦ hex_number (n * 16 + d) s ]

-- `uuid.UUID(s).int`; `none` where the constructor raises.
unfoldable pub uuid_int : String → Option ℕ
unfolding erase_each is_brace hex_number
uuid_int s =
    let digits =
      erase_each (codes "-")
        (strip is_brace (erase_each (codes "uuid:") (erase_each (codes "urn:") (codes s)))) in
    if length digits == 32 then hex_number 0 digits else none

hex_digit : ℕ → ℕ
hex_digit d = if ltb d 10 then b'0' + d else b'a' + (d - 10)

-- `"%0*x" % (k, n)` for `n` of at most `k` digits.
hex_text : ℕ → ℕ → Text
unfolding hex_digit
hex_text zero n = []
hex_text (suc k) n = hex_text k (n / 16) ++ hex_digit (n % 16) ∷ []

-- `str(uuid.UUID(int=n))`
unfoldable pub uuid_text : ℕ → Text
unfolding hex_text
uuid_text n =
    hex_text 8 (n / 16 ^ 24)
    ++ b'-'
      ∷ (hex_text 4 (n / 16 ^ 20 % 16 ^ 4)
          ++ b'-'
            ∷ (hex_text 4 (n / 16 ^ 16 % 16 ^ 4)
                ++ b'-' ∷ (hex_text 4 (n / 16 ^ 12 % 16 ^ 4) ++ b'-' ∷ hex_text 12 (n % 16 ^ 12))))
