-- ===== src/Windows/Security.antt =====
-- windows_security.py: the evidence records, and the shape of an account SID.
use coordination_loop_harnes.Base.{
  ℕ, ◌+◌, ◌-◌, ◌*◌, ◌==◌, ltb, leb, Bool, true, false, ◌&&◌, Option, none, some, List, [], ◌∷◌,
  String, Text, codes, starts_with, drop_prefix, if◌then◌else◌, decimal_value, ◌≡◌, refl, length,
  all,
}

pub record Ace : Type 0 where
  pub kind : ℕ
  pub flags : ℕ
  pub mask : ℕ
  pub sid : String

-- The file identity is a tuple of numbers.
pub record FileSecurity : Type 0 where
  pub owner : String
  pub protected_dacl : Bool
  pub aces : List Ace
  pub identity : List ℕ
  pub descriptor_sha256 : String

pub record TokenSecurity : Type 0 where
  pub user : String
  pub grant_capable_groups : List String
  pub restricting_sids : List String
  pub privileges : List String
  pub token_type : ℕ

-- `\d*` to the end, with the value that `int` gives.
digits : ℕ → Text → Option ℕ
digits n [] = some n
digits n (c ∷ s) = elim (decimal_value c) [ none ↦ none | some d ↦ digits (n * 10 + d) s ]

-- One group of the pattern, `[1-9]\d*|0`, and its value.
sid_part : Text → Option ℕ
unfolding digits
sid_part [] = none
sid_part (c ∷ s) =
    if c == b'0'
    then elim s [ [] ↦ some 0 | _ ∷ _ ↦ none ]
    else if leb b'1' c && leb c b'9'
    then digits (c - b'0') s
    else none

abbrev first_part : ℕ → List Text → List Text
first_part c [] = (c ∷ []) ∷ []
first_part c (p ∷ ps) = (c ∷ p) ∷ ps

-- `s.split(sep)` for a one-character separator
split_on : ℕ → Text → List Text
split_on sep [] = [] ∷ []
split_on sep (c ∷ s) =
    let rest = split_on sep s in if c == sep then [] ∷ rest else first_part c rest

abbrev fits_u32 : Option ℕ → Bool
fits_u32 none = false
fits_u32 (some n) = ltb n 4_294_967_296

sid_parts_valid : List Text → Bool
unfolding sid_part
sid_parts_valid parts = length parts == 4 && all (λ p. fits_u32 (sid_part p)) parts

unfoldable pub is_account_sid : String → Bool
unfolding split_on sid_parts_valid
is_account_sid sid =
    starts_with (codes sid) (codes "S-1-5-21-")
    && sid_parts_valid (split_on b'-' (drop_prefix (codes sid) (codes "S-1-5-21-")))

account_sid_accepts : is_account_sid "S-1-5-21-1-22-333-1001" ≡ true
unfolding is_account_sid decimal_value
account_sid_accepts = refl

account_sid_refuses : is_account_sid "S-1-5-21-01-22-333-1001" ≡ false
unfolding is_account_sid decimal_value
account_sid_refuses = refl

-- A digit outside ASCII passes: `\d` is not restricted to it.
account_sid_unicode_digit : is_account_sid "S-1-5-21-1-22-333-1३" ≡ true
unfolding is_account_sid decimal_value
account_sid_unicode_digit = refl
