-- ===== src/Handoff/Decimal.antt =====
-- Numbers cross the pipe as decimal texts, and are read back.
use coordination_loop_harnes.Util.Decimal.{str_int, digits_of}
use coordination_loop_harnes.Base.{
  ℕ, zero, suc, ◌+◌, ◌-◌, ◌*◌, ◌/◌, ◌%◌, ◌^◌, ◌≤◌, ◌<◌, ◌==◌, ltb, leb, Bool, true, false, ◌&&◌, [],
  ◌∷◌, Text, length, all, ok, ◌≡◌, refl, ap, ◌∙◌, arith,
}
use coordination_loop_harnes.Base.Int.{pos}
use coordination_loop_harnes.Json.{str}
use coordination_loop_harnes.Handoff.Wire.{
  is_digit, is_decimal, decimal, decimal_text, parse_interrupt_deadline,
}

-- 10 ^ k
abbrev tens : ℕ → ℕ
tens zero = 1
tens (suc k) = 10 * tens k

-- One round of `digits_of`, by the quotient.
abbrev round : ℕ → ℕ → ℕ → Text → Text
round fuel n zero s = (n % 10 + b'0') ∷ s
round fuel n (suc m) s = digits_of fuel (suc m) ((n % 10 + b'0') ∷ s)

digits_of-round : (fuel n : ℕ) (s : Text) → digits_of (suc fuel) n s ≡ round fuel n (n / 10) s
unfolding digits_of
digits_of-round fuel n s = go (n / 10)
  where
    go :
        (q : ℕ)
        → ◌≡◌ {A = Text}
            (elim q [
              | zero ↦ (n % 10 + b'0') ∷ s
              | suc m ↦ digits_of fuel (suc m) ((n % 10 + b'0') ∷ s)
            ])
            (round fuel n q s)
    go zero = refl
    go (suc m) = refl

-- Reading the digits of a number gives the number, whatever follows.
decimal-round :
    (fuel n q : ℕ) (s : Text)
    → n < suc fuel
    → n / 10 ≡ q
    → decimal 0 (round fuel n q s) ≡ decimal n s
unfolding decimal
decimal-round fuel n zero s h e = ap (λ d. decimal d s) (last n e)
  where
    last : (n : ℕ) → n / 10 ≡ 0 → 0 * 10 + (n % 10 + b'0' - b'0') ≡ n
    last n e = omega arith
decimal-round zero n (suc m) s h e = absurd (omega arith)
decimal-round (suc f) n (suc m) s h e =
    ap (decimal 0) (digits_of-round f (suc m) _)
    ∙ decimal-round f (suc m) (suc m / 10) ((n % 10 + b'0') ∷ s) (omega arith) refl
    ∙ ap (λ d. decimal d s) (joined n m e)
  where
    joined : (n m : ℕ) → n / 10 ≡ suc m → suc m * 10 + (n % 10 + b'0' - b'0') ≡ n
    joined n m e = omega arith

is_decimal-round :
    (fuel n q : ℕ) (s : Text)
    → n < suc fuel
    → n / 10 ≡ q
    → 0 < n
    → all is_digit s ≡ true
    → is_decimal (round fuel n q s) ≡ true
unfolding is_decimal
is_decimal-round fuel n zero s h e p d = leading (n % 10) (omega arith) (omega arith)
  where
    leading :
        (r : ℕ)
        → 0 < r
        → r < 10
        → elim ((r + b'0') == b'0') [
          | true ↦ length s == 0
          | false ↦ is_digit (r + b'0') && all is_digit s
        ]
          ≡ true
    leading r x y = ground arith
is_decimal-round zero n (suc m) s h e p d = absurd (omega arith)
is_decimal-round (suc f) n (suc m) s h e p d =
    ap is_decimal (digits_of-round f (suc m) _)
    ∙ is_decimal-round f (suc m) (suc m / 10) ((n % 10 + b'0') ∷ s) (omega arith) refl (omega arith)
        (digit (n % 10) (omega arith))
  where
    digit : (r : ℕ) → r < 10 → all is_digit ((r + b'0') ∷ s) ≡ true
    digit r x = ground arith

length-round :
    (fuel n q k : ℕ) (s : Text)
    → n < suc fuel
    → n / 10 ≡ q
    → n < tens (suc k)
    → length (round fuel n q s) ≤ suc k + length s
length-round fuel n zero k s h e b = omega arith
length-round zero n (suc m) k s h e b = absurd (omega arith)
length-round (suc f) n (suc m) zero s h e b = absurd (omega arith)
length-round (suc f) n (suc m) (suc k) s h e b =
    rw (digits_of-round f (suc m) ((n % 10 + b'0') ∷ s))
      (omega (arith, length-round f (suc m) (suc m / 10) k ((n % 10 + b'0') ∷ s)))

-- What `str` writes of a positive number below 2 ^ 64 is a decimal text that denotes it.
pub str_int-decimal :
    (n : ℕ)
    → 0 < n
    → n < 2 ^ 64
    → (decimal_text (str_int (pos n)) ≡ true) × (decimal 0 (str_int (pos n)) ≡ n)
unfolding str_int decimal_text decimal
str_int-decimal n p b = rw (digits_of-round n n []) (
  both _ _ (is_decimal-round n n (n / 10) [] (omega arith) refl p refl)
      (within _ (length-round n n (n / 10) 19 [] (omega arith) refl (omega arith))),
  decimal-round n n (n / 10) [] (omega arith) refl,
)
  where
    both : (x y : Bool) → x ≡ true → y ≡ true → (x && y) ≡ true
    both x y a c = ground arith

    within : (l : ℕ) → l ≤ 20 → leb l 20 ≡ true
    within l x = ground arith

-- A deadline below 2 ^ 64 that is written to the pipe is read back as it was.
pub parse_interrupt_deadline-str_int :
    (n : ℕ) → 0 < n → n < 2 ^ 64 → parse_interrupt_deadline (str (str_int (pos n))) ≡ ok n
unfolding parse_interrupt_deadline
parse_interrupt_deadline-str_int n p b =
    let (good, same) = str_int-decimal n p b in rw (good, same, in_range) refl
  where
    in_range : (ltb 0 n && ltb n (2 ^ 64)) ≡ true
    in_range = ground arith
