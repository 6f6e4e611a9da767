-- ===== src/Base/Results.antt =====
-- Python's exceptions as values. An exception keeps its class and the fixed part of its message;
-- what an f-string interpolates is left out.
use Prim.Native.String.{String}
use mathlib.Core.Path.{◌≡◌, refl}
use mathlib.Core.Logic.{◌⊎◌, inl, inr}
use mathlib.Core.Option.{Option, none, some}
use mathlib.Core.Bool.{Bool, true, false}

pub data Exn : Type 0 where
  value_error : String → Exn
  runtime_error : String → Exn
  type_error : String → Exn
  os_error : String → Exn
  key_error : String → Exn

pub data Result {ℓ} (A : Type ℓ) : Type ℓ where
  err : Exn → Result A
  ok : A → Result A

-- `if b: raise x`
abbrev pub raise_if : Bool → Exn → Result (Unit {0})
raise_if false x = ok tt
raise_if true x = err x

infixl 5 ◌>>=◌
infixl 5 ◌>>◌
-- The rest of a block, run on what the call before it returned, unless that raised.
abbrev pub ◌>>=◌ {ℓ κ} : {A : Type ℓ} {B : Type κ} → Result A → (A → Result B) → Result B
err x >>= rest = err x
ok v >>= rest = rest v

-- A statement for its effect, then the rest.
abbrev pub ◌>>◌ {κ} : {B : Type κ} → Result (Unit {0}) → Result B → Result B
done >> rest = done >>= λ _. rest

module _ {ℓ κ} {A : Type ℓ} {B : Type κ} where
  -- A block that returned a value went through its first call.
  pub >>=-eq-ok :
      (call : Result A) (rest : A → Result B) {w : B}
      → (call >>= rest) ≡ ok w
      → (v : A) × (call ≡ ok v) × (rest v ≡ ok w)
  >>=-eq-ok (err x) rest q = cc
  >>=-eq-ok (ok v) rest q = (v, refl, q)

-- A guard that let the rest run had a false test.
pub raise_if-eq-ok {ℓ} :
    {B : Type ℓ} (b : Bool) (e : Exn) (k : Result B) {r : B}
    → (raise_if b e >> k) ≡ ok r
    → (b ≡ false) × (k ≡ ok r)
raise_if-eq-ok true e k h = cc
raise_if-eq-ok false e k h = (refl, h)

pub Result-cases {ℓ} :
    {A : Type ℓ} (r : Result A) → ((a : A) × (r ≡ ok a)) ⊎ ((e : Exn) × (r ≡ err e))
Result-cases (ok a) = inl (a, refl)
Result-cases (err e) = inr (e, refl)

abbrev pub is_ok {ℓ} : {A : Type ℓ} → Result A → Bool
is_ok (ok a) = true
is_ok (err e) = false

-- `try: ... except ValueError`: `none` where that was raised.
abbrev pub caught {ℓ} : {A : Type ℓ} → Result A → Result (Option A)
caught (ok a) = ok (some a)
caught (err (value_error _)) = ok none
caught (err (runtime_error m)) = err (runtime_error m)
caught (err (type_error m)) = err (type_error m)
caught (err (os_error m)) = err (os_error m)
caught (err (key_error m)) = err (key_error m)

pub caught-some {ℓ} : {A : Type ℓ} (r : Result A) (a : A) → caught r ≡ ok (some a) → r ≡ ok a
caught-some (ok b) a h = cc
caught-some (err (value_error _)) a h = cc
caught-some (err (runtime_error m)) a h = cc
caught-some (err (type_error m)) a h = cc
caught-some (err (os_error m)) a h = cc
caught-some (err (key_error m)) a h = cc
