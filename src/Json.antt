-- ===== src/Json.antt =====
-- A value of a parsed JSON document, which the source holds as a Python object. A finite float is
-- an integer over a power of two. A dictionary is the list of its fields; the loader refuses
-- repeated keys.

pub mod Update
use coordination_loop_harnes.Base.{
  ℕ, suc, ◌*◌, ◌^◌, ◌-◌, ◌+◌, ◌==◌, leb, Bool, true, false, ◌&&◌, ◌||◌, not, Option, none, some,
  List, [], ◌∷◌, String, Text, codes, text_eq, str_eq, if◌then◌else◌, length, Result, ok, err, Exn,
  key_error,
}
use coordination_loop_harnes.Base.Int.{ℤ, pos, negsuc, eqb_ℤ}

mutual
  pub data Json : Type 0 where
    null : Json
    bool : Bool → Json
    int : ℤ → Json
    real : ℤ → ℕ → Json
    str : Text → Json
    arr : Items → Json
    obj : Fields → Json

  pub data Items : Type 0 where
    nil : Items
    cons : Json → Items → Items

  pub data Fields : Type 0 where
    end : Fields
    field : String → Json → Fields → Fields

abbrev pub find : String → Fields → Option Json
find k end = none
find k (field j v fs) = if str_eq j k then some v else find k fs

abbrev pub or_null : Option Json → Json
or_null none = null
or_null (some v) = v

-- `data.get(key)`: a missing key and an explicit null are one.
unfoldable pub get : String → Json → Json
get k (obj fs) = or_null (find k fs)
get k null = null
get k (bool _) = null
get k (int _) = null
get k (real _ _) = null
get k (str _) = null
get k (arr _) = null

-- `data[key] = value` on a dictionary
abbrev pub put_field : String → Json → Fields → Fields
put_field k v end = field k v end
put_field k v (field j w fs) = if str_eq j k then field j v fs else field j w (put_field k v fs)

unfoldable pub put : String → Json → Json → Json
put k v (obj fs) = obj (put_field k v fs)
put k v null = null
put k v (bool b) = bool b
put k v (int z) = int z
put k v (real z e) = real z e
put k v (str s) = str s
put k v (arr xs) = arr xs

abbrev pub to_list : Items → List Json
to_list nil = []
to_list (cons x xs) = x ∷ to_list xs

-- The entries of a list, and none for anything else: `x if isinstance(x, list) else []`.
abbrev pub elements : Json → List Json
elements (arr xs) = to_list xs
elements null = []
elements (bool _) = []
elements (int _) = []
elements (real _ _) = []
elements (str _) = []
elements (obj _) = []

abbrev pub is_list : Json → Bool
is_list (arr _) = true
is_list null = false
is_list (bool _) = false
is_list (int _) = false
is_list (real _ _) = false
is_list (str _) = false
is_list (obj _) = false

abbrev pub is_object : Json → Bool
is_object (obj _) = true
is_object null = false
is_object (bool _) = false
is_object (int _) = false
is_object (real _ _) = false
is_object (str _) = false
is_object (arr _) = false

abbrev pub is_null : Json → Bool
is_null null = true
is_null (bool _) = false
is_null (int _) = false
is_null (real _ _) = false
is_null (str _) = false
is_null (arr _) = false
is_null (obj _) = false

-- The text of a `str`, where `isinstance(x, str)`.
abbrev pub text? : Json → Option Text
text? (str s) = some s
text? null = none
text? (bool _) = none
text? (int _) = none
text? (real _ _) = none
text? (arr _) = none
text? (obj _) = none

-- The integer of an `int` that is no `bool`: `type(x) is int`.
abbrev pub int? : Json → Option ℤ
int? (int z) = some z
int? null = none
int? (bool _) = none
int? (real _ _) = none
int? (str _) = none
int? (arr _) = none
int? (obj _) = none

-- `x == "literal"`
abbrev pub is_text : String → Json → Bool
is_text s (str t) = text_eq t (codes s)
is_text s null = false
is_text s (bool _) = false
is_text s (int _) = false
is_text s (real _ _) = false
is_text s (arr _) = false
is_text s (obj _) = false

-- `bool(x)`
unfoldable pub truthy : Json → Bool
truthy null = false
truthy (bool b) = b
truthy (int z) = not (eqb_ℤ z (pos 0))
truthy (real z e) = not (eqb_ℤ z (pos 0))
truthy (str []) = false
truthy (str (_ ∷ _)) = true
truthy (arr nil) = false
truthy (arr (cons _ _)) = true
truthy (obj end) = false
truthy (obj (field _ _ _)) = true

-- z * 2 ^ e
abbrev pub shift : ℤ → ℕ → ℤ
shift (pos n) e = pos (n * 2 ^ e)
shift (negsuc n) e = negsuc (suc n * 2 ^ e - 1)

abbrev pub of_bool : Bool → ℤ
of_bool true = pos 1
of_bool false = pos 0

-- The number that a value is to `==`: a `bool` is 0 or 1.
abbrev pub number? : Json → Option (ℤ × ℕ)
number? (bool b) = some (of_bool b, 0)
number? (int z) = some (z, 0)
number? (real z e) = some (z, e)
number? null = none
number? (str _) = none
number? (arr _) = none
number? (obj _) = none

abbrev pub number_eq : ℤ × ℕ → Option (ℤ × ℕ) → Bool
number_eq a none = false
number_eq (z, e) (some (w, f)) = eqb_ℤ (shift z f) (shift w e)

abbrev pub count_fields : Fields → ℕ
count_fields end = 0
count_fields (field _ _ fs) = suc (count_fields fs)

abbrev pub items? : Json → Option Items
items? (arr xs) = some xs
items? null = none
items? (bool _) = none
items? (int _) = none
items? (real _ _) = none
items? (str _) = none
items? (obj _) = none

abbrev pub fields? : Json → Option Fields
fields? (obj fs) = some fs
fields? null = none
fields? (bool _) = none
fields? (int _) = none
fields? (real _ _) = none
fields? (str _) = none
fields? (arr _) = none

abbrev pub text_is : Text → Option Text → Bool
text_is s none = false
text_is s (some t) = text_eq s t

-- `a == b` on parsed values; the order of a dictionary's fields does not count.
unfoldable mutual
  pub json_eq : Json → Json → Bool
  json_eq null b = is_null b
  json_eq (bool a) b = number_eq (of_bool a, 0) (number? b)
  json_eq (int a) b = number_eq (a, 0) (number? b)
  json_eq (real a e) b = number_eq (a, e) (number? b)
  json_eq (str s) b = text_is s (text? b)
  json_eq (arr xs) b = elim (items? b) [ none ↦ false | some ys ↦ items_eq xs ys ]
  json_eq (obj fs) b = elim (fields? b) [
    | none ↦ false
    | some gs ↦ count_fields fs == count_fields gs && fields_eq fs gs
  ]

  pub items_eq : Items → Items → Bool
  items_eq nil nil = true
  items_eq nil (cons _ _) = false
  items_eq (cons x xs) nil = false
  items_eq (cons x xs) (cons y ys) = json_eq x y && items_eq xs ys

  pub fields_eq : Fields → Fields → Bool
  fields_eq end gs = true
  fields_eq (field k v fs) gs = elim (find k gs) [
    | none ↦ false
    | some w ↦ json_eq v w && fields_eq fs gs
  ]
