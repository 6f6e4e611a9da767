-- ===== src/Json/Update.antt =====
-- Reading a dictionary after an assignment to it.
use coordination_loop_harnes.Base.{
  true, false, some, String, str_eq, if◌then◌else◌, ◌≡◌, refl, ap, ◌∙◌, arith, eq_iff, eq_refl,
}
use coordination_loop_harnes.Json.{
  Json, null, bool, int, real, str, arr, obj, Fields, end, field, find, get, put, put_field,
  or_null, is_object,
}

pub find-put_field :
    (j k : String) (v : Json) (fs : Fields)
    → find k (put_field j v fs) ≡ (if str_eq j k then some v else find k fs)
find-put_field j k v end = refl
find-put_field j k v (field i w fs) =
    ground (arith, eq_iff i j, eq_iff i k, eq_iff j k, find-put_field j k v fs)

-- `data[k] = v` is what `data.get(k)` then reads.
pub get-put : (k : String) (v : Json) (d : Json) → is_object d ≡ true → get k (put k v d) ≡ v
unfolding get put
get-put k v (obj fs) o =
    ap or_null (find-put_field k k v fs ∙ ap (λ b. if b then some v else find k fs) (eq_refl k))
get-put k v null o = cc
get-put k v (bool b) o = cc
get-put k v (int z) o = cc
get-put k v (real z e) o = cc
get-put k v (str s) o = cc
get-put k v (arr xs) o = cc

-- Other keys keep their values.
pub get-put_other :
    (j k : String) (v : Json) (d : Json) → str_eq j k ≡ false → get k (put j v d) ≡ get k d
unfolding get put
get-put_other j k v (obj fs) o =
    ap or_null (find-put_field j k v fs ∙ ap (λ b. if b then some v else find k fs) o)
get-put_other j k v null o = refl
get-put_other j k v (bool b) o = refl
get-put_other j k v (int z) o = refl
get-put_other j k v (real z e) o = refl
get-put_other j k v (str s) o = refl
get-put_other j k v (arr xs) o = refl

pub put-IsObject :
    (k : String) (v : Json) (d : Json) → is_object d ≡ true → is_object (put k v d) ≡ true
unfolding put
put-IsObject k v (obj fs) o = refl
put-IsObject k v null o = cc
put-IsObject k v (bool b) o = cc
put-IsObject k v (int z) o = cc
put-IsObject k v (real z e) o = cc
put-IsObject k v (str s) o = cc
put-IsObject k v (arr xs) o = cc

-- What is no dictionary has no fields, before or after.
pub get-put_none :
    (j k : String) (v : Json) (d : Json) → is_object d ≡ false → get k (put j v d) ≡ null
unfolding get put
get-put_none j k v (obj fs) o = cc
get-put_none j k v null o = refl
get-put_none j k v (bool b) o = refl
get-put_none j k v (int z) o = refl
get-put_none j k v (real z e) o = refl
get-put_none j k v (str s) o = refl
get-put_none j k v (arr xs) o = refl
