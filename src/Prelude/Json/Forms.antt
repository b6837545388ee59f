-- ===== src/Prelude/Json/Forms.antt =====
-- The forms of the values that the tests on the types of JSON values accept.
use statebraid.Prelude.{ℤ, pos, negsuc, ℕ, ◌≡◌, refl, arith, List, some, String}
use statebraid.Prelude.Json.{
  Json, null, boolean, integer, float, text, array, object, Items, Fields, as_object, as_objects,
  as_object_list, as_integer, as_text, as_natural,
}

pub object_form :
    (value : Json) (fields : Fields) → as_object value ≡ some fields → value ≡ object fields
unfolding as_object
object_form (object found) fields e = cc
object_form null fields e = cc
object_form (boolean b) fields e = cc
object_form (integer z) fields e = cc
object_form (float x) fields e = cc
object_form (text x) fields e = cc
object_form (array items) fields e = cc

pub integer_form : (value : Json) (n : ℤ) → as_integer value ≡ some n → value ≡ integer n
unfolding as_integer
integer_form (integer found) n e = cc
integer_form null n e = cc
integer_form (boolean b) n e = cc
integer_form (object fields) n e = cc
integer_form (float x) n e = cc
integer_form (text x) n e = cc
integer_form (array items) n e = cc

pub text_form : (value : Json) (s : String) → as_text value ≡ some s → value ≡ text s
unfolding as_text
text_form (text found) s e = cc
text_form null s e = cc
text_form (boolean b) s e = cc
text_form (object fields) s e = cc
text_form (float x) s e = cc
text_form (integer z) s e = cc
text_form (array items) s e = cc

pub list_form :
    (value : Json) (all : List Fields)
    → as_object_list value ≡ some all
    → (items : Items) × (value ≡ array items) × (as_objects items ≡ some all)
unfolding as_object_list
list_form (array items) all e = (items, refl, e)
list_form null all e = cc
list_form (boolean b) all e = cc
list_form (object fields) all e = cc
list_form (float x) all e = cc
list_form (integer z) all e = cc
list_form (text x) all e = cc

pub natural_form : (z : ℤ) (n : ℕ) → as_natural z ≡ some n → z ≡ pos n
unfolding as_natural
natural_form (pos m) n e = ground (arith, e)
natural_form (negsuc m) n e = cc
