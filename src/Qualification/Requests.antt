-- ===== src/Qualification/Requests.antt =====
-- What the scripts of the directory qualification make of answers and texts.
use Prim.Native.String.{[] as empty, ◌∷◌ as prepend}
use statebraid.Prelude.{ℕ, zero, suc, String, string_hashable, ◌==◌, if◌then◌else◌}
use statebraid.Prelude.Result.{Result, ok, raise, key_error, type_error}
use statebraid.Prelude.Json.{
  Json, null, boolean, integer, float, text, array, object, Items, Fields, field, end_of_fields,
}

-- `fields[name]`.
unfoldable pub require_field : String → Fields → Result Json
require_field name end_of_fields = raise key_error
require_field name (field other value rest) =
    let found = require_field name rest in if other == name then ok value else found

-- `list(answer["tokens"])`, where that is a list.
unfoldable pub read_tokens : Json → Result Items
unfolding require_field
read_tokens (object fields) = elim (require_field "tokens" fields) [
  | raise e ↦ raise e
  | ok (array items) ↦ ok items
  | ok null ↦ raise type_error
  | ok (boolean _) ↦ raise type_error
  | ok (integer _) ↦ raise type_error
  | ok (float _) ↦ raise type_error
  | ok (text _) ↦ raise type_error
  | ok (object _) ↦ raise type_error
]
read_tokens _ = raise type_error

-- `dict(answer)`, of an answer that is an object.
unfoldable pub as_dict : Json → Result Fields
as_dict (object fields) = ok fields
as_dict _ = raise type_error

-- `s + t`.
unfoldable pub append_text : String → String → String
append_text empty t = t
append_text (prepend c s) t = prepend c (append_text s t)

-- `s * n`.
unfoldable pub repeat_text : String → ℕ → String
unfolding append_text
repeat_text s zero = ""
repeat_text s (suc n) = append_text s (repeat_text s n)
