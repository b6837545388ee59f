-- ===== src/Prelude/Json.antt =====
-- The values that `json.loads` returns.
pub mod Forms
use statebraid.Prelude.{
  ℕ, ℤ, pos, negsuc, Bool, List, [], ◌∷◌, Option, none, some, String, string_hashable, ◌==◌,
  if◌then◌else◌,
}

mutual
  pub data Json : Type 0 where
    null : Json
    boolean : Bool → Json
    integer : ℤ → Json
    float : String → Json
    text : String → Json
    array : Items → Json
    object : Fields → Json

  pub data Items : Type 0 where
    end_of_items : Items
    item : Json → Items → Items

  pub data Fields : Type 0 where
    end_of_fields : Fields
    field : String → Json → Fields → Fields

-- `value.get(name)`, which is `None` where the name is missing.
unfoldable pub lookup_field : String → Fields → Json
lookup_field name end_of_fields = null
lookup_field name (field other value rest) =
    let found = lookup_field name rest in if other == name then value else found

-- `value.get(name, default)`.
unfoldable pub lookup_or : String → Json → Fields → Json
lookup_or name default end_of_fields = default
lookup_or name default (field other value rest) =
    let found = lookup_or name default rest in if other == name then value else found

-- `isinstance(value, Mapping)`.
unfoldable pub as_object : Json → Option Fields
as_object (object fields) = some fields
as_object _ = none

-- `isinstance(value, int) and not isinstance(value, bool)`.
unfoldable pub as_integer : Json → Option ℤ
as_integer (integer n) = some n
as_integer _ = none

-- `isinstance(value, str)`.
unfoldable pub as_text : Json → Option String
as_text (text s) = some s
as_text _ = none

-- `isinstance(value, list)`, all of whose items are mappings.
unfoldable pub as_objects : Items → Option (List Fields)
as_objects end_of_items = some []
as_objects (item value rest) =
    let others = as_objects rest in
    elim value [
      | object fields ↦ elim others [ none ↦ none | some all ↦ some (fields ∷ all) ]
      | null ↦ none
      | boolean _ ↦ none
      | integer _ ↦ none
      | float _ ↦ none
      | text _ ↦ none
      | array _ ↦ none
    ]

unfoldable pub as_object_list : Json → Option (List Fields)
unfolding as_objects
as_object_list (array items) = as_objects items
as_object_list _ = none

-- An integer that is not negative.
unfoldable pub as_natural : ℤ → Option ℕ
as_natural (pos n) = some n
as_natural (negsuc _) = none
