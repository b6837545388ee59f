-- ===== src/Adapters/LlamaCpp/Admission.antt =====
-- What the guards of the adapter of llama.cpp ask of the server.
use statebraid.Prelude.{
  ℕ, suc, ◌≤◌, ◌<◌, ℤ, pos, int_hashable, nat_hashable, ◌≡◌, ◌⊎◌, ap, ◌∙◌, true, List, [], ◌∷◌,
  Option-cases, Bool-cases, some, String, ◌==◌, ==_refl, eq_of_==, contains, contains-add, add,
  length, length-append, arith, inl, inr,
}
use statebraid.Prelude.Result.{ok}
use statebraid.Prelude.Json.{
  Json, integer, text, object, array, Items, Fields, lookup_field, as_object, as_objects,
  as_object_list, as_integer, as_natural, as_text,
}
use statebraid.Prelude.Json.Forms.{object_form, integer_form, text_form, list_form, natural_form}
use statebraid.Adapters.LlamaCpp.Source.{llama_cpp_reference_source_match}
use statebraid.Adapters.LlamaCpp.Lookup.{
  check_props, check_slots, check_total_slots, slot_ids, source_named,
}

-- A slot has the id.
abbrev pub HasId : ℤ → List Fields → Type 0
HasId n [] = ⊥
HasId n (slot ∷ rest) = (lookup_field "id" slot ≡ integer n) ⊎ HasId n rest

-- Every slot has an integer for an id, and none of those behind it has the same.
abbrev pub AreDistinct : List Fields → Type 0
AreDistinct [] = Unit {0}
AreDistinct (slot ∷ rest) =
    ((n : ℤ) × (lookup_field "id" slot ≡ integer n) × ¬ (HasId n rest)) × AreDistinct rest

add_le : (n : ℤ) (xs : List ℤ) → length (add n xs) ≤ suc (length xs)
unfolding add
add_le n xs = ground (arith, length-append xs (n ∷ []))

ids_le : (slots : List Fields) → length (slot_ids slots) ≤ length slots
unfolding slot_ids
ids_le [] = omega arith
ids_le (slot ∷ rest) = elim (Option-cases (as_integer (lookup_field "id" slot))) [
  | inl e ↦ ground (arith, e, ids_le rest)
  | inr (n, e) ↦ ground (arith, e, ids_le rest, add_le n (slot_ids rest))
]

has_listed : (n : ℤ) (slots : List Fields) → HasId n slots → contains n (slot_ids slots) ≡ true
unfolding slot_ids as_integer
has_listed n [] h = absurd h
has_listed n (slot ∷ rest) (inl e) = ground (arith, e, contains-add n n (slot_ids rest), ==_refl n)
has_listed n (slot ∷ rest) (inr h) = elim (Option-cases (as_integer (lookup_field "id" slot))) [
  | inl e ↦ ground (arith, e, has_listed n rest h)
  | inr (m, e) ↦ ground (arith, e, has_listed n rest h, contains-add n m (slot_ids rest))
]

listed_has : (n : ℤ) (slots : List Fields) → contains n (slot_ids slots) ≡ true → HasId n slots
unfolding slot_ids contains
listed_has n [] e = absurd (ground (arith, e))
listed_has n (slot ∷ rest) e = elim (Option-cases (as_integer (lookup_field "id" slot))) [
  | inl none_there ↦ inr (listed_has n rest (ground (arith, none_there, e)))
  | inr (m, there) ↦ elim (Bool-cases (m == n)) [
    | inl same ↦ inl (integer_form _ m there ∙ ap integer (eq_of_== m n same))
    | inr other ↦
        inr (listed_has n rest (ground (arith, there, e, other, contains-add n m (slot_ids rest))))
  ]
]

distinct_ids : (slots : List Fields) → length (slot_ids slots) ≡ length slots → AreDistinct slots
unfolding slot_ids add
distinct_ids [] e = tt
distinct_ids (slot ∷ rest) e = elim (Option-cases (as_integer (lookup_field "id" slot))) [
  | inl none_there ↦ absurd (ground (arith, none_there, e, ids_le rest))
  | inr (m, there) ↦ elim (Bool-cases (contains m (slot_ids rest))) [
    | inl again ↦ absurd (ground (arith, there, again, e, ids_le rest))
    | inr fresh ↦ (
      (m, integer_form _ m there, λ h. ground (arith, fresh, has_listed m rest h)),
      distinct_ids rest (ground (arith, there, fresh, e, length-append (slot_ids rest) (m ∷ []))),
    )
  ]
]

-- The answer on the source: it names the audited one and a number of slots.
pub record IsAudited (props : Json) (total_slots : ℕ) : Type 0 where
  pub fields : Fields
  pub build_info : String
  pub an_object : props ≡ object fields
  pub build_named : lookup_field "build_info" fields ≡ text build_info
  pub source_matches : llama_cpp_reference_source_match build_info ≡ true
  pub total_named : lookup_field "total_slots" fields ≡ integer (pos total_slots)
  pub some_slot : 0 < total_slots

-- The answer on the slots: that many, each with an id of its own, one of which is the adapter's.
pub record HasSlot (id_slot : ℕ) (answer : Json) (total_slots : ℕ) : Type 0 where
  pub items : Items
  pub slots : List Fields
  pub an_array : answer ≡ array items
  pub of_objects : as_objects items ≡ some slots
  pub counted : length slots ≡ total_slots
  pub distinct : AreDistinct slots
  pub listed : HasId (pos id_slot) slots

total_form :
    (value : Json) (n : ℕ) → check_total_slots value ≡ ok n → (value ≡ integer (pos n)) × (0 < n)
unfolding check_total_slots
total_form value n e = elim (Option-cases (as_integer value)) [
  | inl a ↦ absurd (ground (arith, a, e))
  | inr (z, a) ↦ elim (Option-cases (as_natural z)) [
    | inl b ↦ absurd (ground (arith, a, b, e))
    | inr (m, b) ↦ elim (Bool-cases (m == 0)) [
      | inl c ↦ absurd (ground (arith, a, b, c, e))
      | inr c ↦
          let same : m ≡ n = ground (arith, a, b, c, e) in
          (
            integer_form value z a
                ∙ ap integer (natural_form z m b)
                ∙ ap (λ k. integer (pos k)) same,
            ground (arith, c, same),
          )
    ]
  ]
]

named_form :
    (value : Json)
    → source_named value ≡ true
    → (s : String) × (value ≡ text s) × (llama_cpp_reference_source_match s ≡ true)
unfolding source_named
named_form value e = elim (Option-cases (as_text value)) [
  | inl a ↦ absurd (ground (arith, a, e))
  | inr (s, a) ↦ (s, text_form value s a, ground (arith, a, e))
]

pub props-IsAudited : (props : Json) (n : ℕ) → check_props props ≡ ok n → IsAudited props n
unfolding check_props
props-IsAudited props n e = elim (Option-cases (as_object props)) [
  | inl a ↦ absurd (ground (arith, a, e))
  | inr (fields, a) ↦ elim (Bool-cases (source_named (lookup_field "build_info" fields))) [
    | inr b ↦ absurd (ground (arith, a, b, e))
    | inl b ↦
        let (s, named, matched) = named_form (lookup_field "build_info" fields) b in
        let (total, positive) =
          total_form (lookup_field "total_slots" fields) n (ground (arith, a, b, e)) in
        record {
          fields = fields;
          build_info = s;
          an_object = object_form props fields a;
          build_named = named;
          source_matches = matched;
          total_named = total;
          some_slot = positive;
        }
  ]
]

pub slots-HasSlot :
    (id_slot n : ℕ) (answer : Json)
    → check_slots id_slot n answer ≡ ok tt
    → HasSlot id_slot answer n
unfolding check_slots
slots-HasSlot id_slot n answer e = elim (Option-cases (as_object_list answer)) [
  | inl a ↦ absurd (ground (arith, a, e))
  | inr (slots, a) ↦
      let (items, form, objects) = list_form answer slots a in
      let counted : length (slot_ids slots) ≡ length slots = ground (arith, a, e) in
      record {
        items = items;
        slots = slots;
        an_array = form;
        of_objects = objects;
        counted = ground (arith, a, e);
        distinct = distinct_ids slots counted;
        listed = listed_has (pos id_slot) slots (ground (arith, a, e));
      }
]
