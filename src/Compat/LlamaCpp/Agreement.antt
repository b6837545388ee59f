-- ===== src/Compat/LlamaCpp/Agreement.antt =====
-- What the probe of a server and the guards of the adapter have in common.
use mathlib.Core.Path.{subst}
use statebraid.Prelude.{
  ℕ, suc, ◌≤◌, ℤ, pos, ◌≡◌, ◌⊎◌, refl, ap, sym, ◌∙◌, true, List, [], ◌∷◌, ◌++◌, Option, none, some,
  nat_hashable, int_hashable, ◌==◌, contains, length, if◌then◌else◌, arith, Option-cases, inl, inr,
}
use statebraid.Prelude.Result.{
  Result, ok, raise, Error, value_error, unsupported_capability, ok-injective,
}
use statebraid.Prelude.Exec.{Exec, pure, rescue, returned}
use statebraid.Prelude.Json.{
  Json, null, boolean, integer, float, text, array, object, Items, end_of_items, item, Fields,
  lookup_field, as_object, as_objects, as_object_list, as_integer, as_text, as_natural,
}
use statebraid.Prelude.Json.Forms.{object_form}
use statebraid.Adapters.LlamaCpp.Lookup.{
  JsonTransport, check_props, check_slots, check_total_slots, slot_ids, source_named,
}
use statebraid.Compat.LlamaCpp.{
  as_items, count_items, slot_id, valid_slots, positive_total, slots_issue, build_issue,
  total_issue, blocking, assess_fields, assess, matches, ProbeIssue, LlamaCppCompatibilityReport,
  probe_llama_cpp_server, request_both, unreachable_report,
}

valid_le : (items : Items) → length (valid_slots items) ≤ count_items items
unfolding valid_slots count_items
valid_le end_of_items = omega arith
valid_le (item value rest) = elim (Option-cases (slot_id value)) [
  | inl e ↦ ground (arith, e, valid_le rest)
  | inr (n, e) ↦ ground (arith, e, valid_le rest)
]

array_form : (value : Json) (items : Items) → as_items value ≡ some items → value ≡ array items
unfolding as_items
array_form (array found) items e = cc
array_form null items e = cc
array_form (boolean b) items e = cc
array_form (integer z) items e = cc
array_form (float x) items e = cc
array_form (text x) items e = cc
array_form (object fields) items e = cc

slot_id_object :
    (value : Json) (n : ℤ) → slot_id value ≡ some n → (fields : Fields) × (value ≡ object fields)
unfolding slot_id
slot_id_object value n e = elim (Option-cases (as_object value)) [
  | inl none_there ↦ absurd (ground (arith, none_there, e))
  | inr (fields, there) ↦ (fields, object_form value fields there)
]

-- Where every slot is valid, the slots are objects.
all_objects :
    (items : Items)
    → length (valid_slots items) ≡ count_items items
    → (all : List Fields) × (as_objects items ≡ some all) × (length all ≡ count_items items)
unfolding valid_slots count_items as_objects
all_objects end_of_items e = ([], refl, refl)
all_objects (item value rest) e = elim (Option-cases (slot_id value)) [
  | inl none_there ↦ absurd (ground (arith, none_there, e, valid_le rest))
  | inr (n, valid) ↦
      let (all, objects, len) = all_objects rest (ground (arith, valid, e)) in
      let (fields, form) = slot_id_object value n valid in
      (
        fields ∷ all,
        subst (λ v. as_objects (item v rest) ≡ some (fields ∷ all)) (sym form) (rw objects refl),
        ap suc len,
      )
]

no_issues :
    (xs ys zs : List ProbeIssue)
    → (length (xs ++ (ys ++ zs)) == 0) ≡ true
    → (xs ≡ []) × (ys ≡ []) × (zs ≡ [])
no_issues [] [] [] e = (refl, refl, refl)
no_issues [] [] (z ∷ zs) e = absurd (ground (arith, e))
no_issues [] (y ∷ ys) zs e = absurd (ground (arith, e))
no_issues (x ∷ xs) ys zs e = absurd (ground (arith, e))

slots_complete : (n_valid n_slots : ℕ) → slots_issue n_valid n_slots ≡ [] → n_valid ≡ n_slots
unfolding slots_issue
slots_complete n_valid n_slots e = ground (arith, e)

source_matches :
    (build_info : Json) → build_issue (as_text build_info) ≡ [] → source_named build_info ≡ true
unfolding build_issue source_named matches
source_matches build_info e = elim (Option-cases (as_text build_info)) [
  | inl a ↦ absurd (ground (arith, a, e))
  | inr (s, a) ↦ ground (arith, a, e)
]

total_matches : (o : Option ℕ) (n_valid : ℕ) → total_issue o n_valid ≡ [] → o ≡ some n_valid
unfolding total_issue
total_matches none n_valid e = cc
total_matches (some total) n_valid e = ground (arith, e)

total_checked :
    (value : Json) (n : ℕ) → positive_total value ≡ some n → check_total_slots value ≡ ok n
unfolding positive_total check_total_slots
total_checked value n e = elim (Option-cases (as_integer value)) [
  | inl a ↦ absurd (ground (arith, a, e))
  | inr (z, a) ↦ elim (Option-cases (as_natural z)) [
    | inl b ↦ absurd (ground (arith, a, b, e))
    | inr (m, b) ↦ ground (arith, a, b, e)
  ]
]

-- What the adapter's guards make of the answers that the probe saw: the guard on the source accepts
-- them with the number of slots; the guard on a slot accepts the slots that are listed if the ids of
-- the slots are distinct, and none if they are not.
abbrev pub Accepts : Json → Json → ℕ → Type 0
Accepts props slots n =
    (check_props props ≡ ok n)
    × ((all : List Fields) × (as_object_list slots ≡ some all)
        × (length all ≡ n)
        × ((id_slot : ℕ)
            → check_slots id_slot n slots ≡ (
                if length (slot_ids all) == n
                then (if contains (pos id_slot) (slot_ids all) then ok tt else raise value_error)
                else raise unsupported_capability)))

fields-Accepts :
    (fields : Fields) (items : Items)
    → (assess_fields fields items).compatible ≡ true
    → Accepts (object fields) (array items) (length (valid_slots items))
unfolding assess_fields blocking check_props check_slots as_object as_object_list
fields-Accepts fields items e =
    let (a, b, c) =
      no_issues (slots_issue (length (valid_slots items)) (count_items items))
        (build_issue (as_text (lookup_field "build_info" fields)))
        (total_issue (positive_total (lookup_field "total_slots" fields))
          (length (valid_slots items)))
        e in
    let complete = slots_complete (length (valid_slots items)) (count_items items) a in
    let (all, objects, len) = all_objects items complete in
    let named = source_matches (lookup_field "build_info" fields) b in
    let total =
      total_checked (lookup_field "total_slots" fields) _
        (total_matches (positive_total (lookup_field "total_slots" fields)) _ c) in
    (
      rw (named, total) refl,
      (
        all,
        objects,
        ground (arith, len, complete),
        λ id_slot. ground (arith, objects, len, complete),
      ),
    )

assess-Accepts :
    (props slots : Json)
    → (assess props slots).compatible ≡ true
    → Accepts props slots (assess props slots).slot_count
unfolding assess assess_fields
assess-Accepts props slots e = elim (Option-cases (as_object props)) [
  | inl a ↦ absurd (ground (arith, a, e))
  | inr (fields, a) ↦ elim (Option-cases (as_items slots)) [
    | inl b ↦ absurd (ground (arith, a, b, e))
    | inr (items, b) ↦
        let n = length (valid_slots items) in
        let report : assess props slots ≡ assess_fields fields items = ground (arith, a, b) in
        subst (λ r. Accepts props slots r.slot_count) (sym report)
          (subst (λ v. Accepts v slots n) (sym (object_form props fields a))
            (subst (λ v. Accepts (object fields) v n) (sym (array_form slots items b))
              (fields-Accepts fields items (sym (ap (λ r. r.compatible) report) ∙ e))))
  ]
]

rescue_cases :
    {S A : Type 0} (r : Result A × S) (handler : Error → Exec S A)
    → ((a : A) × (r.0 ≡ ok a) × (rescue r handler ≡ r))
      ⊎ ((e : Error) × (rescue r handler ≡ handler e r.1))
unfolding rescue
rescue_cases (ok a, s) handler = inl (a, refl, refl)
rescue_cases (raise e, s) handler = inr (e, refl)

-- A probe that returns a compatible report saw answers of which the adapter's guard on the source
-- accepts the first and returns the number of slots; its guard on a slot accepts the second, for the
-- slots that are listed, if the ids of all slots are distinct, and refuses it for every slot if not.
pub probe_agrees :
    {S : Type 0} (transport : JsonTransport S) (s : S) (report : LlamaCppCompatibilityReport)
    → (probe_llama_cpp_server transport s).0 ≡ ok report
    → report.compatible ≡ true
    → (props : Json) × (slots : Json) × ((transport.get_json "/props" s).0 ≡ ok props)
      × ((transport.get_json "/slots" (transport.get_json "/props" s).1).0 ≡ ok slots)
      × Accepts props slots report.slot_count
unfolding probe_llama_cpp_server request_both unreachable_report
probe_agrees transport s report fine compatible =
    elim (rescue_cases (request_both transport s) (λ e. pure (unreachable_report e))) [
      | inr (x, raised) ↦ absurd (ground (arith, raised, fine, compatible))
      | inl (a, _, same) ↦
          let got : (request_both transport s).0 ≡ ok report = sym (ap (λ r. r.0) same) ∙ fine in
          let (props, first, rest) = returned (transport.get_json "/props") _ s report got in
          let (slots, second, made) =
            returned (transport.get_json "/slots") _ (transport.get_json "/props" s).1 report
              rest in
          let seen : assess props slots ≡ report = ok-injective _ _ made in
          (
            props,
            slots,
            first,
            second,
            subst (λ x. Accepts props slots x.slot_count) seen
                (assess-Accepts props slots (ap (λ x. x.compatible) seen ∙ compatible)),
          )
    ]
