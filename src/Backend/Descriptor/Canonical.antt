-- ===== src/Backend/Descriptor/Canonical.antt =====
-- `capability_values` depends on the set of the capabilities alone.
use native.Mathlib.Decide.{ℕ_discrete}
use mathlib.Core.Path.{subst}
use statebraid.Prelude.{
  ◌≡◌, refl, sym, ap, ◌∙◌, Bool, true, false, not, ◌&&◌, ◌||◌, List, [], ◌∷◌, ◌==◌, ==_refl,
  ==_of_ne, contains, String, select, map, arith, Bool-cases, inl, inr, eq_of_==,
}
use statebraid.Prelude.Texts.{text_leb}
use statebraid.Prelude.Texts.Sorted.{insert_text, sort_texts}
use statebraid.Backend.Descriptor.{
  BackendCapability, namespace_isolation, prefix_lookup, admission_residency,
  transactional_mutation, rollback, hit_attribution, generation_safety, capability_discrete,
  capability_hashable,
}
use statebraid.Backend.Descriptor.Build.{capability_value}
use statebraid.Backend.Descriptor.Dict.{capability_values}

abbrev pub AreDistinct : List BackendCapability → Type 0
AreDistinct [] = Unit {0}
AreDistinct (c ∷ cs) = (contains c cs ≡ false) × AreDistinct cs

-- The capabilities in the order of their values.
abbrev pub ordered : List BackendCapability
ordered =
    admission_residency ∷ generation_safety ∷ hit_attribution ∷ namespace_isolation ∷ prefix_lookup
    ∷ rollback ∷ transactional_mutation ∷ []

unfoldable before : BackendCapability → BackendCapability → Bool
before a b =
    text_leb (capability_value a) (capability_value b)
    && not (text_leb (capability_value b) (capability_value a))

unfoldable before_all : BackendCapability → List BackendCapability → Bool
before_all c [] = true
before_all c (x ∷ xs) = before c x && before_all c xs

unfoldable is_ascending : List BackendCapability → Bool
is_ascending [] = true
is_ascending (x ∷ xs) = before_all x xs && is_ascending xs

ordered_ascends : is_ascending ordered ≡ true
unfolding is_ascending before_all before text_leb capability_value ℕ_discrete
ordered_ascends = refl

pub ordered_complete : (c : BackendCapability) → contains c ordered ≡ true
unfolding contains capability_discrete
ordered_complete namespace_isolation = refl
ordered_complete prefix_lookup = refl
ordered_complete admission_residency = refl
ordered_complete transactional_mutation = refl
ordered_complete rollback = refl
ordered_complete hit_attribution = refl
ordered_complete generation_safety = refl

before_member :
    (c x : BackendCapability) (xs : List BackendCapability)
    → before_all c xs ≡ true
    → contains x xs ≡ true
    → before c x ≡ true
unfolding before_all contains
before_member c x [] b m = cc
before_member c x (y ∷ ys) b m = ground (arith, before_member c x ys)

before_absent :
    (c : BackendCapability) (xs : List BackendCapability)
    → before_all c xs ≡ true
    → contains c xs ≡ false
unfolding before
before_absent c xs b = ground (arith, before_member c c xs b)

pub select_ext :
    (p q : BackendCapability → Bool) (xs : List BackendCapability)
    → ((x : BackendCapability) → contains x xs ≡ true → p x ≡ q x)
    → select p xs ≡ select q xs
unfolding select contains
select_ext p q [] same = refl
select_ext p q (x ∷ xs) same =
    ground (arith, same x, ==_refl x, select_ext p q xs (λ y m. same y (ground (arith, m))))

abbrev pub values_in : (BackendCapability → Bool) → List BackendCapability → List String
values_in p xs = map capability_value (select p xs)

insert_first :
    (c : BackendCapability) (p : BackendCapability → Bool) (xs : List BackendCapability)
    → before_all c xs ≡ true
    → insert_text (capability_value c) (values_in p xs) ≡ capability_value c ∷ values_in p xs
unfolding insert_text select before_all before
insert_first c p [] b = refl
insert_first c p (x ∷ xs) b = elim (Bool-cases (p x)) [
  | inl e ↦ ground (arith, e, b)
  | inr e ↦ ground (arith, e, insert_first c p xs (ground (arith, b)))
]

abbrev with_also : BackendCapability → (BackendCapability → Bool) → BackendCapability → Bool
with_also c p x = c == x || p x

place_here :
    (c : BackendCapability) (p : BackendCapability → Bool) (xs : List BackendCapability)
    → before_all c xs ≡ true
    → p c ≡ false
    → insert_text (capability_value c) (values_in p (c ∷ xs)) ≡ values_in (with_also c p) (c ∷ xs)
unfolding select
place_here c p xs b new =
    let absent = before_absent c xs b in
    let same : select p xs ≡ select (with_also c p) xs = select_ext p (with_also c p) xs (λ y m.
      elim (Bool-cases (c == y)) [
        | inl e ↦ absurd (ground (arith, eq_of_== c y e, absent, m))
        | inr e ↦ ground (arith, e)
      ]) in
    ground (arith, new, ==_refl c, insert_first c p xs b, same)

-- Sorting a further capability into its place among the ordered ones.
insert_place :
    (c : BackendCapability) (p : BackendCapability → Bool) (xs : List BackendCapability)
    → is_ascending xs ≡ true
    → contains c xs ≡ true
    → p c ≡ false
    → insert_text (capability_value c) (values_in p xs) ≡ values_in (with_also c p) xs
unfolding insert_text select is_ascending contains before
insert_place c p [] a m new = cc
insert_place c p (x ∷ xs) a m new = elim (Bool-cases (x == c)) [
  | inl e ↦
      subst
        (λ y.
          insert_text (capability_value c) (values_in p (y ∷ xs))
          ≡ values_in (with_also c p) (y ∷ xs))
        (sym (eq_of_== x c e)) (place_here c p xs (ground (arith, eq_of_== x c e, a)) new)
  | inr e ↦
      let member : contains c xs ≡ true = ground (arith, e, m) in
      let later = before_member x c xs (ground (arith, a)) member in
      let placed = insert_place c p xs (ground (arith, a)) member new in
      let other : (c == x) ≡ false = ==_of_ne c x (λ q. absurd (ground (arith, e, q, ==_refl c))) in
      elim (Bool-cases (p x)) [
        | inl px ↦ ground (arith, px, later, other, placed)
        | inr px ↦ ground (arith, px, later, other, placed)
      ]
]

pub capability_values_canonical :
    (cs : List BackendCapability)
    → AreDistinct cs
    → capability_values cs ≡ values_in (λ x. contains x cs) ordered
unfolding capability_values sort_texts select contains
capability_values_canonical [] d = refl
capability_values_canonical (c ∷ cs) (new, d) =
    ap (insert_text (capability_value c)) (capability_values_canonical cs d)
    ∙ insert_place c (λ x. contains x cs) ordered ordered_ascends (ordered_complete c) new
