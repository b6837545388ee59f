-- ===== src/Prelude/Lists.antt =====
-- Lists measured by native numbers, under the library's names, and Python's sets as lists.
use Prim.Native.Nat.{ℕ, zero, suc, ◌+◌}
use mathlib.Core.Bool.{Bool, true, false, ◌||◌}
use mathlib.Core.List.{List, [], ◌∷◌, ◌++◌}
use mathlib.Core.Option.{Option, none, some}
use mathlib.Core.Path.{◌≡◌, refl}
use native.Mathlib.Omega.{arith}
use statebraid.Prelude.Hash.{Hashable, ◌==◌}
use statebraid.Prelude.Tests.{leb, if◌then◌else◌}

module _ {ℓ} {A : Type ℓ} where
  abbrev pub length : List A → ℕ
  length [] = 0
  length (x ∷ xs) = suc (length xs)

  abbrev pub take : ℕ → List A → List A
  take zero xs = []
  take (suc n) [] = []
  take (suc n) (x ∷ xs) = x ∷ take n xs

  abbrev pub drop : ℕ → List A → List A
  drop zero xs = xs
  drop (suc n) [] = []
  drop (suc n) (x ∷ xs) = drop n xs

  pub length-append : (xs ys : List A) → length (xs ++ ys) ≡ length xs + length ys
  length-append [] ys = omega arith
  length-append (x ∷ xs) ys = omega (arith, length-append xs ys)

module _ {A : Type 0} ⦃h : Hashable A⦄ where
  -- `a in xs`.
  unfoldable pub contains : A → List A → Bool
  contains a [] = false
  contains a (x ∷ xs) = x == a || contains a xs

  -- `xs.add(a)` on a set.
  unfoldable pub add : A → List A → List A
  add a xs = if contains a xs then xs else xs ++ a ∷ []

  pub contains-append :
      (a : A) (xs ys : List A) → contains a (xs ++ ys) ≡ (contains a xs || contains a ys)
  unfolding contains
  contains-append a [] ys = refl
  contains-append a (x ∷ xs) ys = ground (arith, contains-append a xs ys)

  pub contains-add : (a b : A) (xs : List A) → contains a (add b xs) ≡ (b == a || contains a xs)
  unfolding add contains
  contains-add a b xs = ground (arith, contains-append a xs (b ∷ []))

  -- `xs.pop(a, None)` on an ordered set.
  unfoldable pub discard : A → List A → List A
  discard a [] = []
  discard a (x ∷ xs) = let rest = discard a xs in if x == a then rest else x ∷ rest

  pub contains-discard :
      (a b : A) (xs : List A)
      → contains a (discard b xs) ≡ (if b == a then false else contains a xs)
  unfolding discard contains
  contains-discard a b [] = ground arith
  contains-discard a b (x ∷ xs) = ground (arith, contains-discard a b xs)

  -- The first item of the list that is not in the set.
  unfoldable pub first_outside : List A → List A → Option A
  first_outside set [] = none
  first_outside set (x ∷ xs) = if contains x set then first_outside set xs else some x

  pub first_outside_sound :
      (set xs : List A) (a : A)
      → first_outside set xs ≡ some a
      → (contains a set ≡ false) × (contains a xs ≡ true)
  unfolding first_outside contains
  first_outside_sound set [] a e = cc
  first_outside_sound set (x ∷ xs) a e = ground (arith, first_outside_sound set xs a)

  pub first_outside_complete :
      (set xs : List A) (a : A)
      → first_outside set xs ≡ none
      → contains a xs ≡ true
      → contains a set ≡ true
  unfolding first_outside contains
  first_outside_complete set [] a e m = cc
  first_outside_complete set (x ∷ xs) a e m = ground (arith, first_outside_complete set xs a)

-- The items that pass a test, in order.
unfoldable pub select {ℓ} : {A : Type ℓ} → (A → Bool) → List A → List A
select test [] = []
select test (x ∷ xs) = let rest = select test xs in if test x then x ∷ rest else rest

-- `sorted(xs, key=f)`: items of one rank keep their order.
unfoldable pub insert_by {ℓ} : {A : Type ℓ} → (A → ℕ) → A → List A → List A
insert_by f x [] = x ∷ []
insert_by f x (y ∷ ys) = if leb (f x) (f y) then x ∷ y ∷ ys else y ∷ insert_by f x ys

unfoldable pub sort_by {ℓ} : {A : Type ℓ} → (A → ℕ) → List A → List A
unfolding insert_by
sort_by f [] = []
sort_by f (x ∷ xs) = insert_by f x (sort_by f xs)

-- Lists joined, one for each item.
unfoldable pub flat_map {ℓ κ} : {A : Type ℓ} {B : Type κ} → (A → List B) → List A → List B
flat_map f [] = []
flat_map f (x ∷ xs) = f x ++ flat_map f xs
