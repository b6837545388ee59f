-- ===== src/Prelude/Sets.antt =====
-- Membership in lists that are joined, sorted and counted.
use Prim.Native.Nat.{ℕ, ◌+◌, ◌≤◌, ◌<◌}
use mathlib.Core.Bool.{Bool, true, false, ◌||◌}
use mathlib.Core.List.{List, [], ◌∷◌, foldl}
use mathlib.Core.Path.{◌≡◌, refl}
use native.Mathlib.Omega.{arith}
use statebraid.Prelude.Hash.{Hashable, ◌==◌}
use statebraid.Prelude.Tests.{if◌then◌else◌}
use statebraid.Prelude.Lists.{
  contains, contains-append, add, contains-add, insert_by, sort_by, length, select, flat_map,
}

module _ {A : Type 0} ⦃h : Hashable A⦄ where
  pub contains-insert_by :
      (f : A → ℕ) (a x : A) (xs : List A)
      → contains a (insert_by f x xs) ≡ (x == a || contains a xs)
  unfolding contains insert_by
  contains-insert_by f a x [] = refl
  contains-insert_by f a x (y ∷ ys) = ground (arith, contains-insert_by f a x ys)

  pub contains-sort_by :
      (f : A → ℕ) (a : A) (xs : List A) → contains a (sort_by f xs) ≡ contains a xs
  unfolding contains sort_by
  contains-sort_by f a [] = refl
  contains-sort_by f a (x ∷ xs) =
      ground (arith, contains-insert_by f a x (sort_by f xs), contains-sort_by f a xs)

  pub contains-select :
      (test : A → Bool) (a : A) (xs : List A)
      → contains a (select test xs) ≡ (if test a then contains a xs else false)
  unfolding contains select
  contains-select test a [] = ground arith
  contains-select test a (x ∷ xs) = ground (arith, contains-select test a xs)

module _ {A B : Type 0} ⦃h : Hashable A⦄ ⦃g : Hashable B⦄ where
  pub contains-flat_map :
      (f : A → List B) (a : A) (b : B) (xs : List A)
      → contains a xs ≡ true
      → contains b (f a) ≡ true
      → contains b (flat_map f xs) ≡ true
  unfolding contains flat_map
  contains-flat_map f a b [] e m = cc
  contains-flat_map f a b (x ∷ xs) e m =
      ground (arith, contains-flat_map f a b xs, contains-append b (f x) (flat_map f xs))

module _ {A : Type 0} ⦃h : Hashable A⦄ where
  -- How many items of the list are not in the set.
  unfoldable pub outside : List A → List A → ℕ
  outside set [] = 0
  outside set (x ∷ xs) = (if contains x set then 0 else 1) + outside set xs

  pub outside-le-length : (set xs : List A) → outside set xs ≤ length xs
  unfolding outside
  outside-le-length set [] = omega arith
  outside-le-length set (x ∷ xs) = ground (arith, outside-le-length set xs)

  -- A set that has grown by `v`.
  abbrev pub GrownBy : A → List A → List A → Type 0
  GrownBy v set set' = (a : A) → contains a set' ≡ (v == a || contains a set)

  outside_grown :
      (v : A) (set set' xs : List A) → GrownBy v set set' → outside set' xs ≤ outside set xs
  unfolding outside
  outside_grown v set set' [] g = omega arith
  outside_grown v set set' (x ∷ xs) g = ground (arith, g x, outside_grown v set set' xs g)

  pub outside_shrinks :
      (v : A) (set set' xs : List A)
      → GrownBy v set set'
      → contains v set ≡ false
      → contains v xs ≡ true
      → outside set' xs < outside set xs
  unfolding outside contains
  outside_shrinks v set set' [] g e m = cc
  outside_shrinks v set set' (x ∷ xs) g e m =
      ground (arith, g x, outside_grown v set set' xs g, outside_shrinks v set set' xs g)

  -- A set built by adding the items of a list one by one.
  pub contains-foldl-add :
      (a : A) (set xs : List A)
      → contains a (foldl (λ s x. add x s) set xs) ≡ (contains a set || contains a xs)
  unfolding contains
  contains-foldl-add a set [] = ground arith
  contains-foldl-add a set (x ∷ xs) =
      ground (arith, contains-foldl-add a (add x set) xs, contains-add a x set)
