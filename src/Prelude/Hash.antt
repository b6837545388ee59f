-- ===== src/Prelude/Hash.antt =====
-- Values that Python can hash: what the program uses of them is that `==` decides equality.
use Prim.Native.Nat.{ℕ}
use Prim.Native.String.{String}
use mathlib.Core.Bool.{Bool, true, false}
use mathlib.Core.List.{List}
use mathlib.Core.Path.{◌≡◌, refl}
use native.Mathlib.Decide.{ℕ_discrete}
use native.Mathlib.Omega.{arith}
use text.Mathlib.Text.{◌==◌ as str_eq}
use text.Mathlib.TextEquality.{eq_iff}
use statebraid.Prelude.Int.{ℤ}

pub record Hashable (A : Type 0) : Type 0 where
  pub eq : Discrete A

infix 50 ◌==◌
abbrev pub ◌==◌ : {A : Type 0} ⦃h : Hashable A⦄ → A → A → Bool
◌==◌ ⦃h⦄ a b = elim (h.eq a b) [ yes _ ↦ true | no _ ↦ false ]

pub ne_of_test : (a b : String) → str_eq a b ≡ false → ¬ (a ≡ b)
ne_of_test a b e p = ground (arith, (eq_iff a b).1 p)

decide_text : (a b : String) (t : Bool) → str_eq a b ≡ t → Dec (a ≡ b)
decide_text a b true e = yes ((eq_iff a b).0 e)
decide_text a b false e = no (ne_of_test a b e)

unfoldable pub text_discrete : Discrete String
unfolding decide_text
text_discrete a b = decide_text a b (str_eq a b) refl

instance abbrev pub string_hashable : Hashable String
string_hashable = record { eq = text_discrete }

instance abbrev pub nat_hashable : Hashable ℕ
nat_hashable = record { eq = ℕ_discrete }

unfoldable pub int_discrete : Discrete ℤ
int_discrete = hlevel ℕ_discrete

instance abbrev pub int_hashable : Hashable ℤ
int_hashable = record { eq = int_discrete }

unfoldable pub list_discrete : {A : Type 0} → Discrete A → Discrete (List A)
list_discrete d = hlevel d

instance abbrev pub list_hashable : {A : Type 0} ⦃h : Hashable A⦄ → Hashable (List A)
list_hashable ⦃h⦄ = record { eq = list_discrete h.eq }

pub ==_refl : {A : Type 0} ⦃h : Hashable A⦄ (a : A) → (a == a) ≡ true
==_refl a = ground arith

pub eq_of_== : {A : Type 0} ⦃h : Hashable A⦄ (a b : A) → (a == b) ≡ true → a ≡ b
eq_of_== a b e = ground arith

pub ==_of_ne : {A : Type 0} ⦃h : Hashable A⦄ (a b : A) → ¬ (a ≡ b) → (a == b) ≡ false
==_of_ne a b ne = ground (arith, ne)
