-- ===== src/Prelude/Result.antt =====
-- What a call returns or raises. The messages of the exceptions are left out.

use mathlib.Core.Path.{◌≡◌, refl, ap}
use mathlib.Core.Logic.{◌⊎◌, inl, inr}

-- The exception classes of the program, `fault` for any that code outside it raises, and `diverged`
-- for a loop of the model whose fuel runs out.
pub data Error : Type 0 where
  key_error type_error value_error runtime_error unsupported_capability fault diverged : Error

pub data Result (A : Type 0) : Type 0 where
  raise : Error → Result A
  ok : A → Result A

-- What follows a call, if that returns.
abbrev pub ◌>>=◌ : {A B : Type 0} → Result A → (A → Result B) → Result B
m >>= rest = elim m [ raise e ↦ raise e | ok a ↦ rest a ]

abbrev pub ◌>>◌ : {B : Type 0} → Result (Unit {0}) → Result B → Result B
m >> rest = m >>= λ _. rest

infixl 5 ◌>>=◌ ◌>>◌
pub Result-cases :
    {A : Type 0} (r : Result A) → ((e : Error) × (r ≡ raise e)) ⊎ ((a : A) × (r ≡ ok a))
Result-cases (raise e) = inl (e, refl)
Result-cases (ok a) = inr (a, refl)

pub ok-injective : {A : Type 0} (a b : A) → ok a ≡ ok b → a ≡ b
ok-injective a b e = ap (λ r. elim r [ raise _ ↦ a | ok x ↦ x ]) e

-- A chain that returns has a first call that returns.
pub ok_first :
    {A B : Type 0} (m : Result A) (f : A → Result B) (b : B)
    → (m >>= f) ≡ ok b
    → (a : A) × (m ≡ ok a) × (f a ≡ ok b)
ok_first (raise e) f b h = cc
ok_first (ok a) f b h = (a, refl, h)
