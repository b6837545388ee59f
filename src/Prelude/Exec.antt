-- ===== src/Prelude/Exec.antt =====
-- Calls that change a store and may raise. What was written before a raise stays written.
pub mod Keeps
use mathlib.Core.Path.{◌≡◌, refl}
use native.Mathlib.Omega.{arith}
use statebraid.Prelude.Result.{Result, ok, raise, Error}

abbrev pub Exec : Type 0 → Type 0 → Type 0
Exec S A = S → Result A × S

abbrev pub pure : {S A : Type 0} → A → Exec S A
pure a s = (ok a, s)

-- A call of Python code that does not touch the store.
abbrev pub local : {S A : Type 0} → Result A → Exec S A
local r s = (r, s)

unfoldable pub continue : {S A B : Type 0} → Result A × S → (A → Exec S B) → Result B × S
continue (ok a, s) f = f a s
continue (raise e, s) f = (raise e, s)

infixl 5 ◌>>=◌ ◌>>◌
abbrev pub ◌>>=◌ : {S A B : Type 0} → Exec S A → (A → Exec S B) → Exec S B
◌>>=◌ m f s = continue (m s) f

abbrev pub ◌>>◌ : {S B : Type 0} → Exec S (Unit {0}) → Exec S B → Exec S B
m >> k = m >>= λ _. k

-- `try: m` with `except Exception: pass`.
unfoldable pub ignore : {S : Type 0} → Exec S (Unit {0}) → Exec S (Unit {0})
ignore m s = (ok tt, (m s).1)

-- `try` with `except Exception as e`.
unfoldable pub rescue : {S A : Type 0} → Result A × S → (Error → Exec S A) → Result A × S
rescue (ok a, s) handler = (ok a, s)
rescue (raise e, s) handler = handler e s

unfoldable pub overridden : {S A B : Type 0} → Result A → Result B × S → Result A × S
overridden r (ok _, s) = (r, s)
overridden r (raise e, s) = (raise e, s)

-- `finally`: what it raises takes the place of what came before.
unfoldable pub at_last : {S A B : Type 0} → Result A × S → Exec S B → Result A × S
unfolding overridden
at_last (r, s) cleanup = overridden r (cleanup s)

-- A call on the second part of a store.
unfoldable pub on_second : {R S A : Type 0} → Exec S A → Exec (R × S) A
on_second m (r, s) = let (a, s') = m s in (a, (r, s'))

-- A change of the first part of a store.
abbrev pub update : {R S : Type 0} → (R → R) → Exec (R × S) (Unit {0})
update f (r, s) = (ok tt, (f r, s))

first_returned :
    {S A B : Type 0} (r : Result A × S) (f : A → Exec S B) (b : B)
    → (continue r f).0 ≡ ok b
    → (a : A) × (r.0 ≡ ok a) × ((f a r.1).0 ≡ ok b)
unfolding continue
first_returned (ok a, s) f b e = (a, refl, e)
first_returned (raise x, s) f b e = cc

-- A chain of calls that returns has a first call that returns.
pub returned :
    {S A B : Type 0} (m : Exec S A) (f : A → Exec S B) (s : S) (b : B)
    → ((m >>= f) s).0 ≡ ok b
    → (a : A) × ((m s).0 ≡ ok a) × ((f a (m s).1).0 ≡ ok b)
returned m f s b e = first_returned (m s) f b e

-- A call that only looks at a result leaves the store.
pub store_kept :
    {S A B : Type 0} (r : Result A × S) (g : A → Result B) → (continue r (λ a s. (g a, s))).1 ≡ r.1
unfolding continue
store_kept (ok a, s) g = refl
store_kept (raise x, s) g = refl

-- A first call that returns hands on its value and its store.
pub continue_ok :
    {S A B : Type 0} (r : Result A × S) (f : A → Exec S B) (a : A)
    → r.0 ≡ ok a
    → continue r f ≡ f a r.1
unfolding continue
continue_ok (ok x, s) f a e = ground (arith, e)
continue_ok (raise x, s) f a e = cc

pub continue_raise :
    {S A B : Type 0} (r : Result A × S) (f : A → Exec S B) (x : Error)
    → r.0 ≡ raise x
    → continue r f ≡ (raise x, r.1)
unfolding continue
continue_raise (ok a, s) f x e = cc
continue_raise (raise y, s) f x e = ground (arith, e)
