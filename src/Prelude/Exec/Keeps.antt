-- ===== src/Prelude/Exec/Keeps.antt =====
-- What calls keep, whether they return or raise.
use mathlib.Core.Path.{◌≡◌, refl}
use statebraid.Prelude.Result.{Result, ok, raise, Error}
use statebraid.Prelude.Exec.{Exec, continue, rescue, overridden, at_last, ignore}

pub record Keeps {S A : Type 0} (P : S → Type 0) (m : Exec S A) : Type 0 where
  pub keeps : (s : S) → P s → P (m s).1

overridden_keeps :
    {S A B : Type 0} (P : S → Type 0) (r : Result A) (c : Result B × S)
    → P c.1
    → P (overridden r c).1
unfolding overridden
overridden_keeps P r (ok a, s) now = now
overridden_keeps P r (raise e, s) now = now

module _ {S A B : Type 0} {P : S → Type 0} where
  continued :
      (r : Result A × S) (f : A → Exec S B) → P r.1 → ((a : A) → Keeps P (f a)) → P (continue r f).1
  unfolding continue
  continued (ok a, s) f now next = (next a).keeps s now
  continued (raise e, s) f now next = now

  pub bind-Keeps :
      {m : Exec S A} {f : A → Exec S B}
      → Keeps P m
      → ((a : A) → Keeps P (f a))
      → Keeps P (λ s. continue (m s) f)
  bind-Keeps {m} {f} first next = record {
    keeps = λ s now. continued (m s) f (first.keeps s now) next;
  }

  -- What follows a result that was computed is called only on what that is.
  pub given-Keeps :
      (r : Result A) {f : A → Exec S B}
      → ((a : A) → r ≡ ok a → Keeps P (f a))
      → Keeps P (λ s. continue (r, s) f)
  unfolding continue
  given-Keeps (ok a) next = record { keeps = λ s now. (next a refl).keeps s now }
  given-Keeps (raise e) next = record { keeps = λ s now. now }

  finished :
      (r : Result A × S) (cleanup : Exec S B) → P r.1 → Keeps P cleanup → P (at_last r cleanup).1
  unfolding at_last
  finished (r, s) cleanup now next = overridden_keeps P r (cleanup s) (next.keeps s now)

  pub at_last-Keeps :
      {m : Exec S A} {cleanup : Exec S B}
      → Keeps P m
      → Keeps P cleanup
      → Keeps P (λ s. at_last (m s) cleanup)
  at_last-Keeps {m} {cleanup} first last = record {
    keeps = λ s now. finished (m s) cleanup (first.keeps s now) last;
  }

module _ {S A : Type 0} {P : S → Type 0} where
  -- A call that does not touch the store.
  pub local-Keeps : {r : Result A} → Keeps P (λ s. (r, s))
  local-Keeps = record { keeps = λ s now. now }

  rescued :
      (r : Result A × S) (handler : Error → Exec S A)
      → P r.1
      → ((e : Error) → Keeps P (handler e))
      → P (rescue r handler).1
  unfolding rescue
  rescued (ok a, s) handler now next = now
  rescued (raise e, s) handler now next = (next e).keeps s now

  pub rescue-Keeps :
      {m : Exec S A} {handler : Error → Exec S A}
      → Keeps P m
      → ((e : Error) → Keeps P (handler e))
      → Keeps P (λ s. rescue (m s) handler)
  rescue-Keeps {m} {handler} first next = record {
    keeps = λ s now. rescued (m s) handler (first.keeps s now) next;
  }

pub ignore-Keeps :
    {S : Type 0} {P : S → Type 0} {m : Exec S (Unit {0})} → Keeps P m → Keeps P (ignore m)
unfolding ignore
ignore-Keeps each = record { keeps = each.keeps }
