-- ===== src/Dict/Holding.antt =====
-- What all the bindings of a dictionary have.
use mathlib.Core.Path.{subst}
use statebraid.Prelude.{◌≡◌, some, ◌==◌, Hashable, arith, Bool-cases, inl, inr, eq_of_==}
use statebraid.Dict.{Dict, get, put, remove}
use statebraid.Dict.Laws.{get-put, get-remove}

module _ {K V : Type 0} ⦃h : Hashable K⦄ where
  abbrev pub Holding : (K → V → Type 0) → Dict K V → Type 0
  Holding P m = (k : K) (v : V) → get k m ≡ some v → P k v

  pub put-Holding :
      (P : K → V → Type 0) (k : K) (v : V) (m : Dict K V)
      → P k v
      → Holding P m
      → Holding P (put k v m)
  put-Holding P k v m new old j w e = elim (Bool-cases (k == j)) [
    | inl same ↦
        subst (λ i. P i w) (eq_of_== k j same)
          (subst (P k) (ground (arith, get-put j k v m, same, e)) new)
    | inr other ↦ old j w (ground (arith, get-put j k v m, other, e))
  ]

  pub remove-Holding :
      (P : K → V → Type 0) (k : K) (m : Dict K V) → Holding P m → Holding P (remove k m)
  remove-Holding P k m old j w e = old j w (ground (arith, get-remove j k m, e))
