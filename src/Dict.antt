-- ===== src/Dict.antt =====
-- Python's `dict` and `OrderedDict`: association lists in the order of insertion.
pub mod Laws
pub mod Holding
use statebraid.Prelude.{
  ℕ, ◌+◌, ◌≡◌, Bool, true, false, not, Option, none, some, List, [], ◌∷◌, ◌++◌, map, ◌==◌, Hashable,
  contains, if◌then◌else◌,
}

abbrev pub Dict : Type 0 → Type 0 → Type 0
Dict K V = List (K × V)

abbrev pub keys : {K V : Type 0} → Dict K V → List K
keys = map (λ e. e.0)

abbrev pub values : {K V : Type 0} → Dict K V → List V
values = map (λ e. e.1)

-- `sum(f(v) for v in m.values())`.
abbrev pub total : {K V : Type 0} → (V → ℕ) → Dict K V → ℕ
total f [] = 0
total f ((_, v) ∷ m) = f v + total f m

module _ {K V : Type 0} ⦃h : Hashable K⦄ where
  -- `m.get(k)`.
  unfoldable pub get : K → Dict K V → Option V
  get k [] = none
  get k ((j, v) ∷ m) = if j == k then some v else get k m

  -- `m[k] = v`: a key that is present keeps its place, a new one goes to the end.
  unfoldable pub put : K → V → Dict K V → Dict K V
  put k v [] = (k, v) ∷ []
  put k v ((j, w) ∷ m) = if j == k then (j, v) ∷ m else (j, w) ∷ put k v m

  -- `m.pop(k, None)`, the dictionary that is left.
  unfoldable pub remove : K → Dict K V → Dict K V
  remove k [] = []
  remove k ((j, v) ∷ m) = let rest = remove k m in if j == k then rest else (j, v) ∷ rest

  -- The items whose key is not in `gone`.
  unfoldable pub keep : List K → Dict K V → Dict K V
  keep gone [] = []
  keep gone ((j, v) ∷ m) = let rest = keep gone m in if contains j gone then rest else (j, v) ∷ rest

  -- No key stands twice, as in every dictionary of Python.
  abbrev pub IsDict : Dict K V → Type 0
  IsDict [] = Unit {0}
  IsDict ((k, v) ∷ m) = (get k m ≡ none) × IsDict m
