-- ===== src/Dict/Laws.antt =====
-- Laws of dictionaries: what each operation does to `get`, to the distinctness of keys and to sums.
use statebraid.Prelude.{
  ℕ, ◌+◌, ◌≤◌, ◌≡◌, refl, ap, Option, none, some, List, [], ◌∷◌, ◌==◌, Hashable, contains, length,
  true, arith, if◌then◌else◌,
}
use statebraid.Dict.{Dict, get, put, remove, keep, IsDict, total, keys}

abbrev pub total? : {V : Type 0} → (V → ℕ) → Option V → ℕ
total? f none = 0
total? f (some v) = f v

module _ {K V : Type 0} ⦃h : Hashable K⦄ where
  pub get-put :
      (j k : K) (v : V) (m : Dict K V) → get j (put k v m) ≡ (if k == j then some v else get j m)
  unfolding get put
  get-put j k v [] = ground arith
  get-put j k v ((i, w) ∷ m) = ground (arith, get-put j k v m)

  pub get-remove :
      (j k : K) (m : Dict K V) → get j (remove k m) ≡ (if k == j then none else get j m)
  unfolding get remove
  get-remove j k [] = ground arith
  get-remove j k ((i, w) ∷ m) = ground (arith, get-remove j k m)

  pub get-keep :
      (j : K) (gone : List K) (m : Dict K V)
      → get j (keep gone m) ≡ (if contains j gone then none else get j m)
  unfolding get keep
  get-keep j gone [] = ground arith
  get-keep j gone ((i, w) ∷ m) = ground (arith, get-keep j gone m)

  pub put-IsDict : (k : K) (v : V) (m : Dict K V) → IsDict m → IsDict (put k v m)
  unfolding put get
  put-IsDict k v [] d = ground arith
  put-IsDict k v ((i, w) ∷ m) d = ground (arith, put-IsDict k v m d.1, get-put i k v m)

  pub remove-IsDict : (k : K) (m : Dict K V) → IsDict m → IsDict (remove k m)
  unfolding remove get
  remove-IsDict k [] d = tt
  remove-IsDict k ((i, w) ∷ m) d = ground (arith, remove-IsDict k m d.1, get-remove i k m)

  pub remove_absent : (k : K) (m : Dict K V) → get k m ≡ none → remove k m ≡ m
  unfolding remove get
  remove_absent k [] e = refl
  remove_absent k ((i, w) ∷ m) e = ground (arith, remove_absent k m)

  pub total-remove :
      (f : V → ℕ) (k : K) (m : Dict K V)
      → IsDict m
      → total f (remove k m) + total? f (get k m) ≡ total f m
  unfolding remove get
  total-remove f k [] d = omega arith
  total-remove f k ((i, w) ∷ m) d = ground (arith, total-remove f k m d.1, remove_absent k m)

  pub total-put_new :
      (f : V → ℕ) (k : K) (v : V) (m : Dict K V)
      → get k m ≡ none
      → total f (put k v m) ≡ total f m + f v
  unfolding put get
  total-put_new f k v [] e = omega arith
  total-put_new f k v ((i, w) ∷ m) e = ground (arith, total-put_new f k v m)

  pub total_le : (f : V → ℕ) (k : K) (m : Dict K V) → total? f (get k m) ≤ total f m
  unfolding get
  total_le f k [] = omega arith
  total_le f k ((i, w) ∷ m) = ground (arith, total_le f k m)

  pub remove-keep :
      (k : K) (gone : List K) (m : Dict K V) → keep gone (remove k m) ≡ keep (k ∷ gone) m
  unfolding remove keep contains
  remove-keep k gone [] = refl
  remove-keep k gone ((i, w) ∷ m) = ground (arith, remove-keep k gone m)

  pub keep-nil : (m : Dict K V) → keep [] m ≡ m
  unfolding keep contains
  keep-nil [] = refl
  keep-nil ((i, w) ∷ m) = ap (◌∷◌ (i, w)) (keep-nil m)

pub length-eq-total : {K V : Type 0} (m : Dict K V) → length m ≡ total (λ _. 1) m
length-eq-total [] = refl
length-eq-total (e ∷ m) = omega (arith, length-eq-total m)

module _ {K V : Type 0} ⦃h : Hashable K⦄ where
  pub keep-remove :
      (k : K) (gone : List K) (m : Dict K V) → remove k (keep gone m) ≡ keep (k ∷ gone) m
  unfolding remove keep contains
  keep-remove k gone [] = refl
  keep-remove k gone ((i, w) ∷ m) = ground (arith, keep-remove k gone m)

  pub contains-keys : (k : K) (v : V) (m : Dict K V) → get k m ≡ some v → contains k (keys m) ≡ true
  unfolding get contains
  contains-keys k v [] e = cc
  contains-keys k v ((i, w) ∷ m) e = ground (arith, contains-keys k v m)

  -- Nothing is kept where every key is gone.
  pub keep_all_gone :
      (gone : List K) (m : Dict K V)
      → ((k : K) (v : V) → get k m ≡ some v → contains k gone ≡ true)
      → IsDict m
      → keep gone m ≡ []
  unfolding keep get
  keep_all_gone gone [] all d = refl
  keep_all_gone gone ((i, w) ∷ m) all d =
      ground
        (arith, all i w, keep_all_gone gone m (λ k v e. all k v (get_shadow k i v w m d.0 e)) d.1)
    where
      get_shadow :
          (k i : K) (v w : V) (m : Dict K V)
          → get i m ≡ none
          → get k m ≡ some v
          → get k ((i, w) ∷ m) ≡ some v
      get_shadow k i v w m absent e = ground arith

  pub total-keep-le : (f : V → ℕ) (gone : List K) (m : Dict K V) → total f (keep gone m) ≤ total f m
  unfolding keep
  total-keep-le f gone [] = omega arith
  total-keep-le f gone ((i, w) ∷ m) = ground (arith, total-keep-le f gone m)

  pub total-put_same :
      (f : V → ℕ) (k : K) (v v' : V) (m : Dict K V)
      → get k m ≡ some v
      → total f (put k v' m) + f v ≡ total f m + f v'
  unfolding put get
  total-put_same f k v v' [] e = cc
  total-put_same f k v v' ((i, w) ∷ m) e = ground (arith, total-put_same f k v v' m)

  pub length-put_same :
      (k : K) (v v' : V) (m : Dict K V) → get k m ≡ some v → length (put k v' m) ≡ length m
  unfolding put get
  length-put_same k v v' [] e = cc
  length-put_same k v v' ((i, w) ∷ m) e = ground (arith, length-put_same k v v' m)
