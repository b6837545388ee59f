-- ===== src/Adapters/LlamaCppManaged/PromptCache/Selection.antt =====
-- Which key the managed prompt cache restores for a prompt.
use mathlib.Core.Path.{subst}
use statebraid.Prelude.{
  ℕ, zero, suc, ◌≤◌, ℤ, ◌≡◌, ◌⊎◌, refl, ap, sym, ◌∙◌, if_true, if_false, true, false, List, [], ◌∷◌,
  Option, none, some, nat_hashable, int_hashable, ◌==◌, ==_refl, eq_of_==, contains, length, take,
  arith, inl, inr, Bool-cases,
}
use statebraid.Dict.{Dict, keys}
use statebraid.Cache.Key.{key_hashable}
use statebraid.Cache.Policy.{EntryState, WorkingSetPolicy}
use statebraid.Adapters.LlamaCpp.{LlamaCppNamespace}
use statebraid.Adapters.LlamaCpp.Lookup.{namespace_hashable}
use statebraid.Adapters.LlamaCppManaged.Storage.{Key}
use statebraid.Adapters.LlamaCppManaged.PromptCache.{
  token_lcp, Candidate, beats, best_of, candidates_of, select_key,
}

-- `n` tokens are shared.
abbrev pub Shares : ℕ → List ℤ → List ℤ → Type 0
Shares n left right = (n ≤ length left) × (n ≤ length right) × (take n left ≡ take n right)

pub lcp_shared : (left right : List ℤ) → Shares (token_lcp left right) left right
unfolding token_lcp
lcp_shared [] right = (omega arith, omega arith, refl)
lcp_shared (x ∷ left) [] = (omega arith, omega arith, refl)
lcp_shared (x ∷ left) (y ∷ right) =
    let (l, r, e) = lcp_shared left right in
    elim (Bool-cases (x == y)) [
      | inl same ↦ ground (arith, same, eq_of_== x y same, l, r, e)
      | inr other ↦ ground (arith, other)
    ]

lcp_longest : (left right : List ℤ) (n : ℕ) → Shares n left right → n ≤ token_lcp left right
unfolding token_lcp
lcp_longest left right zero s = omega arith
lcp_longest [] right (suc n) s = s.0
lcp_longest (x ∷ left) [] (suc n) s = s.1
lcp_longest (x ∷ left) (y ∷ right) (suc n) (l, r, e) =
    let heads : x ≡ y = cc in
    let tails : take n left ≡ take n right = cc in
    let rest = lcp_longest left right n (omega (arith, l), omega (arith, r), tails) in
    ground (arith, heads, ==_refl x, rest)

-- `_token_lcp` is the greatest number of tokens that two sequences share from their start.
pub token_lcp_longest :
    (left right : List ℤ)
    → Shares (token_lcp left right) left right
      × ((n : ℕ) → Shares n left right → n ≤ token_lcp left right)
token_lcp_longest left right = (lcp_shared left right, lcp_longest left right)

take-take : (n m : ℕ) (xs : List ℤ) → n ≤ m → take n (take m xs) ≡ take n xs
take-take zero m xs le = refl
take-take (suc n) zero xs le = absurd (omega (arith, le))
take-take (suc n) (suc m) [] le = refl
take-take (suc n) (suc m) (x ∷ xs) le = ap (◌∷◌ x) (take-take n m xs (omega (arith, le)))

-- What shares `m` tokens shares fewer too.
pub fewer_shared :
    (n m : ℕ) (left right : List ℤ) → n ≤ m → Shares m left right → Shares n left right
fewer_shared n m left right le (l, r, e) = (
  omega (arith, le, l),
  omega (arith, le, r),
  sym (take-take n m left le) ∙ ap (take n) e ∙ take-take n m right le,
)

-- No candidate matches more than `m` tokens.
abbrev AtMost : ℕ → List Candidate → Type 0
AtMost m [] = Unit {0}
AtMost m (c ∷ cs) = (c.matched ≤ m) × AtMost m cs

abbrev All : (Candidate → Type 0) → List Candidate → Type 0
All Q [] = Unit {0}
All Q (c ∷ cs) = Q c × All Q cs

beats_matched :
    (x y : Candidate)
    → ((beats x y ≡ true) × (y.matched ≤ x.matched))
      ⊎ ((beats x y ≡ false) × (x.matched ≤ y.matched))
unfolding beats
beats_matched x y = elim (Bool-cases (beats x y)) [
  | inl e ↦ inl (e, ground (arith, e))
  | inr e ↦ inr (e, ground (arith, e))
]

best_of_lem :
    (Q : Candidate → Type 0) (best : Candidate) (cs : List Candidate)
    → Q best
    → All Q cs
    → Q (best_of best cs)
      × (best.matched ≤ (best_of best cs).matched)
      × AtMost (best_of best cs).matched cs
unfolding best_of
best_of_lem Q best [] q all = (q, omega arith, tt)
best_of_lem Q best (c ∷ cs) q all =
    let AtLeast : Candidate → Type 0 = λ b.
      Q (best_of b cs)
      × (best.matched ≤ (best_of b cs).matched)
      × ((c.matched ≤ (best_of b cs).matched) × AtMost (best_of b cs).matched cs) in
    elim (beats_matched c best) [
      | inl (e, le) ↦
          let (found, more, rest) = best_of_lem Q c cs all.0 all.1 in
          subst AtLeast (sym (if_true (beats c best) c best e))
            (found, omega (arith, le, more), (more, rest))
      | inr (e, le) ↦
          let (found, more, rest) = best_of_lem Q best cs q all.1 in
          subst AtLeast (sym (if_false (beats c best) c best e))
            (found, more, (omega (arith, le, more), rest))
    ]

module _ (namespace : LlamaCppNamespace) (prompt : List ℤ) where
  -- What the loop of `prepare` knows of a candidate whose key has `M`.
  record IsCandidate (M : Key → Type 0) (c : Candidate) : Type 0 where
    listed : M c.key
    same_namespace : (c.key.namespace == namespace) ≡ true
    matches : c.matched ≡ token_lcp c.key.tokens prompt
    some_match : (c.matched == 0) ≡ false

  candidates_lem :
      (M : Key → Type 0) (es : Dict Key (EntryState LlamaCppNamespace))
      → ((k : Key) → contains k (keys es) ≡ true → M k)
      → All (IsCandidate M) (candidates_of namespace prompt es)
  unfolding candidates_of contains
  candidates_lem M [] held = tt
  candidates_lem M ((key, entry) ∷ rest) held =
      let others = candidates_lem M rest (λ k m. held k (ground (arith, m))) in
      elim (Bool-cases (key.namespace == namespace)) [
        | inr foreign ↦ rw foreign others
        | inl same ↦ elim (Bool-cases (token_lcp key.tokens prompt == 0)) [
          | inl e ↦ rw (same, e) others
          | inr e ↦
              rw (same, e)
                (
                  record {
                    listed = held key (ground (arith, ==_refl key));
                    same_namespace = same;
                    matches = refl;
                    some_match = e;
                  },
                  others,
                )
        ]
      ]

  bound_head :
      (m : ℕ) (key : Key) (entry : EntryState LlamaCppNamespace)
      (rest : Dict Key (EntryState LlamaCppNamespace))
      → AtMost m (candidates_of namespace prompt ((key, entry) ∷ rest))
      → (key.namespace == namespace) ≡ true
      → token_lcp key.tokens prompt ≤ m
  unfolding candidates_of
  bound_head m key entry rest b same = elim (Bool-cases (token_lcp key.tokens prompt == 0)) [
    | inl e ↦ ground (arith, e)
    | inr e ↦ (rw (same, e) at b).0
  ]

  bound_tail :
      (m : ℕ) (key : Key) (entry : EntryState LlamaCppNamespace)
      (rest : Dict Key (EntryState LlamaCppNamespace))
      → AtMost m (candidates_of namespace prompt ((key, entry) ∷ rest))
      → AtMost m (candidates_of namespace prompt rest)
  unfolding candidates_of
  bound_tail m key entry rest b = elim (Bool-cases (key.namespace == namespace)) [
    | inr foreign ↦ rw foreign at b
    | inl same ↦ elim (Bool-cases (token_lcp key.tokens prompt == 0)) [
      | inl e ↦ rw (same, e) at b
      | inr e ↦ (rw (same, e) at b).1
    ]
  ]

  candidates_bound :
      (m : ℕ) (es : Dict Key (EntryState LlamaCppNamespace)) (k : Key)
      → AtMost m (candidates_of namespace prompt es)
      → contains k (keys es) ≡ true
      → (k.namespace == namespace) ≡ true
      → token_lcp k.tokens prompt ≤ m
  unfolding contains
  candidates_bound m [] k b held same = absurd (ground (arith, held))
  candidates_bound m ((key, entry) ∷ rest) k b held same = elim (Bool-cases (key == k)) [
    | inl e ↦
        let here = eq_of_== key k e in
        subst (λ j. token_lcp j.tokens prompt ≤ m) here
          (bound_head m key entry rest b (ap (λ j. j.namespace == namespace) here ∙ same))
    | inr e ↦
        candidates_bound m rest k (bound_tail m key entry rest b) (ground (arith, e, held)) same
  ]

  abbrev IsBound : WorkingSetPolicy LlamaCppNamespace → ℕ → Type 0
  IsBound p m =
      (k : Key)
      → contains k (keys p.entries) ≡ true
      → (k.namespace == namespace) ≡ true
      → token_lcp k.tokens prompt ≤ m

  select_key-IsBound :
      (p : WorkingSetPolicy LlamaCppNamespace)
      → ((select_key namespace prompt p ≡ none) × IsBound p 0)
        ⊎ ((k : Key) × (select_key namespace prompt p ≡ some k)
            × (contains k (keys p.entries) ≡ true)
            × ((k.namespace == namespace) ≡ true)
            × (1 ≤ token_lcp k.tokens prompt)
            × IsBound p (token_lcp k.tokens prompt))
  unfolding select_key
  select_key-IsBound p =
      longest (candidates_of namespace prompt p.entries)
        (candidates_lem (λ k. contains k (keys p.entries) ≡ true) p.entries (λ k m. m))
        (λ m b k. candidates_bound m p.entries k b)
    where
      longest :
          (cs : List Candidate)
          → All (IsCandidate (λ k. contains k (keys p.entries) ≡ true)) cs
          → ((m : ℕ) → AtMost m cs → IsBound p m)
          → let selected : Option Key = elim cs [
            | [] ↦ none
            | c ∷ rest ↦ some (best_of c rest).key
          ] in
            ((selected ≡ none) × IsBound p 0)
            ⊎ ((k : Key) × (selected ≡ some k)
                × (contains k (keys p.entries) ≡ true)
                × ((k.namespace == namespace) ≡ true)
                × (1 ≤ token_lcp k.tokens prompt)
                × IsBound p (token_lcp k.tokens prompt))
      longest [] all bound = inl (refl, bound 0 tt)
      longest (c ∷ rest) all bound =
          let (q, more, others) = best_of_lem _ c rest all.0 all.1 in
          inr (
            (best_of c rest).key,
            refl,
            q.listed,
            q.same_namespace,
            ground (arith, q.matches, q.some_match),
            subst (IsBound p) q.matches (bound (best_of c rest).matched (more, others)),
          )

  -- No key of the namespace that is listed shares more than `m` tokens with the prompt.
  abbrev pub IsLongest : WorkingSetPolicy LlamaCppNamespace → ℕ → Type 0
  IsLongest p m =
      (k : Key) (n : ℕ)
      → contains k (keys p.entries) ≡ true
      → (k.namespace == namespace) ≡ true
      → Shares n k.tokens prompt
      → n ≤ m

  bound-IsLongest : (p : WorkingSetPolicy LlamaCppNamespace) (m : ℕ) → IsBound p m → IsLongest p m
  bound-IsLongest p m b k n listed same shared =
      omega (arith, b k listed same, lcp_longest k.tokens prompt n shared)

  -- `prepare` restores a listed key of its namespace whose first `n` tokens are those of the prompt, `n`
  -- being at least 1 and the greatest such number for any listed key of the namespace; it restores none
  -- exactly where no listed key shares a first token with the prompt.
  pub select_key-IsLongest :
      (p : WorkingSetPolicy LlamaCppNamespace)
      → ((select_key namespace prompt p ≡ none) × IsLongest p 0)
        ⊎ ((k : Key) × (n : ℕ) × (select_key namespace prompt p ≡ some k)
            × (contains k (keys p.entries) ≡ true)
            × ((k.namespace == namespace) ≡ true)
            × (1 ≤ n)
            × Shares n k.tokens prompt
            × IsLongest p n)
  select_key-IsLongest p = elim (select_key-IsBound p) [
    | inl (e, b) ↦ inl (e, bound-IsLongest p 0 b)
    | inr (k, e, listed, same, some_match, b) ↦ inr (
      k,
      token_lcp k.tokens prompt,
      e,
      listed,
      same,
      some_match,
      lcp_shared k.tokens prompt,
      bound-IsLongest p _ b,
    )
  ]
