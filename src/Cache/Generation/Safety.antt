-- ===== src/Cache/Generation/Safety.antt =====
-- What the guard of src/statebraid/cache/generation.py gives to the generation.
use statebraid.Prelude.{
  ◌≡◌, ◌≢◌, refl, sym, ap, ◌∙◌, Bool, true, false, List, [], ◌∷◌, ◌++◌, Option, none, some,
  nat_hashable, length, arith, if◌then◌else◌,
}
use statebraid.Cache.Generation.{
  last_slice, but_last, from_shorter, ensure_generation_safe_exact_hit,
}

but_last-last_slice : {A : Type 0} (xs : List A) → but_last xs ++ last_slice xs ≡ xs
unfolding but_last last_slice
but_last-last_slice [] = refl
but_last-last_slice (x ∷ []) = refl
but_last-last_slice (x ∷ y ∷ xs) = ap (◌∷◌ x) (but_last-last_slice (y ∷ xs))

length-last_slice : {A : Type 0} (x : A) (xs : List A) → length (last_slice (x ∷ xs)) ≡ 1
unfolding last_slice
length-last_slice x [] = refl
length-last_slice x (y ∷ xs) = length-last_slice y xs

append_assoc : {A : Type 0} (xs ys zs : List A) → (xs ++ ys) ++ zs ≡ xs ++ (ys ++ zs)
append_assoc [] ys zs = refl
append_assoc (x ∷ xs) ys zs = ap (◌∷◌ x) (append_assoc xs ys zs)

last_slice-nonempty : {A : Type 0} (x : A) (xs : List A) → last_slice (x ∷ xs) ≢ []
last_slice-nonempty x xs e = ground (arith, length-last_slice x xs, e)

append_nil : {A : Type 0} (xs : List A) → xs ++ [] ≡ xs
append_nil [] = refl
append_nil (x ∷ xs) = ap (◌∷◌ x) (append_nil xs)

append-nonempty : {A : Type 0} (xs ys : List A) → ys ≢ [] → xs ++ ys ≢ []
append-nonempty [] ys n = n
append-nonempty (x ∷ xs) ys n = λ e. cc

one_of :
    {A : Type 0} (b : Bool) (x y : A) (P : A → Type 0)
    → (b ≡ true → P x)
    → P y
    → P (if b then x else y)
one_of true x y P px py = px refl
one_of false x y P px py = py

module _ {C T : Type 0} (tokens : C → List T) where
  -- A lookup result accounts for the whole prompt: the tokens that the cache holds, then the rest.
  abbrev pub Covers : List T → Option C × List T → Type 0
  Covers prompt (none, rest) = rest ≡ prompt
  Covers prompt (some cache, rest) = tokens cache ++ rest ≡ prompt

  -- It does, and leaves something to generate from.
  abbrev pub IsReady : List T → Option C × List T → Type 0
  IsReady prompt r = Covers prompt r × (r.1 ≢ [])

  -- What is relied on in the backend: trimming a cache that can be trimmed drops its last token, and
  -- looking up a prompt accounts for all of it.
  pub record IsFaithful (can_trim : C → Bool) (trim_one : C → C)
      (fetch_shorter : List T → Option C × List T) : Type 0 where
    pub trims : (c : C) → can_trim c ≡ true → tokens (trim_one c) ≡ but_last (tokens c)
    pub fetches : (prompt : List T) → Covers prompt (fetch_shorter prompt)

  from_shorter-Covers :
      (prompt : List T) (r : Option C × List T)
      → Covers (but_last prompt) r
      → Covers prompt (from_shorter prompt r)
  unfolding from_shorter
  from_shorter-Covers prompt (none, rest) c = refl
  from_shorter-Covers prompt (some cache, rest) c =
      sym (append_assoc (tokens cache) rest (last_slice prompt))
      ∙ ap (λ xs. xs ++ last_slice prompt) c
      ∙ but_last-last_slice prompt

  pub trimmed-IsReady :
      (cache trimmed : C) (t : T) (prompt : List T)
      → tokens trimmed ≡ but_last (tokens cache)
      → Covers (t ∷ prompt) (some cache, [])
      → IsReady (t ∷ prompt) (some trimmed, last_slice (t ∷ prompt))
  trimmed-IsReady cache trimmed t prompt e c = (
    ap (λ xs. xs ++ last_slice (t ∷ prompt)) (e ∙ ap but_last (sym (append_nil (tokens cache)) ∙ c))
        ∙ but_last-last_slice (t ∷ prompt),
    last_slice-nonempty t prompt,
  )

  pub shorter-IsReady :
      (t : T) (prompt : List T) (r : Option C × List T)
      → Covers (but_last (t ∷ prompt)) r
      → IsReady (t ∷ prompt) (from_shorter (t ∷ prompt) r)
  unfolding from_shorter
  shorter-IsReady t prompt (none, rest) c = (refl, λ e. cc)
  shorter-IsReady t prompt (some cache, rest) c = (
    from_shorter-Covers (t ∷ prompt) (some cache, rest) c,
    append-nonempty rest (last_slice (t ∷ prompt)) (last_slice-nonempty t prompt),
  )

  module _ (can_trim : C → Bool) (trim_one : C → C) (fetch_shorter : List T → Option C × List T)
      (f : IsFaithful can_trim trim_one fetch_shorter) where
    -- Where trimming drops the last token and lookups account for their prompts: of a lookup result
    -- that accounts for a non-empty prompt, the guard makes one that accounts for it as well and leaves
    -- at least one token to generate from.
    pub generation_safe :
        (cache : Option C) (rest : List T) (t : T) (prompt : List T)
        → Covers (t ∷ prompt) (cache, rest)
        → IsReady (t ∷ prompt) (
            ensure_generation_safe_exact_hit can_trim trim_one fetch_shorter cache rest
              (t ∷ prompt))
    unfolding ensure_generation_safe_exact_hit
    generation_safe none rest t prompt c = (c, λ e. cc)
    generation_safe (some cache) (x ∷ rest) t prompt c = (c, λ e. cc)
    generation_safe (some cache) [] t prompt c =
        one_of (can_trim cache) (some (trim_one cache), last_slice (t ∷ prompt))
          (from_shorter (t ∷ prompt) (fetch_shorter (but_last (t ∷ prompt)))) (IsReady (t ∷ prompt))
          (λ e. trimmed-IsReady cache (trim_one cache) t prompt (f.trims cache e) c)
          (shorter-IsReady t prompt (fetch_shorter (but_last (t ∷ prompt)))
            (f.fetches (but_last (t ∷ prompt))))
