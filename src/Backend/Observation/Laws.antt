-- ===== src/Backend/Observation/Laws.antt =====
-- What a normalized observation says of the prompt.
use statebraid.Prelude.{
  ℕ, zero, suc, ◌+◌, ◌-◌, ◌≤◌, ◌≡◌, refl, ap, ℤ, not, List, [], ◌∷◌, ◌++◌, Option, none, some, ◌==◌,
  list_hashable, int_hashable, nat_hashable, length, length-append, take, drop, arith,
  if◌then◌else◌,
}
use statebraid.Prelude.Result.{ok}
use statebraid.Cache.Key.{CacheKey, from_tokens, matched_prefix_key}
use statebraid.Backend.Observation.{
  LookupObservation, from_backend_result, hit, matched_tokens, is_none,
}

module _ {A : Type 0} where
  pub take-append-drop : (n : ℕ) (xs : List A) → take n xs ++ drop n xs ≡ xs
  take-append-drop zero xs = refl
  take-append-drop (suc n) [] = refl
  take-append-drop (suc n) (x ∷ xs) = ap (◌∷◌ x) (take-append-drop n xs)

  pub length-take : (n : ℕ) (xs : List A) → n ≤ length xs → length (take n xs) ≡ n
  length-take zero xs h = refl
  length-take (suc n) [] h = absurd (omega arith)
  length-take (suc n) (x ∷ xs) h = ap suc (length-take n xs (omega arith))

  pub drop-append : (xs ys : List A) → drop (length xs) (xs ++ ys) ≡ ys
  drop-append [] ys = refl
  drop-append (x ∷ xs) ys = drop-append xs ys

  pub take-append : (xs ys : List A) → take (length xs) (xs ++ ys) ≡ xs
  take-append [] ys = refl
  take-append (x ∷ xs) ys = ap (◌∷◌ x) (take-append xs ys)

-- The tokens of a key that may be absent.
abbrev pub tokens_of : {N : Type 0} → Option (CacheKey N) → List ℤ
tokens_of none = []
tokens_of (some key) = key.tokens

module _ {N P : Type 0} (namespace : N) (prompt : List ℤ) (payload : Option P)
    (remaining : List ℤ) where
  -- An observation that was made splits the prompt exactly into the tokens that were matched and those that remain;
  -- it counts both, is a hit exactly when there is a payload, and names the key that
  -- `matched_prefix_key` finds.
  pub observation_splits :
      (o : LookupObservation N P)
      → from_backend_result namespace prompt payload remaining ≡ ok o
      → (tokens_of o.matched_key ++ o.remaining ≡ prompt)
        × (o.remaining ≡ remaining)
        × (matched_tokens o + length remaining ≡ length prompt)
        × (hit o ≡ not (is_none payload))
        × (o.matched_key ≡ matched_prefix_key namespace prompt remaining)
  unfolding from_backend_result matched_tokens hit matched_prefix_key from_tokens
  observation_splits o e =
      let n = length prompt - length remaining in
      let parts = take-append-drop n prompt in
      let counted = length-take n prompt (omega arith) in
      (
        ground (arith, e, parts),
        ground (arith, e),
        ground (arith, e, counted),
        ground (arith, e),
        ground (arith, e),
      )

-- Every true split of a prompt is accepted, with a payload exactly where a prefix was matched, and
-- the key of the observation holds the matched tokens.
pub observation_accepts :
    {N P : Type 0} (namespace : N) (matched remaining : List ℤ) (payload : Option P)
    → is_none payload ≡ (length matched == 0)
    → from_backend_result namespace (matched ++ remaining) payload remaining
      ≡ ok (record {
        namespace = namespace;
        prompt = matched ++ remaining;
        remaining = remaining;
        payload = payload;
        matched_key = if length matched == 0 then none else some (from_tokens namespace matched);
      })
unfolding from_backend_result
observation_accepts namespace matched remaining payload e =
    let n = length (matched ++ remaining) - length remaining in
    let len : n ≡ length matched = omega (arith, length-append {0} matched remaining) in
    rw len (
      ground (
        arith,
        e,
        len,
        length-append matched remaining,
        take-append matched remaining,
        drop-append matched remaining,
      ))
