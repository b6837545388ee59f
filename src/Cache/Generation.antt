-- ===== src/Cache/Generation.antt =====
-- src/statebraid/cache/generation.py. The callbacks of the backend are arguments; a cache that
-- `trim_one` changes in place is the cache that it returns.
pub mod Safety
use statebraid.Prelude.{
  ℕ, ◌+◌, Bool, List, [], ◌∷◌, ◌++◌, Option, none, some, ◌==◌, nat_hashable, length, if◌then◌else◌,
}

-- `xs[-1:]` and `xs[:-1]`.
unfoldable pub last_slice {ℓ} : {A : Type ℓ} → List A → List A
last_slice [] = []
last_slice (x ∷ []) = x ∷ []
last_slice (x ∷ y ∷ xs) = last_slice (y ∷ xs)

unfoldable pub but_last {ℓ} : {A : Type ℓ} → List A → List A
but_last [] = []
but_last (x ∷ []) = []
but_last (x ∷ y ∷ xs) = x ∷ but_last (y ∷ xs)

module _ {C T : Type 0} where
  -- What an exact hit on a cache that cannot be trimmed falls back to.
  unfoldable pub from_shorter : List T → Option C × List T → Option C × List T
  unfolding last_slice
  from_shorter prompt (none, prefix_rest) = (none, prompt)
  from_shorter prompt (some prefix_cache, prefix_rest) =
      (some prefix_cache, prefix_rest ++ last_slice prompt)

  unfoldable pub ensure_generation_safe_exact_hit :
      (C → Bool)
      → (C → C)
      → (List T → Option C × List T)
      → Option C
      → List T
      → List T
      → Option C × List T
  unfolding from_shorter but_last
  ensure_generation_safe_exact_hit can_trim trim_one fetch_shorter none rest prompt = (none, rest)
  ensure_generation_safe_exact_hit can_trim trim_one fetch_shorter (some cache) (r ∷ rest) prompt =
      (some cache, r ∷ rest)
  ensure_generation_safe_exact_hit can_trim trim_one fetch_shorter (some cache) [] [] =
      (some cache, [])
  ensure_generation_safe_exact_hit can_trim trim_one fetch_shorter (some cache) [] (t ∷ prompt) =
      if can_trim cache
      then (some (trim_one cache), last_slice (t ∷ prompt))
      else from_shorter (t ∷ prompt) (fetch_shorter (but_last (t ∷ prompt)))

unfoldable pub is_generation_safe_hybrid_checkpoint {ℓ} : {A : Type ℓ} → List A → List A → Bool
is_generation_safe_hybrid_checkpoint cache_tokens prompt = length cache_tokens + 1 == length prompt
