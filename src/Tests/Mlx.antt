-- ===== src/Tests/Mlx.antt =====
-- The theorem on the facade for MLX-LM at a prompt cache in memory.
use mathlib.Core.Path.{subst}
use statebraid.Prelude.{
  ◌+◌, ℕ, ℤ, pos, ◌≡◌, refl, sym, take, drop, leb, List, [], ◌∷◌, none, some, String, nat_hashable,
}
use statebraid.Prelude.Result.{ok, ok-injective}
use statebraid.Dict.{Dict, get, put, remove}
use statebraid.Cache.Key.{CacheKey, key_hashable}
use statebraid.Cache.Policy.{init}
use statebraid.Cache.Coordinator.System.{IsSound}
use statebraid.Adapters.Mlx.{MlxTransactionalStorage, PromptCacheObject, mlx_backend}
use statebraid.Adapters.Mlx.System.{
  MlxCall, fetches, inserts, candidates, successors, trimming, mlx_run, FetchKeepsBindings,
  mlx_run_from_start,
}
use statebraid.Cache.Generation.{but_last}
use statebraid.Cache.Generation.Safety.{Covers}
use statebraid.Adapters.Mlx.Generation.{
  MlxCacheModule, IsFaithful, IsSafe, generation_safe_prompt_cache_hit, mlx_hit-IsSafe,
}
use statebraid.Backend.Observation.Laws.{take-append-drop}
use statebraid.Tests.Fixtures.{memory-IsTransactional, store}

abbrev Memory : Type 0
Memory = Dict (CacheKey ℕ) String

abbrev key_at : ℕ → List ℤ → CacheKey ℕ
key_at model tokens = record { namespace = model; tokens = tokens }

abbrev storage : MlxTransactionalStorage Memory ℕ String String
storage = record {
  capture = λ model tokens s. (ok (get (key_at model tokens) s), s);
  restore = λ model tokens x s. (ok tt, put (key_at model tokens) x s);
  remove = λ model tokens s. (ok tt, remove (key_at model tokens) s);
  insert = λ model tokens x role s. store (key_at model tokens) x role s;
}

-- A lookup finds what is bound to the whole prompt.
abbrev cache : PromptCacheObject Memory ℕ String String
cache = record {
  transactional_storage = some (λ s. (
    ok (record {
      capture = some storage.capture;
      restore = some storage.restore;
      remove = some storage.remove;
      insert = some storage.insert;
    }),
    s,
  ));
  fetch_nearest_cache = λ model tokens s. (ok (get (key_at model tokens) s, []), s);
  sizes_of = λ x. some (pos 40 ∷ []);
}

fetch_keeps : FetchKeepsBindings cache storage memory-IsTransactional
fetch_keeps = record { same_view = λ model tokens s k. refl; stays_valid = λ model tokens s w. w }

abbrev calls : List (MlxCall ℕ String)
calls =
    inserts 0 (pos 1 ∷ []) "first" "active"
    ∷ fetches 0 (pos 1 ∷ [])
    ∷ candidates 0 (pos 7 ∷ []) "bad"
    ∷ successors 0 (pos 1 ∷ pos 2 ∷ []) "second" (pos 1 ∷ [])
    ∷ trimming (some (pos 1)) none
    ∷ []

nothing_bound : (k : CacheKey ℕ) → memory-IsTransactional.view [] k ≡ none
unfolding get
nothing_bound k = refl

mlx_run_from_start_example :
    IsSound
      (mlx_backend storage)
      memory-IsTransactional
      (mlx_run cache storage (init (pos 4) (pos 100) [] none, []) calls)
mlx_run_from_start_example =
    mlx_run_from_start cache storage memory-IsTransactional fetch_keeps (pos 4) (pos 100) none []
      calls tt nothing_bound

-- A prompt cache whose payloads are the tokens that they hold. The store counts lookups, and a lookup
-- finds as many tokens as there have been lookups.
abbrev token_cache : PromptCacheObject ℕ ℕ (List ℤ) String
token_cache = record {
  transactional_storage = none;
  fetch_nearest_cache = λ model tokens s. (ok (some (take s tokens), drop s tokens), s + 1);
  sizes_of = λ x. none;
}

-- Nothing can be trimmed before the tenth lookup.
abbrev caches : MlxCacheModule ℕ (List ℤ)
caches = record {
  can_trim_prompt_cache = λ payload s. (ok (leb 10 s), s);
  trim_prompt_cache = λ payload n s. (ok (but_last payload), s);
}

caches-IsFaithful : IsFaithful caches token_cache 0 (λ c. c)
caches-IsFaithful = record {
  trims = λ payload trimmed s told fine. sym (ok-injective (but_last payload) trimmed fine);
  fetches = λ prompt s r fine.
      subst (Covers (λ c. c) prompt) (ok-injective (some (take s prompt), drop s prompt) r fine)
        (take-append-drop s prompt);
}

mlx_hit-IsSafe_example :
    IsSafe caches token_cache 0
      (λ c. c)
      caches-IsFaithful
      (pos 1 ∷ pos 2 ∷ [])
      ((generation_safe_prompt_cache_hit
        (λ s. (ok caches, s))
        token_cache
        0
        (pos 1 ∷ pos 2 ∷ [])
        (some (pos 1 ∷ pos 2 ∷ []))
        []
        1).0)
mlx_hit-IsSafe_example =
    mlx_hit-IsSafe caches token_cache 0 (λ c. c) caches-IsFaithful (λ s. (ok caches, s)) 1 (pos 1)
      (pos 2 ∷ []) [] (some (pos 1 ∷ pos 2 ∷ [])) refl refl
