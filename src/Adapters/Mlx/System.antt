-- ===== src/Adapters/Mlx/System.antt =====
-- The facade for MLX-LM over any sequence of its calls.
use mathlib.Core.Path.{subst}
use statebraid.Prelude.{ℤ, ◌≡◌, sym, ap, ◌∙◌, List, [], ◌∷◌, Option, none, some, String, Hashable}
use statebraid.Prelude.Result.{ok}
use statebraid.Prelude.Exec.{Exec, on_second, store_kept}
use statebraid.Prelude.Exec.Keeps.{Keeps, bind-Keeps, local-Keeps}
use statebraid.Cache.Key.{CacheKey, key_hashable, from_tokens}
use statebraid.Cache.Policy.{init}
use statebraid.Cache.Policy.Lookup.{is_some}
use statebraid.Cache.Coordinator.{coordinator_observe_hit}
use statebraid.Cache.Coordinator.Laws.{IsTransactional}
use statebraid.Cache.Coordinator.System.{
  Call, admits, proposes, hits, trims, step, IsSound, step-IsSound, start-IsSound,
}
use statebraid.Adapters.Mlx.{
  MlxTransactionalStorage, PromptCacheObject, mlx_backend, backend_lookup, prompt_cache_nbytes,
}
use statebraid.Adapters.Mlx.Facade.{
  MlxState, credit_match, fetch_nearest, insert_cache, insert_stable_candidate,
  insert_active_successor, mlx_trim_to,
}

-- The calls of a client of the facade.
pub data MlxCall (N P : Type 0) : Type 0 where
  fetches : N → List ℤ → MlxCall N P
  inserts : N → List ℤ → P → String → MlxCall N P
  candidates : N → List ℤ → P → MlxCall N P
  successors : N → List ℤ → P → List ℤ → MlxCall N P
  trimming : Option ℤ → Option ℤ → MlxCall N P

module _ {C N P X : Type 0} ⦃h : Hashable N⦄ (cache : PromptCacheObject C N P X)
    (storage : MlxTransactionalStorage C N P X) where
  -- The state after a call; the caller handles what it raises.
  pub mlx_step : MlxState cache storage → MlxCall N P → MlxState cache storage
  mlx_step st (fetches model tokens) = (fetch_nearest cache storage model tokens st).1
  mlx_step st (inserts model tokens payload role) =
      (insert_cache cache storage model tokens payload role st).1
  mlx_step st (candidates model tokens payload) =
      (insert_stable_candidate cache storage model tokens payload st).1
  mlx_step st (successors model tokens payload old) =
      (insert_active_successor cache storage model tokens payload old st).1
  mlx_step st (trimming n_sequences n_bytes) = (mlx_trim_to cache storage n_sequences n_bytes st).1

  pub mlx_run : MlxState cache storage → List (MlxCall N P) → MlxState cache storage
  mlx_run st [] = st
  mlx_run st (c ∷ cs) = mlx_run (mlx_step st c) cs

  -- A nearest-prefix lookup may reorder the prompt cache and count, but it binds and unbinds nothing.
  pub record FetchKeepsBindings (t : IsTransactional (mlx_backend storage)) : Type 0 where
    pub same_view :
        (model : N) (tokens : List ℤ) (s : C) (k : CacheKey N)
        → t.view (cache.fetch_nearest_cache model tokens s).1 k ≡ t.view s k
    pub stays_valid :
        (model : N) (tokens : List ℤ) (s : C)
        → t.Valid s
        → t.Valid (cache.fetch_nearest_cache model tokens s).1

  module _ (t : IsTransactional (mlx_backend storage)) (f : FetchKeepsBindings t) where
    abbrev Sound : MlxState cache storage → Type 0
    Sound = IsSound (mlx_backend storage) t

    abbrev KeepsSound : {A : Type 0} → Exec (MlxState cache storage) A → Type 0
    KeepsSound m = Keeps Sound m

    call_keeps :
        (c : Call (mlx_backend storage)) (st : MlxState cache storage)
        → Sound st
        → Sound (step (mlx_backend storage) st c)
    call_keeps c st v = step-IsSound (mlx_backend storage) t st c v

    lookup_store :
        (model : N) (tokens : List ℤ) (s : C)
        → (backend_lookup cache model tokens s).1 ≡ (cache.fetch_nearest_cache model tokens s).1
    unfolding backend_lookup
    lookup_store model tokens s = store_kept (cache.fetch_nearest_cache model tokens s) _

    lookup_keeps :
        (model : N) (tokens : List ℤ) → KeepsSound (on_second (backend_lookup cache model tokens))
    unfolding on_second
    lookup_keeps model tokens = record {
      keeps = λ (p, s) v.
          subst (λ x. Sound (p, x)) (sym (lookup_store model tokens s))
            (record {
              live = v.live;
              in_step = (
                λ j. v.in_step.0 j ∙ ap is_some (sym (f.same_view model tokens s j)),
                f.stays_valid model tokens s v.in_step.1,
              );
            });
    }

    hit_keeps : (key : CacheKey N) → KeepsSound (coordinator_observe_hit (mlx_backend storage) key)
    unfolding step
    hit_keeps key = record { keeps = call_keeps (hits key) }

    credit_keeps :
        (payload : Option P) (key : Option (CacheKey N))
        → KeepsSound (credit_match cache storage payload key)
    unfolding credit_match
    credit_keeps none key = local-Keeps
    credit_keeps (some payload) none = local-Keeps
    credit_keeps (some payload) (some key) =
        bind-Keeps (hit_keeps key) (λ hit. local-Keeps {r = ok tt})

    fetch_keeps :
        (model : N) (tokens : List ℤ) → KeepsSound (fetch_nearest cache storage model tokens)
    unfolding fetch_nearest
    fetch_keeps model tokens = bind-Keeps (lookup_keeps model tokens) (λ o.
        bind-Keeps (credit_keeps o.payload o.matched_key)
          (λ _. local-Keeps {r = ok (o.payload, o.remaining)}))

    insert_keeps :
        (model : N) (tokens : List ℤ) (payload : P) (role : String)
        → KeepsSound (insert_cache cache storage model tokens payload role)
    unfolding insert_cache step
    insert_keeps model tokens payload role =
        bind-Keeps (local-Keeps {r = prompt_cache_nbytes cache payload}) (λ nbytes. record {
          keeps = call_keeps (admits (from_tokens model tokens) payload role nbytes none);
        })

    candidate_keeps :
        (model : N) (tokens : List ℤ) (payload : P)
        → KeepsSound (insert_stable_candidate cache storage model tokens payload)
    unfolding insert_stable_candidate step
    candidate_keeps model tokens payload =
        bind-Keeps (local-Keeps {r = prompt_cache_nbytes cache payload}) (λ nbytes. record {
          keeps = call_keeps (proposes (from_tokens model tokens) payload nbytes);
        })

    successor_keeps :
        (model : N) (tokens : List ℤ) (payload : P) (old : List ℤ)
        → KeepsSound (insert_active_successor cache storage model tokens payload old)
    unfolding insert_active_successor step
    successor_keeps model tokens payload old =
        bind-Keeps (local-Keeps {r = prompt_cache_nbytes cache payload}) (λ nbytes. record {
          keeps = call_keeps (
              admits (from_tokens model tokens) payload "active" nbytes
                (some (from_tokens model old)));
        })

    mlx_step-Sound :
        (st : MlxState cache storage) (c : MlxCall N P) → Sound st → Sound (mlx_step st c)
    unfolding mlx_step mlx_trim_to step
    mlx_step-Sound st (fetches model tokens) = (fetch_keeps model tokens).keeps st
    mlx_step-Sound st (inserts model tokens payload role) =
        (insert_keeps model tokens payload role).keeps st
    mlx_step-Sound st (candidates model tokens payload) =
        (candidate_keeps model tokens payload).keeps st
    mlx_step-Sound st (successors model tokens payload old) =
        (successor_keeps model tokens payload old).keeps st
    mlx_step-Sound st (trimming n_sequences n_bytes) = call_keeps (trims n_sequences n_bytes) st

    mlx_run-Sound :
        (st : MlxState cache storage) (cs : List (MlxCall N P)) → Sound st → Sound (mlx_run st cs)
    unfolding mlx_run
    mlx_run-Sound st [] v = v
    mlx_run-Sound st (c ∷ cs) v = mlx_run-Sound (mlx_step st c) cs (mlx_step-Sound st c v)

    -- Over a prompt cache with a transactional storage, whose nearest-prefix lookups bind and unbind
    -- nothing: any sequence of calls of a new facade over an empty, valid prompt cache, raising or not,
    -- leads to a state within the limits whose policy is well formed and lists exactly the keys that the
    -- prompt cache holds, in a store that is still valid.
    pub mlx_run_from_start :
        (max_sequences max_bytes : ℤ) (reserve : Option ℤ) (s : C) (cs : List (MlxCall N P))
        → t.Valid s
        → ((k : CacheKey N) → t.view s k ≡ none)
        → IsSound (mlx_backend storage) t (mlx_run (init max_sequences max_bytes [] reserve, s) cs)
    mlx_run_from_start max_sequences max_bytes reserve s cs w empty =
        mlx_run-Sound _ cs
          (start-IsSound (mlx_backend storage) t max_sequences max_bytes [] reserve s w empty)
