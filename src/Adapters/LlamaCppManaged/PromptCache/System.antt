-- ===== src/Adapters/LlamaCppManaged/PromptCache/System.antt =====
-- The managed prompt cache over any sequence of its calls.
use statebraid.Prelude.{ℤ, refl, List, [], ◌∷◌, Option, String, arith}
use statebraid.Dict.{get}
use statebraid.Cache.Policy.{init}
use statebraid.Cache.Coordinator.System.{start-IsSound}
use statebraid.Adapters.LlamaCpp.{LlamaCppNamespace}
use statebraid.Adapters.LlamaCpp.Lookup.{JsonTransport, namespace_hashable}
use statebraid.Adapters.LlamaCppManaged.Mutations.{LlamaCppManagedHttpAdapter, Handle}
use statebraid.Adapters.LlamaCppManaged.Storage.{storage, empty_registry}
use statebraid.Adapters.LlamaCppManaged.Storage.Transactional.{storage-IsTransactional}
use statebraid.Adapters.LlamaCppManaged.PromptCache.{
  Cache, apply_remote_evictions, admit_captured, capture_and_admit, capture_current_tokens,
  capture_stable_candidate, reconcile_orphans,
}
use statebraid.Adapters.LlamaCppManaged.PromptCache.Lookup.{
  prepare, lookup, generation_safe_exact, managed_trim_to,
}
use statebraid.Adapters.LlamaCppManaged.PromptCache.Sound.{
  Sound, apply_remote_evictions_keeps, admit_captured_keeps, capture_and_admit_keeps,
  capture_current_tokens_keeps, capture_stable_candidate_keeps, reconcile_orphans_keeps, trim_keeps,
  prepare_keeps, lookup_keeps, generation_safe_exact_keeps,
}

-- The calls of a client of the managed prompt cache.
pub data ManagedCall : Type 0 where
  evictions : List String → ManagedCall
  admission : List ℤ → Handle → String → Option (List ℤ) → ManagedCall
  bare_capture : List ℤ → ManagedCall
  capture : List ℤ → String → Option (List ℤ) → ManagedCall
  candidate : List ℤ → ManagedCall
  reconciliation : ManagedCall
  preparation : List ℤ → ManagedCall
  observation : LlamaCppNamespace → List ℤ → ManagedCall
  exact_observation : LlamaCppNamespace → List ℤ → ManagedCall
  trim : Option ℤ → Option ℤ → ManagedCall

module _ {S : Type 0} (transport : JsonTransport S) (a : LlamaCppManagedHttpAdapter) where
  -- The state after a call; the caller handles what it raises.
  pub managed_step : Cache transport a → ManagedCall → Cache transport a
  managed_step st (evictions handles) = (apply_remote_evictions transport a handles st).1
  managed_step st (admission tokens state role old) =
      (admit_captured transport a tokens state role old st).1
  managed_step st (bare_capture tokens) = (capture_current_tokens transport a tokens st).1
  managed_step st (capture tokens role old) = (capture_and_admit transport a tokens role old st).1
  managed_step st (candidate tokens) = (capture_stable_candidate transport a tokens st).1
  managed_step st reconciliation = (reconcile_orphans transport a st).1
  managed_step st (preparation prompt) = (prepare transport a prompt st).1
  managed_step st (observation namespace prompt) = (lookup transport a namespace prompt st).1
  managed_step st (exact_observation namespace prompt) =
      (generation_safe_exact transport a namespace prompt st).1
  managed_step st (trim n_sequences n_bytes) =
      (managed_trim_to transport a n_sequences n_bytes st).1

  pub managed_run : Cache transport a → List ManagedCall → Cache transport a
  managed_run st [] = st
  managed_run st (c ∷ cs) = managed_run (managed_step st c) cs

  managed_step-Sound :
      (st : Cache transport a) (c : ManagedCall)
      → Sound transport a st
      → Sound transport a (managed_step st c)
  unfolding managed_step
  managed_step-Sound st (evictions handles) =
      (apply_remote_evictions_keeps transport a handles).keeps st
  managed_step-Sound st (admission tokens state role old) =
      (admit_captured_keeps transport a tokens state role old).keeps st
  managed_step-Sound st (bare_capture tokens) =
      (capture_current_tokens_keeps transport a tokens).keeps st
  managed_step-Sound st (capture tokens role old) =
      (capture_and_admit_keeps transport a tokens role old).keeps st
  managed_step-Sound st (candidate tokens) =
      (capture_stable_candidate_keeps transport a tokens).keeps st
  managed_step-Sound st reconciliation = (reconcile_orphans_keeps transport a).keeps st
  managed_step-Sound st (preparation prompt) = (prepare_keeps transport a prompt).keeps st
  managed_step-Sound st (observation namespace prompt) =
      (lookup_keeps transport a namespace prompt).keeps st
  managed_step-Sound st (exact_observation namespace prompt) =
      (generation_safe_exact_keeps transport a namespace prompt).keeps st
  managed_step-Sound st (trim n_sequences n_bytes) =
      (trim_keeps transport a n_sequences n_bytes).keeps st

  managed_run-Sound :
      (st : Cache transport a) (cs : List ManagedCall)
      → Sound transport a st
      → Sound transport a (managed_run st cs)
  unfolding managed_run
  managed_run-Sound st [] v = v
  managed_run-Sound st (c ∷ cs) v =
      managed_run-Sound (managed_step st c) cs (managed_step-Sound st c v)

  -- A new managed cache holds nothing, whatever the server does.
  start-Sound :
      (max_sequences max_bytes : ℤ) (reserve : Option ℤ) (s : S)
      → Sound transport a (init max_sequences max_bytes [] reserve, (empty_registry, s))
  unfolding storage-IsTransactional get
  start-Sound max_sequences max_bytes reserve s =
      start-IsSound (storage transport a) (storage-IsTransactional transport a) max_sequences
        max_bytes [] reserve (empty_registry, s) (λ k x held. absurd (ground (arith, held)))
        (λ k. refl)

  -- Whatever the server answers and wherever a call raises: any sequence of calls of a new managed
  -- prompt cache leads to a state within the limits whose policy is well formed and lists exactly the
  -- keys that the registry binds to a handle, and every handle belongs to the server, the epoch and the
  -- slot of the adapter and counts as many tokens as its key.
  pub managed_run_from_start :
      (max_sequences max_bytes : ℤ) (reserve : Option ℤ) (s : S) (cs : List ManagedCall)
      → Sound transport a
          (managed_run (init max_sequences max_bytes [] reserve, (empty_registry, s)) cs)
  managed_run_from_start max_sequences max_bytes reserve s cs =
      managed_run-Sound _ cs (start-Sound max_sequences max_bytes reserve s)
