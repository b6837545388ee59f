-- ===== src/Adapters/Mlx.antt =====
-- src/statebraid/adapters/mlx.py: the adapter for MLX-LM. The prompt cache is an argument; its state is
-- that of its store, and its calls may raise.
pub mod Facade
pub mod Generation
pub mod System
use statebraid.Prelude.{
  ℕ, ◌+◌, ℤ, Bool, true, false, List, [], ◌∷◌, Option, none, some, String, Hashable, clamp,
}
use statebraid.Prelude.Result.{Result, ok, raise, type_error}
use statebraid.Prelude.Exec.{Exec, pure, continue, ◌>>=◌}
use statebraid.Cache.Key.{CacheKey}
use statebraid.Cache.Coordinator.{Backend}
use statebraid.Cache.Generation.{ensure_generation_safe_exact_hit}
use statebraid.Backend.Observation.{LookupObservation, from_backend_result}
use statebraid.Backend.Descriptor.{
  BackendDescriptor, namespace_isolation, prefix_lookup, admission_residency,
  transactional_mutation, rollback, hit_attribution, generation_safety, passive,
  backend_contract_version,
}

abbrev pub mlx_backend_descriptor : BackendDescriptor
mlx_backend_descriptor = record {
  name = "mlx-lm";
  adapter = "statebraid.adapters.mlx";
  capabilities =
      namespace_isolation ∷ prefix_lookup ∷ admission_residency ∷ transactional_mutation ∷ rollback
      ∷ hit_attribution ∷ generation_safety ∷ [];
  observation_profile = some (record {
    mode = passive;
    may_mutate_backend_state = true;
    notes =
        "Nearest-prefix evidence does not require model execution."
        ∷ "Conservatively marked mutating because backend lookup may update cache/LRU accounting."
        ∷ [];
  });
  qualification_profile = some (record {
    source_revision =
        "mlx-lm@7fb4be44d560e5b74595210f83cb6003a57e52a7 + StateBraid reference patch (qualified source 404b970d12928d1c1db27317614982623abf0208)";
    observation_path = "patched MLX prompt-cache fetch_nearest_cache + transactional_storage";
    cache_mode = "StateBraid exclusive policy; hybrid/non-trimmable reference KV";
    concurrency_profile = "prompt=1, decode=1, single-model reference profile";
    model_class = "Ornith-1.5-35B-A3B-MLX (Qwen3.6-derived reference)";
    runtime_qualified = true;
    notes =
        "Qualification applies only to the exact v0.1 supported-scope profile."
        ∷ "The 2026-09-08 E4 requalification replaced the prior exact MLX-LM base without widening the profile."
        ∷ "Generic trimmable KV, quantized KV, speculative decode and broader concurrency remain unqualified."
        ∷ [];
  });
  contract_version = backend_contract_version;
  notes =
      "Capability declaration describes adapter mechanics only; runtime qualification remains narrower."
      ∷ "MLX-LM owns model execution and physical KV storage/transport." ∷ [];
}

-- `_MLXTransactionalStorage`, over the state `C` of the prompt cache: `N` are the models, `P` the
-- payloads and `X` the snapshots.
pub record MlxTransactionalStorage (C N P X : Type 0) : Type 0 where
  pub capture : N → List ℤ → Exec C (Option X)
  pub restore : N → List ℤ → X → Exec C (Unit {0})
  pub remove : N → List ℤ → Exec C (Unit {0})
  pub insert : N → List ℤ → P → String → Exec C (Unit {0})

-- What `transactional_storage()` returns, whose methods may be missing.
pub record StorageObject (C N P X : Type 0) : Type 0 where
  pub capture : Option (N → List ℤ → Exec C (Option X))
  pub restore : Option (N → List ℤ → X → Exec C (Unit {0}))
  pub remove : Option (N → List ℤ → Exec C (Unit {0}))
  pub insert : Option (N → List ℤ → P → String → Exec C (Unit {0}))

-- A prompt cache of MLX-LM. `sizes_of` has the `nbytes` of a payload's items, and no value where reading
-- them raises.
pub record PromptCacheObject (C N P X : Type 0) : Type 0 where
  pub transactional_storage : Option (Exec C (StorageObject C N P X))
  pub fetch_nearest_cache : N → List ℤ → Exec C (Option P × List ℤ)
  pub sizes_of : P → Option (List ℤ)

-- `sum(max(0, int(…)) for …)`.
abbrev pub sum_sizes : List ℤ → ℕ
sum_sizes [] = 0
sum_sizes (n ∷ ns) = clamp n + sum_sizes ns

-- A method that has to be there.
abbrev pub method : {A : Type 0} → Option A → Result A
method none = raise type_error
method (some f) = ok f

module _ {C N P X : Type 0} where
  -- The loop over the names of the methods.
  unfoldable pub check_methods : StorageObject C N P X → Result (MlxTransactionalStorage C N P X)
  check_methods o = elim (method o.capture) [
    | raise e ↦ raise e
    | ok capture ↦ elim (method o.restore) [
      | raise e ↦ raise e
      | ok restore ↦ elim (method o.remove) [
        | raise e ↦ raise e
        | ok remove ↦ elim (method o.insert) [
          | raise e ↦ raise e
          | ok insert ↦
              ok (record { capture = capture; restore = restore; remove = remove; insert = insert })
        ]
      ]
    ]
  ]

  -- `MLXPromptCacheBackend.__init__`.
  unfoldable pub init_backend :
      Option (Exec C (StorageObject C N P X)) → Exec C (MlxTransactionalStorage C N P X)
  unfolding continue check_methods
  init_backend none s = (raise type_error, s)
  init_backend (some factory) s = continue (factory s) (λ o s'. (check_methods o, s'))

  -- `MLXPromptCacheBackend` as the backend of the coordinator.
  abbrev pub mlx_backend : MlxTransactionalStorage C N P X → Backend N
  mlx_backend storage = record {
    Store = C;
    Snapshot = X;
    Payload = P;
    capture = λ key. storage.capture key.namespace key.tokens;
    restore = λ key snapshot. storage.restore key.namespace key.tokens snapshot;
    remove = λ key. storage.remove key.namespace key.tokens;
    insert = λ key payload role. storage.insert key.namespace key.tokens payload role;
    forget = none;
  }

  unfoldable pub backend_lookup :
      PromptCacheObject C N P X → N → List ℤ → Exec C (LookupObservation N P)
  unfolding continue
  backend_lookup cache namespace tokens s =
      continue (cache.fetch_nearest_cache namespace tokens s)
        (λ found s'. (from_backend_result namespace tokens found.0 found.1, s'))

  -- `_prompt_cache_nbytes`.
  unfoldable pub prompt_cache_nbytes : PromptCacheObject C N P X → P → Result ℕ
  prompt_cache_nbytes cache payload = elim (cache.sizes_of payload) [
    | none ↦ raise type_error
    | some sizes ↦ ok (sum_sizes sizes)
  ]
