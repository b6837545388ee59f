-- ===== src/Adapters/Mlx/Facade.antt =====
-- src/statebraid/adapters/mlx.py: `MLXStateBraidPromptCache`, whose state is that of the coordinator over
-- the prompt cache.
use statebraid.Prelude.{
  ℕ, ◌+◌, ℤ, pos, clamp, Bool, List, [], ◌∷◌, Option, none, some, String, Hashable, string_hashable,
  length,
}
use statebraid.Prelude.Exec.{Exec, pure, continue, on_second, ◌>>=◌}
use statebraid.Dict.{Dict, get, put}
use statebraid.Cache.Key.{CacheKey, key_hashable, from_tokens}
use statebraid.Cache.Policy.{WorkingSetPolicy, EntryState, init, n_sequences}
use statebraid.Cache.Coordinator.{
  State, admit_entry, admit_stable_candidate, coordinator_observe_hit, trim_to,
}
use statebraid.Adapters.Mlx.{
  MlxTransactionalStorage, PromptCacheObject, mlx_backend, backend_lookup, prompt_cache_nbytes,
  init_backend,
}

pub record RoleStats : Type 0 where
  pub n_sequences : ℕ
  pub n_bytes : ℕ

pub record MlxActivationStats : Type 0 where
  pub mode : String
  pub n_sequences : ℕ
  pub n_bytes : ℕ
  pub pin_evictions : ℕ
  pub pin_quota_evictions : ℕ
  pub active_successor_evictions : ℕ
  pub stable_candidate_promotions : ℕ
  pub stable_candidate_rejections : ℕ

-- The role's numbers so far, as `setdefault` leaves them.
abbrev pub stats_or_zero : Option RoleStats → RoleStats
stats_or_zero none = record { n_sequences = 0; n_bytes = 0 }
stats_or_zero (some stats) = stats

-- The loop of `stats_by_type`.
unfoldable pub add_stats :
    {N : Type 0} → Dict (CacheKey N) (EntryState N) → Dict String RoleStats → Dict String RoleStats
add_stats [] result = result
add_stats ((key, entry) ∷ rest) result =
    let stats = stats_or_zero (get entry.role result) in
    add_stats rest (
      put entry.role
        (record { n_sequences = stats.n_sequences + 1; n_bytes = stats.n_bytes + entry.nbytes })
        result)

unfoldable pub stats_by_type : {N : Type 0} → WorkingSetPolicy N → Dict String RoleStats
unfolding add_stats
stats_by_type p = add_stats p.entries []

unfoldable pub mlx_activation_stats : {N : Type 0} → WorkingSetPolicy N → MlxActivationStats
mlx_activation_stats p = record {
  mode = "statebraid";
  n_sequences = length p.entries;
  n_bytes = p.nbytes;
  pin_evictions = p.state.pin_evictions;
  pin_quota_evictions = p.state.pin_quota_evictions;
  active_successor_evictions = p.state.active_successor_evictions;
  stable_candidate_promotions = p.state.stable_candidate_promotions;
  stable_candidate_rejections = p.state.stable_candidate_rejections;
}

-- `MLXStateBraidPromptCache.__init__`: the storage, and the policy before the first call.
unfoldable pub init_mlx :
    {C N P X : Type 0}
    → PromptCacheObject C N P X
    → ℤ
    → ℤ
    → Option ℤ
    → Exec C (MlxTransactionalStorage C N P X × WorkingSetPolicy N)
unfolding continue init_backend
init_mlx cache max_sequences max_bytes transient_reserve = do
  storage ← init_backend cache.transactional_storage
  pure (storage, init (pos (clamp max_sequences)) (pos (clamp max_bytes)) [] transient_reserve)

-- `__len__` and `nbytes`.
unfoldable pub mlx_len : {N : Type 0} → WorkingSetPolicy N → ℕ
unfolding n_sequences
mlx_len p = n_sequences p

unfoldable pub mlx_nbytes : {N : Type 0} → WorkingSetPolicy N → ℕ
mlx_nbytes p = p.nbytes

module _ {C N P X : Type 0} ⦃h : Hashable N⦄ (cache : PromptCacheObject C N P X)
    (storage : MlxTransactionalStorage C N P X) where
  abbrev pub MlxState : Type 0
  MlxState = State (mlx_backend storage)

  -- `if observation.payload is not None and observation.matched_key is not None: …`.
  unfoldable pub credit_match : Option P → Option (CacheKey N) → Exec MlxState (Unit {0})
  unfolding continue coordinator_observe_hit
  credit_match none key = pure tt
  credit_match (some payload) none = pure tt
  credit_match (some payload) (some key) =
      coordinator_observe_hit (mlx_backend storage) key >>= λ hit. pure tt

  unfoldable pub fetch_nearest : N → List ℤ → Exec MlxState (Option P × List ℤ)
  unfolding continue credit_match
  fetch_nearest model tokens = do
    observation ← on_second (backend_lookup cache model tokens)
    credit_match observation.payload observation.matched_key >>= λ credited.
        pure (observation.payload, observation.remaining)

  -- The size of a payload, which is read before the admission.
  abbrev size_of : P → Exec MlxState ℕ
  size_of payload st = (prompt_cache_nbytes cache payload, st)

  unfoldable pub insert_cache : N → List ℤ → P → String → Exec MlxState Bool
  unfolding continue admit_entry
  insert_cache model tokens payload cache_type = do
    nbytes ← size_of payload
    admit_entry (mlx_backend storage) (from_tokens model tokens) payload cache_type nbytes none

  unfoldable pub insert_stable_candidate : N → List ℤ → P → Exec MlxState Bool
  unfolding continue admit_stable_candidate
  insert_stable_candidate model tokens payload = do
    nbytes ← size_of payload
    admit_stable_candidate (mlx_backend storage) (from_tokens model tokens) payload nbytes

  unfoldable pub insert_active_successor : N → List ℤ → P → List ℤ → Exec MlxState Bool
  unfolding continue admit_entry
  insert_active_successor model tokens payload predecessor_tokens = do
    nbytes ← size_of payload
    admit_entry (mlx_backend storage) (from_tokens model tokens) payload "active" nbytes
        (some (from_tokens model predecessor_tokens))

  unfoldable pub mlx_trim_to : Option ℤ → Option ℤ → Exec MlxState Bool
  unfolding trim_to
  mlx_trim_to n_sequences n_bytes = trim_to (mlx_backend storage) n_sequences n_bytes
