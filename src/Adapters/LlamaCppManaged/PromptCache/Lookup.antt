-- ===== src/Adapters/LlamaCppManaged/PromptCache/Lookup.antt =====
-- src/statebraid/adapters/llama_cpp_managed.py: the lookups of `LlamaCppStateBraidPromptCache`.
use statebraid.Prelude.{
  ℕ, zero, suc, ℤ, Bool, List, Option, none, some, String, string_hashable, nat_hashable,
  int_hashable, ◌==◌, ltb, length, if◌then◌else◌,
}
use statebraid.Prelude.Result.{Result, ok, raise, runtime_error}
use statebraid.Prelude.Exec.{local, Exec, pure, continue, at_last, on_second, ◌>>=◌, ◌>>◌}
use statebraid.Cache.Key.{key_hashable}
use statebraid.Cache.Coordinator.{coordinator_observe_hit, trim_to}
use statebraid.Backend.Observation.{matched_tokens}
use statebraid.Adapters.LlamaCpp.{LlamaCppNamespace, Observation}
use statebraid.Adapters.LlamaCpp.Lookup.{
  JsonTransport, namespace_hashable, check_remaining, require_namespace,
}
use statebraid.Adapters.LlamaCppManaged.{LlamaCppManagedRestore}
use statebraid.Adapters.LlamaCppManaged.Mutations.{LlamaCppManagedHttpAdapter}
use statebraid.Adapters.LlamaCppManaged.Http.{clear_live_slot, lookup_after_policy}
use statebraid.Adapters.LlamaCppManaged.Storage.{
  Key, pending_drop_bytes, pending_drop_count, storage, restore_live,
}
use statebraid.Adapters.LlamaCppManaged.Storage.Cleanup.{flush_drops}
use statebraid.Adapters.LlamaCppManaged.PromptCache.{Cache, token_lcp, select_key, require_prompt}

pub record ActivationStats : Type 0 where
  pub mode : String
  pub n_sequences : ℕ
  pub n_bytes : ℕ
  pub pending_drops : ℕ
  pub pending_drop_bytes : ℕ
  pub active_successor_evictions : ℕ
  pub stable_candidate_promotions : ℕ
  pub stable_candidate_rejections : ℕ

-- The guards on the use that the server reports of the key that was restored.
unfoldable pub check_reuse : Option LlamaCppManagedRestore → ℕ → Result (Unit {0})
check_reuse none matched = if matched == 0 then ok tt else raise runtime_error
check_reuse (some prepared) matched =
    if ltb prepared.candidate_lcp matched then raise runtime_error else ok tt

module _ {S : Type 0} (transport : JsonTransport S) (a : LlamaCppManagedHttpAdapter) where
  -- The restore of the key that is selected.
  unfoldable pub restore_selected :
      List ℤ → Option Key → Exec (Cache transport a) (Option LlamaCppManagedRestore)
  unfolding continue
  restore_selected prompt none = pure none
  restore_selected prompt (some key) = do
    state ← on_second (restore_live transport a key)
    pure (some (record { key = key; state = state; candidate_lcp = token_lcp key.tokens prompt }))

  unfoldable pub prepare : List ℤ → Exec (Cache transport a) (Option LlamaCppManagedRestore)
  unfolding continue restore_selected
  prepare prompt = do
    local (require_prompt prompt)
    on_second (on_second (clear_live_slot transport a)) >>= λ n_cleared.
        λ st. restore_selected prompt (select_key a.stock.namespace prompt st.0) st

  -- `if observation.matched_tokens > 0: self.coordinator.observe_hit(prepared.key)`.
  unfoldable pub credit : Option LlamaCppManagedRestore → ℕ → Exec (Cache transport a) (Unit {0})
  unfolding continue
  credit none matched = pure tt
  credit (some prepared) zero = pure tt
  credit (some prepared) (suc n) = do
    coordinator_observe_hit (storage transport a) prepared.key >>= λ hit. pure tt

  unfoldable pub lookup : LlamaCppNamespace → List ℤ → Exec (Cache transport a) Observation
  unfolding continue prepare check_reuse credit
  lookup namespace prompt = do
    local (require_namespace a.stock namespace)
    local (require_prompt prompt)
    prepared ← prepare prompt
    observation ← on_second (on_second (lookup_after_policy transport a a.stock.namespace prompt))
    local (check_reuse prepared (matched_tokens observation))
    credit prepared (matched_tokens observation)
    pure observation

  unfoldable pub generation_safe_exact :
      LlamaCppNamespace → List ℤ → Exec (Cache transport a) Observation
  unfolding continue lookup check_remaining
  generation_safe_exact namespace tokens = do
    observation ← lookup namespace tokens
    local (check_remaining transport a.stock observation)

  unfoldable pub managed_trim_to : Option ℤ → Option ℤ → Exec (Cache transport a) Bool
  unfolding at_last flush_drops
  managed_trim_to n_sequences n_bytes st =
      at_last (trim_to (storage transport a) n_sequences n_bytes st)
        (on_second (flush_drops transport a))

  unfoldable pub activation_stats : Cache transport a → ActivationStats
  activation_stats (p, (r, s)) = record {
    mode = "statebraid-llama-managed-m1";
    n_sequences = length p.entries;
    n_bytes = p.nbytes;
    pending_drops = pending_drop_count r;
    pending_drop_bytes = pending_drop_bytes r;
    active_successor_evictions = p.state.active_successor_evictions;
    stable_candidate_promotions = p.state.stable_candidate_promotions;
    stable_candidate_rejections = p.state.stable_candidate_rejections;
  }
