-- ===== src/Tests/ManagedLookup.antt =====
-- The theorems on the lookups of the managed prompt cache at a prompt that extends a resident key.
use native.Mathlib.Decide.{ℕ_discrete}
use statebraid.Prelude.{
  ℕ, ℤ, pos, ◌≤◌, ◌≡◌, ◌⊎◌, refl, true, false, List, [], ◌∷◌, none, some, ◌==◌, contains, add,
  string_hashable, text_discrete, int_discrete, list_discrete,
}
use statebraid.Prelude.Result.{ok}
use statebraid.Prelude.Exec.{continue, on_second}
use statebraid.Prelude.Json.{
  lookup_field, as_object, as_text, as_integer, as_natural, as_object_list,
}
use statebraid.Dict.{get, keys}
use statebraid.Cache.Key.{key_hashable, key_discrete, from_tokens}
use statebraid.Cache.Policy.{WorkingSetPolicy, init}
use statebraid.Cache.Coordinator.{coordinator_observe_hit}
use statebraid.Backend.Observation.{matched_tokens, from_backend_result}
use statebraid.Adapters.LlamaCpp.{
  LlamaCppNamespace, Observation, from_response, check_counts, normalize_llama_cpp_reuse,
  reuse_payload, llama_cpp_cache_namespace,
}
use statebraid.Adapters.LlamaCpp.Source.{source_match}
use statebraid.Adapters.LlamaCpp.Lookup.{
  namespace_hashable, namespace_discrete, require_namespace, require_exact_slot, check_slots,
  check_total_slots, slot_ids, complete, read_completion, require_tokens,
}
use statebraid.Adapters.LlamaCpp.Reuse.{observed}
use statebraid.Adapters.LlamaCppManaged.{check_managed_props, managed_source_named, as_count}
use statebraid.Adapters.LlamaCppManaged.Answers.{is_true}
use statebraid.Adapters.LlamaCppManaged.Mutations.{
  check_mutation, check_clear, check_restore, equals_count, equals_text,
}
use statebraid.Adapters.LlamaCppManaged.Http.{
  require_state_binding, post_managed, clear_live_slot, restore_state, lookup_after_policy,
  require_managed_source,
}
use statebraid.Adapters.LlamaCppManaged.Storage.{
  Key, Registry, capture, require_key, restore_live, restored,
}
use statebraid.Adapters.LlamaCppManaged.PromptCache.{
  token_lcp, select_key, candidates_of, best_of, beats, require_prompt,
}
use statebraid.Adapters.LlamaCppManaged.PromptCache.Lookup.{
  lookup, prepare, restore_selected, check_reuse, credit,
}
use statebraid.Adapters.LlamaCppManaged.PromptCache.Selection.{
  Shares, IsLongest, select_key-IsLongest,
}
use statebraid.Adapters.LlamaCppManaged.PromptCache.Reuse.{lookup_reuses_selected}
use statebraid.Tests.Managed.{server, adapter}
use statebraid.Tests.ManagedCalls.{key, state_named}

abbrev home : LlamaCppNamespace
home = ("llama.cpp", "http://127.0.0.1", "local-default")

abbrev resident : WorkingSetPolicy LlamaCppNamespace
resident =
    let start : WorkingSetPolicy LlamaCppNamespace = init (pos 4) (pos 100) [] none in
    record start {
      state = record start.state {
        entries =
            (key, record { key = key; role = "active"; nbytes = 10; pinned = false; hits = 0 })
            ∷ [];
      };
    }

abbrev registry : Registry
registry = record { records = (key, state_named "h1") ∷ []; pending_drops = [] }

abbrev prompt : List ℤ
prompt = pos 11 ∷ pos 12 ∷ []

abbrev seen : Observation
seen = observed "http://127.0.0.1" 0 prompt (record { cache_n = 1; prompt_n = 1 })

select_key-IsLongest_example :
    ((select_key home prompt resident ≡ none) × IsLongest home prompt resident 0)
    ⊎ ((k : Key) × (n : ℕ) × (select_key home prompt resident ≡ some k)
        × (contains k (keys resident.entries) ≡ true)
        × ((k.namespace == home) ≡ true)
        × (1 ≤ n)
        × Shares n k.tokens prompt
        × IsLongest home prompt resident n)
select_key-IsLongest_example = select_key-IsLongest home prompt resident

looked_up : (lookup server adapter home prompt (resident, (registry, "h1" ∷ []))).0 ≡ ok seen
unfolding lookup require_namespace namespace_discrete text_discrete require_prompt prepare continue
    on_second clear_live_slot post_managed check_mutation check_clear lookup_field is_true as_object
    equals_text equals_count as_text as_count as_integer as_natural select_key candidates_of
    token_lcp best_of beats restore_selected restore_live restored capture require_key get
    restore_state require_state_binding check_restore lookup_after_policy require_managed_source
    check_managed_props managed_source_named check_total_slots require_exact_slot check_slots
    slot_ids complete read_completion require_tokens as_object_list normalize_llama_cpp_reuse
    from_response check_counts reuse_payload from_backend_result from_tokens
    llama_cpp_cache_namespace ℕ_discrete int_discrete list_discrete contains add check_reuse credit
    coordinator_observe_hit source_match key_discrete matched_tokens
looked_up = refl

lookup_reuses_selected_example :
    (matched_tokens seen ≡ 0)
    ⊎ ((k : Key) × (select_key home prompt resident ≡ some k)
        × (contains k (keys resident.entries) ≡ true)
        × ((k.namespace == home) ≡ true)
        × Shares (matched_tokens seen) k.tokens prompt)
lookup_reuses_selected_example =
    lookup_reuses_selected server adapter home prompt resident registry ("h1" ∷ []) seen looked_up
