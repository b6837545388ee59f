-- ===== src/Adapters/LlamaCppManaged.antt =====
-- src/statebraid/adapters/llama_cpp_managed.py: the handles of the managed adapter, its descriptors and
-- what its server answers. Every test of an answer raises as the source does.
pub mod Answers
pub mod Mutations
pub mod Http
pub mod Storage
pub mod PromptCache
use statebraid.Prelude.{
  ℕ, ◌+◌, ℤ, pos, Bool, true, false, not, ◌&&◌, ◌||◌, List, [], ◌∷◌, Option, none, some, String,
  string_hashable, int_hashable, nat_hashable, ◌==◌, contains, length, map, if◌then◌else◌,
}
use statebraid.Prelude.Result.{Result, ok, raise, value_error, unsupported_capability, ◌>>=◌, ◌>>◌}
use statebraid.Prelude.Json.{
  Json, null, boolean, integer, float, text, array, object, Items, end_of_items, item, Fields,
  lookup_field, lookup_or, as_object, as_integer, as_text, as_object_list, as_natural,
}
use statebraid.Cache.Key.{CacheKey}
use statebraid.Backend.Descriptor.{
  BackendDescriptor, transactional_mutation, prefix_lookup, admission_residency, hit_attribution,
  generation_safety, execution_coupled, backend_contract_version, BackendQualificationProfile,
}
use statebraid.Adapters.LlamaCpp.{LlamaCppNamespace, demand}
use statebraid.Adapters.LlamaCpp.Lookup.{check_total_slots}
use statebraid.Adapters.LlamaCpp.Source.{source_match}

abbrev pub llama_cpp_managed_reference_sha : String
llama_cpp_managed_reference_sha = "09a4891ddd3e546f29dffd38e1a00ab5a19085f6"

abbrev pub llama_cpp_managed_storage_descriptor : BackendDescriptor
llama_cpp_managed_storage_descriptor = record {
  name = "llama.cpp-managed-storage-m1";
  adapter = "statebraid.adapters.llama_cpp_managed";
  capabilities = transactional_mutation ∷ [];
  observation_profile = none;
  qualification_profile = some (record {
    source_revision =
        "llama.cpp@465e49b9cea78a68b9c244ffb48d0ee24a82873d + StateBraid managed-storage M1@09a4891ddd3e546f29dffd38e1a00ab5a19085f6";
    observation_path = "managed /statebraid/cache clear/capture/restore/drop";
    cache_mode = "StateBraid exclusive policy; native --cache-ram must be 0";
    concurrency_profile = "loopback-only, single slot / serial M1 prototype";
    model_class = "real Qwen3.6-derived GGUF M1 evidence + tiny deterministic server tests";
    runtime_qualified = false;
    notes =
        "Low-level storage mechanics only; policy lookup must go through the managed facade."
        ∷ "Full physical rollback and trust-domain namespace isolation are not declared." ∷ [];
  });
  contract_version = backend_contract_version;
  notes = [];
}

abbrev pub llama_cpp_managed_backend_descriptor : BackendDescriptor
llama_cpp_managed_backend_descriptor = record {
  name = "llama.cpp-managed-m1";
  adapter = "statebraid.adapters.llama_cpp_managed";
  capabilities =
      prefix_lookup ∷ admission_residency ∷ transactional_mutation ∷ hit_attribution
      ∷ generation_safety ∷ [];
  observation_profile = some (record {
    mode = execution_coupled;
    may_mutate_backend_state = true;
    notes =
        "Actual-prefix evidence still comes from bounded /completion execution."
        ∷ "Managed residency mutations use opaque /statebraid/cache RAM handles." ∷ [];
  });
  qualification_profile = some (record {
    source_revision =
        "llama.cpp@465e49b9cea78a68b9c244ffb48d0ee24a82873d + StateBraid managed-storage M1@09a4891ddd3e546f29dffd38e1a00ab5a19085f6";
    observation_path =
        "managed /statebraid/cache clear/capture/restore/drop plus /completion timings.cache_n";
    cache_mode = "StateBraid exclusive policy; native --cache-ram must be 0";
    concurrency_profile = "loopback-only, single slot / serial M1 prototype";
    model_class = "real Qwen3.6-derived GGUF M1 evidence + tiny deterministic server tests";
    runtime_qualified = false;
    notes =
        "M1 is a real RAM managed-storage prototype, not public production qualification."
        ∷ "No trust-domain namespace isolation is declared."
        ∷ "Full physical rollback is not declared; remote handle retirement is reconciled post-commit."
        ∷ "n_bytes is serialized state-payload accounting, not instantaneous OS footprint."
        ∷ "Broader multi-slot, speculative, Linux/x86_64 and arbitrary-model support remain unqualified."
        ∷ [];
  });
  contract_version = backend_contract_version;
  notes =
      "StateBraid owns admission/residency and stable/active lineage policy only."
      ∷ "llama.cpp owns opaque state representation, checkpoints, KV/SSM storage, scheduler and execution."
      ∷ "Managed restore is non-destructive; explicit drop retires an opaque handle."
      ∷ "Registry rollback is exercised, but Backend Contract rollback remains undeclared until remote physical commit/abort is qualified."
      ∷ "A managed clear precedes each policy-directed restore to prevent hidden live-slot reuse."
      ∷ [];
}

pub record LlamaCppManagedStateHandle : Type 0 where
  pub backend_identity : String
  pub epoch : String
  pub handle : String
  pub id_slot : ℕ
  pub n_tokens : ℕ
  pub nbytes : ℕ

pub record LlamaCppManagedRestore : Type 0 where
  pub key : CacheKey LlamaCppNamespace
  pub state : LlamaCppManagedStateHandle
  pub candidate_lcp : ℕ

-- `build_info` is a text that names the managed source.
unfoldable pub managed_source_named : Json → Bool
unfolding as_text
managed_source_named build_info = elim (as_text build_info) [
  | none ↦ false
  | some s ↦ source_match llama_cpp_managed_reference_sha s
]

-- What the managed `_require_reference_source` makes of `/props`.
unfoldable pub check_managed_props : Json → Result ℕ
unfolding as_object managed_source_named
check_managed_props props = elim (as_object props) [
  | none ↦ raise unsupported_capability
  | some fields ↦
      let total = check_total_slots (lookup_field "total_slots" fields) in
      if managed_source_named (lookup_field "build_info" fields)
      then total
      else raise unsupported_capability
]

-- A text that is not empty.
unfoldable pub as_name : Json → Option String
unfolding as_text
as_name value = elim (as_text value) [ none ↦ none | some s ↦ if s == "" then none else some s ]

-- An integer that is not negative.
unfoldable pub as_count : Json → Option ℕ
unfolding as_integer
as_count value = elim (as_integer value) [ none ↦ none | some n ↦ as_natural n ]

-- A positive integer.
unfoldable pub as_positive : Json → Option ℕ
unfolding as_count
as_positive value = elim (as_count value) [ none ↦ none | some n ↦ if n == 0 then none else some n ]

-- An entry of the store's `handles`.
pub record StoredHandle : Type 0 where
  pub handle : String
  pub n_tokens : ℕ
  pub n_bytes : ℕ

-- The loop over `handles`, from the handles seen so far.
unfoldable pub read_handles : List String → List Fields → Result (List StoredHandle)
unfolding as_name as_positive
read_handles seen [] = ok []
read_handles seen (entry ∷ rest) = do
  handle ← demand (as_name (lookup_field "handle" entry))
  n_tokens ← demand (as_positive (lookup_field "n_tokens" entry))
  n_bytes ← demand (as_positive (lookup_field "n_bytes" entry))
  if contains handle seen then raise value_error else ok tt
  others ← read_handles (handle ∷ seen) rest
  ok (record { handle = handle; n_tokens = n_tokens; n_bytes = n_bytes } ∷ others)
