-- ===== src/Tests/Adapters.antt =====
-- The theorems on the adapter of llama.cpp, on namespaces and on the pin quota at concrete inputs.
use native.Mathlib.Decide.{ℕ_discrete}
use statebraid.Prelude.{
  ℕ, suc, ℤ, pos, ◌+◌, ◌≡◌, ◌≢◌, refl, true, false, List, [], ◌∷◌, none, String, string_hashable,
  nat_hashable, int_hashable, text_discrete, int_discrete, list_discrete, ◌==◌, length, add,
  contains, ne_of_test, if◌then◌else◌, arith,
}
use statebraid.Prelude.Result.{ok, raise, value_error}
use statebraid.Prelude.Exec.{continue}
use statebraid.Prelude.Json.{
  integer, text, array, object, Items, end_of_items, item, Fields, end_of_fields, field,
  lookup_field, as_object, as_integer, as_natural, as_text, as_object_list,
}
use statebraid.Dict.{get}
use statebraid.Cache.Key.{key_hashable, from_tokens, is_extended_by}
use statebraid.Cache.Policy.{WorkingSetPolicy, Eviction, capacity, init, role_ranks}
use statebraid.Cache.Policy.Plan.{apply_pin_quota}
use statebraid.Cache.Policy.Lookup.{is_some}
use statebraid.Cache.Policy.Quota.{quota_never_evicts}
use statebraid.Cache.Namespace.{
  CacheNamespace, namespace_hashable, is_ascii, n_bytes, is_alphanumeric, is_allowed, all_allowed,
  full_match, validate_trust_domain, make_cache_namespace,
}
use statebraid.Cache.Namespace.Isolation.{namespaces_isolated}
use statebraid.Backend.Observation.{from_backend_result}
use statebraid.Adapters.LlamaCpp.{
  Observation, from_response, check_counts, normalize_llama_cpp_reuse, reuse_payload,
  llama_cpp_cache_namespace,
}
use statebraid.Adapters.LlamaCpp.Source.{llama_cpp_reference_source_match}
use statebraid.Adapters.LlamaCpp.Lookup.{
  JsonTransport, LlamaCppHttpAdapter, namespace_discrete, require_namespace, require_server,
  complete, lookup, check_props, check_slots, check_total_slots, slot_ids, source_named,
  read_completion, require_tokens, require_reference_source, require_exact_slot,
}
use statebraid.Adapters.LlamaCpp.Reuse.{
  observed, reuse_exact, IsAdmitted, IsAnswered, asked, lookup_guarded,
}

abbrev tenant : String → CacheNamespace ℕ
tenant domain = record { backend_identity = 5; trust_domain = domain }

made : make_cache_namespace 5 "tenant-a" ≡ ok (tenant "tenant-a")
unfolding make_cache_namespace validate_trust_domain is_ascii n_bytes full_match all_allowed
    is_allowed is_alphanumeric ℕ_discrete
made = refl

made_other : make_cache_namespace 5 "tenant-b" ≡ ok (tenant "tenant-b")
unfolding make_cache_namespace validate_trust_domain is_ascii n_bytes full_match all_allowed
    is_allowed is_alphanumeric ℕ_discrete
made_other = refl

namespaces_isolated_example :
    ((from_tokens (tenant "tenant-a") (pos 1 ∷ []) == from_tokens (tenant "tenant-b") (pos 1 ∷ []))
      ≡ false)
    × (is_extended_by
          (from_tokens (tenant "tenant-a") (pos 1 ∷ []))
          (from_tokens (tenant "tenant-b") (pos 1 ∷ []))
        ≡ false)
namespaces_isolated_example =
    namespaces_isolated 5 5 "tenant-a" "tenant-b" (tenant "tenant-a") (tenant "tenant-b") made
      made_other (λ same. ne_of_test "tenant-a" "tenant-b" refl same.1) (pos 1 ∷ []) (pos 1 ∷ [])

-- Both roles that are pinned are built in.
abbrev pinning : WorkingSetPolicy ℕ
pinning = init (pos 2) (pos 100) ("system" ∷ "user" ∷ []) none

pinned_built_in :
    (role : String) → contains role pinning.pin_roles ≡ true → is_some (get role role_ranks) ≡ true
unfolding init contains get
pinned_built_in role m = ground (arith, m)

abbrev evicting : List (Eviction ℕ)
evicting = record { key = from_tokens 0 (pos 1 ∷ []); reason = capacity } ∷ []

quota_never_evicts_example :
    apply_pin_quota pinning (from_tokens 0 (pos 2 ∷ [])) "system" evicting ≡ evicting
quota_never_evicts_example =
    quota_never_evicts pinning pinned_built_in (from_tokens 0 (pos 2 ∷ [])) "system" evicting

abbrev timings : Fields
timings = field "cache_n" (integer (pos 1)) (field "prompt_n" (integer (pos 1)) end_of_fields)

abbrev response : Fields
response = field "timings" (object timings) end_of_fields

abbrev prompt : List ℤ
prompt = pos 11 ∷ pos 12 ∷ []

reuse_exact_example : normalize_llama_cpp_reuse "http://127.0.0.1" 0 prompt response ≡ (
    if 1 + 1 == length prompt
    then ok (observed "http://127.0.0.1" 0 prompt (record { cache_n = 1; prompt_n = 1 }))
    else raise value_error)
unfolding lookup_field text_discrete
reuse_exact_example = reuse_exact "http://127.0.0.1" 0 prompt response timings 1 1 refl refl refl

-- A server that counts its requests.
abbrev pub props : Fields
props =
    field "build_info" (text "b9000-465e49b9") (field "total_slots" (integer (pos 1)) end_of_fields)

abbrev pub slots : Items
slots = item (object (field "id" (integer (pos 0)) end_of_fields)) end_of_items

abbrev pub server : JsonTransport ℕ
server = record {
  get_json = λ path n. (ok (if path == "/props" then object props else array slots), suc n);
  post_json = λ path payload n. (ok (object response), suc n);
  float_is = λ x n. false;
}

abbrev adapter : LlamaCppHttpAdapter
adapter = record {
  base_url = "http://127.0.0.1";
  id_slot = 0;
  namespace = llama_cpp_cache_namespace "http://127.0.0.1";
}

abbrev expected : Observation
expected = observed "http://127.0.0.1" 0 prompt (record { cache_n = 1; prompt_n = 1 })

looked_up : (lookup server adapter adapter.namespace prompt 0).0 ≡ ok expected
unfolding lookup require_server complete continue require_namespace namespace_discrete text_discrete
    require_reference_source require_exact_slot check_props check_slots check_total_slots slot_ids
    source_named read_completion require_tokens lookup_field as_object as_integer as_natural as_text
    as_object_list llama_cpp_reference_source_match normalize_llama_cpp_reuse from_response
    check_counts reuse_payload from_backend_result from_tokens llama_cpp_cache_namespace ℕ_discrete
    int_discrete list_discrete contains add
looked_up = refl

lookup_guarded_example :
    (adapter.namespace ≡ adapter.namespace)
    × (prompt ≢ [])
    × IsAdmitted server adapter 0
    × IsAnswered server adapter prompt (asked server adapter 0) expected
lookup_guarded_example = lookup_guarded server adapter adapter.namespace prompt 0 expected looked_up
