-- ===== src/Adapters/LlamaCpp/Descriptor.antt =====
-- src/statebraid/adapters/llama_cpp.py: `LLAMA_CPP_BACKEND_DESCRIPTOR`.
use statebraid.Prelude.{true, false, [], ◌∷◌, some}
use statebraid.Backend.Descriptor.{
  BackendDescriptor, prefix_lookup, hit_attribution, generation_safety, execution_coupled,
  backend_contract_version,
}
use statebraid.Adapters.LlamaCpp.Source.{llama_cpp_reference_sha}

abbrev pub llama_cpp_backend_descriptor : BackendDescriptor
llama_cpp_backend_descriptor = record {
  name = "llama.cpp";
  adapter = "statebraid.adapters.llama_cpp";
  capabilities = prefix_lookup ∷ hit_attribution ∷ generation_safety ∷ [];
  observation_profile = some (record {
    mode = execution_coupled;
    may_mutate_backend_state = true;
    notes =
        "Actual-prefix evidence is obtained through POST /completion with bounded generation."
        ∷ "The observation may change llama-server slot/cache state and is not a pure lookup." ∷ [];
  });
  qualification_profile = some (record {
    source_revision = llama_cpp_reference_sha;
    observation_path = "llama-server /props + /slots preflight, then /completion timings.cache_n";
    cache_mode = "single-slot canary; shared RAM prompt-cache isolation not qualified";
    concurrency_profile = "single slot / serial request canary";
    model_class = "ggml-org stories260K.gguf tiny server-test model";
    runtime_qualified = false;
    notes =
        "Capability qualification is not production runtime qualification."
        ∷ "Shared RAM cache, hybrid/SWA, speculative decode, multi-slot concurrency and arbitrary models are not implied."
        ∷ [];
  });
  contract_version = backend_contract_version;
  notes =
      "Public llama-server completion timings expose the actually served/reused prompt prefix."
      ∷ "Exact prompt reuse is generation-safe on the audited source because llama-server evaluates at least one prompt token or safely recomputes more."
      ∷ "No namespace_isolation is declared: current shared prompt cache is token-LCP keyed without a trust namespace."
      ∷ "No admission/residency, transaction, rollback, KV storage, or KV transport ownership is claimed."
      ∷ "Reference source audit: ggml-org/llama.cpp@465e49b9cea78a68b9c244ffb48d0ee24a82873d." ∷ [];
}
