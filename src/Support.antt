-- ===== src/Support.antt =====
-- src/statebraid/support.py: the support scope, and who owns what in backend/contract.py.
use statebraid.Prelude.{pos, false, true, List, [], ◌∷◌, String}
use statebraid.Prelude.Json.{text, boolean, integer, array, object, Fields, field, end_of_fields}
use statebraid.Cache.Namespace.{default_trust_domain, max_trust_domain_bytes}
use statebraid.Backend.Descriptor.{backend_contract_version}
use statebraid.Backend.Descriptor.Dict.{text_items}
use statebraid.Compat.Mlx.{reference_mlx_base_sha}
use statebraid.Integrations.Mlx.{reference_patch_sha256}

-- `STATEBRAID_OWNS`.
abbrev pub statebraid_owns : List String
statebraid_owns =
    "exact namespace + token cache identity" ∷ "stable/active lineage policy"
    ∷ "admission and residency policy when delegated by the backend"
    ∷ "transactional mutation orchestration and rollback semantics"
    ∷ "actual-prefix hit attribution" ∷ "generation-safe exact-reuse semantics"
    ∷ "factual compute-continuity telemetry" ∷ []

-- `BACKEND_OWNS`.
abbrev pub backend_owns : List String
backend_owns =
    "model execution" ∷ "attention kernels" ∷ "continuous batching and scheduler execution"
    ∷ "KV tensor representation and physical storage"
    ∷ "KV transport, tiering, persistence, and distributed transfer" ∷ []

abbrev pub conditional_support : List String
conditional_support =
    "multiple trust domains are supported only as a cache-isolation primitive; a trusted authenticated gateway or harness must derive cache_namespace"
    ∷ "Python >=3.11 is the package contract; the per-minor CI matrix is a separate release gate and is not implied by this scope document"
    ∷ []

abbrev pub unqualified_runtime_features : List String
unqualified_runtime_features =
    "arbitrary mlx-lm commits other than the exact reference base"
    ∷ "blanket support for all Qwen-derived or all MLX models"
    ∷ "generic trimmable-KV runtime parity" ∷ "quantized-KV StateBraid runtime paths"
    ∷ "draft-model or speculative-decoding paths" ∷ "non-batch/single-generation StateBraid paths"
    ∷ "distributed MLX execution" ∷ "server concurrency profiles above prompt=1 and decode=1"
    ∷ "multi-model co-residency or concurrent multi-model serving"
    ∷ "serving backends other than the qualified MLX reference"
    ∷ "Linux/Windows runtime qualification for the MLX reference path"
    ∷ "persistent cache recovery across process restart"
    ∷ "StateBraid acting as an authentication, authorization, or TLS boundary" ∷ []

-- `REFERENCE_MLX_STORAGE_API_VERSION` and `REFERENCE_MLX_SERVER_API_VERSION` of integrations/mlx.
abbrev reference_storage_api : String
reference_storage_api = "0.1"

abbrev reference_server_api : String
reference_server_api = "0.1"

unfoldable pub core_contract : Fields
unfolding text_items
core_contract = field "backend_neutral" (boolean true) (
    field "mlx_import_required" (boolean false) (
      field "runtime_qualification_is_narrower_than_core_api" (boolean true) (
        field "backend_contract_version" (text backend_contract_version) (
          field "statebraid_owns" (array (text_items statebraid_owns))
            (field "backend_owns" (array (text_items backend_owns)) end_of_fields)))))

unfoldable pub reference_runtime : Fields
reference_runtime = field "backend" (text "mlx") (
    field "platform" (text "Apple Silicon / macOS") (
      field "mlx_base_sha" (text reference_mlx_base_sha) (
        field "storage_api_version" (text reference_storage_api) (
          field "server_api_version" (text reference_server_api) (
            field "patch_sha256" (text reference_patch_sha256) (
              field "model" (text "Ornith-1.5-35B-A3B-MLX") (
                field "model_lineage" (text "Qwen3.6-derived") (
                  field "cache_shape" (text "hybrid/non-trimmable") (
                    field "generation_path" (text "batch") (
                      field "thinking_mode" (text "model-native") (
                        field "kv_mode" (text "unquantized-kv") (
                          field "prompt_concurrency" (integer (pos 1)) (
                            field "decode_concurrency" (integer (pos 1)) (
                              field "prompt_cache_size" (integer (pos 8)) (
                                field "prompt_cache_bytes" (integer (pos 4294967296)) (
                                  field "activation_default" (boolean false) (
                                    field "single_user_default_namespace"
                                      (text default_trust_domain)
                                      (field "max_trust_domain_bytes"
                                        (integer (pos max_trust_domain_bytes))
                                        end_of_fields))))))))))))))))))

unfoldable pub support_scope : Fields
unfolding core_contract reference_runtime
support_scope = field "support_scope_version" (text "0.2") (
    field "python_requires" (text ">=3.11") (
      field "core_contract" (object core_contract) (
        field "reference_runtime" (object reference_runtime) (
          field "conditional_support" (array (text_items conditional_support)) (
            field "unqualified_runtime_features" (array (text_items unqualified_runtime_features))
              end_of_fields)))))
