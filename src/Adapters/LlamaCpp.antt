-- ===== src/Adapters/LlamaCpp.antt =====
-- src/statebraid/adapters/llama_cpp.py: what a completion's timings say of the reuse of a prompt.
pub mod Source
pub mod Descriptor
pub mod Lookup
pub mod Admission
pub mod Counts
pub mod Reuse
use Prim.Native.String.{[], ◌∷◌}
use Prim.Native.Char.{code}
use statebraid.Prelude.{
  ℕ, ◌+◌, ℤ, Bool, true, false, not, ◌&&◌, List, Option, none, some, String, nat_hashable, ◌==◌,
  ltb, length, drop, if◌then◌else◌,
}
use statebraid.Prelude.Result.{Result, ok, raise, value_error, ◌>>=◌}
use statebraid.Prelude.Json.{Json, Fields, lookup_field, as_object, as_integer, as_natural}
use statebraid.Cache.Namespace.{default_trust_domain}
use statebraid.Backend.Observation.{LookupObservation, from_backend_result}

pub record LlamaCppReuseHandle : Type 0 where
  pub backend_identity : String
  pub id_slot : ℕ
  pub cache_n : ℕ

pub record LlamaCppReuseStats : Type 0 where
  pub cache_n : ℕ
  pub prompt_n : ℕ

-- A test that raises `ValueError` where it finds nothing.
abbrev pub demand : {A : Type 0} → Option A → Result A
demand none = raise value_error
demand (some a) = ok a

-- The tests on the two counts. Both are non-negative then.
unfoldable pub check_counts : ℕ → ℤ → ℤ → Result LlamaCppReuseStats
unfolding as_natural
check_counts prompt_length cache_n prompt_n = do
  cached ← demand (as_natural cache_n)
  (if ltb prompt_length cached then raise value_error else ok cached) >>= λ _.
      demand (as_natural prompt_n) >>= λ fresh.
      if cached + fresh == prompt_length
      then ok (record { cache_n = cached; prompt_n = fresh })
      else raise value_error

unfoldable pub from_response : Fields → ℕ → Result LlamaCppReuseStats
unfolding check_counts as_object as_integer
from_response response prompt_length = do
  timings ← demand (as_object (lookup_field "timings" response))
  cache_n ← demand (as_integer (lookup_field "cache_n" timings))
  prompt_n ← demand (as_integer (lookup_field "prompt_n" timings))
  check_counts prompt_length cache_n prompt_n

-- `text.rstrip("/")`.
unfoldable pub strip_slashes : String → String
strip_slashes [] = []
strip_slashes (c ∷ s) =
    let rest = strip_slashes s in
    elim rest [ [] ↦ if code c == b'/' then [] else c ∷ [] | d ∷ t ↦ c ∷ (d ∷ t) ]

abbrev pub LlamaCppNamespace : Type 0
LlamaCppNamespace = String × String × String

unfoldable pub llama_cpp_cache_namespace : String → LlamaCppNamespace
unfolding strip_slashes
llama_cpp_cache_namespace backend_identity =
    ("llama.cpp", strip_slashes backend_identity, default_trust_domain)

-- `if stats.cache_n: payload = …`.
unfoldable pub reuse_payload : String → ℕ → LlamaCppReuseStats → Option LlamaCppReuseHandle
reuse_payload backend_identity id_slot stats =
    if stats.cache_n == 0
    then none
    else some
        (record { backend_identity = backend_identity; id_slot = id_slot; cache_n = stats.cache_n })

abbrev pub Observation : Type 0
Observation = LookupObservation LlamaCppNamespace LlamaCppReuseHandle

unfoldable pub normalize_llama_cpp_reuse : String → ℕ → List ℤ → Fields → Result Observation
unfolding reuse_payload
normalize_llama_cpp_reuse backend_identity id_slot tokens response = do
  stats ← from_response response (length tokens)
  from_backend_result (llama_cpp_cache_namespace backend_identity) tokens
      (reuse_payload backend_identity id_slot stats) (drop stats.cache_n tokens)
