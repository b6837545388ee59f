-- ===== src/Adapters/LlamaCpp/Lookup.antt =====
-- src/statebraid/adapters/llama_cpp.py: `LlamaCppHTTPAdapter`. The transport is an argument; its state
-- is that of the server, and its calls may raise.
use statebraid.Prelude.{
  ℕ, ℤ, pos, Bool, true, false, not, ◌||◌, List, [], ◌∷◌, none, some, String, Hashable,
  string_hashable, text_discrete, nat_hashable, int_hashable, ◌==◌, contains, add, length,
  if◌then◌else◌,
}
use statebraid.Prelude.Result.{Result, ok, raise, value_error, unsupported_capability}
use statebraid.Prelude.Exec.{local, Exec, continue, ◌>>=◌, ◌>>◌}
use statebraid.Prelude.Json.{
  Json, boolean, integer, array, object, Items, end_of_items, item, Fields, end_of_fields, field,
  lookup_field, as_object, as_integer, as_text, as_object_list, as_natural,
}
use statebraid.Cache.Namespace.{default_trust_domain, validate_trust_domain}
use statebraid.Adapters.LlamaCpp.{
  LlamaCppNamespace, Observation, llama_cpp_cache_namespace, normalize_llama_cpp_reuse,
  strip_slashes,
}
use statebraid.Adapters.LlamaCpp.Source.{llama_cpp_reference_source_match}

-- `float_is` is Python's `==` between a float that was read from a text and an integer.
pub record JsonTransport (S : Type 0) : Type 0 where
  pub get_json : String → Exec S Json
  pub post_json : String → Json → Exec S Json
  pub float_is : String → ℕ → Bool

pub record LlamaCppHttpAdapter : Type 0 where
  pub base_url : String
  pub id_slot : ℕ
  pub namespace : LlamaCppNamespace

unfoldable pub namespace_discrete : Discrete LlamaCppNamespace
namespace_discrete = hlevel text_discrete

instance abbrev pub namespace_hashable : Hashable LlamaCppNamespace
namespace_hashable = record { eq = namespace_discrete }

unfoldable pub init_adapter : String → ℤ → String → Result LlamaCppHttpAdapter
init_adapter base_url id_slot trust_domain = elim (as_natural id_slot) [
  | none ↦ raise value_error
  | some slot ↦ elim (validate_trust_domain trust_domain) [
    | raise e ↦ raise e
    | ok domain ↦
        if not (domain == default_trust_domain)
        then raise unsupported_capability
        else ok (record {
          base_url = strip_slashes base_url;
          id_slot = slot;
          namespace = llama_cpp_cache_namespace (strip_slashes base_url);
        })
  ]
]

-- The ids of the slots that have an integer for one, as a set.
unfoldable pub slot_ids : List Fields → List ℤ
unfolding as_integer
slot_ids [] = []
slot_ids (slot ∷ rest) =
    let ids = slot_ids rest in
    elim (as_integer (lookup_field "id" slot)) [ none ↦ ids | some n ↦ add n ids ]

-- `build_info` is a text that names the audited source.
unfoldable pub source_named : Json → Bool
unfolding as_text
source_named build_info = elim (as_text build_info) [
  | none ↦ false
  | some s ↦ llama_cpp_reference_source_match s
]

unfoldable pub check_total_slots : Json → Result ℕ
unfolding as_integer as_natural
check_total_slots total_slots = elim (as_integer total_slots) [
  | none ↦ raise unsupported_capability
  | some n ↦ elim (as_natural n) [
    | none ↦ raise unsupported_capability
    | some m ↦ if m == 0 then raise unsupported_capability else ok m
  ]
]

-- What `_require_reference_source` makes of the answer.
unfoldable pub check_props : Json → Result ℕ
unfolding as_object source_named
check_props props = elim (as_object props) [
  | none ↦ raise unsupported_capability
  | some fields ↦
      let total = check_total_slots (lookup_field "total_slots" fields) in
      if source_named (lookup_field "build_info" fields)
      then total
      else raise unsupported_capability
]

-- What `_require_exact_slot` makes of the answer.
unfoldable pub check_slots : ℕ → ℕ → Json → Result (Unit {0})
unfolding as_object_list
check_slots id_slot total_slots payload = elim (as_object_list payload) [
  | none ↦ raise value_error
  | some slots ↦
      if not (length (slot_ids slots) == length slots)
        || not (length (slot_ids slots) == total_slots)
      then raise unsupported_capability
      else if contains (pos id_slot) (slot_ids slots)
      then ok tt
      else raise value_error
]

unfoldable pub prompt_items : List ℤ → Items
prompt_items [] = end_of_items
prompt_items (t ∷ ts) = item (integer t) (prompt_items ts)

unfoldable pub completion_request : ℕ → List ℤ → Json
unfolding prompt_items
completion_request id_slot tokens = object (
    field "prompt" (array (prompt_items tokens)) (
      field "id_slot" (integer (pos id_slot)) (
        field "cache_prompt" (boolean true) (
          field "n_cache_reuse" (integer (pos 0))
            (field "n_predict" (integer (pos 0)) (field "stream" (boolean false) end_of_fields))))))

unfoldable pub require_tokens : List ℤ → Result (Unit {0})
require_tokens [] = raise value_error
require_tokens (_ ∷ _) = ok tt

unfoldable pub read_completion : LlamaCppHttpAdapter → List ℤ → Json → Result Observation
unfolding as_object
read_completion a tokens response = elim (as_object response) [
  | none ↦ raise value_error
  | some fields ↦ normalize_llama_cpp_reuse a.base_url a.id_slot tokens fields
]

unfoldable pub require_namespace : LlamaCppHttpAdapter → LlamaCppNamespace → Result (Unit {0})
require_namespace a namespace =
    if namespace == a.namespace then ok tt else raise unsupported_capability

module _ {S : Type 0} (transport : JsonTransport S) (a : LlamaCppHttpAdapter) where
  unfoldable pub require_reference_source : Exec S ℕ
  unfolding continue
  require_reference_source = do props ← transport.get_json "/props"; local (check_props props)

  unfoldable pub require_exact_slot : ℕ → Exec S (Unit {0})
  unfolding continue
  require_exact_slot total_slots = do
    payload ← transport.get_json "/slots"
    local (check_slots a.id_slot total_slots payload)

  -- The two guards on the server.
  unfoldable pub require_server : Exec S (Unit {0})
  unfolding continue
  require_server = do total_slots ← require_reference_source; require_exact_slot total_slots

  -- What is left behind the guards.
  unfoldable pub complete : List ℤ → Exec S Observation
  unfolding continue
  complete tokens = do
    local (require_tokens tokens)
    response ← transport.post_json "/completion" (completion_request a.id_slot tokens)
    local (read_completion a tokens response)

  unfoldable pub lookup : LlamaCppNamespace → List ℤ → Exec S Observation
  unfolding continue
  lookup namespace tokens = do
    local (require_namespace a namespace)
    require_server
    complete tokens

  unfoldable pub check_remaining : Observation → Result Observation
  check_remaining o = elim o.remaining [ [] ↦ raise value_error | _ ∷ _ ↦ ok o ]

  unfoldable pub generation_safe_exact : LlamaCppNamespace → List ℤ → Exec S Observation
  unfolding continue check_remaining
  generation_safe_exact namespace tokens = do
    observation ← lookup namespace tokens
    local (check_remaining observation)
