-- ===== src/Adapters/LlamaCppManaged/Answers.antt =====
-- src/statebraid/adapters/llama_cpp_managed.py: what `LlamaCppManagedHTTPAdapter` makes of the answers of
-- its server.
pub mod Laws
use statebraid.Prelude.{
  ℕ, ◌+◌, Bool, false, not, ◌&&◌, List, [], ◌∷◌, Option, none, some, String, string_hashable,
  int_hashable, nat_hashable, ◌==◌, length, if◌then◌else◌,
}
use statebraid.Prelude.Result.{Result, ok, raise, ◌>>=◌, value_error, unsupported_capability}
use statebraid.Prelude.Json.{Json, boolean, Fields, lookup_field, as_object, as_object_list}
use statebraid.Adapters.LlamaCpp.{demand}
use statebraid.Adapters.LlamaCppManaged.{StoredHandle, read_handles, as_name, as_count}

-- What `_read_store` returns, as far as it is read.
pub record ManagedStore : Type 0 where
  pub epoch : String
  pub n_handles : ℕ
  pub n_tokens : ℕ
  pub n_bytes : ℕ
  pub handles : List StoredHandle

abbrev pub sum_by : (StoredHandle → ℕ) → List StoredHandle → ℕ
sum_by f [] = 0
sum_by f (x ∷ xs) = f x + sum_by f xs

-- `payload.get("enabled") is True`.
unfoldable pub is_true : Json → Bool
is_true (boolean b) = b
is_true _ = false

-- The three counts are those of the handles.
unfoldable pub is_consistent : ManagedStore → Bool
is_consistent store =
    store.n_handles == length store.handles
    && (store.n_tokens == sum_by (λ x. x.n_tokens) store.handles
        && store.n_bytes == sum_by (λ x. x.n_bytes) store.handles)

unfoldable pub check_totals : ManagedStore → Result ManagedStore
unfolding is_consistent
check_totals store = if is_consistent store then ok store else raise value_error

-- The tests on the counts and the handles of a store.
unfoldable pub check_accounting : String → Fields → Result ManagedStore
unfolding as_count as_object_list check_totals
check_accounting epoch fields = do
  n_handles ← demand (as_count (lookup_field "n_handles" fields))
  n_tokens ← demand (as_count (lookup_field "n_tokens" fields))
  n_bytes ← demand (as_count (lookup_field "n_bytes" fields))
  entries ← demand (as_object_list (lookup_field "handles" fields))
  handles ← read_handles [] entries
  check_totals (record {
    epoch = epoch;
    n_handles = n_handles;
    n_tokens = n_tokens;
    n_bytes = n_bytes;
    handles = handles;
  })

-- The test on the epoch, where one is pinned.
unfoldable pub check_epoch : Option String → String → Result (Unit {0})
check_epoch none epoch = ok tt
check_epoch (some pinned) epoch = if epoch == pinned then ok tt else raise unsupported_capability

-- What `_read_store` makes of the answer.
unfoldable pub check_store : Option String → Json → Result ManagedStore
unfolding as_object is_true as_name check_epoch check_accounting
check_store pinned payload = elim (as_object payload) [
  | none ↦ raise unsupported_capability
  | some fields ↦
      if not (is_true (lookup_field "enabled" fields))
      then raise unsupported_capability
      else elim (as_name (lookup_field "epoch" fields)) [
        | none ↦ raise value_error
        | some epoch ↦ elim (check_epoch pinned epoch) [
          | raise e ↦ raise e
          | ok _ ↦ check_accounting epoch fields
        ]
      ]
]
