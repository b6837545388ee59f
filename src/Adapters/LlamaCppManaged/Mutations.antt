-- ===== src/Adapters/LlamaCppManaged/Mutations.antt =====
-- src/statebraid/adapters/llama_cpp_managed.py: what `LlamaCppManagedHTTPAdapter` makes of the answers to
-- its mutations of the store.
use statebraid.Prelude.{
  ℕ, ℤ, pos, negsuc, Bool, true, false, not, ◌&&◌, List, [], ◌∷◌, Option, none, some, String,
  string_hashable, int_hashable, nat_hashable, ◌==◌, ltb, length, if◌then◌else◌,
}
use statebraid.Prelude.Result.{Result, ok, raise, ◌>>=◌, ◌>>◌, value_error, unsupported_capability}
use statebraid.Prelude.Json.{
  Json, boolean, integer, float, array, Items, end_of_items, item, Fields, lookup_field, lookup_or,
  as_object, as_text,
}
use statebraid.Adapters.LlamaCpp.{demand}
use statebraid.Adapters.LlamaCpp.Lookup.{JsonTransport, LlamaCppHttpAdapter}
use statebraid.Adapters.LlamaCppManaged.{LlamaCppManagedStateHandle, as_name, as_count, as_positive}
use statebraid.Adapters.LlamaCppManaged.Answers.{is_true}

pub record LlamaCppManagedHttpAdapter : Type 0 where
  pub stock : LlamaCppHttpAdapter
  pub managed_epoch : String

abbrev pub Handle : Type 0
Handle = LlamaCppManagedStateHandle

-- Python's `==` between a value and an integer; `True` is 1.
unfoldable pub equals_count : (String → ℕ → Bool) → Json → ℕ → Bool
equals_count float_is (integer z) n = z == pos n
equals_count float_is (boolean b) n = (if b then 1 else 0) == n
equals_count float_is (float x) n = float_is x n
equals_count float_is _ n = false

-- Python's `==` between a value and a text.
unfoldable pub equals_text : Json → String → Bool
unfolding as_text
equals_text value s = elim (as_text value) [ none ↦ false | some t ↦ t == s ]

abbrev pub ensure : Bool → Result (Unit {0})
ensure test = if test then ok tt else raise value_error

-- What `_post_managed` makes of the answer.
unfoldable pub check_mutation : String → Json → Result Fields
unfolding as_object is_true equals_text
check_mutation epoch response = elim (as_object response) [
  | none ↦ raise value_error
  | some fields ↦
      if not (is_true (lookup_field "success" fields))
      then raise value_error
      else if equals_text (lookup_field "epoch" fields) epoch
      then ok fields
      else raise unsupported_capability
]

-- The items of a list, all of which are texts that are not empty.
unfoldable pub as_names : Items → Option (List String)
unfolding as_name
as_names end_of_items = some []
as_names (item value rest) =
    let others = as_names rest in
    elim (as_name value) [
      | none ↦ none
      | some s ↦ elim others [ none ↦ none | some all ↦ some (s ∷ all) ]
    ]

unfoldable pub as_name_list : Json → Option (List String)
unfolding as_names
as_name_list (array items) = as_names items
as_name_list _ = none

-- From `-(1 << 31)` to `(1 << 31) - 1`.
unfoldable pub in_int32 : ℤ → Bool
in_int32 (pos n) = ltb n 2147483648
in_int32 (negsuc n) = ltb n 2147483648

unfoldable pub all_int32 : List ℤ → Bool
unfolding in_int32
all_int32 [] = true
all_int32 (t ∷ ts) = in_int32 t && all_int32 ts

-- The tests on the expected tokens.
unfoldable pub check_expected : List ℤ → Result (Unit {0})
unfolding all_int32
check_expected tokens = ensure (all_int32 tokens && not (length tokens == 0))

module _ {S : Type 0} (transport : JsonTransport S) where
  -- A count that the answer repeats.
  abbrev repeats : String → ℕ → Fields → Bool
  repeats name n fields = equals_count transport.float_is (lookup_field name fields) n

  unfoldable pub check_clear : LlamaCppManagedHttpAdapter → Fields → Result ℕ
  unfolding equals_count as_count
  check_clear a response = do
    ensure (repeats "id_slot" a.stock.id_slot response)
    demand (as_count (lookup_field "n_cleared" response))

  -- The state and the evicted handles in the answer to a capture.
  unfoldable pub read_capture : LlamaCppManagedHttpAdapter → Fields → Result (Handle × List String)
  unfolding equals_count as_name as_positive as_name_list
  read_capture a response = do
    ensure (repeats "id_slot" a.stock.id_slot response)
    handle ← demand (as_name (lookup_field "handle" response))
    n_tokens ← demand (as_positive (lookup_field "n_tokens" response))
    nbytes ← demand (as_positive (lookup_field "n_bytes" response))
    evicted ← demand (as_name_list (lookup_or "evicted" (array end_of_items) response))
    ok (
      record {
        backend_identity = a.stock.base_url;
        epoch = a.managed_epoch;
        handle = handle;
        id_slot = a.stock.id_slot;
        n_tokens = n_tokens;
        nbytes = nbytes;
      },
      evicted,
    )

  -- The answer repeats the accounting of a state.
  abbrev same_accounting : Handle → Fields → Bool
  same_accounting state response =
      repeats "n_tokens" state.n_tokens response && repeats "n_bytes" state.nbytes response

  unfoldable pub check_restore : LlamaCppManagedHttpAdapter → Handle → Fields → Result (Unit {0})
  unfolding equals_count equals_text
  check_restore a state response = do
    ensure (
        equals_text (lookup_field "handle" response) state.handle
        && repeats "id_slot" a.stock.id_slot response)
    ensure (same_accounting state response)

  unfoldable pub check_drop : Handle → Fields → Result (Unit {0})
  unfolding equals_count equals_text
  check_drop state response = do
    ensure (equals_text (lookup_field "handle" response) state.handle)
    ensure (same_accounting state response)
