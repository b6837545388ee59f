-- ===== src/Adapters/LlamaCppManaged/Http.antt =====
-- src/statebraid/adapters/llama_cpp_managed.py: `LlamaCppManagedHTTPAdapter`. The transport is an
-- argument, as for the adapter it extends.
use statebraid.Prelude.{
  ℕ, ℤ, pos, Bool, false, not, ◌||◌, List, [], ◌∷◌, Option, none, some, String, string_hashable,
  nat_hashable, list_hashable, ◌==◌, contains, length, map, if◌then◌else◌,
}
use statebraid.Prelude.Result.{Result, ok, raise, value_error, unsupported_capability}
use statebraid.Prelude.Exec.{local, Exec, pure, continue, ◌>>=◌, ◌>>◌}
use statebraid.Prelude.Json.{Json, text, integer, array, object, Fields, end_of_fields, field}
use statebraid.Adapters.LlamaCpp.{LlamaCppNamespace, Observation}
use statebraid.Adapters.LlamaCpp.Lookup.{
  JsonTransport, complete, init_adapter, prompt_items, require_exact_slot, require_namespace,
}
use statebraid.Adapters.LlamaCpp.Source.{codes, lower}
use statebraid.Adapters.LlamaCppManaged.{check_managed_props}
use statebraid.Adapters.LlamaCppManaged.Answers.{ManagedStore, check_store}
use statebraid.Adapters.LlamaCppManaged.Mutations.{
  LlamaCppManagedHttpAdapter, Handle, check_mutation, check_expected, check_clear, read_capture,
  check_restore, check_drop,
}

-- `urlparse(base_url)`, as far as it is read.
pub record ParsedUrl : Type 0 where
  pub scheme : String
  pub hostname : String

-- `ipaddress.ip_address(hostname).is_loopback` is `ip_loopback`, which has no value where that raises
-- `ValueError`.
unfoldable pub is_loopback : (String → Option Bool) → String → Bool
is_loopback ip_loopback hostname =
    lower (codes hostname) == codes "localhost"
    || elim (ip_loopback hostname) [ none ↦ false | some b ↦ b ]

-- The handles of a store.
abbrev pub handles_of : ManagedStore → List String
handles_of store = map (λ x. x.handle) store.handles

-- The test on `base_url` before the stock constructor.
unfoldable pub check_url : (String → Option Bool) → ParsedUrl → Result (Unit {0})
unfolding is_loopback
check_url ip_loopback url =
    if not (contains url.scheme ("http" ∷ "https" ∷ []))
      || not (is_loopback ip_loopback url.hostname)
    then raise unsupported_capability
    else ok tt

unfoldable pub require_state_binding : LlamaCppManagedHttpAdapter → Handle → Result (Unit {0})
require_state_binding a state =
    if not (state.backend_identity == a.stock.base_url)
    then raise value_error
    else if not (state.epoch == a.managed_epoch)
    then raise unsupported_capability
    else if not (state.id_slot == a.stock.id_slot)
    then raise value_error
    else ok tt

-- A payload of a mutation, `rest` behind its epoch.
abbrev pub request : String → LlamaCppManagedHttpAdapter → Fields → Json
request action a rest =
    object (field "action" (text action) (field "epoch" (text a.managed_epoch) rest))

abbrev pub slot_field : LlamaCppManagedHttpAdapter → Fields → Fields
slot_field a rest = field "id_slot" (integer (pos a.stock.id_slot)) rest

unfoldable pub clear_request : LlamaCppManagedHttpAdapter → Json
clear_request a = request "clear" a (slot_field a end_of_fields)

unfoldable pub capture_request : LlamaCppManagedHttpAdapter → List ℤ → Json
unfolding prompt_items
capture_request a tokens =
    request "capture" a
      (slot_field a (field "expected_tokens" (array (prompt_items tokens)) end_of_fields))

unfoldable pub restore_request : LlamaCppManagedHttpAdapter → Handle → Json
restore_request a state =
    request "restore" a (slot_field a (field "handle" (text state.handle) end_of_fields))

unfoldable pub drop_request : LlamaCppManagedHttpAdapter → Handle → Json
drop_request a state = request "drop" a (field "handle" (text state.handle) end_of_fields)

module _ {S : Type 0} (transport : JsonTransport S) where
  -- The managed `_require_reference_source`.
  unfoldable pub require_managed_source : Exec S ℕ
  unfolding continue
  require_managed_source = do props ← transport.get_json "/props"; local (check_managed_props props)

  unfoldable pub read_store : Option String → Exec S ManagedStore
  unfolding continue
  read_store pinned = do
    payload ← transport.get_json "/statebraid/cache"
    local (check_store pinned payload)

  unfoldable pub init_managed :
      (String → ParsedUrl)
      → (String → Option Bool)
      → String
      → ℤ
      → String
      → Exec S LlamaCppManagedHttpAdapter
  unfolding continue check_url
  init_managed urlparse ip_loopback base_url id_slot trust_domain = do
    local (check_url ip_loopback (urlparse base_url))
    stock ← local (init_adapter base_url id_slot trust_domain)
    total_slots ← require_managed_source
    require_exact_slot transport stock total_slots
    store ← read_store none
    pure (record { stock = stock; managed_epoch = store.epoch })

module _ {S : Type 0} (transport : JsonTransport S) (a : LlamaCppManagedHttpAdapter) where
  unfoldable pub managed_store : Exec S ManagedStore
  managed_store = read_store transport (some a.managed_epoch)

  unfoldable pub post_managed : Json → Exec S Fields
  unfolding continue
  post_managed payload = do
    response ← transport.post_json "/statebraid/cache" payload
    local (check_mutation a.managed_epoch response)

  unfoldable pub clear_live_slot : Exec S ℕ
  unfolding continue post_managed
  clear_live_slot = do
    response ← post_managed (clear_request a)
    local (check_clear transport a response)

  unfoldable pub restore_state : Handle → Exec S (Unit {0})
  unfolding continue post_managed
  restore_state state = do
    local (require_state_binding a state)
    response ← post_managed (restore_request a state)
    local (check_restore transport a state response)

  -- The end of a drop: where it raised, the store tells whether it was applied.
  unfoldable pub reconcile_drop : Handle → Result Fields × S → Result (Unit {0}) × S
  unfolding continue managed_store
  reconcile_drop state (ok response, s) = (check_drop transport state response, s)
  reconcile_drop state (raise e, s) =
      continue (managed_store s)
        λ store s'. (if contains state.handle (handles_of store) then raise e else ok tt, s')

  unfoldable pub drop_state : Handle → Exec S (Unit {0})
  unfolding continue reconcile_drop post_managed
  drop_state state = do
    local (require_state_binding a state)
    λ s. reconcile_drop state (post_managed (drop_request a state) s)

  -- A state whose count of tokens is not that of the expected tokens is dropped.
  unfoldable pub check_captured : ℕ → Handle × List String → Exec S (Handle × List String)
  unfolding continue drop_state
  check_captured n (state, evicted) =
      if state.n_tokens == n
      then pure (state, evicted)
      else (drop_state state >>= λ _. local (raise value_error))

  unfoldable pub capture_current_state : List ℤ → Exec S (Handle × List String)
  unfolding continue post_managed check_captured
  capture_current_state expected_tokens = do
    local (check_expected expected_tokens)
    response ← post_managed (capture_request a expected_tokens)
    captured ← local (read_capture transport a response)
    check_captured (length expected_tokens) captured

  -- The public `lookup` refuses.
  unfoldable pub managed_lookup : LlamaCppNamespace → List ℤ → Exec S Observation
  managed_lookup namespace tokens = local (raise unsupported_capability)

  -- The stock `lookup`, with the managed `_require_reference_source`.
  unfoldable pub lookup_after_policy : LlamaCppNamespace → List ℤ → Exec S Observation
  unfolding continue
  lookup_after_policy namespace tokens = do
    local (require_namespace a.stock namespace)
    total_slots ← require_managed_source transport
    require_exact_slot transport a.stock total_slots
    complete transport a.stock tokens
