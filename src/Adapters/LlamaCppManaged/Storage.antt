-- ===== src/Adapters/LlamaCppManaged/Storage.antt =====
-- src/statebraid/adapters/llama_cpp_managed.py: `LlamaCppManagedStorageBackend`. Its store is the
-- registry of this process and the server; only the transport changes the server.
pub mod Cleanup
pub mod Binding
pub mod Retiring
pub mod Kept
pub mod Flush
pub mod Accounted
pub mod Captured
pub mod Transactional
use statebraid.Prelude.{
  ℕ, suc, ◌+◌, ℤ, Bool, true, false, not, ◌&&◌, List, [], ◌∷◌, ◌++◌, Option, none, some, String,
  string_hashable, nat_hashable, ◌==◌, contains, length, map, select, if◌then◌else◌,
}
use statebraid.Prelude.Result.{
  Result, ok, raise, Error, key_error, type_error, value_error, runtime_error,
  unsupported_capability,
}
use statebraid.Prelude.Exec.{
  local, Exec, pure, continue, rescue, ignore, on_second, update, ◌>>=◌, ◌>>◌,
}
use statebraid.Dict.{Dict, get, put, remove, values, total}
use statebraid.Cache.Key.{CacheKey, key_hashable}
use statebraid.Cache.Coordinator.{Backend}
use statebraid.Adapters.LlamaCpp.{LlamaCppNamespace}
use statebraid.Adapters.LlamaCpp.Lookup.{JsonTransport, LlamaCppHttpAdapter, namespace_hashable}
use statebraid.Adapters.LlamaCppManaged.{StoredHandle}
use statebraid.Adapters.LlamaCppManaged.Answers.{ManagedStore}
use statebraid.Adapters.LlamaCppManaged.Mutations.{LlamaCppManagedHttpAdapter, Handle}
use statebraid.Adapters.LlamaCppManaged.Http.{
  require_state_binding, managed_store, handles_of, drop_state, capture_current_state,
  restore_state, clear_live_slot,
}

abbrev pub Key : Type 0
Key = CacheKey LlamaCppNamespace

pub record Registry : Type 0 where
  pub records : Dict Key Handle
  pub pending_drops : Dict String Handle

abbrev pub empty_registry : Registry
empty_registry = record { records = []; pending_drops = [] }

-- What a client passes as a payload.
pub data Payload : Type 0 where
  opaque : Handle → Payload
  other_object : Payload

-- `self.records[key] = state` and `self._pending_drops.pop(state.handle, None)`.
unfoldable pub bind : Key → Handle → Registry → Registry
bind key state r = record {
  records = put key state r.records;
  pending_drops = remove state.handle r.pending_drops;
}

-- `self.records.pop(key, None)`.
unfoldable pub unbind : Key → Registry → Registry
unbind key r = record r { records = remove key r.records }

-- `self._pending_drops[state.handle] = state`.
unfoldable pub queue : Handle → Registry → Registry
queue state r = record r { pending_drops = put state.handle state r.pending_drops }

-- `self._pending_drops.pop(handle, None)`.
unfoldable pub unqueue : String → Registry → Registry
unqueue handle r = record r { pending_drops = remove handle r.pending_drops }

-- What `remove` makes of the registry.
unfoldable pub retire : Key → Registry → Registry
unfolding queue unbind
retire key r = elim (get key r.records) [
  | none ↦ unbind key r
  | some state ↦ queue state (unbind key r)
]

-- The handles that keys are bound to.
unfoldable pub referenced : Registry → List String
referenced r = map (λ state. state.handle) (values r.records)

-- The handles that the registry accounts for.
unfoldable pub known : Registry → List String
unfolding referenced
known r = referenced r ++ map (λ e. e.0) r.pending_drops

unfoldable pub pending_drop_bytes : Registry → ℕ
pending_drop_bytes r = total (λ state. state.nbytes) r.pending_drops

unfoldable pub pending_drop_count : Registry → ℕ
pending_drop_count r = length r.pending_drops

unfoldable pub require_key : LlamaCppManagedHttpAdapter → Key → Result (Unit {0})
require_key a key =
    if key.namespace == a.stock.namespace then ok tt else raise unsupported_capability

unfoldable pub require_state : LlamaCppManagedHttpAdapter → Key → Handle → Result (Unit {0})
unfolding require_key require_state_binding
require_state a key state = elim (require_key a key) [
  | raise e ↦ raise e
  | ok _ ↦ elim (require_state_binding a state) [
    | raise e ↦ raise e
    | ok _ ↦ if length key.tokens == state.n_tokens then ok tt else raise value_error
  ]
]

module _ {S : Type 0} (transport : JsonTransport S) (a : LlamaCppManagedHttpAdapter) where
  abbrev pub Store : Type 0
  Store = Registry × S

  unfoldable pub init_storage : Bool → Exec S Registry
  unfolding continue
  init_storage false = pure empty_registry
  init_storage true = do
    store ← managed_store transport a
    local (if store.n_handles == 0 then ok empty_registry else raise unsupported_capability)

  unfoldable pub capture : Key → Exec Store (Option Handle)
  unfolding continue
  capture key = do local (require_key a key); λ st. (ok (get key st.0.records), st)

  -- A key is bound to a state that fits it.
  unfoldable pub bind_state : Key → Handle → Exec Store (Unit {0})
  unfolding continue
  bind_state key state = do local (require_state a key state); update (bind key state)

  unfoldable pub restore : Key → Handle → Exec Store (Unit {0})
  unfolding bind_state
  restore key snapshot = bind_state key snapshot

  unfoldable pub remove_key : Key → Exec Store (Unit {0})
  unfolding continue
  remove_key key = do local (require_key a key); update (retire key)

  unfoldable pub insert : Key → Payload → String → Exec Store (Unit {0})
  unfolding bind_state
  insert key (opaque state) role = bind_state key state
  insert key other_object role = local (raise type_error)

  unfoldable pub forget_key : Key → Exec Store (Unit {0})
  unfolding continue
  forget_key key = do local (require_key a key); update (unbind key)

  -- The backend of the coordinator.
  abbrev pub storage : Backend LlamaCppNamespace
  storage = record {
    Store = Store;
    Snapshot = Handle;
    Payload = Payload;
    capture = capture;
    restore = restore;
    remove = remove_key;
    insert = insert;
    forget = some forget_key;
  }

  -- The restore of the state that a key is bound to.
  unfoldable pub restored : Option Handle → Exec Store Handle
  unfolding continue
  restored none = local (raise key_error)
  restored (some state) = do on_second (restore_state transport a state); pure state

  unfoldable pub restore_live : Key → Exec Store Handle
  unfolding continue restored
  restore_live key = do resident ← capture key; restored resident

  unfoldable pub discard_unbound : Handle → Exec Store (Unit {0})
  unfolding continue
  discard_unbound state = do local (require_state_binding a state); update (queue state)
