-- ===== src/Adapters/LlamaCppManaged/Storage/Cleanup.antt =====
-- src/statebraid/adapters/llama_cpp_managed.py: the calls of `LlamaCppManagedStorageBackend` that capture
-- and drop states of the server.
use statebraid.Prelude.{
  ℕ, suc, Bool, true, false, not, ◌&&◌, List, [], ◌∷◌, String, string_hashable, nat_hashable, ◌==◌,
  contains, length, map, select, if◌then◌else◌,
}
use statebraid.Prelude.Result.{Result, ok, raise, Error, runtime_error}
use statebraid.Prelude.Exec.{
  local, Exec, pure, continue, rescue, ignore, on_second, update, ◌>>=◌, ◌>>◌,
}
use statebraid.Dict.{Dict}
use statebraid.Cache.Key.{key_hashable}
use statebraid.Adapters.LlamaCpp.Lookup.{JsonTransport, namespace_hashable}
use statebraid.Adapters.LlamaCppManaged.{StoredHandle}
use statebraid.Adapters.LlamaCppManaged.Answers.{ManagedStore}
use statebraid.Adapters.LlamaCppManaged.Mutations.{LlamaCppManagedHttpAdapter, Handle}
use statebraid.Adapters.LlamaCppManaged.Http.{
  managed_store, handles_of, drop_state, capture_current_state,
}
use statebraid.Adapters.LlamaCppManaged.Storage.{
  Key, Registry, Store, unqueue, referenced, known, require_key, require_state,
}

module _ {S : Type 0} (transport : JsonTransport S) (a : LlamaCppManagedHttpAdapter) where
  -- A pending state, by whether a key is bound to its handle: whether it was dropped.
  unfoldable pub flush_item : Bool → String → Handle → Exec (Store transport a) Bool
  unfolding continue
  flush_item true handle state = do update (unqueue handle); pure false
  flush_item false handle state = do
    on_second (drop_state transport a state)
    update (unqueue handle)
    pure true

  -- One round of the loop of `flush_drops`.
  unfoldable pub flush_one : List String → String → Handle → Exec (Store transport a) Bool
  unfolding flush_item
  flush_one bound handle state = flush_item (contains handle bound) handle state

  unfoldable pub flush_all : List String → Dict String Handle → ℕ → Exec (Store transport a) ℕ
  unfolding continue
  flush_all bound [] dropped = pure dropped
  flush_all bound ((handle, state) ∷ rest) dropped = do
    gone ← flush_one bound handle state
    flush_all bound rest (if gone then suc dropped else dropped)

  unfoldable pub flush_drops : Exec (Store transport a) ℕ
  unfolding flush_all
  flush_drops (r, s) = flush_all (referenced r) r.pending_drops 0 (r, s)

  abbrev pub state_of : StoredHandle → Handle
  state_of x = record {
    backend_identity = a.stock.base_url;
    epoch = a.managed_epoch;
    handle = x.handle;
    id_slot = a.stock.id_slot;
    n_tokens = x.n_tokens;
    nbytes = x.n_bytes;
  }

  -- The states of a store that the registry does not account for.
  unfoldable pub orphans_of : Registry → ManagedStore → List Handle
  orphans_of r store = map state_of (select (λ x. not (contains x.handle (known r))) store.handles)

  unfoldable pub drop_all : List Handle → Exec S (Unit {0})
  unfolding continue
  drop_all [] = pure tt
  drop_all (state ∷ rest) = do drop_state transport a state; drop_all rest

  unfoldable pub retire_orphans : Registry → Exec S (List String)
  unfolding continue drop_all orphans_of
  retire_orphans r = do
    store ← managed_store transport a
    drop_all (orphans_of r store)
    pure (map (λ state. state.handle) (orphans_of r store))

  unfoldable pub reconcile_orphaned_handles : Exec (Store transport a) (List String)
  reconcile_orphaned_handles (r, s) = on_second (retire_orphans r) (r, s)

  -- A capture that raised may have left a state behind that nothing accounts for.
  unfoldable pub after_failed_capture : Error → Exec (Store transport a) (Handle × List String)
  unfolding continue reconcile_orphaned_handles ignore
  after_failed_capture e = do
    ignore (do reconcile_orphaned_handles >>= λ _. pure tt)
    local (raise e)

  unfoldable pub keep_or_drop :
      Handle × List String → Result (Unit {0}) → Exec (Store transport a) (Handle × List String)
  unfolding continue
  keep_or_drop captured (ok _) = pure captured
  keep_or_drop captured (raise e) = do
    on_second (drop_state transport a captured.0)
    local (raise e)

  -- A captured state that does not fit its key is dropped.
  unfoldable pub require_captured :
      Key → Handle × List String → Exec (Store transport a) (Handle × List String)
  unfolding require_state keep_or_drop
  require_captured key captured = keep_or_drop captured (require_state a key captured.0)

  unfoldable pub flush_unless : Bool → Exec (Store transport a) (Unit {0})
  unfolding continue flush_drops
  flush_unless true = pure tt
  flush_unless false = flush_drops >>= λ dropped. pure tt

  -- The flush ahead of a capture, where drops are pending.
  unfoldable pub flush_pending : Exec (Store transport a) (Unit {0})
  unfolding flush_unless
  flush_pending (r, s) = flush_unless (length r.pending_drops == 0) (r, s)

  unfoldable pub capture_current : Key → Exec (Store transport a) (Handle × List String)
  unfolding continue rescue flush_pending after_failed_capture require_captured
  capture_current key = do
    local (require_key a key)
    flush_pending
    captured ← λ st.
        rescue (on_second (capture_current_state transport a key.tokens) st) after_failed_capture
    require_captured key captured

  abbrev pub covers : List String → List String → Bool
  covers xs [] = true
  covers xs (y ∷ ys) = contains y xs && covers xs ys

  unfoldable pub assert_physical_matches_registry : Exec (Store transport a) (Unit {0})
  unfolding continue
  assert_physical_matches_registry (r, s) =
      (do
        store ← on_second (managed_store transport a)
        local (
            if covers (handles_of store) (referenced r) && covers (referenced r) (handles_of store)
            then ok tt
            else raise runtime_error))
        (r, s)
