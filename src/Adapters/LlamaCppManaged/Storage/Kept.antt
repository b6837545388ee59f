-- ===== src/Adapters/LlamaCppManaged/Storage/Kept.antt =====
-- The calls of the managed storage that reach the server leave the bindings of its registry alone.
use statebraid.Prelude.{
  ℕ, suc, ◌≡◌, Bool, true, false, List, [], ◌∷◌, Option, none, some, String, string_hashable,
  contains, nat_hashable, ◌==◌, length, if◌then◌else◌, ap, ◌∙◌,
}
use statebraid.Prelude.Result.{Result, ok, raise, Error}
use statebraid.Prelude.Exec.{Exec, on_second, update}
use statebraid.Prelude.Exec.Keeps.{Keeps, bind-Keeps, local-Keeps, rescue-Keeps, ignore-Keeps}
use statebraid.Dict.{Dict}
use statebraid.Adapters.LlamaCpp.Lookup.{JsonTransport}
use statebraid.Adapters.LlamaCppManaged.Mutations.{LlamaCppManagedHttpAdapter, Handle}
use statebraid.Adapters.LlamaCppManaged.Http.{drop_state}
use statebraid.Adapters.LlamaCppManaged.Storage.{
  Key, Store, unqueue, queue, require_state, discard_unbound, restore_live, restored,
}
use statebraid.Adapters.LlamaCppManaged.Storage.Binding.{capture_keeps}
use statebraid.Adapters.LlamaCppManaged.Storage.Cleanup.{
  flush_item, flush_one, flush_unless, flush_all, flush_drops, flush_pending,
  reconcile_orphaned_handles, retire_orphans, after_failed_capture, keep_or_drop, require_captured,
  capture_current,
}

module _ {S : Type 0} (transport : JsonTransport S) (a : LlamaCppManagedHttpAdapter) where
  -- The bindings are those that are given.
  abbrev pub Records : Dict Key Handle → Store transport a → Type 0
  Records records st = st.0.records ≡ records

  -- A call that changes no binding.
  abbrev pub KeepsRecords : {A : Type 0} → Exec (Store transport a) A → Type 0
  KeepsRecords m = (records : Dict Key Handle) → Keeps (Records records) m

  pub server_keeps : {A : Type 0} (m : Exec S A) → KeepsRecords (on_second m)
  unfolding on_second
  server_keeps m records = record { keeps = λ (r, s) e. e }

  unqueue_keeps : (handle : String) → KeepsRecords (update (unqueue handle))
  unfolding unqueue
  unqueue_keeps handle records = record { keeps = λ (r, s) e. e }

  queue_keeps : (state : Handle) → KeepsRecords (update (queue state))
  unfolding queue
  queue_keeps state records = record { keeps = λ (r, s) e. e }

  flush_item_keeps :
      (bound : Bool) (handle : String) (state : Handle)
      → KeepsRecords (flush_item transport a bound handle state)
  unfolding flush_item
  flush_item_keeps true handle state records =
      bind-Keeps (unqueue_keeps handle records) (λ _. local-Keeps {r = ok false})
  flush_item_keeps false handle state records =
      bind-Keeps (server_keeps (drop_state transport a state) records)
        (λ _. bind-Keeps (unqueue_keeps handle records) (λ _. local-Keeps {r = ok true}))

  flush_one_keeps :
      (bound : List String) (handle : String) (state : Handle)
      → KeepsRecords (flush_one transport a bound handle state)
  unfolding flush_one
  flush_one_keeps bound handle state = flush_item_keeps (contains handle bound) handle state

  pub flush_all_keeps :
      (bound : List String) (pending : Dict String Handle) (n : ℕ)
      → KeepsRecords (flush_all transport a bound pending n)
  unfolding flush_all
  flush_all_keeps bound [] n records = local-Keeps
  flush_all_keeps bound ((handle, state) ∷ rest) n records =
      bind-Keeps (flush_one_keeps bound handle state records)
        (λ gone. flush_all_keeps bound rest (if gone then suc n else n) records)

  pub flush_drops_keeps : KeepsRecords (flush_drops transport a)
  unfolding flush_drops
  flush_drops_keeps records = record {
    keeps = λ (r, s) e. (flush_all_keeps _ r.pending_drops 0 records).keeps (r, s) e;
  }

  pub reconcile_keeps : KeepsRecords (reconcile_orphaned_handles transport a)
  unfolding reconcile_orphaned_handles
  reconcile_keeps records = record {
    keeps = λ (r, s) e. (server_keeps (retire_orphans transport a r) records).keeps (r, s) e;
  }

  after_failed_capture_keeps : (x : Error) → KeepsRecords (after_failed_capture transport a x)
  unfolding after_failed_capture
  after_failed_capture_keeps x records =
      bind-Keeps (ignore-Keeps (bind-Keeps (reconcile_keeps records) (λ _. local-Keeps)))
        (λ _. local-Keeps {r = raise x})

  pub discard_unbound_keeps : (state : Handle) → KeepsRecords (discard_unbound transport a state)
  unfolding discard_unbound
  discard_unbound_keeps state records = bind-Keeps local-Keeps (λ _. queue_keeps state records)

  keep_or_drop_keeps :
      (captured : Handle × List String) (fit : Result (Unit {0}))
      → KeepsRecords (keep_or_drop transport a captured fit)
  unfolding keep_or_drop
  keep_or_drop_keeps captured (ok _) records = local-Keeps
  keep_or_drop_keeps captured (raise e) records =
      bind-Keeps (server_keeps (drop_state transport a captured.0) records)
        (λ _. local-Keeps {r = raise e})

  require_captured_keeps :
      (key : Key) (captured : Handle × List String)
      → KeepsRecords (require_captured transport a key captured)
  unfolding require_captured
  require_captured_keeps key captured = keep_or_drop_keeps captured (require_state a key captured.0)

  flush_unless_keeps : (empty : Bool) → KeepsRecords (flush_unless transport a empty)
  unfolding flush_unless
  flush_unless_keeps true records = local-Keeps
  flush_unless_keeps false records = bind-Keeps (flush_drops_keeps records) (λ _. local-Keeps)

  flush_pending_keeps : KeepsRecords (flush_pending transport a)
  unfolding flush_pending
  flush_pending_keeps records = record {
    keeps = λ (r, s). (flush_unless_keeps (length r.pending_drops == 0) records).keeps (r, s);
  }

  pub capture_current_keeps : (key : Key) → KeepsRecords (capture_current transport a key)
  unfolding capture_current
  capture_current_keeps key records = bind-Keeps local-Keeps (λ _.
      bind-Keeps (flush_pending_keeps records) (λ _.
        bind-Keeps
          (rescue-Keeps (server_keeps _ records) (λ x. after_failed_capture_keeps x records))
          (λ captured. require_captured_keeps key captured records)))

  restored_keeps : (resident : Option Handle) → KeepsRecords (restored transport a resident)
  unfolding restored
  restored_keeps none records = local-Keeps
  restored_keeps (some state) records = bind-Keeps (server_keeps _ records) (λ _. local-Keeps)

  pub restore_live_keeps : (key : Key) → KeepsRecords (restore_live transport a key)
  unfolding restore_live
  restore_live_keeps key records =
      bind-Keeps
        (record { keeps = λ st e. ap (λ x. x.0.records) (capture_keeps transport a key st) ∙ e })
        (λ resident. restored_keeps resident records)
