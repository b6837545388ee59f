-- ===== src/Adapters/LlamaCppManaged/PromptCache/Sound.antt =====
-- The calls of the managed prompt cache keep policy and registry in step, whether or not they raise.
use statebraid.Prelude.{
  ℕ, zero, suc, ℤ, ◌≡◌, refl, sym, Bool, true, false, List, [], ◌∷◌, Option, none, some, String,
  string_hashable, nat_hashable,
}
use statebraid.Prelude.Result.{ok, raise, Error}
use statebraid.Prelude.Exec.{Exec, on_second}
use statebraid.Prelude.Exec.Keeps.{Keeps, bind-Keeps, local-Keeps, rescue-Keeps, at_last-Keeps}
use statebraid.Cache.Key.{key_hashable, from_tokens}
use statebraid.Cache.Coordinator.{coordinator_observe_hit}
use statebraid.Cache.Coordinator.System.{
  Call, admits, proposes, hits, trims, forgets, step, IsSound, step-IsSound,
}
use statebraid.Backend.Observation.{matched_tokens}
use statebraid.Adapters.LlamaCpp.{LlamaCppNamespace}
use statebraid.Adapters.LlamaCpp.Lookup.{JsonTransport, namespace_hashable, require_namespace}
use statebraid.Adapters.LlamaCppManaged.{LlamaCppManagedRestore}
use statebraid.Adapters.LlamaCppManaged.Mutations.{LlamaCppManagedHttpAdapter, Handle}
use statebraid.Adapters.LlamaCppManaged.Http.{clear_live_slot, lookup_after_policy}
use statebraid.Adapters.LlamaCppManaged.Storage.{Key, Store, opaque, storage, discard_unbound}
use statebraid.Adapters.LlamaCppManaged.Storage.Cleanup.{flush_drops, capture_current}
use statebraid.Adapters.LlamaCppManaged.Storage.Kept.{
  KeepsRecords, server_keeps, flush_drops_keeps, capture_current_keeps, discard_unbound_keeps,
  restore_live_keeps, reconcile_keeps,
}
use statebraid.Adapters.LlamaCppManaged.Storage.Transactional.{storage-IsTransactional}
use statebraid.Adapters.LlamaCppManaged.PromptCache.{
  Cache, forget_keys, apply_remote_evictions, apply_notices, capture_current_tokens,
  unless_accepted, release, guarded, admit_captured, capture_and_admit, capture_stable_candidate,
  reconcile_orphans, doomed_keys, release_unless, require_prompt,
}
use statebraid.Adapters.LlamaCppManaged.PromptCache.Lookup.{
  check_reuse, restore_selected, prepare, credit, lookup, generation_safe_exact, managed_trim_to,
}

module _ {S : Type 0} (transport : JsonTransport S) (a : LlamaCppManagedHttpAdapter) where
  abbrev pub Sound : Cache transport a → Type 0
  Sound = IsSound (storage transport a) (storage-IsTransactional transport a)

  abbrev KeepsSound : {A : Type 0} → Exec (Cache transport a) A → Type 0
  KeepsSound m = Keeps Sound m

  same_records :
      (st : Cache transport a) (after : Store transport a)
      → after.0.records ≡ st.1.0.records
      → Sound st
      → Sound (st.0, after)
  unfolding storage-IsTransactional
  same_records st after e v = record {
    live = v.live;
    in_step = (λ j. rw e (v.in_step.0 j), λ k x held. v.in_step.1 k x (rw (sym e) held));
  }

  storage_keeps :
      {A : Type 0} (m : Exec (Store transport a) A)
      → KeepsRecords transport a m
      → KeepsSound (on_second m)
  unfolding on_second
  storage_keeps m kept = record {
    keeps = λ (p, st) v. same_records (p, st) (m st).1 ((kept st.0.records).keeps st refl) v;
  }

  flush_keeps : KeepsSound (on_second (flush_drops transport a))
  flush_keeps = storage_keeps _ (flush_drops_keeps transport a)

  step_keeps :
      (c : Call (storage transport a)) (st : Cache transport a)
      → Sound st
      → Sound (step (storage transport a) st c)
  step_keeps c st v =
      step-IsSound (storage transport a) (storage-IsTransactional transport a) st c v

  forget_keys_keeps : (ks : List Key) → KeepsSound (forget_keys transport a ks)
  unfolding forget_keys step
  forget_keys_keeps [] = local-Keeps
  forget_keys_keeps (key ∷ rest) =
      bind-Keeps (record { keeps = λ st v. step_keeps (forgets (key ∷ rest)) st v })
        (λ removed. bind-Keeps flush_keeps (λ dropped. local-Keeps))

  pub apply_remote_evictions_keeps :
      (handles : List String) → KeepsSound (apply_remote_evictions transport a handles)
  unfolding apply_remote_evictions
  apply_remote_evictions_keeps handles = record {
    keeps =
        λ (p, (r, s)) v. (forget_keys_keeps (doomed_keys handles r.records)).keeps (p, (r, s)) v;
  }

  apply_notices_keeps : (handles : List String) → KeepsSound (apply_notices transport a handles)
  unfolding apply_notices
  apply_notices_keeps [] = local-Keeps
  apply_notices_keeps (handle ∷ rest) =
      bind-Keeps (apply_remote_evictions_keeps (handle ∷ rest)) (λ removed. local-Keeps)

  capture_keeps : (key : Key) → KeepsSound (on_second (capture_current transport a key))
  capture_keeps key = storage_keeps _ (capture_current_keeps transport a key)

  pub capture_current_tokens_keeps :
      (tokens : List ℤ) → KeepsSound (capture_current_tokens transport a tokens)
  unfolding capture_current_tokens
  capture_current_tokens_keeps tokens =
      bind-Keeps (capture_keeps (from_tokens a.stock.namespace tokens)) (λ (state, evicted).
        bind-Keeps (apply_notices_keeps evicted) (λ _. local-Keeps {r = ok state}))

  discard_keeps : (state : Handle) → KeepsSound (on_second (discard_unbound transport a state))
  discard_keeps state = storage_keeps _ (discard_unbound_keeps transport a state)

  unless_accepted_keeps :
      (state : Handle) (accepted : Bool) → KeepsSound (unless_accepted transport a state accepted)
  unfolding unless_accepted
  unless_accepted_keeps state true = local-Keeps
  unless_accepted_keeps state false =
      bind-Keeps (discard_keeps state) (λ _. local-Keeps {r = ok false})

  release_unless_keeps :
      (bound : Bool) (state : Handle) (e : Error)
      → KeepsSound (release_unless transport a bound state e)
  unfolding release_unless
  release_unless_keeps true state e = local-Keeps
  release_unless_keeps false state e =
      bind-Keeps (discard_keeps state) (λ _. local-Keeps {r = raise e})

  release_keeps : (state : Handle) (e : Error) → KeepsSound (release transport a state e)
  unfolding release
  release_keeps state e = record {
    keeps = λ (p, (r, s)) v. (release_unless_keeps _ state e).keeps (p, (r, s)) v;
  }

  guarded_keeps :
      (state : Handle) (admission : Exec (Cache transport a) Bool)
      → KeepsSound admission
      → KeepsSound (guarded transport a state admission)
  unfolding guarded
  guarded_keeps state admission kept =
      at_last-Keeps
        (rescue-Keeps (bind-Keeps kept (unless_accepted_keeps state)) (release_keeps state))
        flush_keeps

  pub admit_captured_keeps :
      (tokens : List ℤ) (state : Handle) (role : String) (old : Option (List ℤ))
      → KeepsSound (admit_captured transport a tokens state role old)
  unfolding admit_captured step
  admit_captured_keeps tokens state role old = guarded_keeps state _ (record {
    keeps =
        step_keeps
          (admits (from_tokens a.stock.namespace tokens) (opaque state) role state.nbytes _);
  })

  pub capture_and_admit_keeps :
      (tokens : List ℤ) (role : String) (old : Option (List ℤ))
      → KeepsSound (capture_and_admit transport a tokens role old)
  unfolding capture_and_admit
  capture_and_admit_keeps tokens role old =
      bind-Keeps (capture_current_tokens_keeps tokens)
        (λ state. admit_captured_keeps tokens state role old)

  pub capture_stable_candidate_keeps :
      (tokens : List ℤ) → KeepsSound (capture_stable_candidate transport a tokens)
  unfolding capture_stable_candidate step
  capture_stable_candidate_keeps tokens =
      let key = from_tokens a.stock.namespace tokens in
      bind-Keeps (capture_keeps key) (λ (state, evicted). guarded_keeps state _ (
        bind-Keeps (apply_notices_keeps evicted)
          (λ _. record { keeps = step_keeps (proposes key (opaque state) state.nbytes) })))

  pub reconcile_orphans_keeps : KeepsSound (reconcile_orphans transport a)
  unfolding reconcile_orphans
  reconcile_orphans_keeps = storage_keeps _ (reconcile_keeps transport a)

  pub trim_keeps :
      (n_sequences n_bytes : Option ℤ)
      → KeepsSound (managed_trim_to transport a n_sequences n_bytes)
  unfolding managed_trim_to step
  trim_keeps n_sequences n_bytes =
      at_last-Keeps (record { keeps = step_keeps (trims n_sequences n_bytes) }) flush_keeps

  server-KeepsSound : {A : Type 0} (m : Exec S A) → KeepsSound (on_second (on_second m))
  server-KeepsSound m = storage_keeps _ (server_keeps transport a m)

  restore_selected_keeps :
      (prompt : List ℤ) (selected : Option Key)
      → KeepsSound (restore_selected transport a prompt selected)
  unfolding restore_selected
  restore_selected_keeps prompt none = local-Keeps
  restore_selected_keeps prompt (some key) =
      bind-Keeps (storage_keeps _ (restore_live_keeps transport a key)) (λ state. local-Keeps)

  pub prepare_keeps : (prompt : List ℤ) → KeepsSound (prepare transport a prompt)
  unfolding prepare
  prepare_keeps prompt = bind-Keeps local-Keeps (λ _.
      bind-Keeps (server-KeepsSound (clear_live_slot transport a))
        (λ n_cleared. record { keeps = λ st v. (restore_selected_keeps prompt _).keeps st v }))

  hit_keeps : (key : Key) → KeepsSound (coordinator_observe_hit (storage transport a) key)
  unfolding step
  hit_keeps key = record { keeps = step_keeps (hits key) }

  credit_keeps :
      (prepared : Option LlamaCppManagedRestore) (matched : ℕ)
      → KeepsSound (credit transport a prepared matched)
  unfolding credit
  credit_keeps none matched = local-Keeps
  credit_keeps (some prepared) zero = local-Keeps
  credit_keeps (some prepared) (suc n) = bind-Keeps (hit_keeps prepared.key) (λ hit. local-Keeps)

  pub lookup_keeps :
      (namespace : LlamaCppNamespace) (prompt : List ℤ)
      → KeepsSound (lookup transport a namespace prompt)
  unfolding lookup
  lookup_keeps namespace prompt =
      bind-Keeps (local-Keeps {r = require_namespace a.stock namespace}) (λ _.
        bind-Keeps (local-Keeps {r = require_prompt prompt}) (λ _.
          bind-Keeps (prepare_keeps prompt) (λ prepared.
            bind-Keeps
              (server-KeepsSound (lookup_after_policy transport a a.stock.namespace prompt))
              (λ o. bind-Keeps (local-Keeps {r = check_reuse prepared (matched_tokens o)}) (λ _.
                bind-Keeps (credit_keeps prepared (matched_tokens o))
                  (λ _. local-Keeps {r = ok o}))))))

  pub generation_safe_exact_keeps :
      (namespace : LlamaCppNamespace) (prompt : List ℤ)
      → KeepsSound (generation_safe_exact transport a namespace prompt)
  unfolding generation_safe_exact
  generation_safe_exact_keeps namespace prompt =
      bind-Keeps (lookup_keeps namespace prompt) (λ o. local-Keeps)
