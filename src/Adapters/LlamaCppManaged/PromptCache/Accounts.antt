-- ===== src/Adapters/LlamaCppManaged/PromptCache/Accounts.antt =====
-- What becomes of a captured state: no handle of the server is forgotten.
use mathlib.Core.Path.{subst}
use statebraid.Prelude.{
  ℕ, ℤ, ◌≡◌, ◌⊎◌, refl, sym, ap, ◌∙◌, Bool, true, false, List, Option, String, string_hashable,
  contains, arith, inl, inr,
}
use statebraid.Prelude.Result.{Result, Result-cases, ok, raise, Error}
use statebraid.Prelude.Exec.{
  Exec, continue, rescue, at_last, overridden, returned, continue_ok, on_second, ◌>>◌,
}
use statebraid.Cache.Key.{key_hashable, from_tokens}
use statebraid.Cache.Coordinator.{admit_entry, admit_stable_candidate}
use statebraid.Cache.Coordinator.Inserted.{IsInserted, admit-IsInserted, candidate-IsInserted}
use statebraid.Adapters.LlamaCpp.Lookup.{JsonTransport, namespace_hashable}
use statebraid.Adapters.LlamaCppManaged.Mutations.{LlamaCppManagedHttpAdapter, Handle}
use statebraid.Adapters.LlamaCppManaged.Http.{require_state_binding}
use statebraid.Adapters.LlamaCppManaged.Storage.{
  Key, Store, opaque, storage, discard_unbound, queue, referenced, insert, bind_state,
  require_state,
}
use statebraid.Adapters.LlamaCppManaged.Storage.Binding.{bind_state_binds}
use statebraid.Adapters.LlamaCppManaged.Storage.Captured.{capture_current_admissible}
use statebraid.Adapters.LlamaCppManaged.Storage.Accounted.{
  IsAccounted, AreDrops, bound_handle, queue-IsAccounted, flush_drops-IsAccounted,
}
use statebraid.Adapters.LlamaCppManaged.Storage.Cleanup.{flush_drops, capture_current}
use statebraid.Adapters.LlamaCppManaged.PromptCache.{
  Cache, unless_accepted, release, release_unless, guarded, admit_captured,
  capture_stable_candidate, apply_notices,
}

module _ {S : Type 0} (transport : JsonTransport S) (a : LlamaCppManagedHttpAdapter)
    (state : Handle) (binding : require_state_binding a state ≡ ok tt) where
  abbrev Out : Type 0
  Out = Result Bool × Cache transport a

  abbrev Known : Out → Type 0
  Known out = IsAccounted state out.1.1.0

  discarded :
      (st : Store transport a)
      → discard_unbound transport a state st ≡ (ok tt, (queue state st.0, st.1))
  unfolding discard_unbound continue
  discarded st = rw binding refl

  -- What the registry holds once the admission is over, and ahead of the flush.
  unless_accepted-Known :
      (accepted : Bool) (st : Cache transport a)
      → (accepted ≡ true → contains state.handle (referenced st.1.0) ≡ true)
      → Known (rescue (unless_accepted transport a state accepted st) (release transport a state))
  unfolding unless_accepted on_second continue rescue
  unless_accepted-Known true st bound = inl (bound refl)
  unless_accepted-Known false (p, st) bound = rw (discarded st) (queue-IsAccounted state st.0)

  release_unless-Known :
      (b : Bool) (e : Error) (st : Cache transport a)
      → (b ≡ true → contains state.handle (referenced st.1.0) ≡ true)
      → Known (release_unless transport a b state e st)
  unfolding release_unless on_second continue
  release_unless-Known true e st bound = inl (bound refl)
  release_unless-Known false e (p, st) bound = rw (discarded st) (queue-IsAccounted state st.0)

  admission-Known :
      (out : Out)
      → (out.0 ≡ ok true → contains state.handle (referenced out.1.1.0) ≡ true)
      → Known
          (rescue (continue out (unless_accepted transport a state)) (release transport a state))
  unfolding continue rescue release
  admission-Known (ok accepted, st) bound = unless_accepted-Known accepted st (λ e. bound (ap ok e))
  admission-Known (raise e, (p, (r, s))) bound =
      release_unless-Known (contains state.handle (referenced r)) e (p, (r, s)) (λ now. now)

  after_overridden : (r : Result Bool) (c : Result ℕ × Cache transport a) → (overridden r c).1 ≡ c.1
  unfolding overridden
  after_overridden r (ok _, s) = refl
  after_overridden r (raise e, s) = refl

  module _ (Gone : S → Type 0) (d : AreDrops transport a state Gone) where
    abbrev Settled : Cache transport a → Type 0
    Settled st = IsAccounted state st.1.0 ⊎ Gone st.1.1

    flushed-Settled :
        (out : Out) → Known out → Settled (at_last out (on_second (flush_drops transport a))).1
    unfolding at_last on_second
    flushed-Settled (r, (p, (registry, s))) known =
        subst Settled
          (sym (after_overridden r (on_second (flush_drops transport a) (p, (registry, s)))))
          (flush_drops-IsAccounted transport a state Gone d registry s known)

    guarded-Settled :
        (admission : Exec (Cache transport a) Bool) (st : Cache transport a)
        → ((admission st).0 ≡ ok true
            → contains state.handle (referenced (admission st).1.1.0) ≡ true)
        → Settled (guarded transport a state admission st).1
    unfolding guarded
    guarded-Settled admission st bound = flushed-Settled _ (admission-Known (admission st) bound)

  inserted_bound :
      (key : Key) (after : Store transport a)
      → IsInserted (storage transport a) (opaque state) key after
      → contains state.handle (referenced after.0) ≡ true
  unfolding insert bind_state continue
  inserted_bound key after i = elim (Result-cases (require_state a key state)) [
    | inl (e, bad) ↦ absurd (ground (arith, bad, i.fine))
    | inr (_, fit) ↦
        let stored =
          i.store ∙ ap (λ r. r.1) (bind_state_binds transport a key state i.before fit) in
        ap (λ st. contains state.handle (referenced st.0)) stored
        ∙ bound_handle key state i.before.0
  ]

  module _ (Gone : S → Type 0) (d : AreDrops transport a state Gone) where
    -- A state of the adapter is never forgotten by an admission, whether that admits it, refuses it or
    -- raises: afterwards a key is bound to its handle, or it waits for a drop, or it was dropped.
    pub admit_captured_settles :
        (tokens : List ℤ) (role : String) (predecessor : Option (List ℤ)) (st : Cache transport a)
        → IsAccounted state (admit_captured transport a tokens state role predecessor st).1.1.0
          ⊎ Gone (admit_captured transport a tokens state role predecessor st).1.1.1
    unfolding admit_captured admit_entry
    admit_captured_settles tokens role predecessor (p, s) =
        guarded-Settled Gone d _ (p, s)
          (λ done.
            inserted_bound _ _ (admit-IsInserted (storage transport a) (opaque state) _ p s done))

module _ {S : Type 0} (transport : JsonTransport S) (a : LlamaCppManagedHttpAdapter) where
  fit_binding :
      (key : Key) (state : Handle) (st : Store transport a)
      → (insert transport a key (opaque state) "stable" st).0 ≡ ok tt
      → require_state_binding a state ≡ ok tt
  unfolding insert bind_state continue require_state
  fit_binding key state st fine = elim (Result-cases (require_state_binding a state)) [
    | inl (e, bad) ↦ absurd (ground (arith, bad, fine))
    | inr (_, fit) ↦ fit
  ]

  abbrev noticed_admission : Key → Handle → List String → Exec (Cache transport a) Bool
  noticed_admission key state evicted = do
    apply_notices transport a evicted
    admit_stable_candidate (storage transport a) key (opaque state) state.nbytes

  noticed_bound :
      (state : Handle) (binding : require_state_binding a state ≡ ok tt) (key : Key)
      (evicted : List String) (st : Cache transport a)
      → (noticed_admission key state evicted st).0 ≡ ok true
      → contains state.handle (referenced (noticed_admission key state evicted st).1.1.0) ≡ true
  noticed_bound state binding key evicted st done =
      let admit : Unit {0} → Exec (Cache transport a) Bool =
        λ _. admit_stable_candidate (storage transport a) key (opaque state) state.nbytes in
      let (x, noticed, admitted) =
        returned (apply_notices transport a evicted) admit st true done in
      let st1 = (apply_notices transport a evicted st).1 in
      let (k, i) =
        candidate-IsInserted (storage transport a) (opaque state) key state.nbytes st1.0 st1.1
          admitted in
      ap (λ out. contains state.handle (referenced out.1.1.0))
        (continue_ok (apply_notices transport a evicted st) admit x noticed)
      ∙ inserted_bound transport a state binding k _ i

  -- What a capture for a stable candidate returns is never forgotten, whether the eviction notices or
  -- the admission raise or not: afterwards a key is bound to its handle, or it waits for a drop, or it
  -- was dropped.
  pub capture_stable_candidate_settles :
      (tokens : List ℤ) (st : Cache transport a) (state : Handle) (evicted : List String)
      (Gone : S → Type 0)
      → AreDrops transport a state Gone
      → (capture_current transport a (from_tokens a.stock.namespace tokens) st.1).0
        ≡ ok (state, evicted)
      → IsAccounted state (capture_stable_candidate transport a tokens st).1.1.0
        ⊎ Gone (capture_stable_candidate transport a tokens st).1.1.1
  unfolding capture_stable_candidate on_second
  capture_stable_candidate_settles tokens (p, s) state evicted Gone d captured =
      let key = from_tokens a.stock.namespace tokens in
      let binding =
        fit_binding key state s
          (capture_current_admissible transport a key "stable" s s state evicted captured).3 in
      subst (λ out. IsAccounted state out.1.1.0 ⊎ Gone out.1.1.1)
        (sym (
          continue_ok (on_second (capture_current transport a key) (p, s)) _ (state, evicted)
            captured))
        (guarded-Settled transport a state binding Gone d (noticed_admission key state evicted) _
          (noticed_bound state binding key evicted _))
