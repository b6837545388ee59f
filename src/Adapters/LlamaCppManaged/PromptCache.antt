-- ===== src/Adapters/LlamaCppManaged/PromptCache.antt =====
-- src/statebraid/adapters/llama_cpp_managed.py: `LlamaCppStateBraidPromptCache`. Its state is that of
-- the coordinator over the managed storage.
pub mod Lookup
pub mod Sound
pub mod Accounts
pub mod Selection
pub mod Reuse
pub mod System
use statebraid.Prelude.{
  ℕ, zero, suc, ℤ, Bool, true, false, not, ◌&&◌, ◌||◌, List, [], ◌∷◌, Option, none, some, String,
  string_hashable, nat_hashable, int_hashable, ◌==◌, contains, leb, ltb, length, map, select,
  if◌then◌else◌,
}
use statebraid.Prelude.Result.{
  Result, ok, raise, Error, value_error, runtime_error, unsupported_capability,
}
use statebraid.Prelude.Exec.{local, Exec, pure, continue, rescue, at_last, on_second, ◌>>=◌, ◌>>◌}
use statebraid.Dict.{Dict, values, keys}
use statebraid.Cache.Key.{CacheKey, key_hashable, from_tokens}
use statebraid.Cache.Policy.{WorkingSetPolicy, EntryState, init, capture_state}
use statebraid.Cache.Coordinator.{
  State, admit_entry, admit_stable_candidate, coordinator_observe_hit, forget_remote, trim_to,
}
use statebraid.Backend.Observation.{matched_tokens}
use statebraid.Adapters.LlamaCpp.{LlamaCppNamespace, Observation}
use statebraid.Adapters.LlamaCpp.Lookup.{
  JsonTransport, LlamaCppHttpAdapter, namespace_hashable, check_remaining,
}
use statebraid.Adapters.LlamaCppManaged.{LlamaCppManagedRestore}
use statebraid.Adapters.LlamaCppManaged.Mutations.{LlamaCppManagedHttpAdapter, Handle}
use statebraid.Adapters.LlamaCppManaged.Http.{clear_live_slot, lookup_after_policy}
use statebraid.Adapters.LlamaCppManaged.Storage.{
  Key, Registry, opaque, referenced, pending_drop_bytes, pending_drop_count, storage, init_storage,
  discard_unbound, restore_live,
}
use statebraid.Adapters.LlamaCppManaged.Storage.Cleanup.{
  capture_current, flush_drops, reconcile_orphaned_handles,
}

-- `_token_lcp`.
unfoldable pub token_lcp : List ℤ → List ℤ → ℕ
token_lcp [] right = 0
token_lcp (x ∷ left) [] = 0
token_lcp (x ∷ left) (y ∷ right) = let rest = token_lcp left right in if x == y then suc rest else 0

-- An item of the candidates of `prepare`, with the entry's size in place of its negation.
pub record Candidate : Type 0 where
  pub matched : ℕ
  pub whole : Bool
  pub nbytes : ℕ
  pub key : Key

-- `>` on the first three parts of two candidates.
unfoldable pub beats : Candidate → Candidate → Bool
beats x y =
    ltb y.matched x.matched
    || (x.matched == y.matched
        && ((x.whole && not y.whole)
            || ((not x.whole || y.whole) && (not y.whole || x.whole) && ltb x.nbytes y.nbytes)))

-- `max`, which keeps the first of the largest.
unfoldable pub best_of : Candidate → List Candidate → Candidate
unfolding beats
best_of best [] = best
best_of best (c ∷ rest) = best_of (if beats c best then c else best) rest

-- The loop over the entries of the policy.
unfoldable pub candidates_of :
    LlamaCppNamespace → List ℤ → Dict Key (EntryState LlamaCppNamespace) → List Candidate
unfolding token_lcp
candidates_of namespace prompt [] = []
candidates_of namespace prompt ((key, entry) ∷ rest) =
    let others = candidates_of namespace prompt rest in
    let matched = token_lcp key.tokens prompt in
    if not (key.namespace == namespace)
    then others
    else if matched == 0
    then others
    else record {
      matched = matched;
      whole = matched == length key.tokens;
      nbytes = entry.nbytes;
      key = key;
    }
      ∷ others

-- The key that is restored for a prompt.
unfoldable pub select_key :
    LlamaCppNamespace → List ℤ → WorkingSetPolicy LlamaCppNamespace → Option Key
unfolding candidates_of best_of
select_key namespace prompt p = elim (candidates_of namespace prompt p.entries) [
  | [] ↦ none
  | c ∷ rest ↦ some (best_of c rest).key
]

unfoldable pub require_prompt : List ℤ → Result (Unit {0})
require_prompt [] = raise value_error
require_prompt (_ ∷ _) = ok tt

-- The keys whose states the server has evicted.
unfoldable pub doomed_keys : List String → Dict Key Handle → List Key
doomed_keys evicted [] = []
doomed_keys evicted ((key, state) ∷ rest) =
    let others = doomed_keys evicted rest in
    if contains state.handle evicted then key ∷ others else others

module _ {S : Type 0} (transport : JsonTransport S) (a : LlamaCppManagedHttpAdapter) where
  abbrev pub Cache : Type 0
  Cache = State (storage transport a)

  unfoldable pub init_prompt_cache :
      ℤ → ℤ → Option ℤ → Exec S (WorkingSetPolicy LlamaCppNamespace × Registry)
  unfolding continue init_storage
  init_prompt_cache max_sequences max_bytes transient_reserve = do
    registry ← init_storage transport a true
    pure (init max_sequences max_bytes [] transient_reserve, registry)

  -- The loop over keys that the server has evicted, and the flush behind it.
  unfoldable pub forget_keys : List Key → Exec Cache (List Key)
  unfolding continue forget_remote flush_drops
  forget_keys [] = pure []
  forget_keys (key ∷ rest) = do
    removed ← forget_remote (storage transport a) (key ∷ rest) []
    on_second (flush_drops transport a) >>= λ dropped. pure removed

  unfoldable pub apply_remote_evictions : List String → Exec Cache (List Key)
  unfolding forget_keys
  apply_remote_evictions handles (p, (r, s)) =
      forget_keys (doomed_keys handles r.records) (p, (r, s))

  -- `if evicted: self.apply_remote_evictions(evicted)`.
  unfoldable pub apply_notices : List String → Exec Cache (Unit {0})
  unfolding continue apply_remote_evictions
  apply_notices [] = pure tt
  apply_notices (handle ∷ rest) = apply_remote_evictions (handle ∷ rest) >>= λ removed. pure tt

  unfoldable pub capture_current_tokens : List ℤ → Exec Cache Handle
  unfolding continue
  capture_current_tokens state_tokens = do
    (state, evicted) ←
        on_second (capture_current transport a (from_tokens a.stock.namespace state_tokens))
    apply_notices evicted
    pure state

  -- A state that was not admitted is queued for a drop.
  unfoldable pub unless_accepted : Handle → Bool → Exec Cache Bool
  unfolding continue
  unless_accepted state true = pure true
  unless_accepted state false = do on_second (discard_unbound transport a state); pure false

  unfoldable pub release_unless : Bool → Handle → Error → Exec Cache Bool
  unfolding continue
  release_unless true state e = local (raise e)
  release_unless false state e = do on_second (discard_unbound transport a state); local (raise e)

  -- The handler: a state that no key is bound to is queued for a drop.
  unfoldable pub release : Handle → Error → Exec Cache Bool
  unfolding release_unless
  release state e (p, (r, s)) =
      release_unless (contains state.handle (referenced r)) state e (p, (r, s))

  -- An admission of a captured state, with the handler and the flush behind it.
  unfoldable pub guarded : Handle → Exec Cache Bool → Exec Cache Bool
  unfolding continue rescue at_last unless_accepted release flush_drops
  guarded state admission st =
      at_last (rescue (continue (admission st) (unless_accepted state)) (release state))
        (on_second (flush_drops transport a))

  unfoldable pub admit_captured : List ℤ → Handle → String → Option (List ℤ) → Exec Cache Bool
  admit_captured state_tokens state role predecessor_tokens = guarded state (
      admit_entry (storage transport a) (from_tokens a.stock.namespace state_tokens) (opaque state)
        role state.nbytes
        (elim predecessor_tokens [
          | none ↦ none
          | some tokens ↦ some (from_tokens a.stock.namespace tokens)
        ]))

  unfoldable pub capture_and_admit : List ℤ → String → Option (List ℤ) → Exec Cache Bool
  unfolding continue
  capture_and_admit state_tokens role predecessor_tokens = do
    state ← capture_current_tokens state_tokens
    admit_captured state_tokens state role predecessor_tokens

  unfoldable pub capture_stable_candidate : List ℤ → Exec Cache Bool
  unfolding continue
  capture_stable_candidate state_tokens = do
    let key = from_tokens a.stock.namespace state_tokens
    (state, evicted) ← on_second (capture_current transport a key)
    guarded state (do
      apply_notices evicted
      admit_stable_candidate (storage transport a) key (opaque state) state.nbytes)

  unfoldable pub reconcile_orphans : Exec Cache (List String)
  reconcile_orphans = on_second (reconcile_orphaned_handles transport a)
