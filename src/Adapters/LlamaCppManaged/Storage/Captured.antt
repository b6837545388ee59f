-- ===== src/Adapters/LlamaCppManaged/Storage/Captured.antt =====
-- What a capture of the managed storage returns.
use mathlib.Core.Path.{subst}
use statebraid.Prelude.{
  ◌<◌, ◌≡◌, ◌≢◌, refl, ap, List, [], ◌∷◌, String, string_hashable, nat_hashable, ℤ, pos, negsuc,
  true, length, ◌==◌, eq_of_==, Bool-cases, arith, inl, inr,
}
use statebraid.Prelude.Result.{Result, ok, raise, Error, ok-injective}
use statebraid.Prelude.Exec.{local, Exec, rescue, returned, on_second, ignore, pure, ◌>>=◌}
use statebraid.Adapters.LlamaCpp.Lookup.{JsonTransport, namespace_hashable}
use statebraid.Adapters.LlamaCppManaged.Mutations.{
  LlamaCppManagedHttpAdapter, Handle, check_expected, all_int32, in_int32,
}
use statebraid.Adapters.LlamaCppManaged.Http.{
  require_state_binding, drop_state, capture_current_state,
}
use statebraid.Adapters.LlamaCppManaged.Storage.{
  Key, Store, opaque, insert, bind_state, require_key, require_state,
}
use statebraid.Adapters.LlamaCppManaged.Storage.Binding.{bind_state_binds}
use statebraid.Adapters.LlamaCppManaged.Storage.Cleanup.{
  flush_pending, after_failed_capture, keep_or_drop, require_captured, capture_current,
  reconcile_orphaned_handles,
}

rescued :
    {S A : Type 0} (r : Result A × S) (handler : Error → Exec S A) (b : A)
    → ((e : Error) (s : S) → ¬ ((handler e s).0 ≡ ok b))
    → (rescue r handler).0 ≡ ok b
    → r.0 ≡ ok b
unfolding rescue
rescued (ok a, s) handler b never e = e
rescued (raise x, s) handler b never e = absurd (never x s e)

-- Integers of 32 bits.
abbrev pub AreInt32 : List ℤ → Type 0
AreInt32 [] = Unit {0}
AreInt32 (pos n ∷ ts) = (n < 2147483648) × AreInt32 ts
AreInt32 (negsuc n ∷ ts) = (n < 2147483648) × AreInt32 ts

int32_lem : (tokens : List ℤ) → all_int32 tokens ≡ true → AreInt32 tokens
unfolding all_int32 in_int32
int32_lem [] e = tt
int32_lem (pos n ∷ ts) e = (ground (arith, e), int32_lem ts (ground (arith, e)))
int32_lem (negsuc n ∷ ts) e = (ground (arith, e), int32_lem ts (ground (arith, e)))

expected_tokens :
    (tokens : List ℤ) → check_expected tokens ≡ ok tt → (tokens ≢ []) × AreInt32 tokens
unfolding check_expected
expected_tokens [] e = absurd (ground (arith, e))
expected_tokens (t ∷ ts) e = (λ bad. cc, int32_lem (t ∷ ts) (ground (arith, e)))

-- A state that fits a key, for an adapter.
pub record Fits (a : LlamaCppManagedHttpAdapter) (key : Key) (state : Handle) : Type 0 where
  pub same_namespace : key.namespace ≡ a.stock.namespace
  pub same_backend : state.backend_identity ≡ a.stock.base_url
  pub same_epoch : state.epoch ≡ a.managed_epoch
  pub same_slot : state.id_slot ≡ a.stock.id_slot
  pub same_count : state.n_tokens ≡ length key.tokens

module _ {S : Type 0} (transport : JsonTransport S) (a : LlamaCppManagedHttpAdapter) where
  abbrev Captured : Type 0
  Captured = Handle × List String

  failed_never_returns :
      (x : Error) (st : Store transport a) (c : Captured)
      → ¬ ((after_failed_capture transport a x st).0 ≡ ok c)
  unfolding after_failed_capture
  failed_never_returns x st c e =
      let (_, _, e1) =
        returned (ignore (reconcile_orphaned_handles transport a >>= λ _. pure tt))
          (λ _. local (raise x)) st c e in
      ground (arith, e1)

  kept_fits :
      (captured out : Captured) (fit : Result (Unit {0})) (st : Store transport a)
      → (keep_or_drop transport a captured fit st).0 ≡ ok out
      → (fit ≡ ok tt) × (captured ≡ out)
  unfolding keep_or_drop
  kept_fits captured out (ok _) st e = (refl, ok-injective captured out e)
  kept_fits captured out (raise x) st e =
      let (_, _, e1) = returned (on_second (drop_state transport a captured.0)) _ st out e in
      absurd (ground (arith, e1))

  state_expected :
      (tokens : List ℤ) (st : Store transport a) (c : Captured)
      → (on_second (capture_current_state transport a tokens) st).0 ≡ ok c
      → check_expected tokens ≡ ok tt
  unfolding on_second capture_current_state
  state_expected tokens (r, s) c e =
      let (_, fine, _) = returned (local (check_expected tokens)) _ s c e in fine

  state-Fits : (key : Key) (state : Handle) → require_state a key state ≡ ok tt → Fits a key state
  unfolding require_state require_key require_state_binding
  state-Fits key state e = elim (Bool-cases (key.namespace == a.stock.namespace)) [
    | inr other ↦ absurd (ground (arith, other, e))
    | inl named ↦ elim (Bool-cases (state.backend_identity == a.stock.base_url)) [
      | inr other ↦ absurd (ground (arith, named, other, e))
      | inl backend ↦ elim (Bool-cases (state.epoch == a.managed_epoch)) [
        | inr other ↦ absurd (ground (arith, named, backend, other, e))
        | inl epoch ↦ elim (Bool-cases (state.id_slot == a.stock.id_slot)) [
          | inr other ↦ absurd (ground (arith, named, backend, epoch, other, e))
          | inl slot ↦ record {
            same_namespace = eq_of_== key.namespace a.stock.namespace named;
            same_backend = eq_of_== state.backend_identity a.stock.base_url backend;
            same_epoch = eq_of_== state.epoch a.managed_epoch epoch;
            same_slot = ground (arith, slot);
            same_count = ground (arith, named, backend, epoch, slot, e);
          }
        ]
      ]
    ]
  ]

  -- A capture returns only for a key that has at least one token, all of them from -2^31 to 2^31 - 1,
  -- and is of the adapter's namespace, and only a state of the adapter's server, epoch and slot that
  -- has as many tokens as the key; inserting that into any store of the adapter succeeds.
  pub capture_current_admissible :
      (key : Key) (role : String) (st now : Store transport a) (state : Handle)
      (evicted : List String)
      → (capture_current transport a key st).0 ≡ ok (state, evicted)
      → (key.tokens ≢ [])
        × AreInt32 key.tokens
        × Fits a key state
        × ((insert transport a key (opaque state) role now).0 ≡ ok tt)
  unfolding capture_current require_captured insert bind_state
  capture_current_admissible key role st now state evicted e =
      let out : Captured = (state, evicted) in
      let (_, _, e1) = returned (local (require_key a key)) _ st out e in
      let (_, _, e2) = returned (flush_pending transport a) _ st out e1 in
      let attempt : Exec (Store transport a) Captured =
        on_second (capture_current_state transport a key.tokens) in
      let (captured, fine, e3) =
        returned (λ st. rescue (attempt st) (after_failed_capture transport a)) _
          (flush_pending transport a st).1 out e2 in
      let (fit, same) = kept_fits captured out (require_state a key captured.0) _ e3 in
      let took =
        rescued (attempt (flush_pending transport a st).1) _ captured
          (λ x s. failed_never_returns x s captured) fine in
      let fitting = subst (λ x. require_state a key x ≡ ok tt) (ap (λ c. c.0) same) fit in
      let (some_token, int32) =
        expected_tokens key.tokens (state_expected key.tokens _ captured took) in
      (
        some_token,
        int32,
        state-Fits key state fitting,
        ap (λ r. r.0) (bind_state_binds transport a key state now fitting),
      )
