-- ===== src/Adapters/LlamaCppManaged/Storage/Binding.antt =====
-- What the calls of the managed storage that read and bind do to its registry.
use mathlib.Core.Path.{subst}
use statebraid.Prelude.{
  ◌≡◌, ◌⊎◌, refl, sym, ap, Bool, true, false, Option, some, String, string_hashable, nat_hashable,
  ◌==◌, arith, if◌then◌else◌, Bool-cases, inl, inr, ==_refl,
}
use statebraid.Prelude.Result.{Result-cases, ok, raise, Error, unsupported_capability}
use statebraid.Prelude.Exec.{continue}
use statebraid.Dict.{get}
use statebraid.Dict.Laws.{get-put}
use statebraid.Dict.Holding.{Holding, put-Holding}
use statebraid.Cache.Key.{key_hashable}
use statebraid.Cache.Policy.Lookup.{is_some}
use statebraid.Adapters.LlamaCpp.Lookup.{JsonTransport, namespace_hashable}
use statebraid.Adapters.LlamaCppManaged.Mutations.{LlamaCppManagedHttpAdapter, Handle}
use statebraid.Adapters.LlamaCppManaged.Storage.{
  Key, Payload, opaque, other_object, bind, require_key, require_state, Store, capture, bind_state,
  restore, insert,
}

module _ {S : Type 0} (transport : JsonTransport S) (a : LlamaCppManagedHttpAdapter) where
  -- Every state that a key is bound to fits the key.
  abbrev pub Fits : Store transport a → Type 0
  Fits st = Holding (λ k x. require_state a k x ≡ ok tt) st.0.records

  abbrev pub bound : Store transport a → Key → Option Handle
  bound st k = get k st.0.records

  abbrev pub serves : Key → Bool
  serves k = k.namespace == a.stock.namespace

  bind_state_fails :
      (k : Key) (x : Handle) (st : Store transport a) (e : Error)
      → require_state a k x ≡ raise e
      → bind_state transport a k x st ≡ (raise e, st)
  unfolding bind_state continue
  bind_state_fails k x st e refused = rw refused refl

  pub bind_state_binds :
      (k : Key) (x : Handle) (st : Store transport a)
      → require_state a k x ≡ ok tt
      → bind_state transport a k x st ≡ (ok tt, (bind k x st.0, st.1))
  unfolding bind_state continue
  bind_state_binds k x st fit = rw fit refl

  -- A state fits a key or is refused.
  fit_cases :
      (k : Key) (x : Handle)
      → ((e : Error) × (require_state a k x ≡ raise e)) ⊎ (require_state a k x ≡ ok tt)
  fit_cases k x = elim (Result-cases (require_state a k x)) [
    | inl (e, refused) ↦ inl (e, refused)
    | inr (_, fine) ↦ inr fine
  ]

  bind_state-Fits :
      (k : Key) (x : Handle) (st : Store transport a)
      → Fits st
      → Fits (bind_state transport a k x st).1
  unfolding bind
  bind_state-Fits k x st v = elim (fit_cases k x) [
    | inl (e, refused) ↦ subst (λ r. Fits r.1) (sym (bind_state_fails k x st e refused)) v
    | inr fit ↦
        subst (λ r. Fits r.1) (sym (bind_state_binds k x st fit))
          (put-Holding (λ j y. require_state a j y ≡ ok tt) k x st.0.records fit v)
  ]

  bind_state_keeps_others :
      (k j : Key) (x : Handle) (st : Store transport a)
      → (k == j) ≡ false
      → bound (bind_state transport a k x st).1 j ≡ bound st j
  unfolding bind
  bind_state_keeps_others k j x st other = elim (fit_cases k x) [
    | inl (e, refused) ↦ ap (λ r. bound r.1 j) (bind_state_fails k x st e refused)
    | inr fit ↦
        subst (λ r. bound r.1 j ≡ bound st j) (sym (bind_state_binds k x st fit))
          (ground (arith, get-put j k x st.0.records, other))
  ]

  bind_state_puts :
      (k j : Key) (x : Handle) (st : Store transport a)
      → require_state a k x ≡ ok tt
      → bound (bind_state transport a k x st).1 j ≡ (if k == j then some x else bound st j)
  unfolding bind
  bind_state_puts k j x st fit =
      subst (λ r. bound r.1 j ≡ (if k == j then some x else bound st j))
        (sym (bind_state_binds k x st fit)) (get-put j k x st.0.records)

  pub key_served : (k : Key) → serves k ≡ true → require_key a k ≡ ok tt
  unfolding require_key
  key_served k e = ground (arith, e)

  pub key_refused : (k : Key) → serves k ≡ false → require_key a k ≡ raise unsupported_capability
  unfolding require_key
  key_refused k e = ground (arith, e)

  pub capture_served :
      (k : Key) (st : Store transport a)
      → serves k ≡ true
      → capture transport a k st ≡ (ok (bound st k), st)
  unfolding capture continue
  capture_served k (r, s) e = rw (key_served k e) refl

  pub capture_refused :
      (k : Key) (st : Store transport a)
      → serves k ≡ false
      → capture transport a k st ≡ (raise unsupported_capability, st)
  unfolding capture continue
  capture_refused k (r, s) e = rw (key_refused k e) refl

  pub capture_keeps : (k : Key) (st : Store transport a) → (capture transport a k st).1 ≡ st
  capture_keeps k st = elim (Bool-cases (serves k)) [
    | inl e ↦ ap (λ r. r.1) (capture_served k st e)
    | inr e ↦ ap (λ r. r.1) (capture_refused k st e)
  ]

  pub insert_keeps_others :
      (k j : Key) (x : Payload) (role : String) (st : Store transport a)
      → (k == j) ≡ false
      → bound (insert transport a k x role st).1 j ≡ bound st j
  unfolding insert
  insert_keeps_others k j (opaque x) role st other = bind_state_keeps_others k j x st other
  insert_keeps_others k j other_object role st other = refl

  pub insert_binds :
      (k : Key) (x : Payload) (role : String) (st : Store transport a)
      → (insert transport a k x role st).0 ≡ ok tt
      → is_some (bound (insert transport a k x role st).1 k) ≡ true
  unfolding insert
  insert_binds k other_object role st e = cc
  insert_binds k (opaque x) role st e = elim (fit_cases k x) [
    | inl (bad, refused) ↦ absurd (ground (arith, bind_state_fails k x st bad refused, e))
    | inr fit ↦ ground (arith, bind_state_puts k k x st fit, ==_refl k)
  ]

  pub insert-Fits :
      (k : Key) (x : Payload) (role : String) (st : Store transport a)
      → Fits st
      → Fits (insert transport a k x role st).1
  unfolding insert
  insert-Fits k (opaque x) role st v = bind_state-Fits k x st v
  insert-Fits k other_object role st v = v

  pub restore_fine :
      (k : Key) (x : Handle) (st : Store transport a)
      → require_state a k x ≡ ok tt
      → (restore transport a k x st).0 ≡ ok tt
  unfolding restore
  restore_fine k x st fit = ap (λ r. r.0) (bind_state_binds k x st fit)

  pub restore_puts :
      (k j : Key) (x : Handle) (st : Store transport a)
      → require_state a k x ≡ ok tt
      → bound (restore transport a k x st).1 j ≡ (if k == j then some x else bound st j)
  unfolding restore
  restore_puts k j x st fit = bind_state_puts k j x st fit

  pub restore-Fits :
      (k : Key) (x : Handle) (st : Store transport a)
      → Fits st
      → Fits (restore transport a k x st).1
  unfolding restore
  restore-Fits k x st v = bind_state-Fits k x st v
