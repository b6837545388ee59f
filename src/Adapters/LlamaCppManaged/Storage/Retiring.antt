-- ===== src/Adapters/LlamaCppManaged/Storage/Retiring.antt =====
-- What the calls of the managed storage that remove do to its registry.
use mathlib.Core.Path.{subst}
use statebraid.Prelude.{
  ◌≡◌, refl, sym, ap, true, false, none, string_hashable, nat_hashable, ◌==◌, arith, if◌then◌else◌,
  Bool-cases, Option-cases, inl, inr, ==_refl,
}
use statebraid.Prelude.Result.{ok, raise, unsupported_capability}
use statebraid.Prelude.Exec.{continue}
use statebraid.Dict.{get}
use statebraid.Dict.Laws.{get-remove}
use statebraid.Dict.Holding.{Holding, remove-Holding}
use statebraid.Cache.Key.{key_hashable}
use statebraid.Adapters.LlamaCpp.Lookup.{JsonTransport, namespace_hashable}
use statebraid.Adapters.LlamaCppManaged.Mutations.{LlamaCppManagedHttpAdapter}
use statebraid.Adapters.LlamaCppManaged.Storage.{
  Key, Registry, unbind, retire, queue, require_state, Store, remove_key, forget_key,
}
use statebraid.Adapters.LlamaCppManaged.Storage.Binding.{
  Fits, bound, serves, key_served, key_refused,
}

module _ {S : Type 0} (transport : JsonTransport S) (a : LlamaCppManagedHttpAdapter) where
  retire_records : (k : Key) (r : Registry) → (retire k r).records ≡ (unbind k r).records
  unfolding retire queue
  retire_records k r = elim (Option-cases (get k r.records)) [
    | inl e ↦ ground (arith, e)
    | inr (x, e) ↦ ground (arith, e)
  ]

  pub remove_served :
      (k : Key) (st : Store transport a)
      → serves transport a k ≡ true
      → remove_key transport a k st ≡ (ok tt, (retire k st.0, st.1))
  unfolding remove_key continue
  remove_served k st e = rw (key_served transport a k e) refl

  remove_refused :
      (k : Key) (st : Store transport a)
      → serves transport a k ≡ false
      → remove_key transport a k st ≡ (raise unsupported_capability, st)
  unfolding remove_key continue
  remove_refused k st e = rw (key_refused transport a k e) refl

  forget_served :
      (k : Key) (st : Store transport a)
      → serves transport a k ≡ true
      → forget_key transport a k st ≡ (ok tt, (unbind k st.0, st.1))
  unfolding forget_key continue
  forget_served k st e = rw (key_served transport a k e) refl

  forget_refused :
      (k : Key) (st : Store transport a)
      → serves transport a k ≡ false
      → forget_key transport a k st ≡ (raise unsupported_capability, st)
  unfolding forget_key continue
  forget_refused k st e = rw (key_refused transport a k e) refl

  unbind-Fits :
      (k : Key) (st : Store transport a)
      → Fits transport a st
      → Fits transport a (unbind k st.0, st.1)
  unfolding unbind
  unbind-Fits k st v = remove-Holding (λ j y. require_state a j y ≡ ok tt) k st.0.records v

  retire-Fits :
      (k : Key) (st : Store transport a)
      → Fits transport a st
      → Fits transport a (retire k st.0, st.1)
  retire-Fits k st v =
      subst (Holding (λ j y. require_state a j y ≡ ok tt)) (sym (retire_records k st.0))
        (unbind-Fits k st v)

  pub remove_key-Fits :
      (k : Key) (st : Store transport a)
      → Fits transport a st
      → Fits transport a (remove_key transport a k st).1
  remove_key-Fits k st v = elim (Bool-cases (serves transport a k)) [
    | inl e ↦ subst (λ r. Fits transport a r.1) (sym (remove_served k st e)) (retire-Fits k st v)
    | inr e ↦ subst (λ r. Fits transport a r.1) (sym (remove_refused k st e)) v
  ]

  pub forget_key-Fits :
      (k : Key) (st : Store transport a)
      → Fits transport a st
      → Fits transport a (forget_key transport a k st).1
  forget_key-Fits k st v = elim (Bool-cases (serves transport a k)) [
    | inl e ↦ subst (λ r. Fits transport a r.1) (sym (forget_served k st e)) (unbind-Fits k st v)
    | inr e ↦ subst (λ r. Fits transport a r.1) (sym (forget_refused k st e)) v
  ]

  pub removed_binding :
      (k j : Key) (st : Store transport a)
      → serves transport a k ≡ true
      → bound transport a (remove_key transport a k st).1 j
        ≡ (if k == j then none else bound transport a st j)
  unfolding unbind
  removed_binding k j st e =
      subst (λ r. bound transport a r.1 j ≡ (if k == j then none else bound transport a st j))
        (sym (remove_served k st e)) (rw (retire_records k st.0) (get-remove j k st.0.records))

  pub forget_keeps_others :
      (k j : Key) (st : Store transport a)
      → (k == j) ≡ false
      → bound transport a (forget_key transport a k st).1 j ≡ bound transport a st j
  unfolding unbind
  forget_keeps_others k j st other = elim (Bool-cases (serves transport a k)) [
    | inl e ↦
        subst (λ r. bound transport a r.1 j ≡ bound transport a st j) (sym (forget_served k st e))
          (ground (arith, get-remove j k st.0.records, other))
    | inr e ↦ ap (λ r. bound transport a r.1 j) (forget_refused k st e)
  ]

  -- A `forget_remote` that returns was of a key that is served.
  pub forget_clears :
      (k : Key) (st : Store transport a)
      → (forget_key transport a k st).0 ≡ ok tt
      → bound transport a (forget_key transport a k st).1 k ≡ none
  unfolding unbind
  forget_clears k st fine = elim (Bool-cases (serves transport a k)) [
    | inl e ↦
        subst (λ r. bound transport a r.1 k ≡ none) (sym (forget_served k st e))
          (ground (arith, get-remove k k st.0.records, ==_refl k))
    | inr e ↦ absurd (ground (arith, forget_refused k st e, fine))
  ]
