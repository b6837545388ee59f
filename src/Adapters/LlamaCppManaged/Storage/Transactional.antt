-- ===== src/Adapters/LlamaCppManaged/Storage/Transactional.antt =====
-- The managed storage is a transactional backend: the registry binds states that fit their keys, and
-- the server takes no part in that.
use mathlib.Core.Path.{subst}
use mathlib.Core.Option.{some-injective}
use statebraid.Prelude.{◌≡◌, sym, ap, false, none, some, string_hashable, nat_hashable, ◌==◌}
use statebraid.Prelude.Result.{ok, unsupported_capability}
use statebraid.Prelude.Exec.{Exec}
use statebraid.Cache.Key.{key_hashable}
use statebraid.Cache.Coordinator.Laws.{IsTransactional}
use statebraid.Adapters.LlamaCpp.Lookup.{JsonTransport, namespace_hashable}
use statebraid.Adapters.LlamaCppManaged.Mutations.{LlamaCppManagedHttpAdapter}
use statebraid.Adapters.LlamaCppManaged.Storage.{Key, Store, forget_key, storage}
use statebraid.Adapters.LlamaCppManaged.Storage.Binding.{
  Fits, bound, serves, capture_served, capture_refused, capture_keeps, restore_fine, restore_puts,
  restore-Fits, insert_keeps_others, insert_binds, insert-Fits,
}
use statebraid.Adapters.LlamaCppManaged.Storage.Retiring.{
  remove_served, removed_binding, remove_key-Fits, forget_keeps_others, forget_clears,
  forget_key-Fits,
}

module _ {S : Type 0} (transport : JsonTransport S) (a : LlamaCppManagedHttpAdapter) where
  -- A law of `forget_remote` is one of the call that the storage has for it.
  pub for_forget :
      (P : (Key → Exec (Store transport a) (Unit {0})) → Type 0)
      (f : Key → Exec (Store transport a) (Unit {0}))
      → (storage transport a).forget ≡ some f
      → P (forget_key transport a)
      → P f
  for_forget P f e p = subst P (some-injective _ _ e) p

  unfoldable pub storage-IsTransactional : IsTransactional (storage transport a)
  storage-IsTransactional = record {
    view = bound transport a;
    Valid = Fits transport a;
    serves = serves transport a;
    capture_reads = λ k st e. ap (λ r. r.0) (capture_served transport a k st e);
    capture_refuses =
        λ k st e. (unsupported_capability, ap (λ r. r.0) (capture_refused transport a k st e));
    capture_keeps = λ k j st. ap (λ x. bound transport a x j) (capture_keeps transport a k st);
    capture_valid = λ k st v. subst (Fits transport a) (sym (capture_keeps transport a k st)) v;
    remove_succeeds = λ k st e. ap (λ r. r.0) (remove_served transport a k st e);
    remove_clears = removed_binding transport a;
    remove_valid = remove_key-Fits transport a;
    restore_succeeds = λ k x old st v held. restore_fine transport a k x st (v k x held);
    restore_binds = λ k j x old st v held. restore_puts transport a k j x st (v k x held);
    restore_valid = λ k x old st v held now. restore-Fits transport a k x st now;
    insert_keeps_others = insert_keeps_others transport a;
    insert_binds = insert_binds transport a;
    insert_valid = insert-Fits transport a;
    forget_keeps_others = λ f k j st e.
        for_forget (λ f. (k == j) ≡ false → bound transport a (f k st).1 j ≡ bound transport a st j)
          f e (forget_keeps_others transport a k j st);
    forget_clears = λ f k st e.
        for_forget (λ f. (f k st).0 ≡ ok tt → bound transport a (f k st).1 k ≡ none) f e
          (forget_clears transport a k st);
    forget_valid = λ f k st e.
        for_forget (λ f. Fits transport a st → Fits transport a (f k st).1) f e
          (forget_key-Fits transport a k st);
  }
