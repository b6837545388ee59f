-- ===== src/Cache/Coordinator/Forget.antt =====
-- The policy and the backend agree on what is resident, after every `forget_remote`.
use mathlib.Core.Path.{subst}
use statebraid.Cache.Policy.Lookup.{is_some}
use statebraid.Prelude.{
  ap, ◌∙◌, ==_refl, eq_of_==, ◌≡◌, ◌⊎◌, sym, Bool, true, false, List, [], ◌∷◌, ◌++◌, none, some,
  Hashable, ◌==◌, eq_of_==, contains, arith, if◌then◌else◌, Bool-cases, Option-cases, inl, inr,
}
use statebraid.Prelude.Result.{Result, ok, raise}
use statebraid.Prelude.Exec.{Exec, continue}
use statebraid.Dict.{put}
use statebraid.Cache.Key.{CacheKey, key_hashable}
use statebraid.Cache.Policy.{WorkingSetPolicy}
use statebraid.Cache.Policy.Commit.{commit_trim}
use statebraid.Cache.Coordinator.{
  Backend, State, capture_all, transact, drop_binding, forgotten, forget_one, forget_remote,
}
use statebraid.Cache.Coordinator.Laws.{IsTransactional, Served}
use statebraid.Cache.Coordinator.Rollback.{IsLocal}
use statebraid.Cache.Coordinator.Sync.{InStep, Clears, trimmed-InStep}

module _ {N : Type 0} ⦃h : Hashable N⦄ (b : Backend N) (t : IsTransactional b) where
  open t use {view}

  drop_touches :
      (k j : CacheKey N) (s : b.Store)
      → t.serves k ≡ true
      → contains j (k ∷ []) ≡ false
      → view (drop_binding b k s).1 j ≡ view s j
  unfolding drop_binding contains
  drop_touches k j s served m = elim (Option-cases b.forget) [
    | inl e ↦ ground (arith, e, m, t.remove_clears k j s served)
    | inr (f, e) ↦ ground (arith, e, m, t.forget_keeps_others f k j s)
  ]

  drop_valid : (k : CacheKey N) (s : b.Store) → t.Valid s → t.Valid (drop_binding b k s).1
  unfolding drop_binding
  drop_valid k s w = elim (Option-cases b.forget) [
    | inl e ↦ subst (λ r. t.Valid r.1) (sym (drop_removes e)) (t.remove_valid k s w)
    | inr (f, e) ↦ subst (λ r. t.Valid r.1) (sym (drop_forgets f e)) (t.forget_valid f k s e w)
  ]
    where
      drop_removes : b.forget ≡ none → drop_binding b k s ≡ b.remove k s
      drop_removes e = ground (arith, e)

      drop_forgets :
          (f : CacheKey N → Exec b.Store (Unit {0}))
          → b.forget ≡ some f
          → drop_binding b k s ≡ f k s
      drop_forgets f e = ground (arith, e)

  drop-IsLocal : (k : CacheKey N) → Served b t (k ∷ []) → IsLocal b t (k ∷ []) (drop_binding b k)
  unfolding contains
  drop-IsLocal k served = record {
    touches = λ j s m. drop_touches k j s (served k (ground (arith, ==_refl k))) m;
    stays_valid = λ s w. drop_valid k s w;
  }

  forget_clears_only :
      (f : CacheKey N → Exec b.Store (Unit {0})) (k j : CacheKey N) (s : b.Store)
      → b.forget ≡ some f
      → (f k s).0 ≡ ok tt
      → view (f k s).1 j ≡ (if k == j then none else view s j)
  forget_clears_only f k j s e fine = elim (Bool-cases (k == j)) [
    | inl same ↦ ground (arith, same, eq_of_== k j same, t.forget_clears f k s e fine)
    | inr other ↦ ground (arith, other, t.forget_keeps_others f k j s e other)
  ]

  drop-Clears : (k : CacheKey N) → Served b t (k ∷ []) → Clears b t (k ∷ []) (drop_binding b k)
  unfolding drop_binding contains
  drop-Clears k served j s fine = elim (Option-cases b.forget) [
    | inl e ↦ ground (arith, e, t.remove_clears k j s (served k (ground (arith, ==_refl k))))
    | inr (f, e) ↦ ground (arith, e, fine, forget_clears_only f k j s e)
  ]

  -- The transaction that one round runs where it finds a binding.
  abbrev pub dropped : CacheKey N → WorkingSetPolicy N → b.Store → Result Bool × State b
  dropped k p s =
      transact b p (commit_trim p (forgotten b k)) (k ∷ []) (drop_binding b k)
        (capture_all b (k ∷ []) [] s)

  pub forget_one_cases :
      (k : CacheKey N) (p : WorkingSetPolicy N) (s : b.Store)
      → ((r : Result Bool) × (forget_one b k p (b.capture k s) ≡ (r, (p, (b.capture k s).1))))
        ⊎ (forget_one b k p (b.capture k s) ≡ dropped k p s)
  unfolding forget_one capture_all transact put
  forget_one_cases k p s = elim (Bool-cases (t.serves k)) [
    | inr alien ↦
        let (x, refused) = t.capture_refuses k s alien in inl (raise x, ground (arith, refused))
    | inl served ↦
        let read = t.capture_reads k s served in
        elim (Option-cases (view s k)) [
          | inl e ↦ inl (ok false, ground (arith, read, e))
          | inr (x, e) ↦ inr (ground (arith, read, e))
        ]
  ]

  dropped-InStep :
      (k : CacheKey N) (p : WorkingSetPolicy N) (s : b.Store)
      → InStep b t (p, s)
      → InStep b t (dropped k p s).1
  unfolding forgotten
  dropped-InStep k p s i =
      trimmed-InStep b t (forgotten b k) p s (drop_binding b k) (drop-Clears k) (drop-IsLocal k) i

  forget_one-InStep :
      (k : CacheKey N) (p : WorkingSetPolicy N) (s : b.Store)
      → InStep b t (p, s)
      → InStep b t (forget_one b k p (b.capture k s)).1
  forget_one-InStep k p s i = elim (forget_one_cases k p s) [
    | inl (r, e) ↦
        subst (λ x. InStep b t x.1) (sym e)
          (λ j. i.0 j ∙ ap is_some (sym (t.capture_keeps k j s)), t.capture_valid k s i.1)
    | inr e ↦ subst (λ r. InStep b t r.1) (sym e) (dropped-InStep k p s i)
  ]

  -- What a loop of calls keeps, whether it ends or a call raises.
  continued :
      {A B : Type 0} (P : State b → Type 0) (r : Result A × State b) (f : A → Exec (State b) B)
      → P r.1
      → ((a : A) (st : State b) → P st → P (f a st).1)
      → P (continue r f).1
  unfolding continue
  continued P (ok a, st) f now next = next a st now
  continued P (raise e, st) f now next = now

  -- What every round of `forget_remote` keeps, the whole of it keeps.
  pub forget_remote_keeps :
      (P : State b → Type 0)
      → ((k : CacheKey N) (p : WorkingSetPolicy N) (s : b.Store)
          → P (p, s)
          → P (forget_one b k p (b.capture k s)).1)
      → (ks removed : List (CacheKey N)) (st : State b) → P st
      → P (forget_remote b ks removed st).1
  unfolding forget_remote
  forget_remote_keeps P round [] removed (p, s) now = now
  forget_remote_keeps P round (k ∷ ks) removed (p, s) now =
      continued P (forget_one b k p (b.capture k s)) _ (round k p s now) (λ gone st held.
        forget_remote_keeps P round ks (if gone then removed ++ k ∷ [] else removed) st held)

  -- Over a transactional backend, `forget_remote` of any keys, whether or not it raises, keeps policy
  -- and backend in step: a key has an entry exactly when the backend holds a binding for it, and the store stays valid.
  pub forget_remote-InStep :
      (ks removed : List (CacheKey N)) (st : State b)
      → InStep b t st
      → InStep b t (forget_remote b ks removed st).1
  forget_remote-InStep = forget_remote_keeps (InStep b t) forget_one-InStep
