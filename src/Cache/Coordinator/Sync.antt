-- ===== src/Cache/Coordinator/Sync.antt =====
-- The policy and the backend agree on what is resident, after every admission and trim.
use mathlib.Core.Path.{subst}
use statebraid.Prelude.{
  sym, ==_refl, ◌≡◌, refl, Bool, true, false, ◌||◌, List, [], ◌∷◌, none, Hashable, ◌==◌, contains,
  contains-append, arith, if◌then◌else◌,
}
use statebraid.Prelude.Result.{Result, ok}
use statebraid.Prelude.Exec.{Exec}
use statebraid.Dict.{get}
use statebraid.Dict.Laws.{get-keep}
use statebraid.Cache.Key.{CacheKey, key_hashable}
use statebraid.Cache.Policy.{WorkingSetPolicy, AdmissionPlan, TrimPlan, Eviction}
use statebraid.Cache.Policy.Plan.{evicted_keys}
use statebraid.Cache.Policy.Commit.{commit, commit_trim}
use statebraid.Cache.Policy.Lookup.{is_some}
use statebraid.Cache.Policy.Admission.{get-commit}
use statebraid.Cache.Policy.Effect.{entries_after_trim}
use statebraid.Cache.Coordinator.{
  Backend, State, capture_all, remove_all, affected_keys, admission_body, admit, trim, transact,
}
use statebraid.Cache.Coordinator.Laws.{IsTransactional, remove_all_lem, remove_all_valid, Served}
use statebraid.Cache.Coordinator.Rollback.{
  policy_of_ok, policy_of_raise, IsLocal, StoreOutcome, done, failed, PolicyOutcome,
  transact-StoreOutcome, transact-PolicyOutcome,
}

module _ {N : Type 0} ⦃h : Hashable N⦄ (b : Backend N) (t : IsTransactional b) where
  open t use {view}

  contains-affected_keys :
      (plan : AdmissionPlan N) (j : CacheKey N)
      → contains j (affected_keys b plan)
        ≡ (contains j (evicted_keys plan.evictions) || plan.key == j)
  unfolding affected_keys contains
  contains-affected_keys plan j =
      ground (arith, contains-append j (evicted_keys plan.evictions) (plan.key ∷ []))

  module _ (plan : AdmissionPlan N) (payload : b.Payload)
      (served : Served b t (affected_keys b plan)) where
    Served-evicted : Served b t (evicted_keys plan.evictions)
    Served-evicted k m = served k (ground (arith, contains-affected_keys plan k, m))

    key_served : t.serves plan.key ≡ true
    key_served =
        served plan.key (ground (arith, contains-affected_keys plan plan.key, ==_refl plan.key))

    body_touches :
        (j : CacheKey N) (s : b.Store)
        → contains j (affected_keys b plan) ≡ false
        → view (admission_body b plan payload s).1 j ≡ view s j
    unfolding admission_body
    body_touches j s m =
        let evicted = evicted_keys plan.evictions in
        let s1 = (remove_all b evicted s).1 in
        let s2 = (b.remove plan.key s1).1 in
        let removed = remove_all_lem b t evicted s Served-evicted in
        ground (
          arith,
          contains-affected_keys plan j,
          removed.0,
          removed.1 j,
          t.remove_succeeds plan.key s1 key_served,
          t.remove_clears plan.key j s1 key_served,
          t.insert_keeps_others plan.key j payload plan.role s2,
        )

    body_valid : (s : b.Store) → t.Valid s → t.Valid (admission_body b plan payload s).1
    unfolding admission_body
    body_valid s w =
        let evicted = evicted_keys plan.evictions in
        let s1 = (remove_all b evicted s).1 in
        let s2 = (b.remove plan.key s1).1 in
        let removed = remove_all_lem b t evicted s Served-evicted in
        let reached : (admission_body b plan payload s).1
            ≡ (b.insert plan.key payload plan.role s2).1 =
          ground (arith, removed.0, t.remove_succeeds plan.key s1 key_served) in
        subst t.Valid (sym reached) (
          t.insert_valid plan.key payload plan.role s2
            (t.remove_valid plan.key s1 (remove_all_valid b t evicted s Served-evicted w)))

    pub body-IsLocal : IsLocal b t (affected_keys b plan) (admission_body b plan payload)
    body-IsLocal = record { touches = body_touches; stays_valid = body_valid }

  body_binds :
      (plan : AdmissionPlan N) (payload : b.Payload) (s : b.Store) (j : CacheKey N)
      → Served b t (affected_keys b plan)
      → (admission_body b plan payload s).0 ≡ ok tt
      → is_some (view (admission_body b plan payload s).1 j) ≡ (
          if plan.key == j
          then true
          else if contains j (evicted_keys plan.evictions)
          then false
          else is_some (view s j))
  unfolding admission_body
  body_binds plan payload s j served e =
      let evicted = evicted_keys plan.evictions in
      let s1 = (remove_all b evicted s).1 in
      let s2 = (b.remove plan.key s1).1 in
      let removed = remove_all_lem b t evicted s (Served-evicted plan payload served) in
      let here = key_served plan payload served in
      ground (
        arith,
        removed.0,
        removed.1 j,
        t.remove_succeeds plan.key s1 here,
        t.remove_clears plan.key j s1 here,
        t.insert_keeps_others plan.key j payload plan.role s2,
        t.insert_binds plan.key payload plan.role s2,
      )

  -- The policy lists exactly the keys that the backend holds a binding for.
  abbrev pub Agree : State b → Type 0
  Agree (p, s) = (j : CacheKey N) → is_some (get j p.entries) ≡ is_some (view s j)

  -- It does, and the store is valid.
  abbrev pub InStep : State b → Type 0
  InStep (p, s) = Agree (p, s) × t.Valid s

  accepted-Agree :
      (plan : AdmissionPlan N) (payload : b.Payload) (p : WorkingSetPolicy N) (s : b.Store)
      (r : Result Bool × State b)
      → plan.accepted ≡ true
      → StoreOutcome b t (affected_keys b plan) s (admission_body b plan payload) r
      → PolicyOutcome b true p (commit p plan) s r
      → Agree (p, s)
      → Agree r.1
  accepted-Agree plan payload p s r acc (done s1 served v fine succeeded store) o i = λ j. ground (
    arith,
    policy_of_ok b o succeeded,
    get-commit p plan j acc,
    store,
    body_binds plan payload s1 j served fine,
    v j,
    i j,
  )
  accepted-Agree plan payload p s r acc (failed e bad v) o i =
      λ j. ground (arith, policy_of_raise b e o bad, v j, i j)

  guarded-InStep :
      (wanted : Bool) (p : WorkingSetPolicy N) (s : b.Store) (r : Result Bool × State b)
      → (wanted ≡ true → InStep r.1)
      → InStep (p, s)
      → InStep (if wanted then r else (ok false, (p, s))).1
  guarded-InStep true p s r k i = k refl
  guarded-InStep false p s r k i = i

  -- Over a transactional backend, `admit`, by any plan and whether or not it raises, keeps policy and
  -- backend in step: a key has an entry exactly when the backend holds a binding for it, and the store stays valid.
  pub admit-InStep :
      (plan : AdmissionPlan N) (payload : b.Payload) (p : WorkingSetPolicy N) (s : b.Store)
      → InStep (p, s)
      → InStep (admit b plan payload (p, s)).1
  unfolding admit
  admit-InStep plan payload p s i =
      let affected = affected_keys b plan in
      let body = admission_body b plan payload in
      let (stored, valid) =
        transact-StoreOutcome b t p (commit p plan) affected body s i.1
          (body-IsLocal plan payload) in
      guarded-InStep plan.accepted p s _
        (λ acc. (
          accepted-Agree plan payload p s _ acc stored
              (transact-PolicyOutcome b p (commit p plan) affected s body
                (capture_all b affected [] s))
              i.0,
          valid,
        ))
        i

  -- A body that, where it returns, has cleared the bindings of the keys and of no others.
  abbrev pub Clears : List (CacheKey N) → Exec b.Store (Unit {0}) → Type 0
  Clears gone body =
      (j : CacheKey N) (s : b.Store)
      → (body s).0 ≡ ok tt
      → view (body s).1 j ≡ (if contains j gone then none else view s j)

  trimmed-Agree :
      (plan : TrimPlan N) (p : WorkingSetPolicy N) (s : b.Store) (body : Exec b.Store (Unit {0}))
      (r : Result Bool × State b)
      → (Served b t (evicted_keys plan.evictions) → Clears (evicted_keys plan.evictions) body)
      → StoreOutcome b t (evicted_keys plan.evictions) s body r
      → PolicyOutcome b true p (commit_trim p plan) s r
      → Agree (p, s)
      → Agree r.1
  trimmed-Agree plan p s body r clears (done s1 served v fine succeeded store) o i = λ j. ground (
    arith,
    policy_of_ok b o succeeded,
    entries_after_trim p plan,
    get-keep j (evicted_keys plan.evictions) p.entries,
    store,
    clears served j s1 fine,
    v j,
    i j,
  )
  trimmed-Agree plan p s body r clears (failed e bad v) o i =
      λ j. ground (arith, policy_of_raise b e o bad, v j, i j)

  -- A transaction whose body takes the plan's bindings out.
  pub trimmed-InStep :
      (plan : TrimPlan N) (p : WorkingSetPolicy N) (s : b.Store) (body : Exec b.Store (Unit {0}))
      → (Served b t (evicted_keys plan.evictions) → Clears (evicted_keys plan.evictions) body)
      → (Served b t (evicted_keys plan.evictions) → IsLocal b t (evicted_keys plan.evictions) body)
      → InStep (p, s)
      → InStep
          (transact b p
            (commit_trim p plan)
            (evicted_keys plan.evictions)
            body
            (capture_all b (evicted_keys plan.evictions) [] s)).1
  trimmed-InStep plan p s body clears local i =
      let affected = evicted_keys plan.evictions in
      let (stored, valid) =
        transact-StoreOutcome b t p (commit_trim p plan) affected body s i.1 local in
      (
        trimmed-Agree plan p s body _ clears stored
            (transact-PolicyOutcome b p (commit_trim p plan) affected s body
              (capture_all b affected [] s))
            i.0,
        valid,
      )

  remove_all-IsLocal : (ks : List (CacheKey N)) → Served b t ks → IsLocal b t ks (remove_all b ks)
  remove_all-IsLocal ks served = record {
    touches = λ j s m. ground (arith, (remove_all_lem b t ks s served).1 j, m);
    stays_valid = λ s w. remove_all_valid b t ks s served w;
  }

  trim_with :
      (vs : List (Eviction N)) (p : WorkingSetPolicy N) (s : b.Store)
      → InStep (p, s)
      → InStep (trim b (record { evictions = vs }) (p, s)).1
  unfolding trim
  trim_with [] p s i = i
  trim_with (x ∷ vs) p s i =
      let plan : TrimPlan N = record { evictions = x ∷ vs } in
      let affected = evicted_keys plan.evictions in
      trimmed-InStep plan p s (remove_all b affected)
        (λ served j s1 fine. (remove_all_lem b t affected s1 served).1 j)
        (remove_all-IsLocal affected) i

  -- Over a transactional backend, `trim`, by any plan and whether or not it raises, keeps policy and
  -- backend in step: a key has an entry exactly when the backend holds a binding for it, and the store stays valid.
  pub trim-InStep :
      (plan : TrimPlan N) (p : WorkingSetPolicy N) (s : b.Store)
      → InStep (p, s)
      → InStep (trim b plan (p, s)).1
  trim-InStep plan p s i = trim_with plan.evictions p s i
