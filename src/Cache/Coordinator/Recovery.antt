-- ===== src/Cache/Coordinator/Recovery.antt =====
-- What an admission that raises leaves behind.
use statebraid.Prelude.{List, ◌≡◌, refl, Bool, true, false, Hashable, arith, if◌then◌else◌}
use statebraid.Prelude.Result.{Result, ok, raise, Error}
use statebraid.Prelude.Exec.{Exec}
use statebraid.Cache.Key.{CacheKey, key_hashable}
use statebraid.Cache.Policy.{WorkingSetPolicy, AdmissionPlan}
use statebraid.Cache.Policy.Commit.{commit}
use statebraid.Cache.Coordinator.{Backend, State, affected_keys, admission_body, admit}
use statebraid.Cache.Coordinator.Laws.{IsTransactional}
use statebraid.Cache.Coordinator.Rollback.{
  policy_of_raise, StoreOutcome, done, failed, transact-StoreOutcome, admit-PolicyOutcome,
}
use statebraid.Cache.Coordinator.Sync.{body-IsLocal}

module _ {N : Type 0} ⦃h : Hashable N⦄ (b : Backend N) (t : IsTransactional b) where
  open t use {view}

  store_of_raise :
      {affected : List (CacheKey N)} {before : b.Store} {body : Exec b.Store (Unit {0})}
      {r : Result Bool × State b} (e : Error)
      → StoreOutcome b t affected before body r
      → r.0 ≡ raise e
      → (j : CacheKey N) → view r.1.1 j ≡ view before j
  store_of_raise e (done _ _ _ _ f _) bad = absurd (ground (arith, f, bad))
  store_of_raise e (failed _ _ v) bad = v

  guarded_raise :
      (wanted : Bool) (p : WorkingSetPolicy N) (s : b.Store) (r : Result Bool × State b) (e : Error)
      → (r.0 ≡ raise e → (j : CacheKey N) → view r.1.1 j ≡ view s j)
      → (if wanted then r else (ok false, (p, s))).0 ≡ raise e
      → (j : CacheKey N) → view (if wanted then r else (ok false, (p, s))).1.1 j ≡ view s j
  guarded_raise true p s r e k bad = k bad
  guarded_raise false p s r e k bad = λ j. refl

  -- Over a transactional backend with a valid store, an admission that raises, by any plan, has left
  -- everything as it was: the policy, and every binding of the backend.
  pub admit_rolls_back :
      (plan : AdmissionPlan N) (payload : b.Payload) (p : WorkingSetPolicy N) (s : b.Store)
      (e : Error)
      → t.Valid s
      → (admit b plan payload (p, s)).0 ≡ raise e
      → ((admit b plan payload (p, s)).1.0 ≡ p)
        × ((j : CacheKey N) → view (admit b plan payload (p, s)).1.1 j ≡ view s j)
  unfolding admit
  admit_rolls_back plan payload p s e w bad =
      let affected = affected_keys b plan in
      let body = admission_body b plan payload in
      (
        policy_of_raise b e (admit-PolicyOutcome b plan payload p s) bad,
        guarded_raise plan.accepted p s _ e
            (store_of_raise e (
              (transact-StoreOutcome b t p (commit p plan) affected body s w
                (body-IsLocal b t plan payload)).0))
            bad,
      )
