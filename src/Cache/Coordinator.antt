-- ===== src/Cache/Coordinator.antt =====
-- src/statebraid/cache/policy.py: `TransactionalBackend` and `CacheCoordinator`. The coordinator's
-- lock makes each method one step; a method is a function from the policy and the backend's store to
-- a result and the two after it.
pub mod Laws
pub mod System
pub mod Sync
pub mod Recovery
pub mod Forget
pub mod Rollback
pub mod Inserted
use statebraid.Prelude.{
  ℕ, ℤ, Bool, true, false, List, [], ◌∷◌, ◌++◌, Option, none, some, String, Hashable, contains,
  if◌then◌else◌,
}
use statebraid.Prelude.Result.{Result, ok, raise, Error}
use statebraid.Prelude.Exec.{Exec, pure, continue, ignore, ◌>>=◌, ◌>>◌}
use statebraid.Dict.{Dict, put}
use statebraid.Cache.Key.{CacheKey, key_hashable}
use statebraid.Cache.Policy.{
  WorkingSetPolicy, AdmissionPlan, TrimPlan, Eviction, remote_evicted, observe_hit, capture_state,
  restore_state,
}
use statebraid.Cache.Policy.Plan.{plan_admission, evicted_keys}
use statebraid.Cache.Policy.Commit.{commit, commit_trim}
use statebraid.Cache.Policy.Candidate.{plan_stable_candidate}
use statebraid.Cache.Policy.Trim.{plan_trim}

-- The protocol `TransactionalBackend`, over the state of the backend, and the `forget_remote` that a
-- backend may have. Each call may raise, and may have changed the state when it does.
pub record Backend (N : Type 0) : Type 1 where
  pub Store : Type 0
  pub Snapshot : Type 0
  pub Payload : Type 0
  pub capture : CacheKey N → Exec Store (Option Snapshot)
  pub restore : CacheKey N → Snapshot → Exec Store (Unit {0})
  pub remove : CacheKey N → Exec Store (Unit {0})
  pub insert : CacheKey N → Payload → String → Exec Store (Unit {0})
  pub forget : Option (CacheKey N → Exec Store (Unit {0}))

module _ {N : Type 0} ⦃h : Hashable N⦄ (b : Backend N) where
  open b use {Store, Snapshot, Payload}

  abbrev pub State : Type 0
  State = WorkingSetPolicy N × Store

  abbrev pub Captured : Type 0
  Captured = Dict (CacheKey N) (Option Snapshot)

  -- `{key: self.backend.capture(key) for key in affected}`.
  unfoldable pub capture_all : List (CacheKey N) → Captured → Exec Store Captured
  unfolding continue
  capture_all [] captured = pure captured
  capture_all (key ∷ rest) captured = do
    snapshot ← b.capture key
    capture_all rest (put key snapshot captured)

  unfoldable pub remove_all : List (CacheKey N) → Exec Store (Unit {0})
  unfolding continue
  remove_all [] = pure tt
  remove_all (key ∷ rest) = do b.remove key; remove_all rest

  unfoldable pub discard_all : List (CacheKey N) → Exec Store (Unit {0})
  unfolding continue ignore
  discard_all [] = pure tt
  discard_all (key ∷ rest) = do ignore (b.remove key); discard_all rest

  unfoldable pub restore_all : Captured → Exec Store (Unit {0})
  unfolding continue
  restore_all [] = pure tt
  restore_all ((key, none) ∷ rest) = restore_all rest
  restore_all ((key, some snapshot) ∷ rest) = do b.restore key snapshot; restore_all rest

  -- The backend's half of `_restore_backend_and_policy`.
  unfoldable pub restore_backend : List (CacheKey N) → Captured → Exec Store (Unit {0})
  unfolding discard_all restore_all
  restore_backend affected captured = do discard_all affected; restore_all captured

  -- `raise` at the end of the handler, or what the handler itself raises.
  unfoldable pub reraise :
      {A : Type 0} → WorkingSetPolicy N → Error → Result (Unit {0}) × Store → Result A × State
  reraise before e (ok _, s) = (raise e, (before, s))
  reraise before e (raise e', s) = (raise e', (before, s))

  -- The end of the `try` block and its handler.
  unfoldable pub settle :
      {A : Type 0}
      → WorkingSetPolicy N
      → WorkingSetPolicy N
      → List (CacheKey N)
      → Captured
      → A
      → Result (Unit {0}) × Store
      → Result A × State
  unfolding reraise restore_backend
  settle before after affected captured a (ok _, s) = (ok a, (after, s))
  settle before after affected captured a (raise e, s) =
      reraise (restore_state before (capture_state before)) e (restore_backend affected captured s)

  -- The mutation of the backend between the capture and the policy's commit.
  unfoldable pub transact :
      WorkingSetPolicy N
      → WorkingSetPolicy N
      → List (CacheKey N)
      → Exec Store (Unit {0})
      → Result Captured × Store
      → Result Bool × State
  unfolding settle
  transact before after affected body (raise e, s) = (raise e, (before, s))
  transact before after affected body (ok captured, s) =
      settle before after affected captured true (body s)

  unfoldable pub affected_keys : AdmissionPlan N → List (CacheKey N)
  affected_keys plan =
      let evicted = evicted_keys plan.evictions in
      if contains plan.key evicted then evicted else evicted ++ plan.key ∷ []

  unfoldable pub admission_body : AdmissionPlan N → Payload → Exec Store (Unit {0})
  unfolding continue remove_all
  admission_body plan payload = do
    remove_all (evicted_keys plan.evictions)
    b.remove plan.key
    b.insert plan.key payload plan.role

  unfoldable pub admit : AdmissionPlan N → Payload → State → Result Bool × State
  unfolding transact
  admit plan payload (p, s) =
      if plan.accepted
      then transact p (commit p plan) (affected_keys plan) (admission_body plan payload)
          (capture_all (affected_keys plan) [] s)
      else (ok false, (p, s))

  unfoldable pub trim : TrimPlan N → State → Result Bool × State
  unfolding transact
  trim plan (p, s) = elim plan.evictions [
    | [] ↦ (ok false, (p, s))
    | _ ∷ _ ↦
        let affected = evicted_keys plan.evictions in
        transact p (commit_trim p plan) affected (remove_all affected) (capture_all affected [] s)
  ]

  unfoldable pub admit_entry :
      CacheKey N → Payload → String → ℕ → Option (CacheKey N) → State → Result Bool × State
  admit_entry key payload role nbytes predecessor (p, s) =
      admit (plan_admission p key role nbytes predecessor) payload (p, s)

  unfoldable pub admit_planned :
      Payload
      → Store
      → WorkingSetPolicy N
      → Result (WorkingSetPolicy N × AdmissionPlan N)
      → Result Bool × State
  admit_planned payload s before (ok (p, plan)) = admit plan payload (p, s)
  admit_planned payload s before (raise e) = (raise e, (before, s))

  unfoldable pub admit_stable_candidate : CacheKey N → Payload → ℕ → State → Result Bool × State
  unfolding admit_planned
  admit_stable_candidate key payload nbytes (p, s) =
      admit_planned payload s p (plan_stable_candidate p key nbytes)

  unfoldable pub coordinator_observe_hit : CacheKey N → State → Result Bool × State
  coordinator_observe_hit key (p, s) = let (p', hit) = observe_hit p key in (ok hit, (p', s))

  unfoldable pub trim_planned : State → Result (TrimPlan N) → Result Bool × State
  trim_planned state (ok plan) = trim plan state
  trim_planned state (raise e) = (raise e, state)

  unfoldable pub trim_to : Option ℤ → Option ℤ → State → Result Bool × State
  unfolding trim_planned
  trim_to n_sequences n_bytes (p, s) = trim_planned (p, s) (plan_trim p n_sequences n_bytes)

  -- `forget_remote` of the backend, or `remove` where it has none.
  unfoldable pub drop_binding : CacheKey N → Exec Store (Unit {0})
  drop_binding key = elim b.forget [ none ↦ b.remove key | some forget ↦ forget key ]

  unfoldable pub forgotten : CacheKey N → TrimPlan N
  forgotten key = record { evictions = record { key = key; reason = remote_evicted } ∷ [] }

  -- One round of the loop of `forget_remote`: whether the key was removed.
  unfoldable pub forget_one :
      CacheKey N → WorkingSetPolicy N → Result (Option Snapshot) × Store → Result Bool × State
  unfolding drop_binding forgotten settle
  forget_one key p (raise e, s) = (raise e, (p, s))
  forget_one key p (ok none, s) = (ok false, (p, s))
  forget_one key p (ok (some snapshot), s) =
      settle p (commit_trim p (forgotten key)) (key ∷ []) ((key, some snapshot) ∷ []) true
        (drop_binding key s)

  unfoldable pub forget_remote :
      List (CacheKey N) → List (CacheKey N) → State → Result (List (CacheKey N)) × State
  unfolding continue forget_one
  forget_remote [] removed state = (ok removed, state)
  forget_remote (key ∷ rest) removed (p, s) =
      continue (forget_one key p (b.capture key s))
        (λ gone. forget_remote rest (if gone then removed ++ key ∷ [] else removed))
