-- ===== src/Cache/Coordinator/System.antt =====
-- The coordinator over any sequence of its calls.
use statebraid.Prelude.{
  ℕ, suc, ℤ, ◌≡◌, refl, sym, Bool, List, [], ◌∷◌, Option, none, String, Hashable, arith, inl, inr,
  Option-cases,
}
use mathlib.Core.Path.{subst}
use statebraid.Prelude.Result.{Result}
use statebraid.Dict.{get}
use statebraid.Dict.Laws.{get-put}
use statebraid.Cache.Key.{CacheKey, key_hashable}
use statebraid.Cache.Policy.{WorkingSetPolicy, AdmissionPlan, TrimPlan, Eviction, init, observe_hit}
use statebraid.Cache.Policy.Plan.{plan_admission, evicted_keys}
use statebraid.Cache.Policy.Commit.{commit, commit_trim}
use statebraid.Cache.Policy.Lifecycle.{
  IsLive, init-IsLive, observe_hit-IsLive, admit-IsLive, trim-IsLive,
}
use statebraid.Cache.Policy.Probation.{plan_stable_candidate_returns, outcome-IsLive}
use statebraid.Cache.Policy.Probation.Store.{SameStore, SameStore-IsLive}
use statebraid.Cache.Policy.Trimming.{trim_within_targets}
use statebraid.Cache.Coordinator.{
  forget_one, forget_remote, forgotten, drop_binding, Backend, State, admit, trim, capture_all,
  remove_all, admit_entry, admit_planned, admit_stable_candidate, coordinator_observe_hit, trim_to,
  trim_planned,
}
use statebraid.Cache.Coordinator.Forget.{
  forget_one_cases, forget_remote_keeps, forget_remote-InStep,
}
use statebraid.Cache.Coordinator.Laws.{IsTransactional}
use statebraid.Cache.Coordinator.Rollback.{
  PolicyOutcome, done, declined, failed, admit-PolicyOutcome, transact-PolicyOutcome,
}
use statebraid.Cache.Coordinator.Sync.{Agree, InStep, admit-InStep, trim-InStep}

-- The calls of a client.
pub data Call {N : Type 0} (b : Backend N) : Type 0 where
  admits : CacheKey N → b.Payload → String → ℕ → Option (CacheKey N) → Call b
  proposes : CacheKey N → b.Payload → ℕ → Call b
  hits : CacheKey N → Call b
  trims : Option ℤ → Option ℤ → Call b
  forgets : List (CacheKey N) → Call b

module _ {N : Type 0} ⦃h : Hashable N⦄ (b : Backend N) where
  -- The state after a call; the caller handles what it raises.
  unfoldable pub step : State b → Call b → State b
  step st (admits key payload role nbytes old) = (admit_entry b key payload role nbytes old st).1
  step st (proposes key payload nbytes) = (admit_stable_candidate b key payload nbytes st).1
  step st (hits key) = (coordinator_observe_hit b key st).1
  step st (trims n_sequences n_bytes) = (trim_to b n_sequences n_bytes st).1
  step st (forgets ks) = (forget_remote b ks [] st).1

  pub run : State b → List (Call b) → State b
  run st [] = st
  run st (c ∷ cs) = run (step st c) cs

  IsLive-of_outcome :
      {wanted : Bool} (before after : WorkingSetPolicy N) {s : b.Store} (r : Result Bool × State b)
      → PolicyOutcome b wanted before after s r
      → IsLive before
      → IsLive after
      → IsLive r.1.0
  IsLive-of_outcome before after r (done _ _ e) l m = rw e m
  IsLive-of_outcome before after r (declined _ e) l m = rw e l
  IsLive-of_outcome before after r (failed x _ _ e) l m = rw e l

  admit-IsLive' :
      (plan : AdmissionPlan N) (payload : b.Payload) (p : WorkingSetPolicy N) (s : b.Store)
      → IsLive p
      → IsLive (commit p plan)
      → IsLive (admit b plan payload (p, s)).1.0
  admit-IsLive' plan payload p s l m =
      IsLive-of_outcome p (commit p plan) _ (admit-PolicyOutcome b plan payload p s) l m

  trim-IsLive' :
      (vs : List (Eviction N)) (p : WorkingSetPolicy N) (s : b.Store)
      → IsLive p
      → IsLive (trim b (record { evictions = vs }) (p, s)).1.0
  unfolding trim
  trim-IsLive' [] p s l = l
  trim-IsLive' (x ∷ vs) p s l =
      let plan : TrimPlan N = record { evictions = x ∷ vs } in
      let affected = evicted_keys plan.evictions in
      IsLive-of_outcome p (commit_trim p plan) _
        (transact-PolicyOutcome b p (commit_trim p plan) affected s (remove_all b affected)
          (capture_all b affected [] s))
        l (trim-IsLive p plan l)

module _ {N : Type 0} ⦃h : Hashable N⦄ (b : Backend N) (t : IsTransactional b) where
  -- A state in which the policy is live, and lists what the backend holds.
  pub record IsSound (st : State b) : Type 0 where
    pub live : IsLive st.0
    pub in_step : InStep b t st

  SameStore-InStep :
      (p q : WorkingSetPolicy N) (s : b.Store)
      → SameStore p q
      → InStep b t (p, s)
      → InStep b t (q, s)
  SameStore-InStep p q s e i = (λ j. ground (arith, e.entries, i.0 j), i.1)

  proposes-IsSound :
      (p : WorkingSetPolicy N) (s : b.Store) (key : CacheKey N) (payload : b.Payload) (nbytes : ℕ)
      → IsSound (p, s)
      → IsSound (step b (p, s) (proposes key payload nbytes))
  unfolding step admit_stable_candidate admit_planned
  proposes-IsSound p s key payload nbytes v =
      let ((q, plan), e, o) = plan_stable_candidate_returns p key nbytes v.live.well_formed in
      subst (λ x. IsSound (admit_planned b payload s p x).1) (sym e)
        (record {
          live =
              admit-IsLive' b plan payload q s (SameStore-IsLive p q o.store v.live)
                (outcome-IsLive p key nbytes (q, plan) v.live o);
          in_step = admit-InStep b t plan payload q s (SameStore-InStep p q s o.store v.in_step);
        })

  hits-IsSound :
      (p : WorkingSetPolicy N) (s : b.Store) (key : CacheKey N)
      → IsSound (p, s)
      → IsSound (step b (p, s) (hits key))
  unfolding step coordinator_observe_hit observe_hit
  hits-IsSound p s key v = record {
    live = observe_hit-IsLive p key v.live;
    in_step = (hits-Agree, v.in_step.1);
  }
    where
      hits-Agree : Agree b t (step b (p, s) (hits key))
      hits-Agree j = elim (Option-cases (get key p.entries)) [
        | inl e ↦ ground (arith, e, v.in_step.0 j)
        | inr (x, e) ↦ ground (
          arith,
          e,
          v.in_step.0 j,
          v.in_step.0 key,
          get-put j key (record x { hits = suc x.hits }) p.entries,
        )
      ]

  forget_one-IsLive :
      (k : CacheKey N) (p : WorkingSetPolicy N) (s : b.Store)
      → IsLive p
      → IsLive (forget_one b k p (b.capture k s)).1.0
  forget_one-IsLive k p s l = elim (forget_one_cases b t k p s) [
    | inl (r, e) ↦ rw e l
    | inr e ↦
        subst (λ r. IsLive r.1.0) (sym e)
          (IsLive-of_outcome b p (commit_trim p (forgotten b k)) _
            (transact-PolicyOutcome b p (commit_trim p (forgotten b k)) (k ∷ []) s
              (drop_binding b k) (capture_all b (k ∷ []) [] s))
            l (trim-IsLive p (forgotten b k) l))
  ]

  -- Every call keeps the state sound, also one that raises.
  pub step-IsSound : (st : State b) (c : Call b) → IsSound st → IsSound (step b st c)
  unfolding step admit_entry trim_to trim_planned
  step-IsSound (p, s) (admits key payload role nbytes old) v =
      let plan = plan_admission p key role nbytes old in
      record {
        live = admit-IsLive' b plan payload p s v.live (admit-IsLive p key role nbytes old v.live);
        in_step = admit-InStep b t plan payload p s v.in_step;
      }
  step-IsSound (p, s) (proposes key payload nbytes) v = proposes-IsSound p s key payload nbytes v
  step-IsSound (p, s) (hits key) v = hits-IsSound p s key v
  step-IsSound (p, s) (trims n_sequences n_bytes) v =
      let (plan, e, _, _) = trim_within_targets p v.live.well_formed n_sequences n_bytes in
      subst (λ x. IsSound (trim_planned b (p, s) x).1) (sym e)
        (record {
          live = trim-IsLive' b plan.evictions p s v.live;
          in_step = trim-InStep b t plan p s v.in_step;
        })
  step-IsSound st (forgets ks) v = record {
    live = forget_remote_keeps b t (λ x. IsLive x.0) forget_one-IsLive ks [] st v.live;
    in_step = forget_remote-InStep b t ks [] st v.in_step;
  }

  run-IsSound : (st : State b) (cs : List (Call b)) → IsSound st → IsSound (run b st cs)
  unfolding run
  run-IsSound st [] v = v
  run-IsSound st (c ∷ cs) v = run-IsSound (step b st c) cs (step-IsSound st c v)

  -- A new policy over a valid store that holds nothing.
  pub start-IsSound :
      (max_sequences max_bytes : ℤ) (pin_roles : List String) (reserve : Option ℤ) (s : b.Store)
      → t.Valid s
      → ((k : CacheKey N) → t.view s k ≡ none)
      → IsSound (init max_sequences max_bytes pin_roles reserve, s)
  start-IsSound max_sequences max_bytes pin_roles reserve s w empty = record {
    live = init-IsLive max_sequences max_bytes pin_roles reserve;
    in_step = (λ j. unfold init get in rw empty refl, w);
  }

  -- From a new policy and a transactional backend with a valid store that holds nothing, any sequence
  -- of admissions, stable candidates, hits, trims and `forget_remote` calls, raising or not, leads to a
  -- state within the limits whose policy is well formed and lists exactly the keys that the backend
  -- holds a binding for, in a store that is still valid.
  pub run_from_start :
      (max_sequences max_bytes : ℤ) (pin_roles : List String) (reserve : Option ℤ) (s : b.Store)
      (cs : List (Call b))
      → t.Valid s
      → ((k : CacheKey N) → t.view s k ≡ none)
      → IsSound (run b (init max_sequences max_bytes pin_roles reserve, s) cs)
  run_from_start max_sequences max_bytes pin_roles reserve s cs w empty =
      run-IsSound _ cs (start-IsSound max_sequences max_bytes pin_roles reserve s w empty)
