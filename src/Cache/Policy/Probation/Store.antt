-- ===== src/Cache/Policy/Probation/Store.antt =====
-- Policies with the same store, and the reason of a plan, which the store does not depend on.
use statebraid.Prelude.{
  ℕ, ◌≡◌, refl, sym, ◌∙◌, Bool, true, false, none, Hashable, string_hashable, nat_hashable, arith,
  if◌then◌else◌,
}
use statebraid.Cache.Key.{CacheKey, key_hashable}
use statebraid.Cache.Policy.{
  WorkingSetPolicy, PolicySnapshot, AdmissionPlan, PlanReason, n_sequences,
}
use statebraid.Cache.Policy.Plan.{plan_admission}
use statebraid.Cache.Policy.Commit.{commit, commit_state, settle_candidate, insert_entry}
use statebraid.Cache.Policy.Candidate.{stable_plan}
use statebraid.Cache.Policy.Invariant.{IsWellFormed, same-IsWellFormed}
use statebraid.Cache.Policy.Lifecycle.{IsLive, admit-IsLive}

module _ {N : Type 0} where
  -- The same entries, buckets and bytes under the same limits.
  pub record SameStore (p q : WorkingSetPolicy N) : Type 0 where
    pub config : q.config ≡ p.config
    pub entries : q.entries ≡ p.entries
    pub buckets : q.buckets ≡ p.buckets
    pub nbytes : q.nbytes ≡ p.nbytes

module _ {N : Type 0} ⦃h : Hashable N⦄ where
  pub SameStore-IsWellFormed :
      (p q : WorkingSetPolicy N)
      → SameStore p q
      → IsWellFormed p.config p.state
      → IsWellFormed q.config q.state
  SameStore-IsWellFormed p q s w =
      rw s.config (same-IsWellFormed p.config p.state q.state s.entries s.buckets s.nbytes w)

  pub SameStore-IsLive : (p q : WorkingSetPolicy N) → SameStore p q → IsLive p → IsLive q
  unfolding n_sequences
  SameStore-IsLive p q s l = record {
    well_formed = SameStore-IsWellFormed p q s l.well_formed;
    few = ground (arith, l.few, s.entries, s.config);
    small = ground (arith, l.small, s.nbytes, s.config);
  }

  entries_settle :
      (plan : AdmissionPlan N) (s : PolicySnapshot N)
      → (settle_candidate plan s).entries ≡ s.entries
  unfolding settle_candidate
  entries_settle plan s = ground arith

  buckets_settle :
      (plan : AdmissionPlan N) (s : PolicySnapshot N)
      → (settle_candidate plan s).buckets ≡ s.buckets
  unfolding settle_candidate
  buckets_settle plan s = ground arith

  nbytes_settle :
      (plan : AdmissionPlan N) (s : PolicySnapshot N) → (settle_candidate plan s).nbytes ≡ s.nbytes
  unfolding settle_candidate
  nbytes_settle plan s = ground arith

  if_same :
      {A : Type 0} (f : PolicySnapshot N → A) (b : Bool) (x y s : PolicySnapshot N)
      → f x ≡ f y
      → f (if b then x else s) ≡ f (if b then y else s)
  if_same f true x y s e = e
  if_same f false x y s e = refl

  -- The reason of a plan decides only what becomes of the candidate.
  reason_field :
      {A : Type 0} (f : PolicySnapshot N → A)
      → ((plan : AdmissionPlan N) (s : PolicySnapshot N) → f (settle_candidate plan s) ≡ f s)
      → (p : WorkingSetPolicy N) (plan : AdmissionPlan N) (reason : PlanReason)
      → f (commit p (record plan { reason = reason })).state ≡ f (commit p plan).state
  unfolding commit commit_state insert_entry
  reason_field f settles p plan reason =
      if_same f plan.accepted _ _ p.state
        (settles (record plan { reason = reason }) _ ∙ sym (settles plan _))

  pub reason-SameStore :
      (p : WorkingSetPolicy N) (plan : AdmissionPlan N) (reason : PlanReason)
      → SameStore (commit p plan) (commit p (record plan { reason = reason }))
  unfolding commit
  reason-SameStore p plan reason = record {
    config = refl;
    entries = reason_field (λ s. s.entries) entries_settle p plan reason;
    buckets = reason_field (λ s. s.buckets) buckets_settle p plan reason;
    nbytes = reason_field (λ s. s.nbytes) nbytes_settle p plan reason;
  }

  pub commit_refused :
      (p : WorkingSetPolicy N) (plan : AdmissionPlan N) → plan.accepted ≡ false → commit p plan ≡ p
  unfolding commit commit_state
  commit_refused p plan e = ground (arith, e)

  pub stable_plan-IsLive :
      (q : WorkingSetPolicy N) (key : CacheKey N) (nbytes : ℕ) (reason : PlanReason)
      → IsLive q
      → IsLive (commit q (stable_plan q key nbytes reason))
  unfolding stable_plan
  stable_plan-IsLive q key nbytes reason l =
      SameStore-IsLive _ _ (reason-SameStore q (plan_admission q key "stable" nbytes none) reason)
        (admit-IsLive q key "stable" nbytes none l)
