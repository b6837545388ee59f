-- ===== src/Cache/Policy/Probation.antt =====
-- What `plan_stable_candidate` of src/statebraid/cache/policy.py may return, and what it changes.
pub mod Store
use statebraid.Prelude.{
  ℕ, ◌≡◌, ◌⊎◌, refl, sym, ◌∙◌, Bool, true, false, ◌||◌, ◌&&◌, List, [], ◌∷◌, none, some, Hashable,
  ◌==◌, ==_refl, string_hashable, nat_hashable, length, ltb, leb, contains, arith, if◌then◌else◌,
  Bool-cases, Option-cases, inl, inr,
}
use statebraid.Prelude.Result.{ok}
use statebraid.Dict.{get}
use statebraid.Cache.Key.{CacheKey, key_hashable}
use statebraid.Cache.Policy.{
  WorkingSetPolicy, PolicySnapshot, EntryState, AdmissionPlan, PlanReason, stable_empty,
  stable_refresh, stable_cold_larger, oversized_or_disabled, stable_repeated_miss, n_sequences,
  keys_for_role,
}
use statebraid.Cache.Policy.Plan.{plan_admission, refuse}
use statebraid.Cache.Policy.Commit.{commit, commit_state, settle_candidate, insert_entry}
use statebraid.Cache.Policy.Candidate.{
  stable_plan, note_candidate, probation, challenge, challenge_first, plan_stable_candidate,
}
use statebraid.Cache.Policy.Invariant.{IsWellFormed, same-IsWellFormed}
use statebraid.Cache.Policy.Lookup.{contains-keys_for_role}
use statebraid.Cache.Policy.Lifecycle.{IsLive, admit-IsLive}
use statebraid.Cache.Policy.Probation.Store.{
  SameStore, SameStore-IsWellFormed, SameStore-IsLive, commit_refused, stable_plan-IsLive,
}

module _ {N : Type 0} ⦃h : Hashable N⦄ where
  module _ (p : WorkingSetPolicy N) (key : CacheKey N) (nbytes : ℕ) where
    -- What `plan_stable_candidate` may return: a refusal, or a stable admission under a new reason;
    -- either way with a policy whose store is the old one.
    pub record IsOutcome (r : WorkingSetPolicy N × AdmissionPlan N) : Type 0 where
      pub store : SameStore p r.0
      pub plan :
          (r.1.accepted ≡ false)
          ⊎ ((reason : PlanReason) × (r.1 ≡ stable_plan r.0 key nbytes reason))

    either-IsOutcome :
        (b : Bool) (x y : WorkingSetPolicy N × AdmissionPlan N)
        → IsOutcome x
        → IsOutcome y
        → IsOutcome (if b then x else y)
    either-IsOutcome true x y ox oy = ox
    either-IsOutcome false x y ox oy = oy

    SameStore-refl : SameStore p p
    SameStore-refl = record { config = refl; entries = refl; buckets = refl; nbytes = refl }

    planned-IsOutcome :
        (q : WorkingSetPolicy N) (reason : PlanReason)
        → SameStore p q
        → IsOutcome (q, stable_plan q key nbytes reason)
    planned-IsOutcome q reason s = record { store = s; plan = inr (reason, refl) }

    probation-IsOutcome :
        (q : WorkingSetPolicy N) → SameStore p q → IsOutcome (probation q key nbytes)
    unfolding probation
    probation-IsOutcome q s =
        either-IsOutcome (leb 2 q.state.stable_candidate_count) _ _
          (planned-IsOutcome q stable_repeated_miss s)
          (record {
            store = record {
              config = s.config;
              entries = s.entries;
              buckets = s.buckets;
              nbytes = s.nbytes;
            };
            plan = inl refl;
          })

    pub note_candidate-SameStore : (hits : ℕ) → SameStore p (note_candidate p key hits)
    unfolding note_candidate
    note_candidate-SameStore hits = record {
      config = ground arith;
      entries = ground arith;
      buckets = ground arith;
      nbytes = ground arith;
    }

    challenge-IsOutcome :
        (k : CacheKey N) (e : EntryState N) → IsOutcome (challenge p key nbytes k e)
    unfolding challenge
    challenge-IsOutcome k e =
        either-IsOutcome (k == key) _ _ (planned-IsOutcome p stable_refresh SameStore-refl) (
          either-IsOutcome (e.hits == 0 && ltb (length k.tokens) (length key.tokens)) _ _
            (planned-IsOutcome p stable_cold_larger SameStore-refl)
            (probation-IsOutcome (note_candidate p key e.hits) (note_candidate-SameStore e.hits)))

    pub first_stable_resident :
        IsWellFormed p.config p.state
        → (k : CacheKey N) (ks : List (CacheKey N)) → keys_for_role p "stable" ≡ k ∷ ks
        → (e : EntryState N) × (get k p.entries ≡ some e)
    unfolding contains
    first_stable_resident w k ks first =
        let listed : contains k (keys_for_role p "stable") ≡ true =
          rw first (ground (arith, ==_refl k)) in
        elim (Option-cases (get k p.entries)) [
          | inl missing ↦
              absurd (ground (arith, missing, listed, contains-keys_for_role p w "stable" k))
          | inr (e, found) ↦ (e, found)
        ]

    challenge_first-IsOutcome :
        IsWellFormed p.config p.state
        → (ks : List (CacheKey N)) → keys_for_role p "stable" ≡ ks
        → (r : WorkingSetPolicy N × AdmissionPlan N) × (challenge_first p key nbytes ks ≡ ok r)
          × IsOutcome r
    unfolding challenge_first
    challenge_first-IsOutcome w [] first = (
      (p, stable_plan p key nbytes stable_empty),
      refl,
      planned-IsOutcome p stable_empty SameStore-refl,
    )
    challenge_first-IsOutcome w (k ∷ ks) first =
        let (e, found) = first_stable_resident w k ks first in
        (challenge p key nbytes k e, ground (arith, found), challenge-IsOutcome k e)

    -- On a well-formed policy `plan_stable_candidate` does not raise: it refuses or plans a stable
    -- admission, and it changes nothing but the candidate's fields.
    pub plan_stable_candidate_returns :
        IsWellFormed p.config p.state
        → (r : WorkingSetPolicy N × AdmissionPlan N) × (plan_stable_candidate p key nbytes ≡ ok r)
          × IsOutcome r
    unfolding plan_stable_candidate
    plan_stable_candidate_returns w =
        let (r, e, o) = challenge_first-IsOutcome w (keys_for_role p "stable") refl in
        elim (Bool-cases (leb p.max_sequences 0 || (leb p.max_bytes 0 || ltb p.max_bytes nbytes))) [
          | inl refused ↦ (
            (p, refuse key "stable" nbytes oversized_or_disabled),
            ground (arith, refused),
            record { store = SameStore-refl; plan = inl refl },
          )
          | inr open_ ↦ (r, ground (arith, open_, e), o)
        ]

  pub outcome-IsLive :
      (p : WorkingSetPolicy N) (key : CacheKey N) (nbytes : ℕ)
      (r : WorkingSetPolicy N × AdmissionPlan N)
      → IsLive p
      → IsOutcome p key nbytes r
      → IsLive (commit r.0 r.1)
  outcome-IsLive p key nbytes r l o =
      let l' = SameStore-IsLive p r.0 o.store l in
      elim o.plan [
        | inl e ↦ rw (commit_refused r.0 r.1 e) l'
        | inr (reason, e) ↦ rw e (stable_plan-IsLive r.0 key nbytes reason l')
      ]

  -- In a well-formed policy within its limits, `plan_stable_candidate` returns, and committing what it
  -- returns, an admission or a refusal, leaves a well-formed policy within its limits.
  pub stable_candidate-IsLive :
      (p : WorkingSetPolicy N) (key : CacheKey N) (nbytes : ℕ)
      → IsLive p
      → (r : WorkingSetPolicy N × AdmissionPlan N) × (plan_stable_candidate p key nbytes ≡ ok r)
        × IsLive (commit r.0 r.1)
  stable_candidate-IsLive p key nbytes l =
      let (r, e, o) = plan_stable_candidate_returns p key nbytes l.well_formed in
      (r, e, outcome-IsLive p key nbytes r l o)
