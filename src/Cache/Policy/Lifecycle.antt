-- ===== src/Cache/Policy/Lifecycle.antt =====
-- The life of a policy: what holds from its constructor on, whatever is admitted, trimmed, hit or
-- restored.
use statebraid.Prelude.{
  ℕ, suc, ◌≤◌, refl, ℤ, List, Option, Hashable, String, string_hashable, arith, Bool-cases,
  Option-cases, inl, inr,
}
use statebraid.Dict.{get}
use statebraid.Dict.Laws.{get-put, put-IsDict, total-put_same, length-put_same}
use statebraid.Cache.Key.{CacheKey, key_hashable}
use statebraid.Cache.Policy.{WorkingSetPolicy, EntryState, TrimPlan, n_sequences, init, observe_hit}
use statebraid.Cache.Policy.Plan.{plan_admission}
use statebraid.Cache.Policy.Commit.{commit, commit_state, commit_trim}
use statebraid.Cache.Policy.Invariant.{IsWellFormed, commit_state-IsWellFormed, size}
use statebraid.Cache.Policy.Admission.{admission_within_limits}
use statebraid.Cache.Policy.Trimming.{commit_trim-IsWellFormed, commit_trim-le}

module _ {N : Type 0} ⦃h : Hashable N⦄ where
  -- What every reachable policy satisfies.
  pub record IsLive (p : WorkingSetPolicy N) : Type 0 where
    pub well_formed : IsWellFormed p.config p.state
    pub few : n_sequences p ≤ p.max_sequences
    pub small : p.nbytes ≤ p.max_bytes

  pub init-IsLive :
      (max_sequences max_bytes : ℤ) (pin_roles : List String) (reserve : Option ℤ)
      → IsLive (init max_sequences max_bytes pin_roles reserve)
  unfolding init n_sequences get
  init-IsLive max_sequences max_bytes pin_roles reserve = record {
    well_formed = record {
      distinct = tt;
      indexed = tt;
      bucketed = λ role k. refl;
      accounted = refl;
      stored = λ k. tt;
    };
    few = omega arith;
    small = omega arith;
  }

  pub observe_hit-IsLive :
      (p : WorkingSetPolicy N) (k : CacheKey N) → IsLive p → IsLive (observe_hit p k).0
  unfolding observe_hit n_sequences
  observe_hit-IsLive p k l = elim (Option-cases (get k p.entries)) [
    | inl e ↦ rw (e, observe_hit) l
    | inr (x, e) ↦
        let x' : EntryState N = record x { hits = suc x.hits } in
        rw (e, observe_hit)
          (record {
            well_formed = record {
              distinct = put-IsDict k x' p.entries l.well_formed.distinct;
              indexed = l.well_formed.indexed;
              bucketed = λ role j.
                  ground (arith, e, get-put j k x' p.entries, l.well_formed.bucketed role j);
              accounted =
                  ground
                    (arith, e, l.well_formed.accounted, total-put_same size k x x' p.entries e);
              stored = λ j. ground (
                arith,
                e,
                get-put j k x' p.entries,
                l.well_formed.stored j,
                l.well_formed.stored k,
              );
            };
            few = ground (arith, e, l.few, length-put_same k x x' p.entries e);
            small = l.small;
          })
  ]

  pub admit-IsLive :
      (p : WorkingSetPolicy N) (key : CacheKey N) (role : String) (nbytes : ℕ)
      (predecessor : Option (CacheKey N))
      → IsLive p
      → IsLive (commit p (plan_admission p key role nbytes predecessor))
  unfolding commit commit_state n_sequences
  admit-IsLive p key role nbytes predecessor l =
      let plan = plan_admission p key role nbytes predecessor in
      elim (Bool-cases plan.accepted) [
        | inr refused ↦ rw (refused, commit, commit_state) l
        | inl accepted ↦
            let limits =
              admission_within_limits p key role nbytes predecessor l.well_formed accepted in
            record {
              well_formed = commit_state-IsWellFormed p.config plan p.state l.well_formed;
              few = limits.0;
              small = limits.1;
            }
      ]

  pub trim-IsLive :
      (p : WorkingSetPolicy N) (plan : TrimPlan N) → IsLive p → IsLive (commit_trim p plan)
  unfolding commit_trim
  trim-IsLive p plan l =
      let smaller = commit_trim-le p plan l.well_formed in
      record {
        well_formed = commit_trim-IsWellFormed p plan l.well_formed;
        few = omega (arith, smaller);
        small = omega (arith, smaller);
      }
