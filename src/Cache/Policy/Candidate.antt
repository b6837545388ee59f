-- ===== src/Cache/Policy/Candidate.antt =====
-- src/statebraid/cache/policy.py: `plan_stable_candidate`.
use statebraid.Prelude.{
  ℕ, suc, Bool, false, ◌||◌, ◌&&◌, List, [], ◌∷◌, none, some, Hashable, ◌==◌, string_hashable,
  nat_hashable, ltb, leb, length, if◌then◌else◌,
}
use statebraid.Prelude.Result.{Result, ok, raise, key_error}
use statebraid.Dict.{get}
use statebraid.Cache.Key.{CacheKey, key_hashable}
use statebraid.Cache.Policy.{
  WorkingSetPolicy, EntryState, AdmissionPlan, PlanReason, oversized_or_disabled, stable_empty,
  stable_refresh, stable_cold_larger, stable_repeated_miss, stable_probation, keys_for_role,
}
use statebraid.Cache.Policy.Plan.{plan_admission, refuse}

module _ {N : Type 0} ⦃h : Hashable N⦄ where
  -- `replace(self.plan_admission(key, role="stable", …), reason=…)`.
  unfoldable pub stable_plan : WorkingSetPolicy N → CacheKey N → ℕ → PlanReason → AdmissionPlan N
  stable_plan p key nbytes reason = record (plan_admission p key "stable" nbytes none) {
    reason = reason;
  }

  unfoldable pub is_candidate : WorkingSetPolicy N → CacheKey N → Bool
  is_candidate p key = elim p.state.stable_candidate_key [ none ↦ false | some k ↦ k == key ]

  -- How a miss of the current stable entry is counted for the candidate.
  unfoldable pub note_candidate : WorkingSetPolicy N → CacheKey N → ℕ → WorkingSetPolicy N
  unfolding is_candidate
  note_candidate p key current_hits =
      if is_candidate p key
      then (if ltb p.state.stable_candidate_base_hits current_hits
          then record p {
            state = record p.state {
              stable_candidate_count = 1;
              stable_candidate_base_hits = current_hits;
            };
          }
          else record p {
            state = record p.state { stable_candidate_count = suc p.state.stable_candidate_count };
          })
      else record p {
        state = record p.state {
          stable_candidate_key = some key;
          stable_candidate_count = 1;
          stable_candidate_base_hits = current_hits;
        };
      }

  unfoldable pub probation :
      WorkingSetPolicy N → CacheKey N → ℕ → WorkingSetPolicy N × AdmissionPlan N
  probation p key nbytes =
      if leb 2 p.state.stable_candidate_count
      then (p, stable_plan p key nbytes stable_repeated_miss)
      else (
        record p {
          state = record p.state {
            stable_candidate_rejections = suc p.state.stable_candidate_rejections;
          };
        },
        refuse key "stable" nbytes stable_probation,
      )

  -- Against the entry of the current stable key.
  unfoldable pub challenge :
      WorkingSetPolicy N
      → CacheKey N
      → ℕ
      → CacheKey N
      → EntryState N
      → WorkingSetPolicy N × AdmissionPlan N
  unfolding probation
  challenge p key nbytes current_key current =
      if current_key == key
      then (p, stable_plan p key nbytes stable_refresh)
      else if current.hits == 0 && ltb (length current_key.tokens) (length key.tokens)
      then (p, stable_plan p key nbytes stable_cold_larger)
      else probation (note_candidate p key current.hits) key nbytes

  unfoldable pub challenge_first :
      WorkingSetPolicy N
      → CacheKey N
      → ℕ
      → List (CacheKey N)
      → Result (WorkingSetPolicy N × AdmissionPlan N)
  challenge_first p key nbytes [] = ok (p, stable_plan p key nbytes stable_empty)
  challenge_first p key nbytes (current_key ∷ _) = elim (get current_key p.entries) [
    | none ↦ raise key_error
    | some current ↦ ok (challenge p key nbytes current_key current)
  ]

  unfoldable pub plan_stable_candidate :
      WorkingSetPolicy N → CacheKey N → ℕ → Result (WorkingSetPolicy N × AdmissionPlan N)
  unfolding challenge_first
  plan_stable_candidate p key nbytes =
      if leb p.max_sequences 0 || (leb p.max_bytes 0 || ltb p.max_bytes nbytes)
      then ok (p, refuse key "stable" nbytes oversized_or_disabled)
      else challenge_first p key nbytes (keys_for_role p "stable")
