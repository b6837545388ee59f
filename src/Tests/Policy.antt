-- ===== src/Tests/Policy.antt =====
-- The theorems on the policy at concrete inputs.
use statebraid.Prelude.{
  ℕ, ◌≡◌, ◌≤◌, ◌&&◌, ◌||◌, ltb, leb, refl, true, false, [], ◌∷◌, none, some, String,
  string_hashable, nat_hashable, ◌==◌, if◌then◌else◌, contains, suc, arith,
}
use statebraid.Prelude.Result.{ok}
use statebraid.Dict.{get}
use statebraid.Cache.Key.{CacheKey, key_hashable, is_extended_by}
use statebraid.Cache.Policy.{
  WorkingSetPolicy, AdmissionPlan, EntryState, n_sequences, keys_for_role, stable_repeated_miss,
  stable_probation,
}
use statebraid.Cache.Policy.Victims.{working_set_fits}
use statebraid.Cache.Policy.Plan.{plan_admission, evicted_keys}
use statebraid.Cache.Policy.Commit.{commit, commit_state, new_entry}
use statebraid.Cache.Policy.Candidate.{is_candidate, plan_stable_candidate}
use statebraid.Cache.Policy.Invariant.{IsWellFormed, has_role, commit_state-IsWellFormed}
use statebraid.Cache.Policy.Admission.{admission_within_limits, plan_admission_accepts, get-commit}
use statebraid.Cache.Policy.Evictions.{AreSound, plan_admission-AreSound}
use statebraid.Cache.Policy.Lineage.{one_stable_entry, predecessor_replaced}
use statebraid.Cache.Policy.Lifecycle.{IsLive, admit-IsLive}
use statebraid.Cache.Policy.Persistence.{Fits, proposed_twice}
use statebraid.Cache.Policy.Protection.{replaced, working_set, working_set_kept}
use statebraid.Cache.Policy.Promotion.{IsContested, promoted, promotion_exact}
use statebraid.Tests.Fixtures.{
  k1, k12, k7, k8, admitted, full_policy, full-IsLive, hit_policy, hit-IsLive,
}

-- Makes the active entry leave, which ranks below the stable one.
abbrev user_plan : AdmissionPlan ℕ
user_plan = plan_admission full_policy k8 "user" 150 none

user_plan_accepted : user_plan.accepted ≡ true
unfolding admitted
user_plan_accepted = refl

user_plan_evicts : evicted_keys user_plan.evictions ≡ k1 ∷ []
unfolding admitted
user_plan_evicts = refl

admission_within_limits_example :
    (n_sequences (commit full_policy user_plan) ≤ full_policy.max_sequences)
    × ((commit full_policy user_plan).nbytes ≤ full_policy.max_bytes)
admission_within_limits_example =
    admission_within_limits full_policy k8 "user" 150 none full-IsLive.well_formed
      user_plan_accepted

plan_admission_accepts_example : user_plan.accepted ≡ (
    ltb 0 full_policy.max_sequences
    && (ltb 0 full_policy.max_bytes && leb 150 full_policy.max_bytes))
plan_admission_accepts_example =
    plan_admission_accepts full_policy k8 "user" 150 none full-IsLive.well_formed

get-commit_example : get k8 (commit full_policy user_plan).entries ≡ (
    if user_plan.key == k8
    then some (new_entry full_policy.config user_plan)
    else if contains k8 (evicted_keys user_plan.evictions)
    then none
    else get k8 full_policy.entries)
get-commit_example = get-commit full_policy user_plan k8 user_plan_accepted

plan_admission-AreSound_example : AreSound full_policy k8 user_plan.evictions
plan_admission-AreSound_example =
    plan_admission-AreSound full_policy full-IsLive.well_formed k8 "user" 150 none

stable_accepted : (plan_admission full_policy k8 "stable" 120 none).accepted ≡ true
unfolding admitted
stable_accepted = refl

one_stable_entry_example :
    has_role "stable"
      (get k7 (commit full_policy (plan_admission full_policy k8 "stable" 120 none)).entries)
    ≡ (k8 == k7)
one_stable_entry_example =
    one_stable_entry full_policy full-IsLive.well_formed k8 120 none stable_accepted k7

abbrev active_entry : EntryState ℕ
active_entry = record { key = k1; role = "active"; nbytes = 100; pinned = false; hits = 0 }

active_resident : get k1 full_policy.entries ≡ some active_entry
unfolding admitted
active_resident = refl

extension_accepted : (plan_admission full_policy k12 "active" 120 (some k1)).accepted ≡ true
unfolding admitted
extension_accepted = refl

k12_extends : is_extended_by k1 k12 ≡ true
unfolding admitted
k12_extends = refl

predecessor_replaced_example :
    get k1 (commit full_policy (plan_admission full_policy k12 "active" 120 (some k1))).entries
    ≡ none
predecessor_replaced_example =
    predecessor_replaced full_policy full-IsLive.well_formed k12 120 k1 active_entry active_resident
      refl k12_extends extension_accepted

abbrev stable_entry : EntryState ℕ
stable_entry = record { key = k7; role = "stable"; nbytes = 200; pinned = false; hits = 1 }

contested : IsContested hit_policy k8 k7 120 stable_entry
unfolding admitted
contested = record {
  rest = [];
  first = refl;
  found = refl;
  other = refl;
  in_use = refl;
  sequences = omega arith;
  bytes = omega arith;
  fits = omega arith;
}

promotion_exact_example :
    (r : WorkingSetPolicy ℕ × AdmissionPlan ℕ) × (plan_stable_candidate hit_policy k8 120 ≡ ok r)
    × (r.1.accepted ≡ promoted hit_policy k8 k7 120 stable_entry)
    × (r.1.reason ≡ (
        if promoted hit_policy k8 k7 120 stable_entry
        then stable_repeated_miss
        else stable_probation))
    × (r.0.state.stable_candidate_key ≡ some k8)
    × (r.0.state.stable_candidate_count ≡ (
        if promoted hit_policy k8 k7 120 stable_entry
        then suc hit_policy.state.stable_candidate_count
        else 1))
    × (r.0.state.stable_candidate_base_hits ≡ (
        if is_candidate hit_policy k8
          && leb stable_entry.hits hit_policy.state.stable_candidate_base_hits
        then hit_policy.state.stable_candidate_base_hits
        else stable_entry.hits))
promotion_exact_example =
    promotion_exact hit_policy k8 k7 120 stable_entry hit-IsLive.well_formed contested

k8-Fits : Fits k8 120 hit_policy
unfolding admitted
k8-Fits = record { sequences = omega arith; bytes = omega arith; fits = omega arith }

-- The first proposal is refused: the stable entry is in use.
proposed_twice_example :
    (r r' : WorkingSetPolicy ℕ × AdmissionPlan ℕ) × (plan_stable_candidate hit_policy k8 120 ≡ ok r)
    × (plan_stable_candidate (commit r.0 r.1) k8 120 ≡ ok r')
    × (r'.1.accepted ≡ true)
    × ((j : CacheKey ℕ) → has_role "stable" (get j (commit r'.0 r'.1).entries) ≡ (k8 == j))
proposed_twice_example = proposed_twice k8 120 hit_policy hit-IsLive k8-Fits

commit_state-IsWellFormed_example :
    IsWellFormed full_policy.config (commit_state full_policy.config user_plan full_policy.state)
commit_state-IsWellFormed_example =
    commit_state-IsWellFormed full_policy.config user_plan full_policy.state full-IsLive.well_formed

-- A user entry of 80 bytes beside the working set, which makes room for an active one.
abbrev crowded_policy : WorkingSetPolicy ℕ
crowded_policy = commit full_policy (plan_admission full_policy k8 "user" 80 none)

crowded-IsLive : IsLive crowded_policy
crowded-IsLive = admit-IsLive full_policy k8 "user" 80 none full-IsLive

abbrev crowding_plan : AdmissionPlan ℕ
crowding_plan = plan_admission crowded_policy k12 "active" 100 none

crowding_plan_evicts : evicted_keys crowding_plan.evictions ≡ k8 ∷ []
unfolding admitted
crowding_plan_evicts = refl

working_set_fitting :
    working_set_fits crowded_policy
      (working_set crowded_policy k12 "active" none)
      k12
      100
      (replaced crowded_policy k12 "active" none)
    ≡ true
unfolding admitted
working_set_fitting = refl

active_role : (◌==◌ {A = String} "active" "stable" || ◌==◌ {A = String} "active" "active") ≡ true
unfolding admitted
active_role = refl

k1_working :
    (contains k1 (keys_for_role crowded_policy "stable")
      || contains k1 (keys_for_role crowded_policy "active"))
    ≡ true
unfolding admitted
k1_working = refl

nothing_replaced : contains k1 (replaced crowded_policy k12 "active" none) ≡ false
unfolding admitted
nothing_replaced = refl

working_set_kept_example : contains k1 (evicted_keys crowding_plan.evictions) ≡ false
working_set_kept_example =
    working_set_kept crowded_policy crowded-IsLive.well_formed k12 "active" 100 none active_role
      working_set_fitting k1 k1_working nothing_replaced
