-- ===== src/Cache/Policy/Commit.antt =====
-- src/statebraid/cache/policy.py: `_remove_entry`, `_bucket`, `commit` and `commit_trim`.
use mathlib.Core.List.{foldl}
use statebraid.Prelude.{
  suc, ◌+◌, ◌-◌, Bool, true, false, ◌&&◌, List, [], ◌∷◌, none, some, String, Hashable, ◌==◌,
  string_hashable, contains, add, discard, if◌then◌else◌,
}
use statebraid.Dict.{Dict, get, put, remove}
use statebraid.Cache.Key.{CacheKey, key_hashable}
use statebraid.Cache.Policy.{
  WorkingSetPolicy, Config, PolicySnapshot, EntryState, Eviction, EvictionReason, active_successor,
  pin_quota, capacity, AdmissionPlan, TrimPlan, PlanReason, stable_cold_larger,
  stable_repeated_miss, starts_with_stable,
}

-- `plan.reason in {"stable_cold_larger", "stable_repeated_miss"}`.
unfoldable pub is_promotion : PlanReason → Bool
is_promotion stable_cold_larger = true
is_promotion stable_repeated_miss = true
is_promotion _ = false

module _ {N : Type 0} where
  unfoldable pub reset_stable_candidate : PolicySnapshot N → PolicySnapshot N
  reset_stable_candidate s = record s {
    stable_candidate_key = none;
    stable_candidate_count = 0;
    stable_candidate_base_hits = 0;
  }

  -- The counters of `commit`, for an entry that was removed.
  unfoldable pub count_eviction :
      EvictionReason → EntryState N → PolicySnapshot N → PolicySnapshot N
  count_eviction pin_quota removed s = record s { pin_quota_evictions = suc s.pin_quota_evictions }
  count_eviction active_successor removed s = record s {
    active_successor_evictions = suc s.active_successor_evictions;
  }
  count_eviction capacity removed s =
      if removed.pinned then record s { pin_evictions = suc s.pin_evictions } else s
  count_eviction _ removed s = s

module _ {N : Type 0} ⦃h : Hashable N⦄ where
  -- `bucket.pop(key, None)` in the bucket of a role, if there is one.
  unfoldable pub unlist :
      CacheKey N → String → Dict String (List (CacheKey N)) → Dict String (List (CacheKey N))
  unlist key role buckets = elim (get role buckets) [
    | none ↦ buckets
    | some bucket ↦ put role (discard key bucket) buckets
  ]

  -- `self._bucket(role)[key] = None`, which makes the bucket where there is none.
  unfoldable pub enlist :
      CacheKey N → String → Dict String (List (CacheKey N)) → Dict String (List (CacheKey N))
  enlist key role buckets = elim (get role buckets) [
    | none ↦ put role (key ∷ []) buckets
    | some bucket ↦ put role (add key bucket) buckets
  ]

  -- `_remove_entry`: the state after it; the entry that it returns is `get key s.entries`.
  unfoldable pub remove_entry : CacheKey N → PolicySnapshot N → PolicySnapshot N
  unfolding unlist
  remove_entry key s = elim (get key s.entries) [
    | none ↦ s
    | some e ↦ record s {
      entries = remove key s.entries;
      buckets = unlist key e.role s.buckets;
      nbytes = s.nbytes - e.nbytes;
    }
  ]

  -- One round of the loop of `commit`.
  unfoldable pub commit_eviction : PolicySnapshot N → Eviction N → PolicySnapshot N
  unfolding remove_entry count_eviction
  commit_eviction s eviction = elim (get eviction.key s.entries) [
    | none ↦ remove_entry eviction.key s
    | some removed ↦ count_eviction eviction.reason removed (remove_entry eviction.key s)
  ]

  abbrev pub new_entry : Config → AdmissionPlan N → EntryState N
  new_entry config plan = record {
    key = plan.key;
    role = plan.role;
    nbytes = plan.nbytes;
    pinned = contains plan.role config.pin_roles;
    hits = 0;
  }

  -- The entry of the plan, after the old one under its key is gone.
  unfoldable pub insert_entry : Config → AdmissionPlan N → PolicySnapshot N → PolicySnapshot N
  unfolding enlist
  insert_entry config plan s = record s {
    entries = put plan.key (new_entry config plan) s.entries;
    buckets = enlist plan.key plan.role s.buckets;
    nbytes = s.nbytes + plan.nbytes;
  }

  -- The end of `commit`: the stable candidate.
  unfoldable pub settle_candidate : AdmissionPlan N → PolicySnapshot N → PolicySnapshot N
  unfolding reset_stable_candidate is_promotion starts_with_stable
  settle_candidate plan s =
      if plan.role == "stable" && starts_with_stable plan.reason
      then reset_stable_candidate (
          if is_promotion plan.reason
          then record s { stable_candidate_promotions = suc s.stable_candidate_promotions }
          else s)
      else s

  unfoldable pub commit_state : Config → AdmissionPlan N → PolicySnapshot N → PolicySnapshot N
  commit_state config plan s =
      if plan.accepted
      then settle_candidate plan (
          insert_entry config plan (remove_entry plan.key (foldl commit_eviction s plan.evictions)))
      else s

  unfoldable pub commit : WorkingSetPolicy N → AdmissionPlan N → WorkingSetPolicy N
  unfolding commit_state
  commit p plan = record p { state = commit_state p.config plan p.state }

  unfoldable pub commit_trim_eviction : PolicySnapshot N → Eviction N → PolicySnapshot N
  unfolding remove_entry
  commit_trim_eviction s eviction = elim (get eviction.key s.entries) [
    | none ↦ remove_entry eviction.key s
    | some removed ↦
        let s' = remove_entry eviction.key s in
        if removed.pinned then record s' { pin_evictions = suc s'.pin_evictions } else s'
  ]

  unfoldable pub commit_trim : WorkingSetPolicy N → TrimPlan N → WorkingSetPolicy N
  commit_trim p plan = record p { state = foldl commit_trim_eviction p.state plan.evictions }
