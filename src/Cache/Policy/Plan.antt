-- ===== src/Cache/Policy/Plan.antt =====
-- src/statebraid/cache/policy.py: `plan_admission`.
use mathlib.Core.List.{foldl}
use statebraid.Prelude.{
  arith, ℕ, zero, suc, ◌≤◌, ◌<◌, Bool-cases, inl, inr, ◌-◌, Bool, true, false, ◌&&◌, ◌||◌, not,
  List, [], ◌∷◌, ◌++◌, map, Option, none, some, String, Hashable, ◌==◌, string_hashable, ltb, leb,
  length, contains, add, select, if◌then◌else◌,
}
use statebraid.Dict.{get, total}
use statebraid.Cache.Key.{CacheKey, key_hashable, is_extended_by}
use statebraid.Cache.Policy.{
  WorkingSetPolicy, EntryState, Eviction, EvictionReason, stable_rotate, active_successor,
  pin_quota, capacity, AdmissionPlan, PlanReason, admit, zero_capacity, oversized, cannot_fit,
  out_of_fuel, keys_for_role, n_sequences,
}
use statebraid.Cache.Policy.Victims.{
  ordered_keys, next_victim, oldest_pin, working_keys, projected_over_limit, working_set_fits,
}

-- `sum(entry.pinned for …)` counts `True` as 1.
unfoldable pub pin_weight : {N : Type 0} → EntryState N → ℕ
pin_weight e = if e.pinned then 1 else 0

-- The set `evicted` that stands beside the list `evictions`.
abbrev pub evicted_keys : {N : Type 0} → List (Eviction N) → List (CacheKey N)
evicted_keys = map (λ e. e.key)

module _ {N : Type 0} ⦃h : Hashable N⦄ where
  -- The closure `add_evict`, on the evictions so far.
  unfoldable pub add_evict :
      CacheKey N → List (Eviction N) → Option (CacheKey N) → EvictionReason → List (Eviction N)
  add_evict key evictions none reason = evictions
  add_evict key evictions (some candidate) reason =
      if not (candidate == key) && not (contains candidate (evicted_keys evictions))
      then evictions ++ record { key = candidate; reason = reason } ∷ []
      else evictions

  unfoldable pub rotate_stable :
      WorkingSetPolicy N → CacheKey N → String → List (Eviction N) → List (Eviction N)
  rotate_stable p key role evictions =
      if role == "stable"
      then foldl (λ d k. add_evict key d (some k) stable_rotate) evictions
          (keys_for_role p "stable")
      else evictions

  unfoldable pub replace_active :
      WorkingSetPolicy N
      → CacheKey N
      → String
      → Option (CacheKey N)
      → List (Eviction N)
      → List (Eviction N)
  replace_active p key role none evictions = evictions
  replace_active p key role (some predecessor) evictions =
      if role == "active"
      then (elim (get predecessor p.entries) [
        | none ↦ evictions
        | some e ↦
            if e.role == "active" && is_extended_by predecessor key
            then add_evict key evictions (some predecessor) active_successor
            else evictions
      ])
      else evictions

  unfoldable pub apply_pin_quota :
      WorkingSetPolicy N → CacheKey N → String → List (Eviction N) → List (Eviction N)
  apply_pin_quota p key role evictions =
      let pinned = contains role p.pin_roles in
      let existing = get key p.entries in
      let existing_pinned : Bool = elim existing [ none ↦ false | some e ↦ e.pinned ] in
      let is_new : Bool = elim existing [ none ↦ true | some _ ↦ false ] in
      let pin_count = total pin_weight p.entries in
      let unpinned_count = n_sequences p - pin_count in
      let oldest = add_evict key evictions (oldest_pin p (evicted_keys evictions)) pin_quota in
      if pinned && (not existing_pinned && leb p.pin_limit pin_count)
      then oldest
      else if not pinned
          && (is_new
              && (leb p.max_sequences (n_sequences p)
                  && (ltb unpinned_count p.transient_reserve && ltb 0 pin_count)))
      then oldest
      else evictions

  -- `self._working_keys() - evicted`, with the key itself for a stable or active entry, and nothing
  -- when that does not fit.
  unfoldable pub protected_keys :
      WorkingSetPolicy N → CacheKey N → String → ℕ → List (CacheKey N) → List (CacheKey N)
  protected_keys p key role nbytes evicted =
      let remaining = select (λ k. not (contains k evicted)) (working_keys p) in
      let protected =
        if role == "stable" || role == "active" then add key remaining else remaining in
      if working_set_fits p protected key nbytes evicted then protected else []

  -- The victim of one round: one that is not protected if there is any.
  unfoldable pub capacity_victim :
      WorkingSetPolicy N → CacheKey N → List (CacheKey N) → List (CacheKey N) → Option (CacheKey N)
  capacity_victim p key protected evicted =
      elim (next_victim p (evicted ++ (protected ++ key ∷ []))) [
        | some victim ↦ some victim
        | none ↦ next_victim p (evicted ++ key ∷ [])
      ]

  -- The `while` loop, on fuel.
  unfoldable pub make_room :
      ℕ
      → WorkingSetPolicy N
      → CacheKey N
      → String
      → ℕ
      → List (CacheKey N)
      → List (Eviction N)
      → AdmissionPlan N
  make_room zero p key role nbytes protected evictions = record {
    accepted = false;
    key = key;
    role = role;
    nbytes = nbytes;
    evictions = evictions;
    reason = out_of_fuel;
  }
  make_room (suc fuel) p key role nbytes protected evictions =
      elim (projected_over_limit p key nbytes (evicted_keys evictions)) [
        | false ↦ record {
          accepted = true;
          key = key;
          role = role;
          nbytes = nbytes;
          evictions = evictions;
          reason = admit;
        }
        | true ↦ elim (capacity_victim p key protected (evicted_keys evictions)) [
          | none ↦ record {
            accepted = false;
            key = key;
            role = role;
            nbytes = nbytes;
            evictions = evictions;
            reason = cannot_fit;
          }
          | some victim ↦
              make_room fuel p key role nbytes protected
                (add_evict key evictions (some victim) capacity)
        ]
      ]

  -- The evictions that are planned before the loop.
  unfoldable pub lineage_evictions :
      WorkingSetPolicy N → CacheKey N → String → Option (CacheKey N) → List (Eviction N)
  unfolding rotate_stable replace_active apply_pin_quota
  lineage_evictions p key role predecessor =
      apply_pin_quota p key role
        (replace_active p key role predecessor (rotate_stable p key role []))

  abbrev pub refuse : CacheKey N → String → ℕ → PlanReason → AdmissionPlan N
  refuse key role nbytes reason = record {
    accepted = false;
    key = key;
    role = role;
    nbytes = nbytes;
    evictions = [];
    reason = reason;
  }

  -- The part of `plan_admission` behind its guards.
  unfoldable pub plan_room :
      WorkingSetPolicy N → CacheKey N → String → ℕ → Option (CacheKey N) → AdmissionPlan N
  plan_room p key role nbytes predecessor =
      let evictions = lineage_evictions p key role predecessor in
      let protected = protected_keys p key role nbytes (evicted_keys evictions) in
      make_room (suc (length (ordered_keys p))) p key role nbytes protected evictions

  unfoldable pub plan_admission :
      WorkingSetPolicy N → CacheKey N → String → ℕ → Option (CacheKey N) → AdmissionPlan N
  plan_admission p key role nbytes predecessor =
      if leb p.max_sequences 0 || leb p.max_bytes 0
      then refuse key role nbytes zero_capacity
      else if ltb p.max_bytes nbytes
      then refuse key role nbytes oversized
      else plan_room p key role nbytes predecessor

  module _ (p : WorkingSetPolicy N) (key : CacheKey N) (role : String) (nbytes : ℕ)
      (predecessor : Option (CacheKey N)) where
    -- What holds of a refusal, and of the planned room where the request can fit, holds of the plan.
    pub admission_cases :
        (P : AdmissionPlan N → Type 0)
        → ((reason : PlanReason) → P (refuse key role nbytes reason))
        → (0 < p.max_sequences
            → 0 < p.max_bytes
            → nbytes ≤ p.max_bytes
            → P (plan_room p key role nbytes predecessor))
        → P (plan_admission p key role nbytes predecessor)
    unfolding plan_admission
    admission_cases P no_room room =
        elim (Bool-cases (leb p.max_sequences 0 || leb p.max_bytes 0)) [
          | inl e ↦ rw (e, plan_admission) (no_room zero_capacity)
          | inr e ↦ elim (Bool-cases (ltb p.max_bytes nbytes)) [
            | inl f ↦ rw (e, f, plan_admission) (no_room oversized)
            | inr f ↦ rw (e, f, plan_admission) (room (ground arith) (ground arith) (ground arith))
          ]
        ]
