-- ===== src/Cache/Policy/Admission.antt =====
-- `plan_admission` and `commit` together: when a request is accepted, what it leaves, and the limits.
use statebraid.Prelude.{
  ℕ, suc, ◌≤◌, ◌≡◌, ◌∙◌, ap, true, false, ◌&&◌, ◌∷◌, Option, none, some, Hashable, String, ◌==◌,
  string_hashable, contains, length, ltb, leb, outside-le-length, arith, if◌then◌else◌,
}
use statebraid.Dict.{get, keep}
use statebraid.Dict.Laws.{get-put, get-keep}
use statebraid.Cache.Key.{CacheKey, key_hashable}
use statebraid.Cache.Policy.{WorkingSetPolicy, AdmissionPlan, admit, n_sequences}
use statebraid.Cache.Policy.Victims.{ordered_keys, projected_over_limit}
use statebraid.Cache.Policy.Plan.{
  evicted_keys, plan_admission, plan_room, lineage_evictions, protected_keys, admission_cases,
}
use statebraid.Cache.Policy.Commit.{new_entry, commit}
use statebraid.Cache.Policy.Invariant.{IsWellFormed, commit_state-IsWellFormed}
use statebraid.Cache.Policy.Room.{make_room_accepts, make_room_fits}
use statebraid.Cache.Policy.Effect.{entries-commit_state, totals-commit_state}

module _ {N : Type 0} ⦃h : Hashable N⦄ (p : WorkingSetPolicy N) where
  -- After the commit of any accepted plan, each key holds what the plan says: the new entry under
  -- the plan's key, nothing under an evicted key, and what it held before under every other.
  pub get-commit :
      (plan : AdmissionPlan N) (j : CacheKey N)
      → plan.accepted ≡ true
      → get j (commit p plan).entries ≡ (
          if plan.key == j
          then some (new_entry p.config plan)
          else if contains j (evicted_keys plan.evictions)
          then none
          else get j p.entries)
  unfolding commit contains
  get-commit plan j e =
      let gone = plan.key ∷ evicted_keys plan.evictions in
      ap (get j) (entries-commit_state p.config plan p.state e)
      ∙ get-put j plan.key (new_entry p.config plan) (keep gone p.entries)
      ∙ ground (arith, get-keep j gone p.entries)

  module _ (key : CacheKey N) (role : String) (nbytes : ℕ) (predecessor : Option (CacheKey N)) where
    abbrev pub plan : AdmissionPlan N
    plan = plan_admission p key role nbytes predecessor

    pub plan_fits :
        IsWellFormed p.config p.state
        → plan.accepted ≡ true
        → (plan.key ≡ key)
          × (plan.role ≡ role)
          × (plan.nbytes ≡ nbytes)
          × (plan.reason ≡ admit)
          × (projected_over_limit p key nbytes (evicted_keys plan.evictions) ≡ false)
    unfolding plan_room
    plan_fits w =
        admission_cases p key role nbytes predecessor
          (λ q.
            q.accepted ≡ true
            → (q.key ≡ key)
              × (q.role ≡ role)
              × (q.nbytes ≡ nbytes)
              × (q.reason ≡ admit)
              × (projected_over_limit p key nbytes (evicted_keys q.evictions) ≡ false))
          (λ reason e. cc) (λ hs hm hb e. make_room_fits p w key _ _ role nbytes _ e)

    -- In a well-formed policy a request is accepted exactly when the policy has capacity at all and
    -- the entry by itself is not larger than the byte limit.
    pub plan_admission_accepts :
        IsWellFormed p.config p.state
        → plan.accepted ≡ (ltb 0 p.max_sequences && (ltb 0 p.max_bytes && leb nbytes p.max_bytes))
    unfolding plan_admission plan_room
    plan_admission_accepts w =
        let evictions = lineage_evictions p key role predecessor in
        let room =
          make_room_accepts p w key (protected_keys p key role nbytes (evicted_keys evictions))
            (suc (length (ordered_keys p))) role nbytes evictions
            (omega (arith, outside-le-length (key ∷ evicted_keys evictions) (ordered_keys p))) in
        ground (arith, room)

    -- Committing an accepted plan of a well-formed policy leaves at most `max_sequences` entries, and
    -- a byte counter of at most `max_bytes`.
    pub admission_within_limits :
        IsWellFormed p.config p.state
        → plan.accepted ≡ true
        → (n_sequences (commit p plan) ≤ p.max_sequences) × ((commit p plan).nbytes ≤ p.max_bytes)
    unfolding commit n_sequences projected_over_limit
    admission_within_limits w e =
        let fits = plan_fits w e in
        let totals = totals-commit_state p.config plan p.state e in
        let after = commit_state-IsWellFormed p.config plan p.state w in
        ground (arith, fits, totals, after.accounted)
