-- ===== src/Cache/Policy/Trimming.antt =====
-- `plan_trim` and `commit_trim` together: the loop ends, and what is left is within the targets.
use statebraid.Prelude.{
  ℕ, zero, suc, ◌+◌, ◌≤◌, ◌<◌, ◌≡◌, refl, ℤ, true, false, ◌||◌, List, [], ◌∷◌, ◌++◌, Option, none,
  some, Hashable, string_hashable, contains, contains-append, contains-foldl-add, length, ltb,
  outside, outside-le-length, outside_shrinks, GrownBy, arith, if◌then◌else◌, Bool-cases,
  Option-cases, inl, inr,
}
use statebraid.Prelude.Result.{ok}
use statebraid.Dict.{get, keep}
use statebraid.Dict.Laws.{length-eq-total, total-keep-le}
use statebraid.Cache.Key.{CacheKey, key_hashable}
use statebraid.Cache.Policy.{WorkingSetPolicy, Eviction, trim, TrimPlan, n_sequences, keys_for_role}
use statebraid.Cache.Policy.Victims.{ordered_keys, working_keys}
use statebraid.Cache.Policy.Plan.{evicted_keys}
use statebraid.Cache.Policy.Commit.{commit_trim}
use statebraid.Cache.Policy.Trim.{
  target, bytes_of, over, trim_victim, trim_loop, trim_protected, plan_trim,
}
use statebraid.Cache.Policy.Invariant.{IsWellFormed, commit_trims-IsWellFormed, size}
use statebraid.Cache.Policy.Lookup.{
  is_some, next_victim_sound, nothing_kept, contains-keys_for_role,
}
use statebraid.Cache.Policy.Room.{evicted_keys-append}
use statebraid.Cache.Policy.Effect.{entries_after_trim}

module _ {N : Type 0} ⦃h : Hashable N⦄ (p : WorkingSetPolicy N) where
  pub commit_trim-IsWellFormed :
      (plan : TrimPlan N)
      → IsWellFormed p.config p.state
      → IsWellFormed p.config (commit_trim p plan).state
  unfolding commit_trim
  commit_trim-IsWellFormed plan w = commit_trims-IsWellFormed p.config p.state plan.evictions w

  -- A trim, by whatever plan, only removes.
  pub commit_trim-le :
      (plan : TrimPlan N)
      → IsWellFormed p.config p.state
      → (n_sequences (commit_trim p plan) ≤ n_sequences p)
        × ((commit_trim p plan).nbytes ≤ p.nbytes)
  unfolding n_sequences
  commit_trim-le plan w =
      let gone = evicted_keys plan.evictions in
      let after = (commit_trim-IsWellFormed plan w).accounted in
      ground (
        arith,
        after,
        w.accounted,
        entries_after_trim p plan,
        length-eq-total p.entries,
        length-eq-total (keep gone p.entries),
        total-keep-le (λ _. 1) gone p.entries,
        total-keep-le size gone p.entries,
      )

module _ {N : Type 0} ⦃h : Hashable N⦄ (p : WorkingSetPolicy N)
    (w : IsWellFormed p.config p.state) where
  trim_victim_sound :
      (protected evicted : List (CacheKey N)) (v : CacheKey N)
      → trim_victim p protected evicted ≡ some v
      → (contains v evicted ≡ false) × (contains v (ordered_keys p) ≡ true)
  unfolding trim_victim
  trim_victim_sound protected evicted v e = ground (
    arith,
    next_victim_sound p w (evicted ++ protected) v,
    next_victim_sound p w evicted v,
    contains-append v evicted protected,
  )

  no_trim_victim :
      (protected evicted : List (CacheKey N))
      → trim_victim p protected evicted ≡ none
      → keep evicted p.entries ≡ []
  unfolding trim_victim
  no_trim_victim protected evicted e = nothing_kept p w evicted evicted (ground arith) (λ k m. m)

  module _ (sequences bytes : ℕ) (protected : List (CacheKey N)) where
    abbrev next : List (Eviction N) → CacheKey N → List (Eviction N)
    next d v = d ++ record { key = v; reason = trim } ∷ []

    evicted_grows :
        (d : List (Eviction N)) (v : CacheKey N)
        → GrownBy v (evicted_keys d) (evicted_keys (next d v))
    unfolding contains
    evicted_grows d v a = ground (
      arith,
      evicted_keys-append d (record { key = v; reason = trim }),
      contains-append a (evicted_keys d) (v ∷ []),
    )

    not_over :
        (evicted : List (CacheKey N))
        → keep evicted p.entries ≡ []
        → over p sequences bytes evicted ≡ false
    unfolding over
    not_over evicted e = rw e (ground arith)

    -- With enough fuel the loop ends, within the targets.
    trim_loop_ends :
        (fuel : ℕ) (d : List (Eviction N))
        → outside (evicted_keys d) (ordered_keys p) < fuel
        → (vs : List (Eviction N)) × (trim_loop fuel p sequences bytes protected d ≡ some vs)
          × (over p sequences bytes (evicted_keys vs) ≡ false)
    unfolding trim_loop
    trim_loop_ends zero d f = absurd (omega arith)
    trim_loop_ends (suc fuel) d f = elim (Bool-cases (over p sequences bytes (evicted_keys d))) [
      | inr fits ↦ (d, ground (arith, fits), fits)
      | inl full ↦ elim (Option-cases (trim_victim p protected (evicted_keys d))) [
        | inl e ↦ (
          d,
          ground (arith, full, e),
          not_over (evicted_keys d) (no_trim_victim protected (evicted_keys d) e),
        )
        | inr (v, e) ↦
            let sound = trim_victim_sound protected (evicted_keys d) v e in
            let shrinks =
              outside_shrinks v (evicted_keys d) (evicted_keys (next d v)) (ordered_keys p)
                (evicted_grows d v) sound.0 sound.1 in
            let (vs, ends, fits) = trim_loop_ends fuel (next d v) (omega arith) in
            (vs, ground (arith, full, e, ends), fits)
      ]
    ]

  bytes_of_residents :
      (ks : List (CacheKey N))
      → ((k : CacheKey N) → contains k ks ≡ true → is_some (get k p.entries) ≡ true)
      → (n : ℕ) × (bytes_of p ks ≡ ok n)
  unfolding bytes_of contains
  bytes_of_residents [] r = (0, refl)
  bytes_of_residents (k ∷ ks) r =
      let (n, e) = bytes_of_residents ks (λ j m. r j (ground (arith, m))) in
      elim (Option-cases (get k p.entries)) [
        | inl missing ↦ absurd (ground (arith, missing, r k (ground arith)))
        | inr (x, found) ↦ (x.nbytes + n, ground (arith, found, e))
      ]

  working_keys_resident :
      (k : CacheKey N) → contains k (working_keys p) ≡ true → is_some (get k p.entries) ≡ true
  unfolding working_keys contains
  working_keys_resident k m = ground (
    arith,
    contains-foldl-add k [] (keys_for_role p "stable" ++ keys_for_role p "active"),
    contains-append k (keys_for_role p "stable") (keys_for_role p "active"),
    contains-keys_for_role p w "stable" k,
    contains-keys_for_role p w "active" k,
  )

  pub trim_within_targets :
      (n_seqs n_bytes : Option ℤ)
      → (plan : TrimPlan N) × (plan_trim p n_seqs n_bytes ≡ ok plan)
        × (n_sequences (commit_trim p plan) ≤ target p.max_sequences n_seqs)
        × ((commit_trim p plan).nbytes ≤ target p.max_bytes n_bytes)
  unfolding plan_trim trim_protected over n_sequences
  trim_within_targets n_seqs n_bytes =
      let sequences = target p.max_sequences n_seqs in
      let bytes = target p.max_bytes n_bytes in
      let (n, summed) = bytes_of_residents (working_keys p) working_keys_resident in
      let protected =
        if ltb sequences (length (working_keys p)) || ltb bytes n then [] else working_keys p in
      let (vs, ends, fits) =
        trim_loop_ends sequences bytes protected (suc (length (ordered_keys p))) []
          (omega (arith, outside-le-length (evicted_keys {N = N} []) (ordered_keys p))) in
      let plan : TrimPlan N = record { evictions = vs } in
      let after = (commit_trim-IsWellFormed p plan w).accounted in
      (
        plan,
        rw (summed, ends),
        ground (arith, fits, entries_after_trim p plan),
        ground (arith, fits, after, entries_after_trim p plan),
      )
