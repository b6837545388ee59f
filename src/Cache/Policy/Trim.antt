-- ===== src/Cache/Policy/Trim.antt =====
-- src/statebraid/cache/policy.py: `plan_trim`.
use statebraid.Prelude.{
  ℕ, zero, suc, ◌+◌, ℤ, clamp, Bool, true, false, ◌||◌, List, [], ◌∷◌, ◌++◌, Option, none, some,
  Hashable, ltb, length, if◌then◌else◌,
}
use statebraid.Prelude.Result.{Result, ok, raise, key_error, diverged, ◌>>=◌}
use statebraid.Dict.{get, keep, total}
use statebraid.Cache.Key.{CacheKey, key_hashable}
use statebraid.Cache.Policy.{WorkingSetPolicy, Eviction, trim, TrimPlan}
use statebraid.Cache.Policy.Victims.{ordered_keys, next_victim, working_keys}
use statebraid.Cache.Policy.Plan.{evicted_keys}

-- `max_sequences if n_sequences is None else max(0, int(n_sequences))`.
unfoldable pub target : ℕ → Option ℤ → ℕ
target limit none = limit
target limit (some n) = clamp n

module _ {N : Type 0} ⦃h : Hashable N⦄ where
  -- `sum(self._entries[key].nbytes for key in protected)`.
  unfoldable pub bytes_of : WorkingSetPolicy N → List (CacheKey N) → Result ℕ
  bytes_of p [] = ok 0
  bytes_of p (key ∷ rest) = elim (get key p.entries) [
    | none ↦ raise key_error
    | some e ↦ do sum ← bytes_of p rest; ok (e.nbytes + sum)
  ]

  -- The closure `over`.
  unfoldable pub over : WorkingSetPolicy N → ℕ → ℕ → List (CacheKey N) → Bool
  over p target_sequences target_bytes evicted =
      let kept = keep evicted p.entries in
      ltb target_sequences (length kept) || ltb target_bytes (total (λ e. e.nbytes) kept)

  unfoldable pub trim_victim :
      WorkingSetPolicy N → List (CacheKey N) → List (CacheKey N) → Option (CacheKey N)
  trim_victim p protected evicted = elim (next_victim p (evicted ++ protected)) [
    | some victim ↦ some victim
    | none ↦ next_victim p evicted
  ]

  -- The `while` loop, on fuel; `none` if that runs out.
  unfoldable pub trim_loop :
      ℕ
      → WorkingSetPolicy N
      → ℕ
      → ℕ
      → List (CacheKey N)
      → List (Eviction N)
      → Option (List (Eviction N))
  trim_loop zero p sequences bytes protected evictions = none
  trim_loop (suc fuel) p sequences bytes protected evictions =
      elim (over p sequences bytes (evicted_keys evictions)) [
        | false ↦ some evictions
        | true ↦ elim (trim_victim p protected (evicted_keys evictions)) [
          | none ↦ some evictions
          | some victim ↦
              trim_loop fuel p sequences bytes protected
                (evictions ++ record { key = victim; reason = trim } ∷ [])
        ]
      ]

  -- What is protected: the working set, unless it is itself over the targets.
  unfoldable pub trim_protected : WorkingSetPolicy N → ℕ → ℕ → Result (List (CacheKey N))
  unfolding bytes_of
  trim_protected p sequences bytes = do
    working_bytes ← bytes_of p (working_keys p)
    ok (
        if ltb sequences (length (working_keys p)) || ltb bytes working_bytes
        then []
        else working_keys p)

  unfoldable pub finished : Option (List (Eviction N)) → Result (TrimPlan N)
  finished none = raise diverged
  finished (some evictions) = ok (record { evictions = evictions })

  unfoldable pub plan_trim : WorkingSetPolicy N → Option ℤ → Option ℤ → Result (TrimPlan N)
  unfolding finished
  plan_trim p n_sequences n_bytes = do
    let sequences = target p.max_sequences n_sequences
    let bytes = target p.max_bytes n_bytes
    protected ← trim_protected p sequences bytes
    finished (trim_loop (suc (length (ordered_keys p))) p sequences bytes protected [])
