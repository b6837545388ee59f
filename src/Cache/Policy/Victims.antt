-- ===== src/Cache/Policy/Victims.antt =====
-- src/statebraid/cache/policy.py: the private helpers by which `WorkingSetPolicy` orders its keys,
-- looks for victims and projects its size.
use mathlib.Core.List.{foldl}
use statebraid.Prelude.{
  ℕ, ◌+◌, Bool, ◌&&◌, ◌||◌, List, [], ◌∷◌, ◌++◌, Option, none, some, String, Hashable, ◌==◌,
  string_hashable, ltb, leb, length, contains, add, first_outside, select, sort_by, flat_map,
  if◌then◌else◌,
}
use statebraid.Dict.{get, keep, keys, total}
use statebraid.Cache.Key.{CacheKey, key_hashable}
use statebraid.Cache.Policy.{
  WorkingSetPolicy, role_ranks, unknown_role_rank, pin_rank_min, keys_for_role,
}

-- `_rank`, by the roles that are pinned.
unfoldable pub rank : List String → String → ℕ
rank pin_roles role = elim (get role role_ranks) [
  | some r ↦ r
  | none ↦ if contains role pin_roles then pin_rank_min else unknown_role_rank
]

module _ {N : Type 0} ⦃h : Hashable N⦄ where
  unfoldable pub ordered_keys : WorkingSetPolicy N → List (CacheKey N)
  ordered_keys p = flat_map (keys_for_role p) (sort_by (rank p.pin_roles) (keys p.buckets))

  unfoldable pub next_victim : WorkingSetPolicy N → List (CacheKey N) → Option (CacheKey N)
  next_victim p excluding = first_outside excluding (ordered_keys p)

  unfoldable pub oldest_pin : WorkingSetPolicy N → List (CacheKey N) → Option (CacheKey N)
  oldest_pin p excluding =
      let pins = select (λ role. leb pin_rank_min (rank p.pin_roles role)) (keys p.buckets) in
      first_outside excluding (flat_map (keys_for_role p) (sort_by (rank p.pin_roles) pins))

  -- A set: a key is in it once.
  unfoldable pub working_keys : WorkingSetPolicy N → List (CacheKey N)
  working_keys p =
      foldl (λ set k. add k set) [] (keys_for_role p "stable" ++ keys_for_role p "active")

  unfoldable pub projected_state : WorkingSetPolicy N → CacheKey N → ℕ → List (CacheKey N) → ℕ × ℕ
  projected_state p key nbytes evicted =
      let kept = keep (key ∷ evicted) p.entries in
      (length kept + 1, total (λ e. e.nbytes) kept + nbytes)

  unfoldable pub projected_over_limit :
      WorkingSetPolicy N → CacheKey N → ℕ → List (CacheKey N) → Bool
  unfolding projected_state
  projected_over_limit p key nbytes evicted =
      let (sequences, total_bytes) = projected_state p key nbytes evicted in
      ltb p.max_sequences sequences || ltb p.max_bytes total_bytes

  -- One round of the loop of `_working_set_fits`, on `count` and `total`.
  unfoldable pub weigh :
      WorkingSetPolicy N → CacheKey N → ℕ → List (CacheKey N) → ℕ × ℕ → CacheKey N → ℕ × ℕ
  weigh p key nbytes evicted (count, sum) protected_key =
      if protected_key == key
      then (count + 1, sum + nbytes)
      else if contains protected_key evicted
      then (count, sum)
      else elim (get protected_key p.entries) [
        | none ↦ (count, sum)
        | some e ↦ (count + 1, sum + e.nbytes)
      ]

  unfoldable pub working_set_fits :
      WorkingSetPolicy N → List (CacheKey N) → CacheKey N → ℕ → List (CacheKey N) → Bool
  unfolding weigh
  working_set_fits p protected key nbytes evicted =
      let (count, sum) = foldl (weigh p key nbytes evicted) (0, 0) protected in
      leb count p.max_sequences && leb sum p.max_bytes
