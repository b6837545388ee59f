-- ===== src/Cache/Policy/Quota.antt =====
-- The pin quota of `plan_admission` where every pinned role is a built-in one.
use statebraid.Prelude.{
  ℕ, ◌≡◌, ◌<◌, refl, Bool, true, false, List, [], ◌∷◌, none, some, String, Hashable,
  string_hashable, leb, contains, select, sort_by, flat_map, first_outside, arith, Option-cases,
  inl, inr,
}
use statebraid.Dict.{get, keys}
use statebraid.Cache.Key.{CacheKey, key_hashable}
use statebraid.Cache.Policy.{WorkingSetPolicy, Eviction, role_ranks, pin_rank_min}
use statebraid.Cache.Policy.Victims.{rank, oldest_pin}
use statebraid.Cache.Policy.Plan.{apply_pin_quota, add_evict}
use statebraid.Cache.Policy.Lookup.{is_some}

built_in_rank : (role : String) (r : ℕ) → get role role_ranks ≡ some r → r < pin_rank_min
unfolding get
built_in_rank role r e = ground (arith, e)

rank-lt :
    (pin_roles : List String)
    → ((role : String) → contains role pin_roles ≡ true → is_some (get role role_ranks) ≡ true)
    → (role : String) → leb pin_rank_min (rank pin_roles role) ≡ false
unfolding rank
rank-lt pin_roles built_in role = elim (Option-cases (get role role_ranks)) [
  | inl e ↦ ground (arith, e, built_in role)
  | inr (r, e) ↦ ground (arith, e, built_in_rank role r e)
]

select_none :
    {A : Type 0} (test : A → Bool) (xs : List A) → ((x : A) → test x ≡ false) → select test xs ≡ []
unfolding select
select_none test [] never = refl
select_none test (x ∷ xs) never = ground (arith, never x, select_none test xs never)

module _ {N : Type 0} ⦃h : Hashable N⦄ (p : WorkingSetPolicy N)
    (built_in : (role : String)
      → contains role p.pin_roles ≡ true
      → is_some (get role role_ranks) ≡ true) where
  no_oldest_pin : (excluding : List (CacheKey N)) → oldest_pin p excluding ≡ none
  unfolding oldest_pin sort_by flat_map first_outside
  no_oldest_pin excluding =
      rw
        (select_none (λ role. leb pin_rank_min (rank p.pin_roles role)) (keys p.buckets)
          (rank-lt p.pin_roles built_in))
        refl

  -- Where every pinned role is one of `ROLE_RANKS`, the pin quota evicts nothing, however many pinned
  -- entries there are.
  pub quota_never_evicts :
      (key : CacheKey N) (role : String) (evictions : List (Eviction N))
      → apply_pin_quota p key role evictions ≡ evictions
  unfolding apply_pin_quota add_evict
  quota_never_evicts key role evictions = rw no_oldest_pin (ground arith)
