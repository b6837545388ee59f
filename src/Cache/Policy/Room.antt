-- ===== src/Cache/Policy/Room.antt =====
-- The loop of `plan_admission`: it ends, its victims are sound, and it makes the room that it plans.
use statebraid.Prelude.{
  ℕ, zero, suc, ◌≤◌, ◌<◌, ◌≡◌, refl, ap, true, false, ◌||◌, List, [], ◌∷◌, ◌++◌, none, some,
  Hashable, String, ◌==◌, contains, contains-append, outside, outside_shrinks, GrownBy, arith,
  if◌then◌else◌, Bool-cases, Option-cases, inl, inr,
}
use statebraid.Dict.{get, keep}
use statebraid.Cache.Key.{CacheKey, key_hashable}
use statebraid.Cache.Policy.{WorkingSetPolicy, Eviction, EvictionReason, capacity, admit}
use statebraid.Cache.Policy.Victims.{ordered_keys, projected_over_limit}
use statebraid.Cache.Policy.Plan.{make_room, capacity_victim, add_evict, evicted_keys}
use statebraid.Cache.Policy.Invariant.{IsWellFormed}
use statebraid.Cache.Policy.Lookup.{next_victim_sound, nothing_kept, is_some}

module _ {N : Type 0} ⦃h : Hashable N⦄ where
  pub evicted_keys-append :
      (d : List (Eviction N)) (v : Eviction N)
      → evicted_keys (d ++ v ∷ []) ≡ evicted_keys d ++ v.key ∷ []
  evicted_keys-append [] v = refl
  evicted_keys-append (x ∷ d) v = ap (◌∷◌ x.key) (evicted_keys-append d v)

  -- The keys that `add_evict` leaves: the old ones, and a candidate that is new and not `key`.
  pub contains-add_evict :
      (key : CacheKey N) (d : List (Eviction N)) (c : CacheKey N) (reason : EvictionReason)
      (a : CacheKey N)
      → contains a (evicted_keys (add_evict key d (some c) reason))
        ≡ (contains a (evicted_keys d) || (if c == key then false else c == a))
  unfolding add_evict contains
  contains-add_evict key d c reason a = ground (
    arith,
    evicted_keys-append d (record { key = c; reason = reason }),
    contains-append a (evicted_keys d) (c ∷ []),
  )

module _ {N : Type 0} ⦃h : Hashable N⦄ (p : WorkingSetPolicy N)
    (w : IsWellFormed p.config p.state) where
  module _ (key : CacheKey N) (protected : List (CacheKey N)) where
    -- Either choice of a victim is a resident key that is neither evicted nor the key itself.
    pub capacity_victim_sound :
        (evicted : List (CacheKey N)) (v : CacheKey N)
        → capacity_victim p key protected evicted ≡ some v
        → (contains v evicted ≡ false)
          × ((v == key) ≡ false)
          × (contains v (ordered_keys p) ≡ true)
          × (is_some (get v p.entries) ≡ true)
    unfolding capacity_victim contains
    capacity_victim_sound evicted v e = ground (
      arith,
      next_victim_sound p w (evicted ++ (protected ++ key ∷ [])) v,
      next_victim_sound p w (evicted ++ key ∷ []) v,
      contains-append v evicted (protected ++ key ∷ []),
      contains-append v protected (key ∷ []),
      contains-append v evicted (key ∷ []),
    )

    no_capacity_victim :
        (evicted : List (CacheKey N))
        → capacity_victim p key protected evicted ≡ none
        → keep (key ∷ evicted) p.entries ≡ []
    unfolding capacity_victim contains
    no_capacity_victim evicted e =
        nothing_kept p w (evicted ++ key ∷ []) (key ∷ evicted) (ground arith)
          (λ k m. ground (arith, contains-append k evicted (key ∷ [])))

    not_over :
        (nbytes : ℕ) (evicted : List (CacheKey N))
        → 0 < p.max_sequences
        → nbytes ≤ p.max_bytes
        → keep (key ∷ evicted) p.entries ≡ []
        → projected_over_limit p key nbytes evicted ≡ false
    unfolding projected_over_limit
    not_over nbytes evicted hs hb e = rw e (ground arith)

    -- The keys out of the race in a round: the evicted ones and the key itself.
    abbrev spent : List (Eviction N) → List (CacheKey N)
    spent d = key ∷ evicted_keys d

    spent_grows :
        (d : List (Eviction N)) (v : CacheKey N)
        → (v == key) ≡ false
        → GrownBy v (spent d) (spent (add_evict key d (some v) capacity))
    unfolding contains
    spent_grows d v e a = ground (arith, contains-add_evict key d v capacity a)

    -- With more fuel than keys that are left, the loop ends by its own test, and accepts.
    pub make_room_accepts :
        (fuel : ℕ) (role : String) (nbytes : ℕ) (d : List (Eviction N))
        → outside (spent d) (ordered_keys p) < fuel
        → 0 < p.max_sequences
        → nbytes ≤ p.max_bytes
        → (make_room fuel p key role nbytes protected d).accepted ≡ true
    unfolding make_room contains
    make_room_accepts zero role nbytes d f hs hb = absurd (omega arith)
    make_room_accepts (suc fuel) role nbytes d f hs hb =
        elim (Option-cases (capacity_victim p key protected (evicted_keys d))) [
          | inl e ↦ ground (
            arith,
            e,
            not_over nbytes (evicted_keys d) hs hb (no_capacity_victim (evicted_keys d) e),
          )
          | inr (v, e) ↦
              let sound = capacity_victim_sound (evicted_keys d) v e in
              let shrinks =
                outside_shrinks v (spent d) (spent (add_evict key d (some v) capacity))
                  (ordered_keys p) (spent_grows d v sound.1) (ground arith) sound.2 in
              let rest =
                make_room_accepts fuel role nbytes (add_evict key d (some v) capacity) (omega arith)
                  hs hb in
              ground (arith, e, rest)
        ]

    -- An accepted plan of the loop carries the request unchanged, and what it projects fits.
    pub make_room_fits :
        (fuel : ℕ) (role : String) (nbytes : ℕ) (d : List (Eviction N))
        → (make_room fuel p key role nbytes protected d).accepted ≡ true
        → let plan = make_room fuel p key role nbytes protected d in
          (plan.key ≡ key)
          × (plan.role ≡ role)
          × (plan.nbytes ≡ nbytes)
          × (plan.reason ≡ admit)
          × (projected_over_limit p key nbytes (evicted_keys plan.evictions) ≡ false)
    unfolding make_room
    make_room_fits zero role nbytes d e = cc
    make_room_fits (suc fuel) role nbytes d e =
        elim (Bool-cases (projected_over_limit p key nbytes (evicted_keys d))) [
          | inr fits ↦ ground (arith, fits)
          | inl full ↦ elim (Option-cases (capacity_victim p key protected (evicted_keys d))) [
            | inl stuck ↦ ground (arith, full, stuck)
            | inr (v, found) ↦
                rw (full, found, make_room)
                  (make_room_fits fuel role nbytes (add_evict key d (some v) capacity)
                    (ground (arith, full, found)))
          ]
        ]
