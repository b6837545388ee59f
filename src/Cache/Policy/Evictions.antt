-- ===== src/Cache/Policy/Evictions.antt =====
-- What is true of the evictions of every plan: no key twice, never the key that is admitted, and
-- resident entries only.
use mathlib.Core.List.{foldl}
use statebraid.Prelude.{
  ℕ, zero, suc, ◌≡◌, refl, true, false, List, [], ◌∷◌, ◌++◌, Option, none, some, Hashable, String,
  ◌==◌, string_hashable, contains, contains-append, arith, Bool-cases, Option-cases, inl, inr,
}
use statebraid.Dict.{get}
use statebraid.Cache.Key.{CacheKey, key_hashable}
use statebraid.Cache.Policy.{
  WorkingSetPolicy, Eviction, EvictionReason, capacity, stable_rotate, active_successor, pin_quota,
  keys_for_role,
}
use statebraid.Cache.Policy.Victims.{oldest_pin}
use statebraid.Cache.Policy.Plan.{
  make_room, capacity_victim, add_evict, evicted_keys, rotate_stable, replace_active,
  apply_pin_quota, lineage_evictions, plan_admission, plan_room, admission_cases,
}
use statebraid.Cache.Policy.Invariant.{IsWellFormed}
use statebraid.Cache.Policy.Lookup.{is_some, oldest_pin_sound, contains-keys_for_role}
use statebraid.Cache.Policy.Room.{evicted_keys-append, capacity_victim_sound, contains-add_evict}

abbrev pub Distinct : {A : Type 0} ⦃h : Hashable A⦄ → List A → Type 0
Distinct [] = Unit {0}
Distinct (x ∷ xs) = (contains x xs ≡ false) × Distinct xs

Distinct-append :
    {A : Type 0} ⦃h : Hashable A⦄ (a : A) (xs : List A)
    → Distinct xs
    → contains a xs ≡ false
    → Distinct (xs ++ a ∷ [])
unfolding contains
Distinct-append a [] d e = (refl, tt)
Distinct-append a (x ∷ xs) d e =
    ground (arith, Distinct-append a xs d.1, contains-append x xs (a ∷ []))

module _ {N : Type 0} ⦃h : Hashable N⦄ (p : WorkingSetPolicy N) (key : CacheKey N) where
  pub record AreSound (d : List (Eviction N)) : Type 0 where
    pub distinct : Distinct (evicted_keys d)
    pub spares_key : contains key (evicted_keys d) ≡ false
    pub resident :
        (k : CacheKey N) → contains k (evicted_keys d) ≡ true → is_some (get k p.entries) ≡ true

  AreSound-nil : AreSound []
  unfolding contains
  AreSound-nil = record { distinct = tt; spares_key = refl; resident = λ k e. cc }

  Distinct-add_evict :
      (d : List (Eviction N)) (c : CacheKey N) (reason : EvictionReason)
      → Distinct (evicted_keys d)
      → Distinct (evicted_keys (add_evict key d (some c) reason))
  unfolding add_evict
  Distinct-add_evict d c reason s = ground (
    arith,
    evicted_keys-append d (record { key = c; reason = reason }),
    Distinct-append c (evicted_keys d) s,
  )

  add_evict-AreSound :
      (d : List (Eviction N)) (c : CacheKey N) (reason : EvictionReason)
      → is_some (get c p.entries) ≡ true
      → AreSound d
      → AreSound (add_evict key d (some c) reason)
  unfolding contains
  add_evict-AreSound d c reason r s = record {
    distinct = Distinct-add_evict d c reason s.distinct;
    spares_key = ground (arith, s.spares_key, contains-add_evict key d c reason key);
    resident = λ k e. ground (arith, r, s.resident k, contains-add_evict key d c reason k);
  }

module _ {N : Type 0} ⦃h : Hashable N⦄ (p : WorkingSetPolicy N)
    (w : IsWellFormed p.config p.state) where
  module _ (key : CacheKey N) where
    rotation-AreSound :
        (ks : List (CacheKey N)) (d : List (Eviction N))
        → ((k : CacheKey N) → contains k ks ≡ true → is_some (get k p.entries) ≡ true)
        → AreSound p key d
        → AreSound p key (foldl (λ d k. add_evict key d (some k) stable_rotate) d ks)
    unfolding contains
    rotation-AreSound [] d r s = s
    rotation-AreSound (k ∷ ks) d r s =
        rotation-AreSound ks (add_evict key d (some k) stable_rotate)
          (λ j e. r j (ground (arith, e)))
          (add_evict-AreSound p key d k stable_rotate (r k (ground arith)) s)

    rotate_stable-AreSound :
        (role : String) (d : List (Eviction N))
        → AreSound p key d
        → AreSound p key (rotate_stable p key role d)
    unfolding rotate_stable
    rotate_stable-AreSound role d s = elim (Bool-cases (role == "stable")) [
      | inl e ↦
          rw (e, rotate_stable)
            (rotation-AreSound (keys_for_role p "stable") d
              (λ k m. ground (arith, contains-keys_for_role p w "stable" k)) s)
      | inr e ↦ rw (e, rotate_stable) s
    ]

    replace_active-AreSound :
        (role : String) (o : Option (CacheKey N)) (d : List (Eviction N))
        → AreSound p key d
        → AreSound p key (replace_active p key role o d)
    unfolding replace_active
    replace_active-AreSound role none d s = s
    replace_active-AreSound role (some c) d s = elim (Option-cases (get c p.entries)) [
      | inl e ↦ ground (arith, e, s)
      | inr (x, e) ↦
          ground (arith, e, s, add_evict-AreSound p key d c active_successor (ground (arith, e)) s)
    ]

    evict_pin-AreSound :
        (d : List (Eviction N))
        → AreSound p key d
        → AreSound p key (add_evict key d (oldest_pin p (evicted_keys d)) pin_quota)
    unfolding add_evict
    evict_pin-AreSound d s = elim (Option-cases (oldest_pin p (evicted_keys d))) [
      | inl e ↦ rw (e, add_evict) s
      | inr (v, e) ↦
          rw e
            (add_evict-AreSound p key d v pin_quota (oldest_pin_sound p w (evicted_keys d) v e).1 s)
    ]

    apply_pin_quota-AreSound :
        (role : String) (d : List (Eviction N))
        → AreSound p key d
        → AreSound p key (apply_pin_quota p key role d)
    unfolding apply_pin_quota
    apply_pin_quota-AreSound role d s = ground (arith, s, evict_pin-AreSound d s)

    make_room-AreSound :
        (protected : List (CacheKey N)) (fuel : ℕ) (role : String) (nbytes : ℕ)
        (d : List (Eviction N))
        → AreSound p key d
        → AreSound p key (make_room fuel p key role nbytes protected d).evictions
    unfolding make_room
    make_room-AreSound protected zero role nbytes d s = s
    make_room-AreSound protected (suc fuel) role nbytes d s =
        elim (Option-cases (capacity_victim p key protected (evicted_keys d))) [
          | inl e ↦ ground (arith, e, s)
          | inr (v, e) ↦
              let found = capacity_victim_sound p w key protected (evicted_keys d) v e in
              let rest =
                make_room-AreSound protected fuel role nbytes (add_evict key d (some v) capacity)
                  (add_evict-AreSound p key d v capacity found.3 s) in
              ground (arith, e, s, rest)
        ]

    -- In a well-formed policy, the evictions of every plan of `plan_admission` are of distinct keys that
    -- are resident and are not the key to be admitted.
    pub plan_admission-AreSound :
        (role : String) (nbytes : ℕ) (predecessor : Option (CacheKey N))
        → AreSound p key (plan_admission p key role nbytes predecessor).evictions
    unfolding plan_room lineage_evictions
    plan_admission-AreSound role nbytes predecessor =
        admission_cases p key role nbytes predecessor (λ plan. AreSound p key plan.evictions)
          (λ _. AreSound-nil p key)
          (λ _ _ _. make_room-AreSound _ _ role nbytes _ (
            apply_pin_quota-AreSound role _ (
              replace_active-AreSound role predecessor _
                (rotate_stable-AreSound role [] (AreSound-nil p key)))))
