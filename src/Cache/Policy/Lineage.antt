-- ===== src/Cache/Policy/Lineage.antt =====
-- The lineage rules of `plan_admission`: a stable admission rotates the stable entries out, and an
-- active one replaces its predecessor.
use mathlib.Core.List.{foldl}
use statebraid.Prelude.{
  ℕ, zero, suc, ◌≡◌, true, false, List, [], ◌∷◌, Option, none, some, Hashable, String, ◌==◌,
  ==_refl, string_hashable, contains, arith, Bool-cases, Option-cases, inl, inr,
}
use statebraid.Dict.{get}
use statebraid.Cache.Key.{CacheKey, key_hashable, is_extended_by}
use statebraid.Cache.Policy.{
  WorkingSetPolicy, EntryState, Eviction, EvictionReason, capacity, stable_rotate, active_successor,
  pin_quota, keys_for_role,
}
use statebraid.Cache.Policy.Victims.{oldest_pin}
use statebraid.Cache.Policy.Plan.{
  make_room, capacity_victim, add_evict, evicted_keys, rotate_stable, replace_active,
  apply_pin_quota, lineage_evictions, plan_admission, plan_room, admission_cases,
}
use statebraid.Cache.Policy.Commit.{commit}
use statebraid.Cache.Policy.Invariant.{IsWellFormed, has_role}
use statebraid.Cache.Policy.Lookup.{contains-keys_for_role}
use statebraid.Cache.Policy.Room.{contains-add_evict}
use statebraid.Cache.Policy.Admission.{get-commit, plan_fits}

module _ {N : Type 0} ⦃h : Hashable N⦄ (p : WorkingSetPolicy N) (key a : CacheKey N) where
  add_evict_keeps :
      (d : List (Eviction N)) (o : Option (CacheKey N)) (reason : EvictionReason)
      → contains a (evicted_keys d) ≡ true
      → contains a (evicted_keys (add_evict key d o reason)) ≡ true
  unfolding add_evict
  add_evict_keeps d none reason m = m
  add_evict_keeps d (some c) reason m = ground (arith, m, contains-add_evict key d c reason a)

  rotation_keeps :
      (ks : List (CacheKey N)) (d : List (Eviction N))
      → contains a (evicted_keys d) ≡ true
      → contains a (evicted_keys (foldl (λ d k. add_evict key d (some k) stable_rotate) d ks))
        ≡ true
  rotation_keeps [] d m = m
  rotation_keeps (k ∷ ks) d m = rotation_keeps ks _ (add_evict_keeps d (some k) stable_rotate m)

  rotation_evicts :
      (ks : List (CacheKey N)) (d : List (Eviction N))
      → (key == a) ≡ false
      → contains a ks ≡ true
      → contains a (evicted_keys (foldl (λ d k. add_evict key d (some k) stable_rotate) d ks))
        ≡ true
  unfolding contains
  rotation_evicts [] d ne m = cc
  rotation_evicts (k ∷ ks) d ne m = elim (Bool-cases (k == a)) [
    | inl e ↦ rotation_keeps ks _ (ground (arith, e, contains-add_evict key d k stable_rotate a))
    | inr e ↦ rotation_evicts ks _ ne (ground (arith, e))
  ]

  replace_active_keeps :
      (role : String) (o : Option (CacheKey N)) (d : List (Eviction N))
      → contains a (evicted_keys d) ≡ true
      → contains a (evicted_keys (replace_active p key role o d)) ≡ true
  unfolding replace_active
  replace_active_keeps role none d m = m
  replace_active_keeps role (some c) d m =
      ground (arith, m, add_evict_keeps d (some c) active_successor m)

  apply_pin_quota_keeps :
      (role : String) (d : List (Eviction N))
      → contains a (evicted_keys d) ≡ true
      → contains a (evicted_keys (apply_pin_quota p key role d)) ≡ true
  unfolding apply_pin_quota
  apply_pin_quota_keeps role d m =
      ground (arith, m, add_evict_keeps d (oldest_pin p (evicted_keys d)) pin_quota m)

  make_room_keeps :
      (protected : List (CacheKey N)) (fuel : ℕ) (role : String) (nbytes : ℕ)
      (d : List (Eviction N))
      → contains a (evicted_keys d) ≡ true
      → contains a (evicted_keys (make_room fuel p key role nbytes protected d).evictions) ≡ true
  unfolding make_room
  make_room_keeps protected zero role nbytes d m = m
  make_room_keeps protected (suc fuel) role nbytes d m =
      elim (Option-cases (capacity_victim p key protected (evicted_keys d))) [
        | inl e ↦ ground (arith, e, m)
        | inr (v, e) ↦ ground (
          arith,
          e,
          m,
          make_room_keeps protected fuel role nbytes (add_evict key d (some v) capacity)
              (add_evict_keeps d (some v) capacity m),
        )
      ]

  -- What is planned before the loop stays in every accepted plan.
  lineage_kept :
      (role : String) (nbytes : ℕ) (o : Option (CacheKey N))
      → contains a (evicted_keys (lineage_evictions p key role o)) ≡ true
      → (plan_admission p key role nbytes o).accepted ≡ true
      → contains a (evicted_keys (plan_admission p key role nbytes o).evictions) ≡ true
  unfolding plan_room
  lineage_kept role nbytes o m =
      admission_cases p key role nbytes o
        (λ plan. plan.accepted ≡ true → contains a (evicted_keys plan.evictions) ≡ true)
        (λ reason e. cc)
        (λ hs hm hb e. make_room_keeps _ _ role nbytes (lineage_evictions p key role o) m)

module _ {N : Type 0} ⦃h : Hashable N⦄ (p : WorkingSetPolicy N)
    (w : IsWellFormed p.config p.state) where
  module _ (key : CacheKey N) (nbytes : ℕ) (predecessor : Option (CacheKey N)) where
    stable_evicted :
        (j : CacheKey N)
        → (key == j) ≡ false
        → has_role "stable" (get j p.entries) ≡ true
        → contains j (evicted_keys (lineage_evictions p key "stable" predecessor)) ≡ true
    unfolding lineage_evictions rotate_stable
    stable_evicted j ne r = apply_pin_quota_keeps p key j "stable" _ (
        replace_active_keeps p key j "stable" predecessor _ (
          ground (
            arith,
            rotation_evicts p key j (keys_for_role p "stable") [] ne
                (ground (arith, contains-keys_for_role p w "stable" j)),
          )))

    -- After an accepted stable admission to a well-formed policy, whatever the predecessor, the key
    -- that was admitted holds a stable entry, and no other key does.
    pub one_stable_entry :
        (plan_admission p key "stable" nbytes predecessor).accepted ≡ true
        → (j : CacheKey N)
        → has_role "stable"
            (get j (commit p (plan_admission p key "stable" nbytes predecessor)).entries)
          ≡ (key == j)
    one_stable_entry e j =
        let plan = plan_admission p key "stable" nbytes predecessor in
        let fits = plan_fits p key "stable" nbytes predecessor w e in
        let kept = λ (r : has_role "stable" (get j p.entries) ≡ true) (ne : (key == j) ≡ false).
          lineage_kept p key j "stable" nbytes predecessor (stable_evicted j ne r) e in
        elim (Bool-cases (key == j)) [
          | inl same ↦ ground (arith, same, get-commit p plan j e, fits)
          | inr other ↦ elim (Bool-cases (has_role "stable" (get j p.entries))) [
            | inl r ↦ ground (arith, other, get-commit p plan j e, fits, kept r other)
            | inr r ↦ ground (arith, other, r, get-commit p plan j e, fits)
          ]
        ]

  module _ (key : CacheKey N) (nbytes : ℕ) where
    extension_is_new : (old : CacheKey N) → is_extended_by old key ≡ true → (key == old) ≡ false
    unfolding is_extended_by
    extension_is_new old ext = ground arith

    predecessor_evicted :
        (old : CacheKey N) (e : EntryState N)
        → get old p.entries ≡ some e
        → e.role ≡ "active"
        → is_extended_by old key ≡ true
        → contains old (evicted_keys (lineage_evictions p key "active" (some old))) ≡ true
    unfolding lineage_evictions replace_active
    predecessor_evicted old e found r ext =
        let d = rotate_stable p key "active" [] in
        apply_pin_quota_keeps p key old "active" _ (
          ground (
            arith,
            found,
            r,
            ext,
            ==_refl {A = String} "active",
            extension_is_new old ext,
            contains-add_evict key d old active_successor old,
          ))

    -- In a well-formed policy, an accepted active admission that extends the tokens of a resident
    -- active predecessor in the same namespace leaves the predecessor's key empty.
    pub predecessor_replaced :
        (old : CacheKey N) (e : EntryState N)
        → get old p.entries ≡ some e
        → e.role ≡ "active"
        → is_extended_by old key ≡ true
        → (plan_admission p key "active" nbytes (some old)).accepted ≡ true
        → get old (commit p (plan_admission p key "active" nbytes (some old))).entries ≡ none
    predecessor_replaced old e found r ext acc =
        let plan = plan_admission p key "active" nbytes (some old) in
        ground (
          arith,
          plan_fits p key "active" nbytes (some old) w acc,
          extension_is_new old ext,
          lineage_kept p key old "active" nbytes (some old) (predecessor_evicted old e found r ext)
              acc,
          get-commit p plan old acc,
        )
