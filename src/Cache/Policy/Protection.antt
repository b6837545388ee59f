-- ===== src/Cache/Policy/Protection.antt =====
-- A working set that fits is not evicted for capacity.
use statebraid.Prelude.{
  ℕ, zero, suc, ◌≡◌, refl, true, false, not, ◌||◌, List, [], ◌∷◌, ◌++◌, Option, none, some,
  Hashable, String, ◌==◌, string_hashable, contains, contains-append, contains-add, contains-select,
  add, select, arith, Bool-cases, Option-cases, inl, inr, ==_refl, first_outside_complete,
  contains-foldl-add,
}
use statebraid.Dict.{Dict, get, keep, IsDict}
use statebraid.Dict.Laws.{get-keep, length-eq-total}
use statebraid.Cache.Key.{CacheKey, key_hashable}
use statebraid.Cache.Policy.{WorkingSetPolicy, Eviction, capacity, keys_for_role}
use statebraid.Cache.Policy.Victims.{
  working_set_fits, working_keys, ordered_keys, next_victim, projected_over_limit, projected_state,
}
use statebraid.Cache.Policy.Plan.{
  make_room, capacity_victim, add_evict, evicted_keys, lineage_evictions, plan_admission, plan_room,
  protected_keys, admission_cases,
}
use statebraid.Cache.Policy.Invariant.{IsWellFormed}
use statebraid.Cache.Policy.Lookup.{next_victim_sound, ordered_keys_complete}
use statebraid.Cache.Policy.Room.{contains-add_evict}
use statebraid.Cache.Policy.WorkingSet.{Covers, weigh_all}

keep-IsDict :
    {K V : Type 0} ⦃h : Hashable K⦄ (gone : List K) (m : Dict K V) → IsDict m → IsDict (keep gone m)
unfolding keep get
keep-IsDict gone [] d = tt
keep-IsDict gone ((k, v) ∷ m) d = ground (arith, keep-IsDict gone m d.1, get-keep k gone m, d.0)

module _ {N : Type 0} ⦃h : Hashable N⦄ (p : WorkingSetPolicy N) (w : IsWellFormed p.config p.state)
    (key : CacheKey N) (nbytes : ℕ) (gone protected : List (CacheKey N)) where
  -- The evictions so far: those before the loop, and none of the protected keys.
  record Spares (d : List (Eviction N)) : Type 0 where
    pub includes : (k : CacheKey N) → contains k gone ≡ true → contains k (evicted_keys d) ≡ true
    pub spares :
        (k : CacheKey N)
        → contains k protected ≡ true
        → contains k gone ≡ false
        → contains k (evicted_keys d) ≡ false

  -- Where all keys out of the race are protected, the sum covers what is kept.
  kept-Covers :
      (evicted : List (CacheKey N))
      → ((k : CacheKey N) → contains k gone ≡ true → contains k evicted ≡ true)
      → next_victim p (evicted ++ (protected ++ key ∷ [])) ≡ none
      → Covers p key nbytes gone protected (keep (key ∷ evicted) p.entries)
  unfolding contains next_victim
  kept-Covers evicted sub e = record {
    listed = λ k v found.
        let stays = get-keep k (key ∷ evicted) p.entries in
        let there : get k p.entries ≡ some v = ground (arith, stays, found) in
        let excluded =
          first_outside_complete (evicted ++ (protected ++ key ∷ [])) (ordered_keys p) k e
            (ordered_keys_complete p w k v there) in
        ground (
          arith,
          stays,
          found,
          excluded,
          contains-append k evicted (protected ++ key ∷ []),
          contains-append k protected (key ∷ []),
        );
    stays = λ k v found.
        let stays = get-keep k (key ∷ evicted) p.entries in ground (arith, stays, found, sub k);
  }

  module _ (has_key : contains key protected ≡ true)
      (fits : working_set_fits p protected key nbytes gone ≡ true) where
    room_made :
        (evicted : List (CacheKey N))
        → ((k : CacheKey N) → contains k gone ≡ true → contains k evicted ≡ true)
        → next_victim p (evicted ++ (protected ++ key ∷ [])) ≡ none
        → projected_over_limit p key nbytes evicted ≡ false
    unfolding working_set_fits projected_over_limit projected_state
    room_made evicted sub e =
        let kept = keep (key ∷ evicted) p.entries in
        let (x, y) =
          weigh_all p key nbytes gone protected kept 0 0
            (keep-IsDict (key ∷ evicted) p.entries w.distinct) (kept-Covers evicted sub e) in
        ground (arith, x, y, has_key, fits, length-eq-total kept)

    unprotected :
        (evicted : List (CacheKey N)) (v : CacheKey N)
        → ((k : CacheKey N) → contains k gone ≡ true → contains k evicted ≡ true)
        → projected_over_limit p key nbytes evicted ≡ true
        → capacity_victim p key protected evicted ≡ some v
        → contains v protected ≡ false
    unfolding capacity_victim
    unprotected evicted v sub over e =
        elim (Option-cases (next_victim p (evicted ++ (protected ++ key ∷ [])))) [
          | inl stuck ↦ absurd (ground (arith, room_made evicted sub stuck, over))
          | inr (u, found) ↦ ground (
            arith,
            e,
            found,
            next_victim_sound p w (evicted ++ (protected ++ key ∷ [])) u found,
            contains-append u evicted (protected ++ key ∷ []),
            contains-append u protected (key ∷ []),
          )
        ]

    add-Spares :
        (d : List (Eviction N)) (v : CacheKey N)
        → contains v protected ≡ false
        → Spares d
        → Spares (add_evict key d (some v) capacity)
    add-Spares d v free s = record {
      includes = λ k m. ground (arith, contains-add_evict key d v capacity k, s.includes k m);
      spares = λ k m n. ground (arith, contains-add_evict key d v capacity k, s.spares k m n, free);
    }

    make_room-Spares :
        (fuel : ℕ) (role : String) (d : List (Eviction N))
        → Spares d
        → Spares (make_room fuel p key role nbytes protected d).evictions
    unfolding make_room
    make_room-Spares zero role d s = s
    make_room-Spares (suc fuel) role d s =
        elim (Bool-cases (projected_over_limit p key nbytes (evicted_keys d))) [
          | inr fine ↦ rw (fine, make_room) s
          | inl over ↦ elim (Option-cases (capacity_victim p key protected (evicted_keys d))) [
            | inl stuck ↦ rw (over, stuck, make_room) s
            | inr (v, found) ↦
                rw (over, found, make_room)
                  (make_room-Spares fuel role (add_evict key d (some v) capacity)
                    (add-Spares d v (unprotected (evicted_keys d) v s.includes over found) s))
          ]
        ]

module _ {N : Type 0} ⦃h : Hashable N⦄ (p : WorkingSetPolicy N) (key : CacheKey N) (role : String)
    (predecessor : Option (CacheKey N)) where
  -- The keys that lineage and pin quota evict.
  abbrev pub replaced : List (CacheKey N)
  replaced = evicted_keys (lineage_evictions p key role predecessor)

  -- The working set that is left, with the new key.
  abbrev pub working_set : List (CacheKey N)
  working_set = add key (select (λ k. not (contains k replaced)) (working_keys p))

module _ {N : Type 0} ⦃h : Hashable N⦄ (p : WorkingSetPolicy N) (w : IsWellFormed p.config p.state)
    (key : CacheKey N) (role : String) (nbytes : ℕ) (predecessor : Option (CacheKey N)) where
  abbrev gone : List (CacheKey N)
  gone = replaced p key role predecessor

  abbrev remaining : List (CacheKey N)
  remaining = working_set p key role predecessor

  all_protected :
      (role == "stable" || role == "active") ≡ true
      → working_set_fits p remaining key nbytes gone ≡ true
      → protected_keys p key role nbytes gone ≡ remaining
  unfolding protected_keys
  all_protected r fits = ground (arith, r, fits)

  has_key : contains key remaining ≡ true
  has_key = ground (
    arith,
    contains-add key key (select (λ k. not (contains k gone)) (working_keys p)),
    ==_refl key,
  )

  room-Spares :
      (role == "stable" || role == "active") ≡ true
      → working_set_fits p remaining key nbytes gone ≡ true
      → Spares p w key nbytes gone remaining (plan_room p key role nbytes predecessor).evictions
  unfolding plan_room
  room-Spares r fits =
      rw (all_protected r fits, plan_room)
        (make_room-Spares p w key nbytes gone remaining has_key fits _ role _
          (record { includes = λ k m. m; spares = λ k m n. n }))

  -- In a well-formed policy, if a stable or active request and what lineage and pin quota leave of the
  -- stable and active entries fit the limits together, then the plan evicts none of those entries.
  pub working_set_kept :
      (role == "stable" || role == "active") ≡ true
      → working_set_fits p remaining key nbytes gone ≡ true
      → (k : CacheKey N)
      → (contains k (keys_for_role p "stable") || contains k (keys_for_role p "active")) ≡ true
      → contains k gone ≡ false
      → contains k (evicted_keys (plan_admission p key role nbytes predecessor).evictions) ≡ false
  unfolding working_keys contains
  working_set_kept r fits k working stays =
      admission_cases p key role nbytes predecessor
        (λ plan. contains k (evicted_keys plan.evictions) ≡ false) (λ reason. refl)
        (λ _ _ _.
          (room-Spares r fits).spares k
            (ground (
              arith,
              contains-add k key (select (λ k. not (contains k gone)) (working_keys p)),
              contains-select (λ k. not (contains k gone)) k (working_keys p),
              contains-foldl-add k [] (keys_for_role p "stable" ++ keys_for_role p "active"),
              contains-append k (keys_for_role p "stable") (keys_for_role p "active"),
              working,
              stays,
            ))
            stays)
