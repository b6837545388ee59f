-- ===== src/Cache/Policy/Lookup.antt =====
-- What a well-formed policy says of its ordered keys and of the victims that it finds.
use statebraid.Prelude.{
  ◌≡◌, Bool, true, false, List, [], ◌∷◌, Option, none, some, Hashable, String, string_hashable,
  contains, contains-append, contains-flat_map, contains-sort_by, flat_map, first_outside_sound,
  first_outside_complete, arith, Option-cases, inl, inr,
}
use statebraid.Dict.{get, keep, keys}
use statebraid.Dict.Laws.{contains-keys, keep_all_gone}
use statebraid.Cache.Key.{CacheKey, key_hashable}
use statebraid.Cache.Policy.{WorkingSetPolicy, EntryState, keys_for_role}
use statebraid.Cache.Policy.Victims.{ordered_keys, next_victim, oldest_pin}
use statebraid.Cache.Policy.Invariant.{IsWellFormed, has_role}

abbrev pub is_some : {A : Type 0} → Option A → Bool
is_some none = false
is_some (some _) = true

module _ {N : Type 0} ⦃h : Hashable N⦄ (p : WorkingSetPolicy N)
    (w : IsWellFormed p.config p.state) where
  pub contains-keys_for_role :
      (role : String) (k : CacheKey N)
      → contains k (keys_for_role p role) ≡ has_role role (get k p.entries)
  unfolding keys_for_role contains
  contains-keys_for_role role k = ground (arith, w.bucketed role k)

  bucket_of :
      (k : CacheKey N) (e : EntryState N)
      → get k p.entries ≡ some e
      → contains e.role (keys p.buckets) ≡ true
  bucket_of k e found = elim (Option-cases (get e.role p.buckets)) [
    | inl missing ↦ ground (arith, missing, w.bucketed e.role k)
    | inr (bucket, present) ↦ contains-keys e.role bucket p.buckets present
  ]

  -- Every resident key is among the ordered keys.
  pub ordered_keys_complete :
      (k : CacheKey N) (e : EntryState N)
      → get k p.entries ≡ some e
      → contains k (ordered_keys p) ≡ true
  unfolding ordered_keys
  ordered_keys_complete k e found =
      contains-flat_map (keys_for_role p) e.role k _ (rw contains-sort_by (bucket_of k e found))
        (ground (arith, contains-keys_for_role e.role k))

  -- Every key in a bucket is resident.
  pub resident_of_roles :
      (k : CacheKey N) (roles : List String)
      → contains k (flat_map (keys_for_role p) roles) ≡ true
      → is_some (get k p.entries) ≡ true
  unfolding flat_map contains
  resident_of_roles k [] m = cc
  resident_of_roles k (r ∷ rs) m = ground (
    arith,
    contains-append k (keys_for_role p r) (flat_map (keys_for_role p) rs),
    contains-keys_for_role r k,
    resident_of_roles k rs,
  )

  pub next_victim_sound :
      (excluding : List (CacheKey N)) (v : CacheKey N)
      → next_victim p excluding ≡ some v
      → (contains v excluding ≡ false)
        × (contains v (ordered_keys p) ≡ true)
        × (is_some (get v p.entries) ≡ true)
  unfolding next_victim ordered_keys
  next_victim_sound excluding v e =
      let found = first_outside_sound excluding (ordered_keys p) v e in
      (found.0, found.1, resident_of_roles v _ found.1)

  pub oldest_pin_sound :
      (excluding : List (CacheKey N)) (v : CacheKey N)
      → oldest_pin p excluding ≡ some v
      → (contains v excluding ≡ false) × (is_some (get v p.entries) ≡ true)
  unfolding oldest_pin
  oldest_pin_sound excluding v e =
      let found = first_outside_sound excluding _ v e in (found.0, resident_of_roles v _ found.1)

  -- Where no victim is left, every resident key is excluded.
  pub nothing_kept :
      (excluding gone : List (CacheKey N))
      → next_victim p excluding ≡ none
      → ((k : CacheKey N) → contains k excluding ≡ true → contains k gone ≡ true)
      → keep gone p.entries ≡ []
  unfolding next_victim
  nothing_kept excluding gone e sub =
      keep_all_gone gone p.entries
        (λ k v found.
          sub k (
            first_outside_complete excluding (ordered_keys p) k e
              (ordered_keys_complete k v found)))
        w.distinct
