-- ===== src/Cache/Policy/Invariant.antt =====
-- The well-formed states of `WorkingSetPolicy`, and the operations that keep them.
use mathlib.Core.List.{foldl}
use statebraid.Prelude.{
  ℕ, ◌≡◌, Bool, true, false, List, [], ◌∷◌, Option, none, some, Hashable, String, ◌==◌,
  string_hashable, contains, arith, if◌then◌else◌, Option-cases, inl, inr,
}
use statebraid.Dict.{get, remove, IsDict, total}
use statebraid.Dict.Laws.{
  get-put, get-remove, put-IsDict, remove-IsDict, total-remove, total-put_new, remove_absent,
}
use statebraid.Cache.Key.{CacheKey, key_hashable}
use statebraid.Cache.Policy.{
  Config, PolicySnapshot, EntryState, Eviction, EvictionReason, AdmissionPlan,
}
use statebraid.Cache.Policy.Commit.{
  remove_entry, commit_eviction, count_eviction, insert_entry, new_entry, settle_candidate,
  commit_state, commit_trim_eviction,
}
use statebraid.Cache.Policy.Listing.{listed, get-unlist, get-enlist, unlist-IsDict, enlist-IsDict}

abbrev pub has_role : {N : Type 0} → String → Option (EntryState N) → Bool
has_role role none = false
has_role role (some e) = e.role == role

-- What is stored under a key: the key itself, and the pin that its role gives.
abbrev pub Stored : {N : Type 0} → Config → CacheKey N → Option (EntryState N) → Type 0
Stored config k none = Unit {0}
Stored config k (some e) = (e.key ≡ k) × (e.pinned ≡ contains e.role config.pin_roles)

abbrev pub size : {N : Type 0} → EntryState N → ℕ
size e = e.nbytes

module _ {N : Type 0} ⦃h : Hashable N⦄ where
  -- The two dictionaries have distinct keys, a bucket lists exactly the entries of its role, the
  -- byte counter is the sum over the entries, and every entry knows its key and its pin.
  pub record IsWellFormed (config : Config) (s : PolicySnapshot N) : Type 0 where
    pub distinct : IsDict s.entries
    pub indexed : IsDict s.buckets
    pub bucketed :
        (role : String) (k : CacheKey N)
        → listed (get role s.buckets) k ≡ has_role role (get k s.entries)
    pub accounted : s.nbytes ≡ total size s.entries
    pub stored : (k : CacheKey N) → Stored config k (get k s.entries)

  -- Where a removed entry leaves the other entries, and the state without it.
  pub entries-remove_entry :
      (k : CacheKey N) (s : PolicySnapshot N) → (remove_entry k s).entries ≡ remove k s.entries
  unfolding remove_entry
  entries-remove_entry k s = elim (Option-cases (get k s.entries)) [
    | inl e ↦ ground (arith, e, remove_absent k s.entries)
    | inr (x, e) ↦ ground (arith, e)
  ]

  module _ (config : Config) where
    remove_entry-IsWellFormed :
        (k : CacheKey N) (s : PolicySnapshot N)
        → IsWellFormed config s
        → IsWellFormed config (remove_entry k s)
    unfolding remove_entry
    remove_entry-IsWellFormed k s w = elim (Option-cases (get k s.entries)) [
      | inl e ↦ rw (e, remove_entry) w
      | inr (x, e) ↦
          rw (e, remove_entry)
            (record {
              distinct = remove-IsDict k s.entries w.distinct;
              indexed = unlist-IsDict k x.role s.buckets w.indexed;
              bucketed = λ role j. ground (
                arith,
                e,
                get-unlist k j x.role role s.buckets,
                get-remove j k s.entries,
                w.bucketed role j,
              );
              accounted = ground (arith, e, w.accounted, total-remove size k s.entries w.distinct);
              stored = λ j. ground (arith, get-remove j k s.entries, w.stored j);
            })
    ]

    -- The invariant reads three fields only.
    pub same-IsWellFormed :
        (s t : PolicySnapshot N)
        → t.entries ≡ s.entries
        → t.buckets ≡ s.buckets
        → t.nbytes ≡ s.nbytes
        → IsWellFormed config s
        → IsWellFormed config t
    same-IsWellFormed s t e b n w = record {
      distinct = rw e w.distinct;
      indexed = rw b w.indexed;
      bucketed = rw (e, b) w.bucketed;
      accounted = rw (e, n) w.accounted;
      stored = rw e w.stored;
    }

    count_eviction-IsWellFormed :
        (reason : EvictionReason) (x : EntryState N) (s : PolicySnapshot N)
        → IsWellFormed config s
        → IsWellFormed config (count_eviction reason x s)
    unfolding count_eviction
    count_eviction-IsWellFormed reason x s w =
        same-IsWellFormed s (count_eviction reason x s) (ground arith) (ground arith) (ground arith)
          w

    commit_eviction-IsWellFormed :
        (s : PolicySnapshot N) (v : Eviction N)
        → IsWellFormed config s
        → IsWellFormed config (commit_eviction s v)
    unfolding commit_eviction
    commit_eviction-IsWellFormed s v w = elim (Option-cases (get v.key s.entries)) [
      | inl e ↦ rw (e, commit_eviction) (remove_entry-IsWellFormed v.key s w)
      | inr (x, e) ↦
          rw (e, commit_eviction)
            (count_eviction-IsWellFormed v.reason x _ (remove_entry-IsWellFormed v.key s w))
    ]

    commit_evictions-IsWellFormed :
        (s : PolicySnapshot N) (vs : List (Eviction N))
        → IsWellFormed config s
        → IsWellFormed config (foldl commit_eviction s vs)
    commit_evictions-IsWellFormed s [] w = w
    commit_evictions-IsWellFormed s (v ∷ vs) w =
        commit_evictions-IsWellFormed (commit_eviction s v) vs (commit_eviction-IsWellFormed s v w)

    insert_entry-IsWellFormed :
        (plan : AdmissionPlan N) (s : PolicySnapshot N)
        → get plan.key s.entries ≡ none
        → IsWellFormed config s
        → IsWellFormed config (insert_entry config plan s)
    unfolding insert_entry
    insert_entry-IsWellFormed plan s e w = record {
      distinct = put-IsDict plan.key _ s.entries w.distinct;
      indexed = enlist-IsDict plan.key plan.role s.buckets w.indexed;
      bucketed = λ role j. ground (
        arith,
        e,
        get-enlist plan.key j plan.role role s.buckets,
        get-put j plan.key (new_entry config plan) s.entries,
        w.bucketed role j,
      );
      accounted =
          ground
            (arith, w.accounted, total-put_new size plan.key (new_entry config plan) s.entries e);
      stored =
          λ j. ground (arith, get-put j plan.key (new_entry config plan) s.entries, w.stored j);
    }

    settle_candidate-IsWellFormed :
        (plan : AdmissionPlan N) (s : PolicySnapshot N)
        → IsWellFormed config s
        → IsWellFormed config (settle_candidate plan s)
    unfolding settle_candidate
    settle_candidate-IsWellFormed plan s w =
        same-IsWellFormed s (settle_candidate plan s) (ground arith) (ground arith) (ground arith) w

    get-remove_entry_self :
        (k : CacheKey N) (s : PolicySnapshot N) → get k (remove_entry k s).entries ≡ none
    get-remove_entry_self k s = rw entries-remove_entry (ground (arith, get-remove k k s.entries))

    either-IsWellFormed :
        (b : Bool) (s t : PolicySnapshot N)
        → IsWellFormed config s
        → IsWellFormed config t
        → IsWellFormed config (if b then s else t)
    either-IsWellFormed true s t v w = v
    either-IsWellFormed false s t v w = w

    -- Committing any plan whatever keeps the state well formed.
    pub commit_state-IsWellFormed :
        (plan : AdmissionPlan N) (s : PolicySnapshot N)
        → IsWellFormed config s
        → IsWellFormed config (commit_state config plan s)
    unfolding commit_state
    commit_state-IsWellFormed plan s w =
        either-IsWellFormed plan.accepted _ s
          (settle_candidate-IsWellFormed plan _ (
            insert_entry-IsWellFormed plan _ (get-remove_entry_self plan.key _) (
              remove_entry-IsWellFormed plan.key _
                (commit_evictions-IsWellFormed s plan.evictions w))))
          w

    commit_trim_eviction-IsWellFormed :
        (s : PolicySnapshot N) (v : Eviction N)
        → IsWellFormed config s
        → IsWellFormed config (commit_trim_eviction s v)
    unfolding commit_trim_eviction
    commit_trim_eviction-IsWellFormed s v w = elim (Option-cases (get v.key s.entries)) [
      | inl e ↦ rw (e, commit_trim_eviction) (remove_entry-IsWellFormed v.key s w)
      | inr (x, e) ↦
          same-IsWellFormed (remove_entry v.key s) (commit_trim_eviction s v) (ground (arith, e))
            (ground (arith, e)) (ground (arith, e)) (remove_entry-IsWellFormed v.key s w)
    ]

    pub commit_trims-IsWellFormed :
        (s : PolicySnapshot N) (vs : List (Eviction N))
        → IsWellFormed config s
        → IsWellFormed config (foldl commit_trim_eviction s vs)
    commit_trims-IsWellFormed s [] w = w
    commit_trims-IsWellFormed s (v ∷ vs) w =
        commit_trims-IsWellFormed (commit_trim_eviction s v) vs
          (commit_trim_eviction-IsWellFormed s v w)
