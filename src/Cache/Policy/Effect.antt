-- ===== src/Cache/Policy/Effect.antt =====
-- What a commit leaves of the entries: the exact dictionary, its size and its bytes.
use mathlib.Core.List.{foldl}
use statebraid.Prelude.{
  ◌+◌, ◌≡◌, refl, ◌∙◌, ap, sym, true, List, [], ◌∷◌, none, Hashable, string_hashable, contains,
  length, arith, if_true,
}
use statebraid.Dict.{Dict, get, put, remove, keep, total}
use statebraid.Dict.Laws.{
  get-keep, keep-nil, remove-keep, keep-remove, total-put_new, length-eq-total,
}
use statebraid.Cache.Key.{CacheKey, key_hashable}
use statebraid.Cache.Policy.{
  WorkingSetPolicy, PolicySnapshot, Config, EntryState, Eviction, AdmissionPlan, TrimPlan,
}
use statebraid.Cache.Policy.Plan.{evicted_keys}
use statebraid.Cache.Policy.Commit.{
  remove_entry, commit_eviction, count_eviction, commit_trim_eviction, insert_entry, new_entry,
  settle_candidate, commit_state, commit_trim,
}
use statebraid.Cache.Policy.Invariant.{entries-remove_entry, size}

module _ {N : Type 0} ⦃h : Hashable N⦄ where
  entries-commit_eviction :
      (s : PolicySnapshot N) (v : Eviction N)
      → (commit_eviction s v).entries ≡ remove v.key s.entries
  unfolding commit_eviction count_eviction
  entries-commit_eviction s v = ground (arith, entries-remove_entry v.key s)

  entries-commit_trim_eviction :
      (s : PolicySnapshot N) (v : Eviction N)
      → (commit_trim_eviction s v).entries ≡ remove v.key s.entries
  unfolding commit_trim_eviction
  entries-commit_trim_eviction s v = ground (arith, entries-remove_entry v.key s)

  entries-commit_evictions :
      (s : PolicySnapshot N) (vs : List (Eviction N))
      → (foldl commit_eviction s vs).entries ≡ keep (evicted_keys vs) s.entries
  entries-commit_evictions s [] = sym (keep-nil s.entries)
  entries-commit_evictions s (v ∷ vs) =
      entries-commit_evictions (commit_eviction s v) vs
      ∙ ap (keep (evicted_keys vs)) (entries-commit_eviction s v)
      ∙ remove-keep v.key (evicted_keys vs) s.entries

  entries-commit_trim :
      (s : PolicySnapshot N) (vs : List (Eviction N))
      → (foldl commit_trim_eviction s vs).entries ≡ keep (evicted_keys vs) s.entries
  entries-commit_trim s [] = sym (keep-nil s.entries)
  entries-commit_trim s (v ∷ vs) =
      entries-commit_trim (commit_trim_eviction s v) vs
      ∙ ap (keep (evicted_keys vs)) (entries-commit_trim_eviction s v)
      ∙ remove-keep v.key (evicted_keys vs) s.entries

  entries-settle_candidate :
      (plan : AdmissionPlan N) (s : PolicySnapshot N)
      → (settle_candidate plan s).entries ≡ s.entries
  unfolding settle_candidate
  entries-settle_candidate plan s = ground arith

  entries-insert_entry :
      (config : Config) (plan : AdmissionPlan N) (s : PolicySnapshot N)
      → (insert_entry config plan s).entries ≡ put plan.key (new_entry config plan) s.entries
  unfolding insert_entry
  entries-insert_entry config plan s = refl

  -- The entries after an accepted plan.
  pub entries-commit_state :
      (config : Config) (plan : AdmissionPlan N) (s : PolicySnapshot N)
      → plan.accepted ≡ true
      → (commit_state config plan s).entries
        ≡ put plan.key
            (new_entry config plan)
            (keep (plan.key ∷ evicted_keys plan.evictions) s.entries)
  unfolding commit_state
  entries-commit_state config plan s e =
      let evicted = foldl commit_eviction s plan.evictions in
      let removed = remove_entry plan.key evicted in
      let inserted = insert_entry config plan removed in
      ap (λ (t : PolicySnapshot N). t.entries)
        (if_true plan.accepted (settle_candidate plan inserted) s e)
      ∙ entries-settle_candidate plan inserted
      ∙ entries-insert_entry config plan removed
      ∙ ap (put plan.key (new_entry config plan)) (
          entries-remove_entry plan.key evicted
          ∙ ap (remove plan.key) (entries-commit_evictions s plan.evictions)
          ∙ keep-remove plan.key (evicted_keys plan.evictions) s.entries)

  pub entries_after_trim :
      (p : WorkingSetPolicy N) (plan : TrimPlan N)
      → (commit_trim p plan).entries ≡ keep (evicted_keys plan.evictions) p.entries
  unfolding commit_trim
  entries_after_trim p plan = entries-commit_trim p.state plan.evictions

  get_kept :
      (k : CacheKey N) (gone : List (CacheKey N)) (m : Dict (CacheKey N) (EntryState N))
      → get k (keep (k ∷ gone) m) ≡ none
  unfolding contains
  get_kept k gone m = ground (arith, get-keep k (k ∷ gone) m)

  -- How many entries and bytes an accepted plan leaves.
  pub totals-commit_state :
      (config : Config) (plan : AdmissionPlan N) (s : PolicySnapshot N)
      → plan.accepted ≡ true
      → let kept = keep (plan.key ∷ evicted_keys plan.evictions) s.entries in
        (length (commit_state config plan s).entries ≡ length kept + 1)
        × (total size (commit_state config plan s).entries ≡ total size kept + plan.nbytes)
  totals-commit_state config plan s e =
      let kept = keep (plan.key ∷ evicted_keys plan.evictions) s.entries in
      let absent = get_kept plan.key (evicted_keys plan.evictions) s.entries in
      (
        ap length (entries-commit_state config plan s e)
            ∙ length-eq-total _
            ∙ total-put_new (λ _. 1) plan.key (new_entry config plan) kept absent
            ∙ ap (λ n. n + 1) (sym (length-eq-total kept)),
        ap (total size) (entries-commit_state config plan s e)
            ∙ total-put_new size plan.key (new_entry config plan) kept absent,
      )
