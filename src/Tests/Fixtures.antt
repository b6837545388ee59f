-- ===== src/Tests/Fixtures.antt =====
-- A policy of four sequences and 400 bytes with some entries, and an in-memory backend.
use native.Mathlib.Decide.{ℕ_discrete}
use statebraid.Prelude.{
  ℕ, ◌≡◌, refl, true, false, List, [], ◌∷◌, Option, none, some, String, string_hashable,
  nat_hashable, arith, ℤ, pos, ◌==◌, if◌then◌else◌, text_discrete, contains, list_discrete,
  int_discrete, add, discard, first_outside, flat_map, insert_by, select, sort_by,
}
use statebraid.Prelude.Result.{ok, raise, runtime_error}
use statebraid.Prelude.Exec.{Exec}
use statebraid.Dict.{Dict, get, put, remove, keep}
use statebraid.Dict.Laws.{get-put, get-remove}
use statebraid.Cache.Key.{CacheKey, key_hashable, key_discrete, is_extended_by}
use statebraid.Cache.Policy.{
  WorkingSetPolicy, n_sequences, init, keys_for_role, default_reserve, reserve_of,
  starts_with_stable, observe_hit,
}
use statebraid.Cache.Policy.Victims.{
  next_victim, oldest_pin, ordered_keys, projected_state, projected_over_limit, rank, weigh,
  working_keys, working_set_fits,
}
use statebraid.Cache.Policy.Plan.{
  plan_admission, plan_room, make_room, lineage_evictions, add_evict, apply_pin_quota,
  capacity_victim, pin_weight, protected_keys, replace_active, rotate_stable,
}
use statebraid.Cache.Policy.Commit.{
  commit, commit_state, commit_eviction, insert_entry, remove_entry, settle_candidate,
  count_eviction, enlist, unlist, is_promotion, reset_stable_candidate,
}
use statebraid.Cache.Policy.Lifecycle.{IsLive, init-IsLive, admit-IsLive, observe_hit-IsLive}
use statebraid.Cache.Policy.Lookup.{is_some}
use statebraid.Cache.Coordinator.{Backend}
use statebraid.Cache.Coordinator.Laws.{IsTransactional}

abbrev pub key_of : List ℤ → CacheKey ℕ
key_of tokens = record { namespace = 0; tokens = tokens }

abbrev pub k1 : CacheKey ℕ
k1 = key_of (pos 1 ∷ [])

abbrev pub k12 : CacheKey ℕ
k12 = key_of (pos 1 ∷ pos 2 ∷ [])

abbrev pub k7 : CacheKey ℕ
k7 = key_of (pos 7 ∷ [])

abbrev pub k8 : CacheKey ℕ
k8 = key_of (pos 8 ∷ [])

-- An admission, and all that it takes to compute one.
unfoldable pub admitted :
    WorkingSetPolicy ℕ → CacheKey ℕ → String → ℕ → Option (CacheKey ℕ) → WorkingSetPolicy ℕ
unfolding text_discrete contains list_discrete int_discrete add discard first_outside flat_map
    insert_by select sort_by get put keep remove key_discrete is_extended_by n_sequences init
    keys_for_role default_reserve reserve_of starts_with_stable next_victim oldest_pin ordered_keys
    projected_state projected_over_limit rank weigh working_keys working_set_fits plan_admission
    plan_room make_room lineage_evictions add_evict apply_pin_quota capacity_victim pin_weight
    protected_keys replace_active rotate_stable commit commit_state commit_eviction insert_entry
    remove_entry settle_candidate count_eviction enlist unlist is_promotion reset_stable_candidate
    ℕ_discrete observe_hit
admitted p key role nbytes predecessor = commit p (plan_admission p key role nbytes predecessor)

abbrev pub empty_policy : WorkingSetPolicy ℕ
empty_policy = init (pos 4) (pos 400) [] none

-- One active entry of 100 bytes.
abbrev pub active_policy : WorkingSetPolicy ℕ
active_policy = commit empty_policy (plan_admission empty_policy k1 "active" 100 none)

-- A stable one of 200 bytes beside it.
abbrev pub full_policy : WorkingSetPolicy ℕ
full_policy = commit active_policy (plan_admission active_policy k7 "stable" 200 none)

-- The stable entry was hit once.
abbrev pub hit_policy : WorkingSetPolicy ℕ
hit_policy = (observe_hit full_policy k7).0

pub empty-IsLive : IsLive empty_policy
empty-IsLive = init-IsLive (pos 4) (pos 400) [] none

pub active-IsLive : IsLive active_policy
active-IsLive = admit-IsLive empty_policy k1 "active" 100 none empty-IsLive

pub full-IsLive : IsLive full_policy
full-IsLive = admit-IsLive active_policy k7 "stable" 200 none active-IsLive

pub hit-IsLive : IsLive hit_policy
hit-IsLive = observe_hit-IsLive full_policy k7 full-IsLive

-- The payload "bad" leaves junk behind and raises.
abbrev pub store : CacheKey ℕ → String → String → Exec (Dict (CacheKey ℕ) String) (Unit {0})
store k x role s = if x == "bad" then (raise runtime_error, put k "junk" s) else (ok tt, put k x s)

-- A dictionary from keys to payloads, in which the payload "bad" leaves junk behind and raises.
abbrev pub memory : Backend ℕ
memory = record {
  Store = Dict (CacheKey ℕ) String;
  Snapshot = String;
  Payload = String;
  capture = λ k s. (ok (get k s), s);
  restore = λ k x s. (ok tt, put k x s);
  remove = λ k s. (ok tt, remove k s);
  insert = store;
  forget = none;
}

pub store_keeps :
    (k j : CacheKey ℕ) (x role : String) (s : Dict (CacheKey ℕ) String)
    → (k == j) ≡ false
    → get j (store k x role s).1 ≡ get j s
store_keeps k j x role s ne = ground (arith, get-put j k "junk" s, get-put j k x s, ne)

pub no_forget : {A : Type 0} (f : A) (o : Option A) → o ≡ none → ¬ (o ≡ some f)
no_forget f o e g = ground (arith, e, g)

pub always_served : ¬ (true ≡ false)
always_served e = ground (arith, e)

pub store_binds :
    (k : CacheKey ℕ) (x role : String) (s : Dict (CacheKey ℕ) String)
    → (store k x role s).0 ≡ ok tt
    → is_some (get k (store k x role s).1) ≡ true
store_binds k x role s e = ground (arith, get-put k k "junk" s, get-put k k x s, e)

abbrev pub memory-IsTransactional : IsTransactional memory
memory-IsTransactional = record {
  view = λ s k. get k s;
  Valid = λ s. Unit {0};
  serves = λ k. true;
  capture_reads = λ k s e. refl;
  capture_refuses = λ k s alien. absurd (always_served alien);
  capture_keeps = λ k j s. refl;
  capture_valid = λ k s w. tt;
  remove_succeeds = λ k s e. refl;
  remove_clears = λ k j s e. get-remove j k s;
  remove_valid = λ k s w. tt;
  restore_succeeds = λ k x old s w held. refl;
  restore_binds = λ k j x old s w held. get-put j k x s;
  restore_valid = λ k x old s w held w'. tt;
  insert_keeps_others = λ k j x role s ne. store_keeps k j x role s ne;
  insert_binds = λ k x role s e. store_binds k x role s e;
  insert_valid = λ k x role s w. tt;
  forget_keeps_others = λ f k j s none_there ne. absurd (no_forget f none refl none_there);
  forget_clears = λ f k s none_there fine. absurd (no_forget f none refl none_there);
  forget_valid = λ f k s none_there w. tt;
}
