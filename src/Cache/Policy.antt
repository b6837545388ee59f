-- ===== src/Cache/Policy.antt =====
-- src/statebraid/cache/policy.py: the data of `WorkingSetPolicy`, its constructor, the accessors and
-- the plans. The planning and committing methods are in the modules below.
pub mod Victims
pub mod Plan
pub mod Commit
pub mod Invariant
pub mod Listing
pub mod Lookup
pub mod Quota
mod Room
pub mod Promotion
pub mod Persistence
pub mod WorkingSet
pub mod Protection
pub mod Probation
pub mod Lifecycle
pub mod Lineage
pub mod Trimming
pub mod Admission
pub mod Effect
pub mod Evictions
pub mod Candidate
pub mod Trim
use statebraid.Prelude.{
  ℕ, suc, ◌-◌, ℤ, clamp, Bool, true, false, List, [], ◌∷◌, Option, none, some, String, Hashable,
  string_hashable, min, leb, length, if◌then◌else◌,
}
use statebraid.Dict.{Dict, get, put}
use statebraid.Cache.Key.{CacheKey, key_hashable}

abbrev pub role_ranks : Dict String ℕ
role_ranks =
    ("assistant", 10) ∷ ("user", 30) ∷ ("system", 50) ∷ ("active", 60) ∷ ("stable", 70) ∷ []

abbrev pub unknown_role_rank : ℕ
unknown_role_rank = 20

abbrev pub pin_rank_min : ℕ
pin_rank_min = 100

pub record EntryState (N : Type 0) : Type 0 where
  pub key : CacheKey N
  pub role : String
  pub nbytes : ℕ
  pub pinned : Bool
  pub hits : ℕ

-- The reasons of an eviction, strings in the source.
pub data EvictionReason : Type 0 where
  stable_rotate active_successor pin_quota capacity trim remote_evicted : EvictionReason

pub record Eviction (N : Type 0) : Type 0 where
  pub key : CacheKey N
  pub reason : EvictionReason

-- The reasons of a plan, strings in the source. `out_of_fuel` stands for a loop of the model that
-- has not ended, and has no string.
pub data PlanReason : Type 0 where
  admit zero_capacity oversized cannot_fit oversized_or_disabled : PlanReason
  stable_empty stable_refresh stable_cold_larger stable_repeated_miss stable_probation : PlanReason
  out_of_fuel : PlanReason

-- `reason.startswith("stable_")`.
unfoldable pub starts_with_stable : PlanReason → Bool
starts_with_stable stable_empty = true
starts_with_stable stable_refresh = true
starts_with_stable stable_cold_larger = true
starts_with_stable stable_repeated_miss = true
starts_with_stable stable_probation = true
starts_with_stable _ = false

pub record AdmissionPlan (N : Type 0) : Type 0 where
  pub accepted : Bool
  pub key : CacheKey N
  pub role : String
  pub nbytes : ℕ
  pub evictions : List (Eviction N)
  pub reason : PlanReason

pub record TrimPlan (N : Type 0) : Type 0 where
  pub evictions : List (Eviction N)

-- What `__init__` fixes.
pub record Config : Type 0 where
  pub max_sequences : ℕ
  pub max_bytes : ℕ
  pub pin_roles : List String
  pub transient_reserve : ℕ
  pub pin_limit : ℕ

-- The fields that change, and that `PolicySnapshot` copies.
pub record PolicySnapshot (N : Type 0) : Type 0 where
  pub entries : Dict (CacheKey N) (EntryState N)
  pub buckets : Dict String (List (CacheKey N))
  pub nbytes : ℕ
  pub pin_evictions : ℕ
  pub pin_quota_evictions : ℕ
  pub active_successor_evictions : ℕ
  pub stable_candidate_key : Option (CacheKey N)
  pub stable_candidate_count : ℕ
  pub stable_candidate_base_hits : ℕ
  pub stable_candidate_promotions : ℕ
  pub stable_candidate_rejections : ℕ

pub record WorkingSetPolicy (N : Type 0) : Type 0 where
  pub config : Config
  pub open config use {max_sequences, max_bytes, pin_roles, transient_reserve, pin_limit}
  pub state : PolicySnapshot N
  pub open state use {entries, buckets, nbytes}

unfoldable pub default_reserve : ℕ → ℕ
default_reserve max_sequences =
    if leb 4 max_sequences then 2 else if leb 2 max_sequences then 1 else 0

-- `int(transient_reserve)` may be negative, and is cut to 0 … `max_sequences`.
unfoldable pub reserve_of : Option ℤ → ℕ → ℕ
reserve_of none max_sequences = min (default_reserve max_sequences) max_sequences
reserve_of (some r) max_sequences = min (clamp r) max_sequences

unfoldable pub init : {N : Type 0} → ℤ → ℤ → List String → Option ℤ → WorkingSetPolicy N
init max_sequences max_bytes pin_roles transient_reserve =
    let limit = clamp max_sequences in
    let reserve = reserve_of transient_reserve limit in
    record {
      config = record {
        max_sequences = limit;
        max_bytes = clamp max_bytes;
        pin_roles = pin_roles;
        transient_reserve = reserve;
        pin_limit = limit - reserve;
      };
      state = record {
        entries = [];
        buckets = [];
        nbytes = 0;
        pin_evictions = 0;
        pin_quota_evictions = 0;
        active_successor_evictions = 0;
        stable_candidate_key = none;
        stable_candidate_count = 0;
        stable_candidate_base_hits = 0;
        stable_candidate_promotions = 0;
        stable_candidate_rejections = 0;
      };
    }

module _ {N : Type 0} where
  unfoldable pub n_sequences : WorkingSetPolicy N → ℕ
  n_sequences p = length p.entries

  -- The entries of the model are values, so a copy is the state itself.
  unfoldable pub capture_state : WorkingSetPolicy N → PolicySnapshot N
  capture_state p = p.state

  unfoldable pub restore_state : WorkingSetPolicy N → PolicySnapshot N → WorkingSetPolicy N
  restore_state p snapshot = record p { state = snapshot }

module _ {N : Type 0} ⦃h : Hashable N⦄ where
  unfoldable pub entry : WorkingSetPolicy N → CacheKey N → Option (EntryState N)
  entry p key = get key p.entries

  -- `self._buckets.get(role, OrderedDict())`.
  unfoldable pub keys_for_role : WorkingSetPolicy N → String → List (CacheKey N)
  keys_for_role p role = elim (get role p.buckets) [ none ↦ [] | some bucket ↦ bucket ]

  unfoldable pub observe_hit : WorkingSetPolicy N → CacheKey N → WorkingSetPolicy N × Bool
  observe_hit p key = elim (get key p.entries) [
    | none ↦ (p, false)
    | some e ↦ (
      record p {
        state = record p.state { entries = put key (record e { hits = suc e.hits }) p.entries };
      },
      true,
    )
  ]
