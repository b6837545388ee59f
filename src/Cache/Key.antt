-- ===== src/Cache/Key.antt =====
-- src/statebraid/cache/policy.py: `CacheKey` and `matched_prefix_key`. Namespaces are any type with
-- a decidable equality (Python's `Hashable`); tokens are integers.
use statebraid.Prelude.{
  ◌-◌, ℤ, Bool, ◌&&◌, List, Option, none, some, Hashable, ◌==◌, nat_hashable, int_hashable,
  list_hashable, list_discrete, int_discrete, ltb, length, take, if◌then◌else◌,
}

pub record CacheKey (N : Type 0) : Type 0 where
  pub namespace : N
  pub tokens : List ℤ

unfoldable pub key_discrete : {N : Type 0} ⦃h : Hashable N⦄ → Discrete (CacheKey N)
key_discrete ⦃h⦄ = hlevel (h.eq, list_discrete int_discrete)

instance abbrev pub key_hashable : {N : Type 0} ⦃h : Hashable N⦄ → Hashable (CacheKey N)
key_hashable = record { eq = key_discrete }

unfoldable pub from_tokens : {N : Type 0} → N → List ℤ → CacheKey N
from_tokens namespace tokens = record { namespace = namespace; tokens = tokens }

-- The lengths are natural numbers, and `-` stops at 0 as the source's `max(0, …)` does.
unfoldable pub matched_prefix_key : {N : Type 0} → N → List ℤ → List ℤ → Option (CacheKey N)
matched_prefix_key namespace prompt remaining =
    let matched_len = length prompt - length remaining in
    if matched_len == 0 then none else some (from_tokens namespace (take matched_len prompt))

-- The test of an active successor: `old` has the same namespace, and its tokens are a strictly
-- shorter prefix of those of `key`.
unfoldable pub is_extended_by : {N : Type 0} ⦃h : Hashable N⦄ → CacheKey N → CacheKey N → Bool
is_extended_by old key =
    old.namespace == key.namespace
    && (ltb (length old.tokens) (length key.tokens)
        && take (length old.tokens) key.tokens == old.tokens)
