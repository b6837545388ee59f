-- ===== src/Cache/Namespace/Isolation.antt =====
-- Which trust domains are valid, and what keeps the keys of two of them apart.
use Prim.Native.Char.{Char, code}
use Prim.Native.String.{[], ◌∷◌}
use statebraid.Prelude.{
  ℤ, ◌≡◌, ◌<◌, refl, sym, ◌∙◌, ap, true, false, ◌&&◌, List, String, Hashable, string_hashable,
  nat_hashable, ◌==◌, ==_of_ne, leb, arith, if◌then◌else◌,
}
use statebraid.Prelude.Result.{ok, raise, value_error}
use statebraid.Cache.Key.{key_hashable, from_tokens, is_extended_by}
use statebraid.Cache.Namespace.{
  CacheNamespace, namespace_hashable, is_ascii, n_bytes, is_alphanumeric, is_allowed, all_allowed,
  full_match, max_trust_domain_bytes, validate_trust_domain, make_cache_namespace,
}

is_allowed-lt : (c : Char) → is_allowed c ≡ true → code c < 128
unfolding is_allowed
is_allowed-lt c e = ground arith

is_alphanumeric-lt : (c : Char) → is_alphanumeric c ≡ true → code c < 128
unfolding is_alphanumeric
is_alphanumeric-lt c e = ground arith

all_allowed-is_ascii : (s : String) → all_allowed s ≡ true → is_ascii s ≡ true
unfolding all_allowed is_ascii
all_allowed-is_ascii [] e = refl
all_allowed-is_ascii (c ∷ s) e = ground (arith, is_allowed-lt c, all_allowed-is_ascii s)

full_match-is_ascii : (s : String) → full_match s ≡ true → is_ascii s ≡ true
unfolding full_match is_ascii
full_match-is_ascii [] e = cc
full_match-is_ascii (c ∷ s) e = ground (arith, is_alphanumeric-lt c, all_allowed-is_ascii s)

full_match-nonempty : (s : String) → full_match s ≡ true → (n_bytes s == 0) ≡ false
unfolding full_match n_bytes
full_match-nonempty [] e = cc
full_match-nonempty (c ∷ s) e = ground arith

pub validate_exact :
    (value : String)
    → validate_trust_domain value ≡ (
        if full_match value && leb (n_bytes value) max_trust_domain_bytes
        then ok value
        else raise value_error)
unfolding validate_trust_domain
validate_exact value = ground (arith, full_match-is_ascii value, full_match-nonempty value)

trust_domain_of :
    {B : Type 0} (b : B) (d : String) (x : CacheNamespace B)
    → make_cache_namespace b d ≡ ok x
    → (x.backend_identity ≡ b) × (x.trust_domain ≡ d)
unfolding make_cache_namespace
trust_domain_of b d x e = (ground (arith, validate_exact d, e), ground (arith, validate_exact d, e))

module _ {B : Type 0} ⦃h : Hashable B⦄ where
  apart_namespaces :
      (b b' : B) (d d' : String) (x y : CacheNamespace B)
      → make_cache_namespace b d ≡ ok x
      → make_cache_namespace b' d' ≡ ok y
      → ¬ ((b ≡ b') × (d ≡ d'))
      → ¬ (x ≡ y)
  apart_namespaces b b' d d' x y ex ey apart same =
      let left = trust_domain_of b d x ex in
      let right = trust_domain_of b' d' y ey in
      apart (
        sym left.0 ∙ ap (λ n. n.backend_identity) same ∙ right.0,
        sym left.1 ∙ ap (λ n. n.trust_domain) same ∙ right.1,
      )

  -- Keys whose namespaces were made of another backend identity or another trust domain are never
  -- equal, and neither is a predecessor of the other, whatever their tokens.
  pub namespaces_isolated :
      (b b' : B) (d d' : String) (x y : CacheNamespace B)
      → make_cache_namespace b d ≡ ok x
      → make_cache_namespace b' d' ≡ ok y
      → ¬ ((b ≡ b') × (d ≡ d'))
      → (ts us : List ℤ)
      → ((from_tokens x ts == from_tokens y us) ≡ false)
        × (is_extended_by (from_tokens x ts) (from_tokens y us) ≡ false)
  unfolding from_tokens is_extended_by
  namespaces_isolated b b' d d' x y ex ey apart ts us =
      let differ = apart_namespaces b b' d d' x y ex ey apart in
      (
        ==_of_ne (from_tokens x ts) (from_tokens y us) (λ e. differ (ap (λ k. k.namespace) e)),
        ground (arith, ==_of_ne x y differ),
      )
