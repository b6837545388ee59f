-- ===== src/Cache/Namespace.antt =====
-- src/statebraid/cache/namespace.py. The `isinstance` test of the trust domain is its type, and the
-- regular expression is written out.
pub mod Isolation
use Prim.Native.Char.{Char, code}
use Prim.Native.String.{[], ◌∷◌}
use statebraid.Prelude.{
  ℕ, suc, Bool, true, false, not, ◌&&◌, ◌||◌, String, Hashable, string_hashable, nat_hashable,
  text_discrete, ◌==◌, ltb, leb, if◌then◌else◌,
}
use statebraid.Prelude.Result.{Result, ok, raise, value_error, ◌>>=◌}

abbrev pub default_trust_domain : String
default_trust_domain = "local-default"

abbrev pub max_trust_domain_bytes : ℕ
max_trust_domain_bytes = 128

pub record CacheNamespace (B : Type 0) : Type 0 where
  pub backend_identity : B
  pub trust_domain : String

unfoldable pub namespace_discrete : {B : Type 0} ⦃h : Hashable B⦄ → Discrete (CacheNamespace B)
namespace_discrete ⦃h⦄ = hlevel (h.eq, text_discrete)

instance abbrev pub namespace_hashable : {B : Type 0} ⦃h : Hashable B⦄ → Hashable (CacheNamespace B)
namespace_hashable = record { eq = namespace_discrete }

-- Whether `value.encode("ascii")` succeeds, and how many bytes it gives then.
unfoldable pub is_ascii : String → Bool
is_ascii [] = true
is_ascii (c ∷ s) = ltb (code c) 128 && is_ascii s

unfoldable pub n_bytes : String → ℕ
n_bytes [] = 0
n_bytes (c ∷ s) = suc (n_bytes s)

abbrev within : ℕ → ℕ → ℕ → Bool
within low high n = leb low n && leb n high

-- `[A-Za-z0-9]`.
unfoldable pub is_alphanumeric : Char → Bool
is_alphanumeric c =
    within b'A' b'Z' (code c) || (within b'a' b'z' (code c) || within b'0' b'9' (code c))

-- `[A-Za-z0-9._:-]`.
unfoldable pub is_allowed : Char → Bool
unfolding is_alphanumeric
is_allowed c =
    is_alphanumeric c || (code c == b'.' || (code c == b'_' || (code c == b':' || code c == b'-')))

unfoldable pub all_allowed : String → Bool
all_allowed [] = true
all_allowed (c ∷ s) = is_allowed c && all_allowed s

-- `_TRUST_DOMAIN_RE.fullmatch(value)`.
unfoldable pub full_match : String → Bool
full_match [] = false
full_match (c ∷ s) = is_alphanumeric c && all_allowed s

unfoldable pub validate_trust_domain : String → Result String
validate_trust_domain value =
    if not (is_ascii value)
    then raise value_error
    else if n_bytes value == 0
    then raise value_error
    else if ltb max_trust_domain_bytes (n_bytes value)
    then raise value_error
    else if not (full_match value)
    then raise value_error
    else ok value

unfoldable pub make_cache_namespace : {B : Type 0} → B → String → Result (CacheNamespace B)
make_cache_namespace backend_identity trust_domain = do
  domain ← validate_trust_domain trust_domain
  ok (record { backend_identity = backend_identity; trust_domain = domain })
