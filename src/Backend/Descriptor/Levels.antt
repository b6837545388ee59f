-- ===== src/Backend/Descriptor/Levels.antt =====
-- Which descriptors can be built, and what their levels promise.
use statebraid.Prelude.{
  ℕ, ◌≤◌, ◌≡◌, refl, true, false, List, [], ◌∷◌, string_hashable, contains, select, arith,
  if◌then◌else◌,
}
use statebraid.Prelude.Result.{ok, raise, unsupported_capability}
use statebraid.Backend.Observation.{is_none}
use statebraid.Backend.Descriptor.{
  BackendCapability, namespace_isolation, prefix_lookup, admission_residency,
  transactional_mutation, rollback, hit_attribution, generation_safety, capability_hashable,
  dependencies, BackendDescriptor, backend_contract_version, is_subset, check_dependencies,
  post_init, supports, require, IntegrationLevel, partial, identity_only, observe, managed,
  generation_safe_managed, integration_level,
}

-- Every declared capability comes with what it depends on.
abbrev pub IsClosed : List BackendCapability → Type 0
IsClosed set =
    (c : BackendCapability) → contains c set ≡ true → is_subset (dependencies c) set ≡ true

check_dependencies_ok :
    (cs set : List BackendCapability) (c : BackendCapability)
    → check_dependencies cs set ≡ ok tt
    → contains c cs ≡ true
    → is_subset (dependencies c) set ≡ true
unfolding check_dependencies contains
check_dependencies_ok [] set c e m = cc
check_dependencies_ok (x ∷ cs) set c e m = ground (arith, check_dependencies_ok cs set c)

-- A descriptor that was built carries the contract's version, declares every capability that one of
-- its capabilities depends on, and has the profiles that lookup and generation safety ask for.
pub post_init_sound :
    (d d' : BackendDescriptor)
    → post_init d ≡ ok d'
    → (d' ≡ d)
      × (d.contract_version ≡ backend_contract_version)
      × IsClosed d.capabilities
      × (contains prefix_lookup d.capabilities ≡ true → is_none d.observation_profile ≡ false)
      × (contains generation_safety d.capabilities ≡ true → is_none d.qualification_profile ≡ false)
unfolding post_init
post_init_sound d d' e = (
  ground (arith, e),
  ground (arith, e),
  λ c m. check_dependencies_ok d.capabilities d.capabilities c (ground (arith, e)) m,
  λ m. ground (arith, e, m),
  λ m. ground (arith, e, m),
)

-- `require` returns exactly where `supports` holds, and else raises `UnsupportedBackendCapability`.
pub require-supports :
    (d : BackendDescriptor) (wanted : List BackendCapability)
    → require d wanted ≡ (if supports d wanted then ok tt else raise unsupported_capability)
unfolding require supports select
require-supports d [] = refl
require-supports d (c ∷ wanted) = ground (arith, require-supports d wanted)

-- The levels in order.
abbrev pub level_rank : IntegrationLevel → ℕ
level_rank partial = 0
level_rank identity_only = 1
level_rank observe = 2
level_rank managed = 3
level_rank generation_safe_managed = 4

pub subset_trans :
    (cs set set' : List BackendCapability)
    → ((c : BackendCapability) → contains c set ≡ true → contains c set' ≡ true)
    → is_subset cs set ≡ true
    → is_subset cs set' ≡ true
unfolding is_subset
subset_trans [] set set' sub e = refl
subset_trans (c ∷ cs) set set' sub e = ground (arith, sub c, subset_trans cs set set' sub)

-- A backend that declares more never has a lower level.
pub integration_level_mono :
    (d d' : BackendDescriptor)
    → ((c : BackendCapability)
        → contains c d.capabilities ≡ true
        → contains c d'.capabilities ≡ true)
    → level_rank (integration_level d) ≤ level_rank (integration_level d')
unfolding integration_level
integration_level_mono d d' sub = ground (
  arith,
  sub namespace_isolation,
  sub prefix_lookup,
  sub hit_attribution,
  sub admission_residency,
  sub transactional_mutation,
  sub rollback,
  sub generation_safety,
)
