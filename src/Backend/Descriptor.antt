-- ===== src/Backend/Descriptor.antt =====
-- src/statebraid/backend/contract.py: the capabilities and `BackendDescriptor`.
pub mod Levels
pub mod Build
pub mod Dict
pub mod Canonical
pub mod Rebuild
pub mod Roundtrip
use statebraid.Prelude.{
  ℕ, Bool, true, false, not, ◌&&◌, List, [], ◌∷◌, ◌++◌, Option, none, some, String, Hashable, ◌==◌,
  string_hashable, contains, select, if◌then◌else◌,
}
use statebraid.Prelude.Result.{
  Result, ok, raise, Error, value_error, type_error, unsupported_capability, ◌>>=◌, ◌>>◌,
}
use statebraid.Backend.Observation.{is_none}

pub data BackendCapability : Type 0 where
  namespace_isolation prefix_lookup admission_residency transactional_mutation : BackendCapability
  rollback hit_attribution generation_safety : BackendCapability

unfoldable pub capability_discrete : Discrete BackendCapability
capability_discrete = hlevel

instance abbrev pub capability_hashable : Hashable BackendCapability
capability_hashable = record { eq = capability_discrete }

-- `_CAPABILITY_DEPENDENCIES`.
unfoldable pub dependencies : BackendCapability → List BackendCapability
dependencies admission_residency = transactional_mutation ∷ []
dependencies rollback = transactional_mutation ∷ []
dependencies hit_attribution = prefix_lookup ∷ []
dependencies generation_safety = prefix_lookup ∷ []
dependencies _ = []

pub data ObservationMode : Type 0 where
  passive execution_coupled : ObservationMode

pub record BackendObservationProfile : Type 0 where
  pub mode : ObservationMode
  pub may_mutate_backend_state : Bool
  pub notes : List String

pub record BackendQualificationProfile : Type 0 where
  pub source_revision : String
  pub observation_path : String
  pub cache_mode : String
  pub concurrency_profile : String
  pub model_class : String
  pub runtime_qualified : Bool
  pub notes : List String

abbrev pub backend_contract_version : String
backend_contract_version = "0.2"

-- `all(…)` and `issubset`.
unfoldable pub is_subset : List BackendCapability → List BackendCapability → Bool
is_subset [] set = true
is_subset (c ∷ cs) set = contains c set && is_subset cs set

pub record BackendDescriptor : Type 0 where
  pub name : String
  pub adapter : String
  pub capabilities : List BackendCapability
  pub observation_profile : Option BackendObservationProfile
  pub qualification_profile : Option BackendQualificationProfile
  pub contract_version : String
  pub notes : List String

-- The loop of `__post_init__` over the declared capabilities.
unfoldable pub check_dependencies :
    List BackendCapability → List BackendCapability → Result (Unit {0})
check_dependencies [] declared = ok tt
check_dependencies (c ∷ cs) declared =
    let rest = check_dependencies cs declared in
    if is_subset (dependencies c) declared then rest else raise value_error

-- The profiles that two of the capabilities ask for.
unfoldable pub check_profiles : BackendDescriptor → Result (Unit {0})
check_profiles d =
    if contains prefix_lookup d.capabilities && is_none d.observation_profile
    then raise value_error
    else if contains generation_safety d.capabilities && is_none d.qualification_profile
    then raise value_error
    else ok tt

unfoldable pub check_version : BackendDescriptor → Result (Unit {0})
check_version d =
    if d.contract_version == backend_contract_version then ok tt else raise value_error

-- `BackendDescriptor.__post_init__`, which lets a descriptor be built or raises.
unfoldable pub post_init : BackendDescriptor → Result BackendDescriptor
unfolding check_version check_profiles
post_init d = do
  check_version d
  check_dependencies d.capabilities d.capabilities
  check_profiles d
  ok d

unfoldable pub supports : BackendDescriptor → List BackendCapability → Bool
unfolding is_subset
supports d wanted = is_subset wanted d.capabilities

unfoldable pub require : BackendDescriptor → List BackendCapability → Result (Unit {0})
require d wanted = elim (select (λ c. not (contains c d.capabilities)) wanted) [
  | [] ↦ ok tt
  | _ ∷ _ ↦ raise unsupported_capability
]

-- The strings of `integration_level`.
pub data IntegrationLevel : Type 0 where
  partial identity_only observe managed generation_safe_managed : IntegrationLevel

abbrev pub observe_set : List BackendCapability
observe_set = namespace_isolation ∷ prefix_lookup ∷ hit_attribution ∷ []

abbrev pub managed_set : List BackendCapability
managed_set = observe_set ++ (admission_residency ∷ transactional_mutation ∷ rollback ∷ [])

abbrev pub generation_safe_set : List BackendCapability
generation_safe_set = managed_set ++ (generation_safety ∷ [])

unfoldable pub integration_level : BackendDescriptor → IntegrationLevel
unfolding is_subset
integration_level d =
    if is_subset generation_safe_set d.capabilities
    then generation_safe_managed
    else if is_subset managed_set d.capabilities
    then managed
    else if is_subset observe_set d.capabilities
    then observe
    else if contains namespace_isolation d.capabilities
    then identity_only
    else partial
