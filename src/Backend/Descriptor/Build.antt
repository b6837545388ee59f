-- ===== src/Backend/Descriptor/Build.antt =====
-- src/statebraid/backend/contract.py: what the constructors make of their arguments. An argument whose
-- type `__post_init__` tests is a `Json` value.
use statebraid.Prelude.{
  Bool, List, [], ◌∷◌, Option, String, ◌==◌, string_hashable, add, if◌then◌else◌,
}
use statebraid.Prelude.Result.{Result, ok, raise, value_error, type_error, ◌>>=◌}
use statebraid.Prelude.Json.{Json, text, boolean}
use statebraid.Prelude.Texts.{is_blank}
use statebraid.Backend.Descriptor.{
  BackendCapability, namespace_isolation, prefix_lookup, admission_residency,
  transactional_mutation, rollback, hit_attribution, generation_safety, capability_hashable,
  ObservationMode, passive, execution_coupled, BackendObservationProfile,
  BackendQualificationProfile, BackendDescriptor, post_init,
}

-- `capability.value`.
unfoldable pub capability_value : BackendCapability → String
capability_value namespace_isolation = "namespace_isolation"
capability_value prefix_lookup = "prefix_lookup"
capability_value admission_residency = "admission_residency"
capability_value transactional_mutation = "transactional_mutation"
capability_value rollback = "rollback"
capability_value hit_attribution = "hit_attribution"
capability_value generation_safety = "generation_safety"

-- `BackendCapability(item)`, which looks its argument up among the values.
unfoldable pub capability_among : List BackendCapability → String → Result BackendCapability
unfolding capability_value
capability_among [] item = raise value_error
capability_among (c ∷ rest) item =
    let found = capability_among rest item in if capability_value c == item then ok c else found

abbrev pub members : List BackendCapability
members =
    namespace_isolation ∷ prefix_lookup ∷ admission_residency ∷ transactional_mutation ∷ rollback
    ∷ hit_attribution ∷ generation_safety ∷ []

unfoldable pub read_capability : String → Result BackendCapability
unfolding capability_among
read_capability item = capability_among members item

-- `frozenset(BackendCapability(item) for item in items)`.
unfoldable pub freeze : List BackendCapability → List String → Result (List BackendCapability)
unfolding read_capability
freeze set [] = ok set
freeze set (item ∷ items) = do c ← read_capability item; freeze (add c set) items

unfoldable pub mode_value : ObservationMode → String
mode_value passive = "passive"
mode_value execution_coupled = "execution_coupled"

-- `ObservationMode(mode)`.
unfoldable pub read_mode : Json → Result ObservationMode
unfolding mode_value
read_mode (text s) =
    if mode_value passive == s
    then ok passive
    else if mode_value execution_coupled == s
    then ok execution_coupled
    else raise value_error
read_mode _ = raise value_error

unfoldable pub require_bool : Json → Result Bool
require_bool (boolean b) = ok b
require_bool _ = raise type_error

-- A string with more than white space in it.
unfoldable pub require_label : Json → Result String
require_label (text s) = if is_blank s then raise value_error else ok s
require_label _ = raise value_error

unfoldable pub make_observation : Json → Json → List String → Result BackendObservationProfile
unfolding read_mode require_bool
make_observation mode may_mutate notes = do
  m ← read_mode mode
  b ← require_bool may_mutate
  ok (record { mode = m; may_mutate_backend_state = b; notes = notes })

-- The arguments of `BackendQualificationProfile`.
pub record QualificationArguments : Type 0 where
  pub source_revision : Json
  pub observation_path : Json
  pub cache_mode : Json
  pub concurrency_profile : Json
  pub model_class : Json
  pub runtime_qualified : Json
  pub notes : List String

unfoldable pub make_qualification : QualificationArguments → Result BackendQualificationProfile
unfolding require_label require_bool
make_qualification q = do
  source_revision ← require_label q.source_revision
  observation_path ← require_label q.observation_path
  cache_mode ← require_label q.cache_mode
  concurrency_profile ← require_label q.concurrency_profile
  model_class ← require_label q.model_class
  runtime_qualified ← require_bool q.runtime_qualified
  ok (record {
    source_revision = source_revision;
    observation_path = observation_path;
    cache_mode = cache_mode;
    concurrency_profile = concurrency_profile;
    model_class = model_class;
    runtime_qualified = runtime_qualified;
    notes = q.notes;
  })

-- The arguments of `BackendDescriptor`; the profiles are built already.
pub record DescriptorArguments : Type 0 where
  pub name : String
  pub adapter : String
  pub capabilities : List String
  pub observation_profile : Option BackendObservationProfile
  pub qualification_profile : Option BackendQualificationProfile
  pub contract_version : String
  pub notes : List String

unfoldable pub make_descriptor : DescriptorArguments → Result BackendDescriptor
unfolding freeze post_init
make_descriptor x = do
  normalized ← freeze [] x.capabilities
  post_init (record {
    name = x.name;
    adapter = x.adapter;
    capabilities = normalized;
    observation_profile = x.observation_profile;
    qualification_profile = x.qualification_profile;
    contract_version = x.contract_version;
    notes = x.notes;
  })
