-- ===== src/Backend/Descriptor/Dict.antt =====
-- src/statebraid/backend/contract.py: `capability_values` and the methods `to_dict`.
use statebraid.Prelude.{List, [], ◌∷◌, Option, none, some, String, map}
use statebraid.Prelude.Json.{
  Json, text, boolean, null, array, object, Items, item, end_of_items, Fields, field, end_of_fields,
}
use statebraid.Prelude.Texts.Sorted.{sort_texts}
use statebraid.Backend.Descriptor.{
  BackendCapability, BackendObservationProfile, BackendQualificationProfile, BackendDescriptor,
  IntegrationLevel, partial, identity_only, observe, managed, generation_safe_managed,
  integration_level,
}
use statebraid.Backend.Descriptor.Build.{capability_value, mode_value}

unfoldable pub capability_values : List BackendCapability → List String
unfolding sort_texts
capability_values capabilities = sort_texts (map capability_value capabilities)

unfoldable pub level_value : IntegrationLevel → String
level_value partial = "partial"
level_value identity_only = "identity-only"
level_value observe = "observe"
level_value managed = "managed"
level_value generation_safe_managed = "generation-safe-managed"

-- A list of strings in a dictionary.
unfoldable pub text_items : List String → Items
text_items [] = end_of_items
text_items (x ∷ xs) = item (text x) (text_items xs)

unfoldable pub observation_dict : BackendObservationProfile → Fields
observation_dict p = field "mode" (text (mode_value p.mode)) (
    field "may_mutate_backend_state" (boolean p.may_mutate_backend_state)
      (field "notes" (array (text_items p.notes)) end_of_fields))

unfoldable pub qualification_dict : BackendQualificationProfile → Fields
qualification_dict p = field "source_revision" (text p.source_revision) (
    field "observation_path" (text p.observation_path) (
      field "cache_mode" (text p.cache_mode) (
        field "concurrency_profile" (text p.concurrency_profile) (
          field "model_class" (text p.model_class) (
            field "runtime_qualified" (boolean p.runtime_qualified)
              (field "notes" (array (text_items p.notes)) end_of_fields))))))

-- `None if profile is None else profile.to_dict()`.
unfoldable pub profile_or_null : {P : Type 0} → (P → Fields) → Option P → Json
profile_or_null to_dict none = null
profile_or_null to_dict (some p) = object (to_dict p)

unfoldable pub to_dict : BackendDescriptor → Fields
unfolding capability_values level_value text_items profile_or_null
to_dict d = field "name" (text d.name) (
    field "adapter" (text d.adapter) (
      field "contract_version" (text d.contract_version) (
        field "integration_level" (text (level_value (integration_level d))) (
          field "capabilities" (array (text_items (capability_values d.capabilities))) (
            field "observation_profile" (profile_or_null observation_dict d.observation_profile) (
              field "qualification_profile"
                (profile_or_null qualification_dict d.qualification_profile)
                (field "notes" (array (text_items d.notes)) end_of_fields)))))))
