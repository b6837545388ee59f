-- ===== src/Tests/Printed.antt =====
-- The theorem on `to_dict` at a descriptor like that of llama.cpp.
use native.Mathlib.Decide.{ℕ_discrete}
use mathlib.Core.Path.{subst}
use statebraid.Prelude.{
  ◌≡◌, refl, false, List, [], ◌∷◌, Option, none, some, text_discrete, contains, add,
}
use statebraid.Prelude.Result.{ok}
use statebraid.Prelude.Texts.{is_blank, is_space}
use statebraid.Backend.Descriptor.{
  BackendCapability, capability_hashable, capability_discrete, dependencies,
  BackendQualificationProfile, BackendDescriptor, is_subset, check_dependencies, post_init,
}
use statebraid.Backend.Descriptor.Build.{
  DescriptorArguments, make_descriptor, freeze, read_capability, capability_among, capability_value,
  make_qualification, require_label,
}
use statebraid.Backend.Descriptor.Dict.{to_dict}
use statebraid.Backend.Descriptor.Rebuild.{rebuild, WasMade, arguments_of}
use statebraid.Backend.Descriptor.Roundtrip.{to_dict_rebuilds}
use statebraid.Adapters.LlamaCpp.Descriptor.{llama_cpp_backend_descriptor}

abbrev profile : BackendQualificationProfile
profile = record {
  source_revision = "465e49b9";
  observation_path = "/completion timings.cache_n";
  cache_mode = "single-slot";
  concurrency_profile = "serial";
  model_class = "stories260K";
  runtime_qualified = false;
  notes = [];
}

abbrev declared : BackendDescriptor
declared = record llama_cpp_backend_descriptor { qualification_profile = some profile }

abbrev declaration : DescriptorArguments
declaration = record {
  name = declared.name;
  adapter = declared.adapter;
  capabilities = "prefix_lookup" ∷ "hit_attribution" ∷ "generation_safety" ∷ [];
  observation_profile = declared.observation_profile;
  qualification_profile = declared.qualification_profile;
  contract_version = declared.contract_version;
  notes = declared.notes;
}

declared_made : make_descriptor declaration ≡ ok declared
unfolding make_descriptor freeze read_capability capability_among capability_value text_discrete add
    contains capability_discrete post_init check_dependencies dependencies is_subset
declared_made = refl

-- The profile that its constructor made, if any.
MadeOrNone : Option BackendQualificationProfile → Type 0
MadeOrNone none = Unit {0}
MadeOrNone (some p) = WasMade p

profile_made :
    (p : BackendQualificationProfile) → declaration.qualification_profile ≡ some p → WasMade p
unfolding make_qualification require_label is_blank is_space ℕ_discrete MadeOrNone
profile_made p e = subst MadeOrNone e (arguments_of profile, refl)

to_dict_rebuilds_example :
    (cs : List BackendCapability) × ((c : BackendCapability)
      → contains c cs ≡ contains c declared.capabilities)
    × (rebuild (to_dict declared) ≡ ok (record declared { capabilities = cs }))
    × (to_dict (record declared { capabilities = cs }) ≡ to_dict declared)
to_dict_rebuilds_example = to_dict_rebuilds declaration declared profile_made declared_made
