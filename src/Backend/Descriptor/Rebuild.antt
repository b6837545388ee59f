-- ===== src/Backend/Descriptor/Rebuild.antt =====
-- The constructors of contract.py called with what a dictionary of `to_dict` has.
use mathlib.Core.Path.{subst}
use statebraid.Prelude.{
  ◌≡◌, refl, ap, ◌∙◌, Bool, List, [], ◌∷◌, Option, none, some, String, string_hashable,
  text_discrete, arith,
}
use statebraid.Prelude.Result.{Result, ok, raise, type_error, ok-injective, ok_first, ◌>>=◌}
use statebraid.Prelude.Json.{
  Json, null, text, boolean, array, object, integer, float, Items, item, end_of_items, Fields,
  lookup_field,
}
use statebraid.Backend.Descriptor.{
  capability_hashable, ObservationMode, passive, execution_coupled, BackendObservationProfile,
  BackendQualificationProfile, BackendDescriptor,
}
use statebraid.Backend.Descriptor.Build.{
  mode_value, read_mode, require_bool, require_label, make_observation, QualificationArguments,
  make_qualification, DescriptorArguments, make_descriptor,
}
use statebraid.Backend.Descriptor.Dict.{
  capability_values, text_items, observation_dict, qualification_dict, profile_or_null, to_dict,
}

-- The arguments of the constructors, as a dictionary has them.
unfoldable pub read_texts : Items → Result (List String)
read_texts end_of_items = ok []
read_texts (item (text s) rest) = do others ← read_texts rest; ok (s ∷ others)
read_texts (item _ rest) = raise type_error

unfoldable pub require_texts : Json → Result (List String)
require_texts (array items) = read_texts items
require_texts _ = raise type_error

unfoldable pub require_text : Json → Result String
require_text (text s) = ok s
require_text _ = raise type_error

unfoldable pub require_profile : {P : Type 0} → (Fields → Result P) → Json → Result (Option P)
require_profile read null = ok none
require_profile read (object f) = do p ← read f; ok (some p)
require_profile read _ = raise type_error

unfoldable pub rebuild_observation : Fields → Result BackendObservationProfile
unfolding require_texts
rebuild_observation f = do
  notes ← require_texts (lookup_field "notes" f)
  make_observation (lookup_field "mode" f) (lookup_field "may_mutate_backend_state" f) notes

unfoldable pub rebuild_qualification : Fields → Result BackendQualificationProfile
unfolding require_texts
rebuild_qualification f = do
  notes ← require_texts (lookup_field "notes" f)
  make_qualification (record {
    source_revision = lookup_field "source_revision" f;
    observation_path = lookup_field "observation_path" f;
    cache_mode = lookup_field "cache_mode" f;
    concurrency_profile = lookup_field "concurrency_profile" f;
    model_class = lookup_field "model_class" f;
    runtime_qualified = lookup_field "runtime_qualified" f;
    notes = notes;
  })

-- The constructors called with what the dictionary has.
unfoldable pub rebuild : Fields → Result BackendDescriptor
unfolding require_text require_texts require_profile rebuild_observation rebuild_qualification
rebuild f = do
  name ← require_text (lookup_field "name" f)
  adapter ← require_text (lookup_field "adapter" f)
  capabilities ← require_texts (lookup_field "capabilities" f)
  observation ← require_profile rebuild_observation (lookup_field "observation_profile" f)
  qualification ← require_profile rebuild_qualification (lookup_field "qualification_profile" f)
  version ← require_text (lookup_field "contract_version" f)
  notes ← require_texts (lookup_field "notes" f)
  make_descriptor (record {
    name = name;
    adapter = adapter;
    capabilities = capabilities;
    observation_profile = observation;
    qualification_profile = qualification;
    contract_version = version;
    notes = notes;
  })

pub texts_read : (xs : List String) → read_texts (text_items xs) ≡ ok xs
unfolding read_texts text_items
texts_read [] = refl
texts_read (x ∷ xs) = ground (arith, texts_read xs)

observation_made :
    (m : ObservationMode) (b : Bool) (notes : List String)
    → make_observation (text (mode_value m)) (boolean b) notes
      ≡ ok (record { mode = m; may_mutate_backend_state = b; notes = notes })
unfolding make_observation read_mode mode_value require_bool text_discrete
observation_made passive b notes = refl
observation_made execution_coupled b notes = refl

pub observation_read :
    (p : BackendObservationProfile) → rebuild_observation (observation_dict p) ≡ ok p
unfolding rebuild_observation require_texts observation_dict lookup_field text_discrete
observation_read p =
    ap (λ r. r >>= make_observation (text (mode_value p.mode)) (boolean p.may_mutate_backend_state))
      (texts_read p.notes)
    ∙ observation_made p.mode p.may_mutate_backend_state p.notes

-- The constructor made the profile.
abbrev pub WasMade : BackendQualificationProfile → Type 0
WasMade p = (q : QualificationArguments) × (make_qualification q ≡ ok p)

label_kept : (j : Json) (s : String) → require_label j ≡ ok s → require_label (text s) ≡ ok s
unfolding require_label
label_kept (text t) s e = ground (arith, e)
label_kept null s e = cc
label_kept (boolean b) s e = cc
label_kept (integer n) s e = cc
label_kept (float x) s e = cc
label_kept (array xs) s e = cc
label_kept (object f) s e = cc

-- The arguments that a profile gives back.
abbrev pub arguments_of : BackendQualificationProfile → QualificationArguments
arguments_of p = record {
  source_revision = text p.source_revision;
  observation_path = text p.observation_path;
  cache_mode = text p.cache_mode;
  concurrency_profile = text p.concurrency_profile;
  model_class = text p.model_class;
  runtime_qualified = boolean p.runtime_qualified;
  notes = p.notes;
}

qualification_made :
    (q : QualificationArguments) (p : BackendQualificationProfile)
    → make_qualification q ≡ ok p
    → make_qualification (arguments_of p) ≡ ok p
unfolding make_qualification require_bool
qualification_made q p made =
    let (a, e1, r1) = ok_first (require_label q.source_revision) _ p made in
    let (b, e2, r2) = ok_first (require_label q.observation_path) _ p r1 in
    let (c, e3, r3) = ok_first (require_label q.cache_mode) _ p r2 in
    let (d, e4, r4) = ok_first (require_label q.concurrency_profile) _ p r3 in
    let (f, e5, r5) = ok_first (require_label q.model_class) _ p r4 in
    let (g, e6, r6) = ok_first (require_bool q.runtime_qualified) _ p r5 in
    subst (λ p. make_qualification (arguments_of p) ≡ ok p) (ok-injective _ p r6)
      (ground (
        arith,
        label_kept _ a e1,
        label_kept _ b e2,
        label_kept _ c e3,
        label_kept _ d e4,
        label_kept _ f e5,
      ))

pub qualification_read :
    (p : BackendQualificationProfile)
    → WasMade p
    → rebuild_qualification (qualification_dict p) ≡ ok p
unfolding rebuild_qualification require_texts qualification_dict lookup_field text_discrete
qualification_read p (q, made) =
    ap (λ r. r >>= λ notes. make_qualification (record (arguments_of p) { notes = notes }))
      (texts_read p.notes)
    ∙ qualification_made q p made

profile_read :
    {P : Type 0} (read : Fields → Result P) (to_fields : P → Fields) (o : Option P)
    → ((p : P) → o ≡ some p → read (to_fields p) ≡ ok p)
    → require_profile read (profile_or_null to_fields o) ≡ ok o
unfolding require_profile profile_or_null
profile_read read to_fields none each = refl
profile_read read to_fields (some p) each = ground (arith, each p refl)

-- The arguments of the constructor that a dictionary has.
abbrev pub printed_arguments : BackendDescriptor → DescriptorArguments
printed_arguments d = record {
  name = d.name;
  adapter = d.adapter;
  capabilities = capability_values d.capabilities;
  observation_profile = d.observation_profile;
  qualification_profile = d.qualification_profile;
  contract_version = d.contract_version;
  notes = d.notes;
}

pub rebuild_reads :
    (d : BackendDescriptor)
    → ((p : BackendQualificationProfile) → d.qualification_profile ≡ some p → WasMade p)
    → rebuild (to_dict d) ≡ make_descriptor (printed_arguments d)
unfolding rebuild to_dict lookup_field text_discrete require_text require_texts
rebuild_reads d made =
    rw
      (
        texts_read (capability_values d.capabilities),
        profile_read rebuild_observation observation_dict d.observation_profile
            (λ p _. observation_read p),
        profile_read rebuild_qualification qualification_dict d.qualification_profile
            (λ p e. qualification_read p (made p e)),
        texts_read d.notes,
      )
      refl
