-- ===== src/Backend/Descriptor/Roundtrip.antt =====
-- What `to_dict` prints is read back by the constructors.
use mathlib.Core.Path.{subst}
use mathlib.Core.List.{foldl}
use statebraid.Prelude.{
  ◌==◌, ==_refl, eq_of_==, ◌≡◌, refl, sym, ap, ◌∙◌, true, false, List, [], ◌∷◌, ◌++◌, some, String,
  string_hashable, text_discrete, contains, contains-select, contains-foldl-add, add, select, map,
  arith, Bool-cases, inl, inr, contains-append,
}
use statebraid.Prelude.Result.{ok, ok-injective, ok_first, ◌>>=◌}
use statebraid.Backend.Descriptor.{
  BackendCapability, namespace_isolation, prefix_lookup, admission_residency,
  transactional_mutation, rollback, hit_attribution, generation_safety, capability_hashable,
  BackendQualificationProfile, BackendDescriptor, is_subset, check_dependencies, check_profiles,
  check_version, post_init, dependencies, integration_level, managed_set, observe_set,
  generation_safe_set,
}
use statebraid.Backend.Descriptor.Levels.{post_init_sound, subset_trans}
use statebraid.Backend.Descriptor.Build.{
  capability_value, read_capability, capability_among, freeze, DescriptorArguments, make_descriptor,
}
use statebraid.Backend.Descriptor.Dict.{capability_values, to_dict}
use statebraid.Backend.Descriptor.Canonical.{
  AreDistinct, capability_values_canonical, select_ext, ordered, ordered_complete,
}
use statebraid.Backend.Descriptor.Rebuild.{rebuild, rebuild_reads, WasMade}

-- The capabilities of two sets are the same.
abbrev SameSet : List BackendCapability → List BackendCapability → Type 0
SameSet cs cs' = (c : BackendCapability) → contains c cs' ≡ contains c cs

value_read : (c : BackendCapability) → read_capability (capability_value c) ≡ ok c
unfolding read_capability capability_among capability_value text_discrete
value_read namespace_isolation = refl
value_read prefix_lookup = refl
value_read admission_residency = refl
value_read transactional_mutation = refl
value_read rollback = refl
value_read hit_attribution = refl
value_read generation_safety = refl

values_frozen :
    (set cs : List BackendCapability)
    → freeze set (map capability_value cs) ≡ ok (foldl (λ s x. add x s) set cs)
unfolding freeze
values_frozen set [] = refl
values_frozen set (c ∷ cs) = ground (arith, value_read c, values_frozen (add c set) cs)

append-AreDistinct :
    (c : BackendCapability) (set : List BackendCapability)
    → AreDistinct set
    → contains c set ≡ false
    → AreDistinct (set ++ c ∷ [])
unfolding contains
append-AreDistinct c [] d new = (refl, tt)
append-AreDistinct c (x ∷ xs) (first, d) new =
    let apart : (c == x) ≡ false = elim (Bool-cases (c == x)) [
      | inl e ↦ absurd (ground (arith, eq_of_== c x e, new, ==_refl x))
      | inr e ↦ e
    ] in
    (
      ground (arith, contains-append x xs (c ∷ []), first, apart),
      append-AreDistinct c xs d (ground (arith, new)),
    )

add-AreDistinct :
    (c : BackendCapability) (set : List BackendCapability)
    → AreDistinct set
    → AreDistinct (add c set)
unfolding add
add-AreDistinct c set d = elim (Bool-cases (contains c set)) [
  | inl e ↦ rw e d
  | inr e ↦ rw e (append-AreDistinct c set d e)
]

freeze-AreDistinct :
    (set : List BackendCapability) (items : List String) (out : List BackendCapability)
    → AreDistinct set
    → freeze set items ≡ ok out
    → AreDistinct out
unfolding freeze
freeze-AreDistinct set [] out d e = subst AreDistinct (ok-injective set out e) d
freeze-AreDistinct set (item ∷ items) out d e =
    let (c, read, rest) = ok_first (read_capability item) _ out e in
    freeze-AreDistinct (add c set) items out (add-AreDistinct c set d) rest

check_dependencies_complete :
    (cs set : List BackendCapability)
    → ((c : BackendCapability) → contains c cs ≡ true → is_subset (dependencies c) set ≡ true)
    → check_dependencies cs set ≡ ok tt
unfolding check_dependencies contains
check_dependencies_complete [] set closed = refl
check_dependencies_complete (c ∷ cs) set closed = ground (
  arith,
  closed c,
  ==_refl c,
  check_dependencies_complete cs set (λ x m. closed x (ground (arith, m))),
)

abbrev with_capabilities : List BackendCapability → BackendDescriptor → BackendDescriptor
with_capabilities cs d = record d { capabilities = cs }

-- A descriptor that was built is built from an equal set of capabilities too.
post_init_same :
    (d : BackendDescriptor) (cs : List BackendCapability)
    → SameSet d.capabilities cs
    → post_init d ≡ ok d
    → post_init (with_capabilities cs d) ≡ ok (with_capabilities cs d)
unfolding post_init check_version check_profiles
post_init_same d cs same built =
    let (_, version, closed, observation, qualification) = post_init_sound d d built in
    let complete = check_dependencies_complete cs cs (λ c m.
      subset_trans (dependencies c) d.capabilities cs (λ x n. same x ∙ n)
        (closed c (sym (same c) ∙ m))) in
    ground (
      arith,
      version,
      complete,
      same prefix_lookup,
      same generation_safety,
      observation,
      qualification,
    )

subset_same :
    (xs cs cs' : List BackendCapability) → SameSet cs cs' → is_subset xs cs' ≡ is_subset xs cs
unfolding is_subset
subset_same [] cs cs' same = refl
subset_same (x ∷ xs) cs cs' same = ground (arith, same x, subset_same xs cs cs' same)

integration_level_same :
    (d : BackendDescriptor) (cs : List BackendCapability)
    → SameSet d.capabilities cs
    → integration_level (with_capabilities cs d) ≡ integration_level d
unfolding integration_level
integration_level_same d cs same = ground (
  arith,
  subset_same generation_safe_set d.capabilities cs same,
  subset_same managed_set d.capabilities cs same,
  subset_same observe_set d.capabilities cs same,
  same namespace_isolation,
)

-- The set that is read back.
module _ (d : BackendDescriptor) (distinct : AreDistinct d.capabilities) where
  abbrev sorted_capabilities : List BackendCapability
  sorted_capabilities = select (λ c. contains c d.capabilities) ordered

  abbrev read_back : List BackendCapability
  read_back = foldl (λ s c. add c s) [] sorted_capabilities

  read_back_frozen : freeze [] (capability_values d.capabilities) ≡ ok read_back
  read_back_frozen =
      ap (freeze []) (capability_values_canonical d.capabilities distinct)
      ∙ values_frozen [] sorted_capabilities

  read_back_same : SameSet d.capabilities read_back
  unfolding contains
  read_back_same c =
      contains-foldl-add c [] sorted_capabilities
      ∙ contains-select (λ x. contains x d.capabilities) c ordered
      ∙ ground (arith, ordered_complete c)

  read_back-AreDistinct : AreDistinct read_back
  read_back-AreDistinct =
      freeze-AreDistinct [] (capability_values d.capabilities) read_back tt read_back_frozen

  values_same : capability_values read_back ≡ capability_values d.capabilities
  values_same =
      capability_values_canonical read_back read_back-AreDistinct
      ∙ ap (map capability_value) (
          select_ext (λ c. contains c read_back) (λ c. contains c d.capabilities) ordered
            (λ c _. read_back_same c))
      ∙ sym (capability_values_canonical d.capabilities distinct)

  dict_same : to_dict (with_capabilities read_back d) ≡ to_dict d
  unfolding to_dict
  dict_same = rw (values_same, integration_level_same d read_back read_back_same) refl

-- A descriptor that was built from any arguments, with a qualification profile that its constructor made
-- or none: the constructors accept what `to_dict` prints of it, and make a descriptor with the same set
-- of capabilities and the same other fields, of which `to_dict` prints the same.
pub to_dict_rebuilds :
    (x : DescriptorArguments) (d : BackendDescriptor)
    → ((p : BackendQualificationProfile) → x.qualification_profile ≡ some p → WasMade p)
    → make_descriptor x ≡ ok d
    → (cs : List BackendCapability) × ((c : BackendCapability)
        → contains c cs ≡ contains c d.capabilities)
      × (rebuild (to_dict d) ≡ ok (record d { capabilities = cs }))
      × (to_dict (record d { capabilities = cs }) ≡ to_dict d)
unfolding make_descriptor
to_dict_rebuilds x d made e =
    let (cs, frozen, rest) = ok_first (freeze [] x.capabilities) _ d e in
    let same = (post_init_sound _ d rest).0 in
    let built : post_init d ≡ ok d = ap post_init same ∙ rest in
    let distinct : AreDistinct d.capabilities =
      subst (λ d. AreDistinct d.capabilities) (sym same)
        (freeze-AreDistinct [] x.capabilities cs tt frozen) in
    let profile : (p : BackendQualificationProfile) → d.qualification_profile ≡ some p → WasMade p =
      λ p q. made p (sym (ap (λ d. d.qualification_profile) same) ∙ q) in
    (
      read_back d distinct,
      read_back_same d distinct,
      rebuild_reads d profile
          ∙ ap (λ r. r >>= λ cs. post_init (with_capabilities cs d)) (read_back_frozen d distinct)
          ∙ post_init_same d (read_back d distinct) (read_back_same d distinct) built,
      dict_same d distinct,
    )
