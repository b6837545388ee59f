-- ===== src/Backend/Conformance/Suite.antt =====
-- src/statebraid/backend/conformance.py: `run_backend_conformance`, and what its report tells.
use statebraid.Prelude.{List, [], ◌∷◌, String, Hashable, nat_hashable}
use statebraid.Prelude.Exec.{Exec, pure, continue, ◌>>=◌}
use statebraid.Backend.Descriptor.{
  BackendCapability, BackendDescriptor, capability_hashable, namespace_isolation, prefix_lookup,
  hit_attribution, admission_residency, transactional_mutation, rollback, generation_safety,
}
use statebraid.Backend.Conformance.{
  ConformanceResult, BackendConformanceReport, DriverFactory, run_case,
}
use statebraid.Backend.Conformance.Cases.{
  namespace_identity, namespace_isolation_case, hit_attribution_case, stable_active_lineage,
  capacity_case, rollback_case, generation_safety_case,
}

-- The arguments of a `_run_case`.
pub record ConformanceCase (D : Type 0) : Type 0 where
  pub name : String
  pub required : List BackendCapability
  pub case : Exec D (Unit {0})

-- The calls of `_run_case`, in order.
unfoldable pub run_cases :
    {D : Type 0} → BackendDescriptor → List (ConformanceCase D) → Exec D (List ConformanceResult)
unfolding continue run_case
run_cases descriptor [] = pure []
run_cases descriptor (c ∷ cs) = do
  result ← run_case descriptor c.name c.required c.case
  results ← run_cases descriptor cs
  pure (result ∷ results)

module _ {D K N P : Type 0} ⦃hk : Hashable K⦄ ⦃hp : Hashable P⦄
    (factory : DriverFactory D K N P) where
  abbrev pub standard_cases : List (ConformanceCase D)
  standard_cases =
      record {
        name = "namespace_identity";
        required = namespace_isolation ∷ [];
        case = namespace_identity factory;
      }
      ∷ record {
        name = "namespace_isolation_and_same_domain_reuse";
        required = namespace_isolation ∷ prefix_lookup ∷ [];
        case = namespace_isolation_case factory;
      }
      ∷ record {
        name = "actual_prefix_hit_attribution";
        required = prefix_lookup ∷ hit_attribution ∷ [];
        case = hit_attribution_case factory;
      }
      ∷ record {
        name = "stable_active_lineage_and_residency";
        required = admission_residency ∷ [];
        case = stable_active_lineage factory;
      }
      ∷ record {
        name = "sequence_and_byte_capacity";
        required = admission_residency ∷ [];
        case = capacity_case factory;
      }
      ∷ record {
        name = "transaction_rollback";
        required = admission_residency ∷ transactional_mutation ∷ rollback ∷ [];
        case = rollback_case factory;
      }
      ∷ record {
        name = "generation_safe_exact_reuse";
        required = prefix_lookup ∷ generation_safety ∷ [];
        case = generation_safety_case factory;
      }
      ∷ []

  unfoldable pub run_backend_conformance : Exec D BackendConformanceReport
  unfolding continue run_cases
  run_backend_conformance = do
    driver ← factory 4 1000
    results ← run_cases driver.descriptor standard_cases
    pure (record { descriptor = driver.descriptor; results = results })
