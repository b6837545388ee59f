-- ===== src/Backend/Conformance.antt =====
-- src/statebraid/backend/conformance.py: the results, the report, the driver and the runner of the
-- conformance checks. The state is that of all drivers that a factory has made.
pub mod Cases
pub mod Suite
pub mod Report
use statebraid.Prelude.{
  ℕ, suc, ◌+◌, ℤ, Bool, true, false, not, ◌&&◌, List, [], ◌∷◌, Option, String, length, contains,
  select, if◌then◌else◌,
}
use statebraid.Prelude.Result.{Result, ok, raise, Error, runtime_error}
use statebraid.Prelude.Exec.{Exec}
use statebraid.Backend.Descriptor.{
  BackendCapability, BackendDescriptor, capability_hashable, supports,
}
use statebraid.Backend.Observation.{LookupObservation}

pub data ConformanceStatus : Type 0 where
  pass skip fail : ConformanceStatus

unfoldable pub status_discrete : Discrete ConformanceStatus
status_discrete = hlevel

-- The texts of `detail`, by what they tell.
pub data Detail : Type 0 where
  no_detail : Detail
  unsupported : List BackendCapability → Detail
  raised : Error → Detail

pub record ConformanceResult : Type 0 where
  pub name : String
  pub status : ConformanceStatus
  pub required_capabilities : List BackendCapability
  pub detail : Detail

pub record BackendConformanceReport : Type 0 where
  pub descriptor : BackendDescriptor
  pub results : List ConformanceResult

unfoldable pub is_pass : ConformanceStatus → Bool
is_pass pass = true
is_pass skip = false
is_pass fail = false

unfoldable pub is_skip : ConformanceStatus → Bool
is_skip pass = false
is_skip skip = true
is_skip fail = false

unfoldable pub is_fail : ConformanceStatus → Bool
is_fail pass = false
is_fail skip = false
is_fail fail = true

-- `all(not test(r) for r in results)`.
unfoldable pub none_of : (ConformanceStatus → Bool) → List ConformanceResult → Bool
none_of test [] = true
none_of test (r ∷ rs) = not (test r.status) && none_of test rs

-- `sum(test(r) for r in results)`.
unfoldable pub count_of : (ConformanceStatus → Bool) → List ConformanceResult → ℕ
count_of test [] = 0
count_of test (r ∷ rs) = (if test r.status then 1 else 0) + count_of test rs

unfoldable pub passed : BackendConformanceReport → Bool
unfolding none_of is_fail
passed report = none_of is_fail report.results

unfoldable pub passed_count : BackendConformanceReport → ℕ
unfolding count_of is_pass
passed_count report = count_of is_pass report.results

unfoldable pub skipped_count : BackendConformanceReport → ℕ
unfolding count_of is_skip
skipped_count report = count_of is_skip report.results

unfoldable pub failed_count : BackendConformanceReport → ℕ
unfolding count_of is_fail
failed_count report = count_of is_fail report.results

-- `BackendConformanceDriver`: `D` is the state of the drivers, `K` the keys, `N` the namespaces and `P`
-- the payloads, which are compared by identity.
pub record BackendConformanceDriver (D K N P : Type 0) : Type 0 where
  pub descriptor : BackendDescriptor
  pub cache_key : String → List ℤ → Exec D K
  pub payload : ℕ → Exec D P
  pub seed : String → List ℤ → P → String → ℕ → Exec D (Unit {0})
  pub admit : String → List ℤ → P → String → ℕ → Option (List ℤ) → Exec D Bool
  pub lookup : String → List ℤ → Exec D (LookupObservation N P)
  pub resides : String → List ℤ → Exec D Bool
  pub entry_hits : String → List ℤ → Exec D (Option ℤ)
  pub resident_stats : Exec D (ℤ × ℤ)
  pub fail_next_insert : Exec D (Unit {0})
  pub generation_safe_exact : String → List ℤ → Exec D (LookupObservation N P)

abbrev pub DriverFactory : Type 0 → Type 0 → Type 0 → Type 0 → Type 0
DriverFactory D K N P = ℕ → ℕ → Exec D (BackendConformanceDriver D K N P)

-- The required capabilities that a descriptor lacks.
unfoldable pub missing_of : BackendDescriptor → List BackendCapability → List BackendCapability
unfolding select supports
missing_of descriptor required = select (λ item. not (supports descriptor (item ∷ []))) required

module _ {D : Type 0} where
  -- `_require`.
  unfoldable pub require_that : Bool → Exec D (Unit {0})
  require_that condition s = (if condition then ok tt else raise runtime_error, s)

  -- What a case that ran is turned into.
  unfoldable pub judge :
      String → List BackendCapability → Result (Unit {0}) × D → Result ConformanceResult × D
  judge name required (ok _, s) = (
    ok (record {
      name = name;
      status = pass;
      required_capabilities = required;
      detail = no_detail;
    }),
    s,
  )
  judge name required (raise e, s) = (
    ok (record { name = name; status = fail; required_capabilities = required; detail = raised e }),
    s,
  )

  -- A case that is skipped, or runs where nothing is missing.
  unfoldable pub run_unless :
      List BackendCapability
      → String
      → List BackendCapability
      → Exec D (Unit {0})
      → Exec D ConformanceResult
  unfolding judge
  run_unless [] name required case s = judge name required (case s)
  run_unless (c ∷ cs) name required case s = (
    ok (record {
      name = name;
      status = skip;
      required_capabilities = required;
      detail = unsupported (c ∷ cs);
    }),
    s,
  )

  unfoldable pub run_case :
      BackendDescriptor
      → String
      → List BackendCapability
      → Exec D (Unit {0})
      → Exec D ConformanceResult
  unfolding run_unless missing_of
  run_case descriptor name required case =
      run_unless (missing_of descriptor required) name required case
