-- ===== src/Tests/Conformance.antt =====
-- The theorem on the conformance suite at a driver whose admissions raise.
use statebraid.Prelude.{ℕ, pos, ◌+◌, ◌≡◌, refl, true, none, nat_hashable, ◌==◌}
use statebraid.Prelude.Result.{ok, raise, runtime_error}
use statebraid.Backend.Conformance.{
  BackendConformanceDriver, BackendConformanceReport, DriverFactory, passed, passed_count,
  skipped_count, failed_count,
}
use statebraid.Backend.Conformance.Suite.{standard_cases, run_backend_conformance}
use statebraid.Backend.Conformance.Report.{AreJudged, suite_reports}
use statebraid.Adapters.LlamaCppManaged.{llama_cpp_managed_backend_descriptor}

-- The state counts the payloads.
abbrev driver : BackendConformanceDriver ℕ ℕ ℕ ℕ
driver = record {
  descriptor = llama_cpp_managed_backend_descriptor;
  cache_key = λ domain tokens n. (ok 0, n);
  payload = λ nbytes n. (ok n, n + 1);
  seed = λ domain tokens x role nbytes n. (ok tt, n);
  admit = λ domain tokens x role nbytes old n. (raise runtime_error, n);
  lookup = λ domain tokens n. (
    ok (record {
      namespace = 0;
      prompt = tokens;
      remaining = tokens;
      payload = none;
      matched_key = none;
    }),
    n,
  );
  resides = λ domain tokens n. (ok true, n);
  entry_hits = λ domain tokens n. (ok none, n);
  resident_stats = λ n. (ok (pos 0, pos 0), n);
  fail_next_insert = λ n. (ok tt, n);
  generation_safe_exact = λ domain tokens n. (raise runtime_error, n);
}

abbrev factory : DriverFactory ℕ ℕ ℕ ℕ
factory max_sequences max_bytes n = (ok driver, n)

suite_reports_example :
    (report : BackendConformanceReport) × ((run_backend_conformance factory 0).0 ≡ ok report)
    × AreJudged llama_cpp_managed_backend_descriptor (standard_cases factory) 0 report.results
    × (passed_count report + skipped_count report + failed_count report ≡ 7)
    × (passed report ≡ (failed_count report == 0))
suite_reports_example = suite_reports factory 0 driver refl
