-- ===== src/Doctor/Exit.antt =====
-- What the exit code of the doctor says.
use statebraid.Prelude.{ℕ, ◌≡◌, ap, true, false, String, arith, ◌⊎◌, inl, inr, Bool-cases}
use statebraid.Prelude.Result.{Result-cases, ok}
use statebraid.Prelude.Exec.{rescue, continue_ok}
use statebraid.Prelude.Json.{Json}
use statebraid.Adapters.LlamaCpp.Lookup.{JsonTransport}
use statebraid.Compat.LlamaCpp.{
  LlamaCppCompatibilityReport, probe_llama_cpp_server, request_both, unreachable_report,
}
use statebraid.Compat.LlamaCpp.Agreement.{Accepts, probe_agrees}
use statebraid.Compat.Mlx.{MlxEnvironment}
use statebraid.Doctor.{llama_cpp_report, llama_cpp, exit_code, main}

probe_returns :
    {S : Type 0} (transport : JsonTransport S) (s : S)
    → (report : LlamaCppCompatibilityReport) × ((probe_llama_cpp_server transport s).0 ≡ ok report)
unfolding probe_llama_cpp_server rescue
probe_returns transport s = elim (Result-cases (request_both transport s).0) [
  | inl (x, bad) ↦ (unreachable_report x, ground (arith, bad))
  | inr (report, fine) ↦ (report, ground (arith, fine))
]

module _ {S : Type 0} (connect : String → JsonTransport S) (environment : MlxEnvironment S) where
  -- The answers of the server at the address, and what the guards of the adapter make of them.
  abbrev pub HasAccepted : String → S → LlamaCppCompatibilityReport → Type 0
  HasAccepted url s report =
      (props : Json) × (slots : Json) × (((connect url).get_json "/props" s).0 ≡ ok props)
      × (((connect url).get_json "/slots" ((connect url).get_json "/props" s).1).0 ≡ ok slots)
      × Accepts props slots report.slot_count

  -- On a llama.cpp server the doctor never raises, whatever its requests do. It shows a report and exits
  -- with 2 where that is not compatible, else with 0. Then the server gave answers on its source and its
  -- slots: the adapter's guard on the source accepts the first and returns the number of slots, and its
  -- guard on a slot accepts the second for every slot that is listed where the ids of all slots are
  -- distinct, and for none where they are not.
  pub doctor_agrees :
      (url : String) (s : S)
      → (report : LlamaCppCompatibilityReport) × (code : ℕ) × ((main connect environment
            (llama_cpp url)
            s).0
          ≡ ok (llama_cpp_report report, code))
        × (((report.compatible ≡ false) × (code ≡ 2))
            ⊎ ((report.compatible ≡ true) × (code ≡ 0) × HasAccepted url s report))
  unfolding main exit_code
  doctor_agrees url s =
      let (report, made) = probe_returns (connect url) s in
      (
        report,
        exit_code report.compatible,
        ap (λ r. r.0) (continue_ok (probe_llama_cpp_server (connect url) s) _ report made),
        elim (Bool-cases report.compatible) [
          | inl fine ↦ inr (fine, ap exit_code fine, probe_agrees (connect url) s report made fine)
          | inr not_fine ↦ inl (not_fine, ap exit_code not_fine)
        ],
      )
