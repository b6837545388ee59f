-- ===== src/Tests/Doctor.antt =====
-- The theorem on the doctor at a server of the audited source.
use statebraid.Prelude.{ℕ, ◌≡◌, ◌⊎◌, false, true}
use statebraid.Prelude.Result.{ok}
use statebraid.Compat.LlamaCpp.{LlamaCppCompatibilityReport}
use statebraid.Doctor.{llama_cpp_report, llama_cpp, main}
use statebraid.Doctor.Exit.{HasAccepted, doctor_agrees}
use statebraid.Tests.Adapters.{server}
use statebraid.Tests.MlxProbe.{environment}

doctor_agrees_example :
    (report : LlamaCppCompatibilityReport) × (code : ℕ) × ((main
        (λ url. server)
        environment
        (llama_cpp "http://127.0.0.1:8080")
        0).0
      ≡ ok (llama_cpp_report report, code))
    × (((report.compatible ≡ false) × (code ≡ 2))
        ⊎ ((report.compatible ≡ true)
            × (code ≡ 0)
            × HasAccepted (λ url. server) environment "http://127.0.0.1:8080" 0 report))
doctor_agrees_example = doctor_agrees (λ url. server) environment "http://127.0.0.1:8080" 0
