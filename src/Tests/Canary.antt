-- ===== src/Tests/Canary.antt =====
-- The theorem on the canary at a server that reuses what two sequences of tokens share.
use statebraid.Prelude.{ℕ, ◌-◌, min, ◌≡◌, ℤ, pos, Bool, false, List, [], ◌∷◌, String, length}
use statebraid.Prelude.Result.{Result, ok, raise, type_error}
use statebraid.Prelude.Json.{Json}
use statebraid.Qualification.Canary.{lcp}
use statebraid.Qualification.Canary.Run.{CanaryReport, canary_run}
use statebraid.Qualification.Canary.Run.Exact.{Tells, IsHonest, slot_client, canary_exact}

-- Every text has the same two tokens.
abbrev two_tokens : String → List ℤ
two_tokens prompt = pos 1 ∷ pos 2 ∷ []

abbrev generate : List ℤ → ℕ → List ℤ
generate tokens n = pos 9 ∷ []

-- The tokens that are reused, all but one at most.
abbrev reused : List ℤ → List ℤ → ℕ
reused cached tokens = min (lcp cached tokens) (length tokens - 1)

abbrev no_integer : Json → Result ℤ
no_integer value = raise type_error

abbrev no_float : String → Bool
no_float x = false

canary_exact_example :
    (report : CanaryReport) × ((canary_run
        (slot_client reused two_tokens generate "calm")
        no_integer
        no_float
        (pos 5 ∷ [])).0
      ≡ ok report)
    × Tells report.passed (IsHonest reused two_tokens generate "calm")
canary_exact_example =
    canary_exact reused two_tokens generate "calm" no_integer no_float (pos 5 ∷ [])
