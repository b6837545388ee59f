-- ===== src/Qualification/Canary/Run.antt =====
-- The run of the canary: `run` of mechanical_canary.py.
pub mod Exact
use statebraid.Prelude.{
  ℕ, ℤ, pos, int_hashable, string_hashable, Bool, true, false, ◌&&◌, ◌==◌, List, String, length,
  if◌then◌else◌,
}
use statebraid.Prelude.Result.{Result}
use statebraid.Prelude.Exec.{Exec, pure, local, continue, ◌>>=◌, ◌>>◌}
use statebraid.Prelude.Json.{Json, Fields, lookup_field}
use statebraid.Qualification.Requests.{append_text, repeat_text}
use statebraid.Qualification.Canary.{
  Client, Timing, timing, is_truthy, Prompts, Results, all_checks, lcp,
}

-- `common`.
unfoldable pub common : String
unfolding repeat_text
common =
    repeat_text
      "StateBraid L1 real GGUF qualification fixture. This text is intentionally stable and mechanical. The backend must reuse only the true token prefix and must never expose stale KV state. "
      24

-- The six texts.
unfoldable pub text_a : String
unfolding append_text common
text_a = append_text common "\nBRANCH=A. Return a short deterministic continuation about alpha."

unfoldable pub text_a_ext : String
unfolding append_text text_a
text_a_ext =
    append_text text_a
      "\nCONTINUATION=A2. The prefix above must remain reusable while these suffix tokens are new."

unfoldable pub text_b : String
unfolding append_text common
text_b = append_text common "\nBRANCH=B. Return a short deterministic continuation about beta."

unfoldable pub text_r1 : String
unfolding append_text common
text_r1 = append_text common "\nMULTI ROUND ONE. Fact one: amber. Fact two: cedar."

unfoldable pub text_r2 : String
unfolding append_text text_r1
text_r2 = append_text text_r1 "\nMULTI ROUND TWO. Fact three: delta. Fact four: ember."

unfoldable pub text_r3 : String
unfolding append_text text_r2
text_r3 = append_text text_r2 "\nMULTI ROUND THREE. Fact five: frost. Fact six: granite."

pub record CanaryReport : Type 0 where
  pub passed : Bool
  pub prompts : Prompts
  pub lcp_a_ext_b : ℕ
  pub lcp_a_b : ℕ
  pub results : Results

unfoldable pub canary_report : Prompts → Results → CanaryReport
unfolding all_checks lcp
canary_report p r = record {
  passed = all_checks p r;
  prompts = p;
  lcp_a_ext_b = lcp p.a_ext p.b;
  lcp_a_b = lcp p.a p.b;
  results = r;
}

module _ {S : Type 0} (client : Client S) (other : Json → Result ℤ) (nonzero : String → Bool) where
  -- The tokens of the texts.
  unfoldable pub tokenize_all : Exec S Prompts
  unfolding continue text_a text_a_ext text_b text_r1 text_r2 text_r3
  tokenize_all = do
    a ← client.tokenize text_a
    a_ext ← client.tokenize text_a_ext
    b ← client.tokenize text_b
    r1 ← client.tokenize text_r1
    r2 ← client.tokenize text_r2
    r3 ← client.tokenize text_r3
    pure (record { a = a; a_ext = a_ext; b = b; r1 = r1; r2 = r2; r3 = r3 })

  -- `timing(completion(base_url, tokens))`.
  unfoldable pub timed : List ℤ → Exec S Timing
  unfolding continue timing
  timed tokens = do response ← client.completion tokens 0; local (timing other response)

  unfoldable pub canary_run : Exec S CanaryReport
  unfolding continue tokenize_all timed timing is_truthy canary_report
  canary_run = do
    p ← tokenize_all
    client.erase
    cold_a ← timed p.a
    exact_a ← timed p.a
    generated ← client.completion p.a 12
    exact_a_generation ← local (timing other generated)
    a_extension ← timed p.a_ext
    b_diverge ← timed p.b
    a_after_b ← timed p.a
    client.erase
    r1_cold ← timed p.r1
    r2_extend ← timed p.r2
    r3_extend ← timed p.r3
    client.erase
    a_after_erase ← timed p.a
    pure (
        canary_report p (record {
          cold_a = cold_a;
          exact_a = exact_a;
          exact_a_generation = exact_a_generation;
          content_nonempty = is_truthy nonzero (lookup_field "content" generated);
          a_extension = a_extension;
          b_diverge = b_diverge;
          a_after_b = a_after_b;
          r1_cold = r1_cold;
          r2_extend = r2_extend;
          r3_extend = r3_extend;
          a_after_erase = a_after_erase;
        }))

  -- `main` after the arguments are parsed: the exit code. `audit` stands for `determinism_pre_gate`, which
  -- runs the audit as a process: its status and its exit code.
  unfoldable pub canary_main : Exec S (String × ℤ) → Exec S ℕ
  unfolding continue canary_run
  canary_main audit = do
    (status, audit_code) ← audit
    (if status == "PASS" && audit_code == pos 0
        then (canary_run >>= λ report. pure (if report.passed then 0 else 2))
        else pure 2)
