-- ===== src/Tests/Audit.antt =====
-- The theorem on determinism audits at a server that always answers the same.
use native.Mathlib.Decide.{ℕ_discrete}
use statebraid.Prelude.{
  ℕ, suc, pos, ◌≡◌, refl, true, false, [], ◌∷◌, string_hashable, text_discrete, ◌==◌, add, contains,
  if◌then◌else◌,
}
use statebraid.Prelude.Result.{ok}
use statebraid.Prelude.Exec.{continue}
use statebraid.Prelude.Json.{
  integer, text, array, object, item, end_of_items, field, end_of_fields, lookup_or, lookup_field,
}
use statebraid.Prelude.Texts.Sorted.{sort_texts, insert_text}
use statebraid.Adapters.LlamaCpp.Lookup.{JsonTransport}
use statebraid.Qualification.Requests.{as_dict, read_tokens, require_field}
use statebraid.Qualification.Determinism.{
  AuditArguments, AuditReport, run, repeated, tokenize, completion, erase, read_build_info, str_of,
  report_of, checks_of, all_hold, content_of, stop_type_of, set_of, count_items,
}
use statebraid.Qualification.Determinism.Verdict.{IsVerdict, audit_passes_exact}

-- The state counts the requests.
abbrev steady : JsonTransport ℕ
steady = record {
  get_json = λ path n. (ok (object end_of_fields), n);
  post_json = λ path payload n. (
    ok (
        if path == "/tokenize"
        then object (field "tokens" (array (item (integer (pos 7)) end_of_items)) end_of_fields)
        else object (field "content" (text "calm") end_of_fields)),
    suc n,
  );
  float_is = λ x n. false;
}

abbrev arguments : AuditArguments
arguments = record { repeats = 2; n_predict = pos 24; seed = pos 1234; device_label = "cpu" }

abbrev steady_report : AuditReport
steady_report = record {
  passed = true;
  arguments = arguments;
  build_info = "";
  token_length = 1;
  cold_content_sha256 = "digest";
  cached_content_sha256 = "digest";
  cold_distinct_contents = 1;
  cached_distinct_contents = 1;
  stop_types = "None" ∷ [];
  checks = record {
    cold_repeat_identical = true;
    cached_repeat_identical = true;
    replay_matches_cold = true;
    generation_nonempty = true;
  };
}

steady_reported : (run steady (λ s. "digest") (λ v. "") arguments 0).0 ≡ ok steady_report
unfolding run repeated tokenize completion erase read_build_info str_of as_dict read_tokens
    require_field report_of checks_of all_hold content_of stop_type_of set_of count_items continue
    text_discrete ℕ_discrete add contains lookup_or lookup_field sort_texts insert_text
steady_reported = refl

audit_passes_exact_example : IsVerdict steady (λ s. "digest") (λ v. "") arguments steady_report
audit_passes_exact_example =
    audit_passes_exact steady (λ s. "digest") (λ v. "") arguments 0 steady_report steady_reported
