-- ===== src/Adapters/LlamaCpp/Counts.antt =====
-- The counts of tokens in a response of llama.cpp.
use statebraid.Prelude.{ℕ, ◌+◌, ℤ, pos, ◌≡◌, ap, ◌∙◌, arith, Option-cases, inl, inr}
use statebraid.Prelude.Result.{ok}
use statebraid.Prelude.Json.{
  object, integer, Fields, lookup_field, as_object, as_integer, as_natural,
}
use statebraid.Prelude.Json.Forms.{object_form, integer_form, natural_form}
use statebraid.Adapters.LlamaCpp.{LlamaCppReuseStats, from_response, check_counts}

-- A response whose timings have the two counts, which add up to a prompt.
pub record IsCounted (response : Fields) (n_tokens : ℕ) (stats : LlamaCppReuseStats) : Type 0 where
  pub timings : Fields
  pub timings_named : lookup_field "timings" response ≡ object timings
  pub cache_n_named : lookup_field "cache_n" timings ≡ integer (pos stats.cache_n)
  pub prompt_n_named : lookup_field "prompt_n" timings ≡ integer (pos stats.prompt_n)
  pub adds_up : stats.cache_n + stats.prompt_n ≡ n_tokens

counts_form :
    (n : ℕ) (c p : ℤ) (stats : LlamaCppReuseStats)
    → check_counts n c p ≡ ok stats
    → (c ≡ pos stats.cache_n) × (p ≡ pos stats.prompt_n) × (stats.cache_n + stats.prompt_n ≡ n)
unfolding check_counts
counts_form n c p stats e = elim (Option-cases (as_natural c)) [
  | inl none_there ↦ absurd (ground (arith, none_there, e))
  | inr (cached, at) ↦ elim (Option-cases (as_natural p)) [
    | inl none_there ↦ absurd (ground (arith, at, none_there, e))
    | inr (fresh, at') ↦
        let same : cached ≡ stats.cache_n = ground (arith, at, at', e) in
        let same' : fresh ≡ stats.prompt_n = ground (arith, at, at', e) in
        (
          natural_form c cached at ∙ ap pos same,
          natural_form p fresh at' ∙ ap pos same',
          ground (arith, at, at', e),
        )
  ]
]

pub response-IsCounted :
    (response : Fields) (n : ℕ) (stats : LlamaCppReuseStats)
    → from_response response n ≡ ok stats
    → IsCounted response n stats
unfolding from_response
response-IsCounted response n stats e =
    elim (Option-cases (as_object (lookup_field "timings" response))) [
      | inl none_there ↦ absurd (ground (arith, none_there, e))
      | inr (timings, there) ↦ elim (Option-cases (as_integer (lookup_field "cache_n" timings))) [
        | inl none_there ↦ absurd (ground (arith, there, none_there, e))
        | inr (c, cached) ↦ elim (Option-cases (as_integer (lookup_field "prompt_n" timings))) [
          | inl none_there ↦ absurd (ground (arith, there, cached, none_there, e))
          | inr (p, fresh) ↦
              let (c_form, p_form, total) =
                counts_form n c p stats (ground (arith, there, cached, fresh, e)) in
              record {
                timings = timings;
                timings_named = object_form _ timings there;
                cache_n_named = integer_form _ c cached ∙ ap integer c_form;
                prompt_n_named = integer_form _ p fresh ∙ ap integer p_form;
                adds_up = total;
              }
        ]
      ]
    ]
