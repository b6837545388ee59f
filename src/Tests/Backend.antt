-- ===== src/Tests/Backend.antt =====
-- The theorems on the backend contract and on generation safety at concrete inputs.
use statebraid.Prelude.{
  ℕ, ◌+◌, ◌≡◌, refl, true, not, List, [], ◌∷◌, ◌++◌, none, some, String, nat_hashable, int_hashable,
  list_hashable, int_discrete, list_discrete, string_hashable, ℤ, pos, length,
}
use native.Mathlib.Decide.{ℕ_discrete}
use statebraid.Prelude.Result.{ok}
use statebraid.Cache.Key.{from_tokens, matched_prefix_key}
use statebraid.Cache.Generation.{ensure_generation_safe_exact_hit, but_last}
use statebraid.Cache.Generation.Safety.{IsReady, IsFaithful, generation_safe}
use statebraid.Backend.Observation.{
  LookupObservation, from_backend_result, hit, matched_tokens, is_none,
}
use statebraid.Backend.Observation.Laws.{tokens_of, observation_splits}
use statebraid.Backend.Descriptor.{capability_hashable}

abbrev prompt : List ℤ
prompt = pos 1 ∷ pos 2 ∷ pos 3 ∷ []

abbrev observation : LookupObservation ℕ String
observation = record {
  namespace = 0;
  prompt = prompt;
  remaining = pos 3 ∷ [];
  payload = some "state";
  matched_key = some (from_tokens 0 (pos 1 ∷ pos 2 ∷ []));
}

observed : from_backend_result 0 prompt (some "state") (pos 3 ∷ []) ≡ ok observation
unfolding from_backend_result from_tokens list_discrete int_discrete ℕ_discrete
observed = refl

observation_splits_example :
    (tokens_of observation.matched_key ++ observation.remaining ≡ prompt)
    × (observation.remaining ≡ pos 3 ∷ [])
    × (matched_tokens observation + length (pos 3 ∷ []) ≡ length prompt)
    × (hit observation ≡ not (is_none {A = String} (some "state")))
    × (observation.matched_key ≡ matched_prefix_key 0 prompt (pos 3 ∷ []))
observation_splits_example =
    observation_splits 0 prompt (some "state") (pos 3 ∷ []) observation observed

-- A cache is the list of its tokens; every one can be trimmed, and no shorter one is found.
lists-IsFaithful :
    IsFaithful {C = List ℕ} {T = ℕ} (λ c. c) (λ _. true) but_last (λ shorter. (none, shorter))
lists-IsFaithful = record { trims = λ c e. refl; fetches = λ shorter. refl }

generation_safe_example :
    IsReady {C = List ℕ} {T = ℕ}
      (λ c. c)
      (1 ∷ 2 ∷ [])
      (ensure_generation_safe_exact_hit {C = List ℕ} {T = ℕ}
        (λ _. true)
        but_last
        (λ shorter. (none, shorter))
        (some (1 ∷ 2 ∷ []))
        []
        (1 ∷ 2 ∷ []))
generation_safe_example =
    generation_safe (λ c. c) (λ _. true) but_last (λ shorter. (none, shorter)) lists-IsFaithful
      (some (1 ∷ 2 ∷ [])) [] 1 (2 ∷ []) refl
