-- ===== src/Tests/ManagedAccounts.antt =====
-- The theorems on the handles of the managed adapter of llama.cpp that no key is bound to.
use native.Mathlib.Decide.{ℕ_discrete}
use statebraid.Prelude.{
  pos, ◌≡◌, ◌⊎◌, refl, ◌∙◌, false, List, [], ◌∷◌, none, String, string_hashable, text_discrete,
  nat_hashable, contains, contains-discard, int_discrete,
}
use statebraid.Prelude.Result.{Result, ok, raise}
use statebraid.Prelude.Exec.{continue, on_second, rescue}
use statebraid.Prelude.Json.{lookup_field, lookup_or, as_object, as_text, as_integer, as_natural}
use statebraid.Cache.Key.{from_tokens}
use statebraid.Cache.Policy.{init}
use statebraid.Adapters.LlamaCpp.Lookup.{namespace_discrete}
use statebraid.Adapters.LlamaCppManaged.{as_name, as_count, as_positive}
use statebraid.Adapters.LlamaCppManaged.Answers.{is_true}
use statebraid.Adapters.LlamaCppManaged.Mutations.{
  Handle, check_mutation, check_expected, read_capture, equals_count, equals_text, as_name_list,
  all_int32, in_int32, as_names,
}
use statebraid.Adapters.LlamaCppManaged.Http.{
  require_state_binding, drop_request, drop_state, reconcile_drop, post_managed, check_captured,
  capture_current_state,
}
use statebraid.Adapters.LlamaCppManaged.Storage.{empty_registry, require_key, require_state}
use statebraid.Adapters.LlamaCppManaged.Storage.Cleanup.{
  capture_current, flush_pending, flush_unless, keep_or_drop, require_captured,
}
use statebraid.Adapters.LlamaCppManaged.Storage.Accounted.{IsAccounted, AreDrops}
use statebraid.Adapters.LlamaCppManaged.PromptCache.{
  Cache, admit_captured, capture_stable_candidate,
}
use statebraid.Adapters.LlamaCppManaged.PromptCache.Accounts.{
  admit_captured_settles, capture_stable_candidate_settles,
}
use statebraid.Tests.Managed.{server, adapter}
use statebraid.Tests.ManagedCalls.{state_named}

-- The server no longer holds the handle.
abbrev IsGone : List String → Type 0
IsGone s = contains "h1" s ≡ false

-- A drop raises ahead of the call, or calls the server.
after_drop :
    (r : Result (Unit {0})) (x : Handle) (s : List String)
    → IsGone s
    → IsGone
        (continue
          (r, s)
          λ _ s'.
            reconcile_drop server adapter x
              (post_managed server adapter (drop_request adapter x) s')).1
unfolding reconcile_drop post_managed check_mutation continue text_discrete ℕ_discrete lookup_field
    is_true as_object equals_text as_text
after_drop (raise e) x s gone = gone
after_drop (ok _) x s gone = contains-discard "h1" "h1" s ∙ refl

drop_brings : (s : List String) → IsGone (drop_state server adapter (state_named "h1") s).1
unfolding drop_state require_state_binding reconcile_drop post_managed check_mutation continue
    text_discrete ℕ_discrete lookup_field is_true as_object equals_text as_text
drop_brings s = contains-discard "h1" "h1" s

drops : AreDrops server adapter (state_named "h1") IsGone
unfolding drop_state
drops = record {
  brings = λ s fine. drop_brings s;
  stays = λ x. record { keeps = λ s gone. after_drop (require_state_binding adapter x) x s gone };
}

abbrev start : Cache server adapter
start = (init (pos 4) (pos 100) [] none, (empty_registry, "h2" ∷ []))

bound_here : require_state_binding adapter (state_named "h1") ≡ ok tt
unfolding require_state_binding text_discrete ℕ_discrete
bound_here = refl

admit_captured_settles_example :
    IsAccounted
      (state_named "h1")
      (admit_captured server adapter (pos 11 ∷ []) (state_named "h1") "active" none start).1.1.0
    ⊎ IsGone
        (admit_captured server adapter (pos 11 ∷ []) (state_named "h1") "active" none start).1.1.1
admit_captured_settles_example =
    admit_captured_settles server adapter (state_named "h1") bound_here IsGone drops (pos 11 ∷ [])
      "active" none start

captured_here :
    (capture_current server adapter (from_tokens adapter.stock.namespace (pos 11 ∷ [])) start.1).0
    ≡ ok (state_named "h1", [])
unfolding capture_current flush_pending flush_unless keep_or_drop require_captured require_key
    require_state require_state_binding capture_current_state check_captured post_managed
    check_mutation check_expected read_capture equals_count equals_text as_name_list all_int32
    in_int32 as_names as_name as_count as_positive lookup_field lookup_or as_object as_text
    as_integer as_natural text_discrete ℕ_discrete int_discrete continue on_second rescue is_true
    namespace_discrete from_tokens
captured_here = refl

capture_stable_candidate_settles_example :
    IsAccounted
      (state_named "h1")
      (capture_stable_candidate server adapter (pos 11 ∷ []) start).1.1.0
    ⊎ IsGone (capture_stable_candidate server adapter (pos 11 ∷ []) start).1.1.1
capture_stable_candidate_settles_example =
    capture_stable_candidate_settles server adapter (pos 11 ∷ []) start (state_named "h1") [] IsGone
      drops captured_here
