-- ===== src/Tests/ManagedCalls.antt =====
-- The theorems on single calls of the managed adapter of llama.cpp.
use native.Mathlib.Decide.{ℕ_discrete}
use mathlib.Core.Path.{subst}
use statebraid.Prelude.{
  pos, ◌≡◌, ◌≢◌, refl, sym, ◌∙◌, true, List, [], ◌∷◌, some, String, string_hashable, text_discrete,
  nat_hashable, contains, discard, contains-discard, int_discrete, arith,
}
use statebraid.Prelude.Result.{ok}
use statebraid.Prelude.Exec.{continue, on_second, rescue}
use statebraid.Prelude.Exec.Keeps.{Keeps}
use statebraid.Prelude.Json.{
  lookup_field, lookup_or, as_object, as_text, as_integer, as_natural, as_object_list,
}
use statebraid.Dict.{get, IsDict}
use statebraid.Adapters.LlamaCpp.Lookup.{namespace_discrete}
use statebraid.Adapters.LlamaCppManaged.{read_handles, as_name, as_count, as_positive}
use statebraid.Adapters.LlamaCppManaged.Answers.{
  ManagedStore, check_store, check_accounting, check_totals, check_epoch, is_consistent, is_true,
}
use statebraid.Adapters.LlamaCppManaged.Answers.Laws.{IsAccounted, check_store_accounts}
use statebraid.Adapters.LlamaCppManaged.Mutations.{
  Handle, check_mutation, check_expected, read_capture, equals_count, equals_text, as_name_list,
  all_int32, in_int32, as_names,
}
use statebraid.Adapters.LlamaCppManaged.Http.{
  require_state_binding, drop_state, reconcile_drop, post_managed, check_captured,
  capture_current_state,
}
use statebraid.Adapters.LlamaCppManaged.Storage.{
  Key, Registry, empty_registry, opaque, insert, require_key, require_state, referenced,
}
use statebraid.Adapters.LlamaCppManaged.Storage.Cleanup.{
  capture_current, flush_pending, flush_unless, keep_or_drop, require_captured, flush_drops,
}
use statebraid.Adapters.LlamaCppManaged.Storage.Captured.{
  AreInt32, Fits, capture_current_admissible,
}
use statebraid.Adapters.LlamaCppManaged.Storage.Flush.{
  Flushes, flush_drops_lem, flush_drops_unreferenced, DropsKeep,
}
use statebraid.Tests.Managed.{server, adapter, store_answer}

abbrev read_store : ManagedStore
read_store = record {
  epoch = "e";
  n_handles = 1;
  n_tokens = 1;
  n_bytes = 10;
  handles = record { handle = "h1"; n_tokens = 1; n_bytes = 10 } ∷ [];
}

store_read : check_store (some "e") store_answer ≡ ok read_store
unfolding check_store check_accounting check_totals check_epoch is_consistent is_true read_handles
    as_name as_count as_positive lookup_field as_object as_text as_integer as_natural as_object_list
    text_discrete ℕ_discrete contains
store_read = refl

check_store_accounts_example :
    (epoch : String) × IsAccounted epoch read_store × ((e : String) → some "e" ≡ some e → epoch ≡ e)
check_store_accounts_example = check_store_accounts (some "e") store_answer read_store store_read

abbrev pub key : Key
key = record {
  namespace = ("llama.cpp", "http://127.0.0.1", "local-default");
  tokens = pos 11 ∷ [];
}

abbrev pub state_named : String → Handle
state_named handle = record {
  backend_identity = "http://127.0.0.1";
  epoch = "e";
  handle = handle;
  id_slot = 0;
  n_tokens = 1;
  nbytes = 10;
}

captured :
    (capture_current server adapter key (empty_registry, "h2" ∷ [])).0 ≡ ok (state_named "h1", [])
unfolding capture_current flush_pending flush_unless keep_or_drop require_captured require_key
    require_state require_state_binding capture_current_state check_captured post_managed
    check_mutation check_expected read_capture equals_count equals_text as_name_list all_int32
    in_int32 as_names as_name as_count as_positive lookup_field lookup_or as_object as_text
    as_integer as_natural text_discrete ℕ_discrete int_discrete continue on_second rescue is_true
    namespace_discrete
captured = refl

-- A handle waits for its drop; a key is bound to another one.
abbrev waiting : Registry
waiting = record {
  records = (key, state_named "h2") ∷ [];
  pending_drops = ("h1", state_named "h1") ∷ [];
}

capture_current_admissible_example :
    (key.tokens ≢ [])
    × AreInt32 key.tokens
    × Fits adapter key (state_named "h1")
    × ((insert server adapter key (opaque (state_named "h1")) "active" (waiting, [])).0 ≡ ok tt)
capture_current_admissible_example =
    capture_current_admissible server adapter key "active" (empty_registry, "h2" ∷ []) (waiting, [])
      (state_named "h1") [] captured

waiting-IsDict : IsDict waiting.pending_drops
unfolding get
waiting-IsDict = (refl, tt)

flush_drops_lem_example :
    Flushes server adapter
      (referenced waiting)
      waiting.pending_drops
      0
      ("h2" ∷ [])
      (flush_drops server adapter (waiting, "h2" ∷ [])).0
      (flush_drops server adapter (waiting, "h2" ∷ [])).1.0.pending_drops
      (flush_drops server adapter (waiting, "h2" ∷ [])).1.1
    × ((flush_drops server adapter (waiting, "h2" ∷ [])).1.0.records ≡ waiting.records)
flush_drops_lem_example = flush_drops_lem server adapter waiting ("h2" ∷ []) waiting-IsDict

-- The server still has the handle that a key is bound to.
abbrev HasBound : List String → Type 0
HasBound s = contains "h2" s ≡ true

dropped : (s : List String) → (drop_state server adapter (state_named "h1") s).1 ≡ discard "h1" s
unfolding drop_state require_state_binding reconcile_drop post_managed check_mutation continue
    text_discrete ℕ_discrete lookup_field is_true as_object equals_text as_text
dropped s = refl

drop-Keeps : Keeps HasBound (drop_state server adapter (state_named "h1"))
unfolding text_discrete
drop-Keeps = record {
  keeps = λ s has. subst HasBound (sym (dropped s)) (contains-discard "h2" "h1" s ∙ has);
}

drops_keep : DropsKeep server adapter HasBound (referenced waiting) waiting.pending_drops
unfolding get
drops_keep handle state held unbound =
    subst (λ x. Keeps HasBound (drop_state server adapter x)) (ground (arith, held)) drop-Keeps

flush_drops_unreferenced_example : HasBound (flush_drops server adapter (waiting, "h2" ∷ [])).1.1
unfolding contains text_discrete
flush_drops_unreferenced_example =
    flush_drops_unreferenced server adapter HasBound waiting ("h2" ∷ []) waiting-IsDict drops_keep
      refl
