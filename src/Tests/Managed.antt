-- ===== src/Tests/Managed.antt =====
-- The theorems on the managed adapter of llama.cpp at a server with one handle.
use statebraid.Prelude.{
  pos, true, false, List, [], ◌∷◌, none, some, String, string_hashable, nat_hashable, ◌==◌, discard,
  if◌then◌else◌,
}
use statebraid.Prelude.Result.{ok}
use statebraid.Prelude.Json.{
  Json, boolean, integer, text, array, object, item, end_of_items, field, end_of_fields,
}
use statebraid.Cache.Policy.{init}
use statebraid.Adapters.LlamaCpp.Lookup.{JsonTransport}
use statebraid.Adapters.LlamaCppManaged.Mutations.{LlamaCppManagedHttpAdapter}
use statebraid.Adapters.LlamaCppManaged.Storage.{empty_registry}
use statebraid.Adapters.LlamaCppManaged.PromptCache.Sound.{Sound}
use statebraid.Adapters.LlamaCppManaged.PromptCache.System.{
  ManagedCall, bare_capture, capture, observation, trim, evictions, managed_run,
  managed_run_from_start,
}

abbrev pub stored : Json
stored = object (
    field "handle" (text "h1")
      (field "n_tokens" (integer (pos 1)) (field "n_bytes" (integer (pos 10)) end_of_fields)))

-- The answer to `/statebraid/cache`.
abbrev pub store_answer : Json
store_answer = object (
    field "enabled" (boolean true) (
      field "epoch" (text "e") (
        field "n_handles" (integer (pos 1)) (
          field "n_tokens" (integer (pos 1)) (
            field "n_bytes" (integer (pos 10))
              (field "handles" (array (item stored end_of_items)) end_of_fields))))))

-- The answer to every mutation.
abbrev pub mutation_answer : Json
mutation_answer = object (
    field "success" (boolean true) (
      field "epoch" (text "e") (
        field "id_slot" (integer (pos 0)) (
          field "n_cleared" (integer (pos 0)) (
            field "handle" (text "h1") (
              field "n_tokens" (integer (pos 1))
                (field "n_bytes" (integer (pos 10)) end_of_fields)))))))

abbrev pub completion_answer : Json
completion_answer = object (
    field "timings"
      (object
        (field "cache_n" (integer (pos 1)) (field "prompt_n" (integer (pos 1)) end_of_fields)))
      end_of_fields)

abbrev pub props_answer : Json
props_answer = object (
    field "build_info" (text "b9000-09a4891d")
      (field "total_slots" (integer (pos 1)) end_of_fields))

abbrev pub slots_answer : Json
slots_answer = array (item (object (field "id" (integer (pos 0)) end_of_fields)) end_of_items)

-- The state lists the handles; every mutation drops the first one.
abbrev pub server : JsonTransport (List String)
server = record {
  get_json = λ path s. (
    ok (
        if path == "/props"
        then props_answer
        else if path == "/slots"
        then slots_answer
        else store_answer),
    s,
  );
  post_json = λ path payload s.
      (ok (if path == "/completion" then completion_answer else mutation_answer), discard "h1" s);
  float_is = λ x n. false;
}

abbrev pub adapter : LlamaCppManagedHttpAdapter
adapter = record {
  stock = record {
    base_url = "http://127.0.0.1";
    id_slot = 0;
    namespace = ("llama.cpp", "http://127.0.0.1", "local-default");
  };
  managed_epoch = "e";
}

abbrev calls : List ManagedCall
calls =
    capture (pos 11 ∷ []) "active" none
    ∷ observation ("llama.cpp", "http://127.0.0.1", "local-default") (pos 11 ∷ pos 12 ∷ [])
    ∷ evictions ("h1" ∷ [])
    ∷ bare_capture (pos 11 ∷ [])
    ∷ trim (some (pos 1)) none
    ∷ []

managed_run_from_start_example :
    Sound server adapter (
      managed_run server adapter
        (init (pos 4) (pos 100) [] none, (empty_registry, "h2" ∷ []))
        calls)
managed_run_from_start_example =
    managed_run_from_start server adapter (pos 4) (pos 100) none ("h2" ∷ []) calls
