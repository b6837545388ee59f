-- ===== src/Qualification/Determinism.antt =====
-- qualification/determinism_audit.py. The transport stands for `request_json`; `sha256` and `str`, where
-- the value is no string, boolean or `None`, are arguments.
pub mod Verdict
use Prim.Native.String.{[] as empty, ◌∷◌ as prepend}
use mathlib.Core.List.{foldl}
use statebraid.Prelude.{
  ℕ, zero, suc, ℤ, pos, Bool, true, false, not, ◌&&◌, List, [], ◌∷◌, ◌++◌, Option, none, some,
  String, string_hashable, nat_hashable, ◌==◌, add, length, map, if◌then◌else◌,
}
use statebraid.Prelude.Result.{Result, ok, raise, Error, key_error, type_error, value_error, fault}
use statebraid.Prelude.Exec.{Exec, pure, local, continue, ◌>>=◌, ◌>>◌}
use statebraid.Prelude.Json.{
  Json, null, boolean, integer, float, text, array, object, Items, item, end_of_items, Fields,
  field, end_of_fields, lookup_or, lookup_field,
}
use statebraid.Prelude.Texts.Sorted.{sort_texts}
use statebraid.Adapters.LlamaCpp.Lookup.{JsonTransport}
use statebraid.Qualification.Requests.{
  require_field, read_tokens, as_dict, append_text, repeat_text,
}

-- `str(value)`.
unfoldable pub str_of : (Json → String) → Json → String
str_of other (text s) = s
str_of other null = "None"
str_of other (boolean true) = "True"
str_of other (boolean false) = "False"
str_of other (integer n) = other (integer n)
str_of other (float x) = other (float x)
str_of other (array items) = other (array items)
str_of other (object fields) = other (object fields)

-- `[call() for _ in range(n)]`.
unfoldable pub repeated : {S A : Type 0} → ℕ → Exec S A → Exec S (List A)
unfolding continue
repeated zero call = pure []
repeated (suc n) call = do first ← call; rest ← repeated n call; pure (first ∷ rest)

-- `set(xs)`.
unfoldable pub set_of : List String → List String
set_of xs = foldl (λ set x. add x set) [] xs

-- The arguments of `run`.
pub record AuditArguments : Type 0 where
  pub repeats : ℕ
  pub n_predict : ℤ
  pub seed : ℤ
  pub device_label : String

pub record Checks : Type 0 where
  pub cold_repeat_identical : Bool
  pub cached_repeat_identical : Bool
  pub replay_matches_cold : Bool
  pub generation_nonempty : Bool

-- `all(checks.values())`.
unfoldable pub all_hold : Checks → Bool
all_hold c =
    c.cold_repeat_identical
    && (c.cached_repeat_identical && (c.replay_matches_cold && c.generation_nonempty))

pub record AuditReport : Type 0 where
  pub passed : Bool
  pub arguments : AuditArguments
  pub build_info : String
  pub token_length : ℕ
  pub cold_content_sha256 : String
  pub cached_content_sha256 : String
  pub cold_distinct_contents : ℕ
  pub cached_distinct_contents : ℕ
  pub stop_types : List String
  pub checks : Checks

-- The checks, by the first contents and all of them.
unfoldable pub checks_of : String → List String → String → List String → Checks
unfolding set_of
checks_of cold colds cached cacheds = record {
  cold_repeat_identical = length (set_of (cold ∷ colds)) == 1;
  cached_repeat_identical = length (set_of (cached ∷ cacheds)) == 1;
  replay_matches_cold = cold == cached;
  generation_nonempty = not (cold == "");
}

-- `response.get("content", "")` and `response.get("stop_type")`, as strings.
unfoldable pub content_of : (Json → String) → Fields → String
unfolding str_of
content_of other response = str_of other (lookup_or "content" (text "") response)

unfoldable pub stop_type_of : (Json → String) → Fields → String
unfolding str_of
stop_type_of other response = str_of other (lookup_field "stop_type" response)

unfoldable pub count_items : Items → ℕ
count_items end_of_items = 0
count_items (item value rest) = suc (count_items rest)

-- The prompt of every completion.
unfoldable pub fixture_prompt : String
unfolding repeat_text
fixture_prompt =
    append_text
      (repeat_text
        "StateBraid determinism audit fixture. This text is intentionally stable and mechanical. The backend must return bit-identical completions for identical greedy requests. "
        24)
      "\nRepeat one short deterministic sentence about the weather on a calm morning."

module _ (sha256 : String → String) (other : Json → String) where
  -- The report on the responses; `cold_contents[0]` of an empty list raises.
  unfoldable pub report_of :
      AuditArguments → String → Items → List Fields → List Fields → Result AuditReport
  unfolding checks_of all_hold content_of stop_type_of
  report_of x build_info tokens [] cached = raise fault
  report_of x build_info tokens (cold ∷ colds) [] = raise fault
  report_of x build_info tokens (cold ∷ colds) (cached ∷ cacheds) =
      let cold_contents = map (content_of other) (cold ∷ colds) in
      let cached_contents = map (content_of other) (cached ∷ cacheds) in
      let checks =
        checks_of (content_of other cold) (map (content_of other) colds) (content_of other cached)
          (map (content_of other) cacheds) in
      ok (record {
        passed = all_hold checks;
        arguments = x;
        build_info = build_info;
        token_length = count_items tokens;
        cold_content_sha256 = sha256 (content_of other cold);
        cached_content_sha256 = sha256 (content_of other cached);
        cold_distinct_contents = length (set_of cold_contents);
        cached_distinct_contents = length (set_of cached_contents);
        stop_types =
            sort_texts (set_of (map (stop_type_of other) ((cold ∷ colds) ++ (cached ∷ cacheds))));
        checks = checks;
      })

module _ {S : Type 0} (transport : JsonTransport S) where
  unfoldable pub tokenize : String → Exec S Items
  unfolding continue read_tokens
  tokenize prompt = do
    answer ←
        transport.post_json "/tokenize" (
          object
            (field "content" (text prompt) (field "add_special" (boolean false) end_of_fields)))
    local (read_tokens answer)

  unfoldable pub completion : AuditArguments → Items → Bool → Exec S Fields
  unfolding continue as_dict
  completion x tokens cache_prompt = do
    answer ← transport.post_json "/completion" (
        object (
          field "prompt" (array tokens) (
            field "id_slot" (integer (pos 0)) (
              field "cache_prompt" (boolean cache_prompt) (
                field "n_cache_reuse" (integer (pos 0)) (
                  field "n_predict" (integer x.n_predict) (
                    field "stream" (boolean false) (
                      field "temperature" (integer (pos 0))
                        (field "seed" (integer x.seed) end_of_fields)))))))))
    local (as_dict answer)

  unfoldable pub erase : Exec S (Unit {0})
  unfolding continue
  erase = transport.post_json "/slots/0?action=erase" (object end_of_fields) >>= λ answer. pure tt

-- `str(props.get("build_info", ""))`.
unfoldable pub read_build_info : (Json → String) → Json → Result String
unfolding str_of
read_build_info other (object props) = ok (str_of other (lookup_or "build_info" (text "") props))
read_build_info other _ = raise fault

module _ {S : Type 0} (transport : JsonTransport S) (sha256 : String → String)
    (other : Json → String) where
  unfoldable pub run : AuditArguments → Exec S AuditReport
  unfolding continue tokenize completion erase report_of read_build_info repeated fixture_prompt
  run x = do
    props ← transport.get_json "/props"
    build_info ← local (read_build_info other props)
    tokens ← tokenize transport fixture_prompt
    erase transport
    cold ← repeated x.repeats (completion transport x tokens false)
    erase transport
    cached ← repeated x.repeats (completion transport x tokens true)
    local (report_of sha256 other x build_info tokens cold cached)

  -- The exit code of `main`.
  unfoldable pub exit_code : AuditArguments → Exec S ℕ
  unfolding run
  exit_code x = do report ← run x; pure (if report.passed then 0 else 2)
