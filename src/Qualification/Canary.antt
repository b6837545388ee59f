-- ===== src/Qualification/Canary.antt =====
-- qualification/llama_cpp_real_gguf/mechanical_canary.py, from the requests on: `http_client` has them, over
-- the transport; the tokens that the server answers are integers.

pub mod Run
use statebraid.Prelude.{
  ℕ, suc, ℤ, pos, negsuc, int_hashable, Bool, true, false, not, ◌&&◌, List, [], ◌∷◌, Option, none,
  some, String, string_hashable, ◌==◌, leb, ltb, length, if◌then◌else◌,
}
use statebraid.Prelude.Result.{Result, ok, raise, type_error, ◌>>=◌, ◌>>◌}
use statebraid.Prelude.Exec.{Exec, pure, local, continue}
use statebraid.Prelude.Json.{
  Json, null, boolean, integer, float, text, array, object, Items, item, end_of_items, Fields,
  field, end_of_fields, lookup_field,
}
use statebraid.Adapters.LlamaCpp.Lookup.{JsonTransport, prompt_items}
use statebraid.Qualification.Requests.{
  append_text, repeat_text, as_dict, read_tokens, require_field,
}

-- The requests of the canary. A completion has the number of tokens to predict.
pub record Client (S : Type 0) : Type 0 where
  pub tokenize : String → Exec S (List ℤ)
  pub completion : List ℤ → ℕ → Exec S Fields
  pub erase : Exec S (Unit {0})

unfoldable pub read_integers : Items → Result (List ℤ)
read_integers end_of_items = ok []
read_integers (item (integer t) rest) = do others ← read_integers rest; ok (t ∷ others)
read_integers (item _ rest) = raise type_error

unfoldable pub read_token_list : Json → Result (List ℤ)
unfolding read_tokens read_integers
read_token_list answer = do items ← read_tokens answer; read_integers items

unfoldable pub canary_request : List ℤ → ℕ → Json
unfolding prompt_items
canary_request tokens n_predict = object (
    field "prompt" (array (prompt_items tokens)) (
      field "id_slot" (integer (pos 0)) (
        field "cache_prompt" (boolean true) (
          field "n_cache_reuse" (integer (pos 0)) (
            field "n_predict" (integer (pos n_predict)) (
              field "stream" (boolean false) (
                field "temperature" (integer (pos 0))
                  (field "seed" (integer (pos 1234)) end_of_fields))))))))

unfoldable pub http_client : {S : Type 0} → JsonTransport S → Client S
unfolding read_token_list canary_request as_dict
http_client transport = record {
  tokenize = λ prompt s.
      continue
        (transport.post_json "/tokenize"
          (object
            (field "content" (text prompt) (field "add_special" (boolean false) end_of_fields)))
          s)
        (λ answer. local (read_token_list answer));
  completion = λ tokens n s.
      continue (transport.post_json "/completion" (canary_request tokens n) s)
        (λ answer. local (as_dict answer));
  erase = λ s.
      continue (transport.post_json "/slots/0?action=erase" (object end_of_fields) s)
        (λ answer. pure tt);
}

pub record Timing : Type 0 where
  pub cache_n : ℤ
  pub prompt_n : ℤ

-- `int(value)`, where `other` is Python's on what is neither an integer nor a boolean.
unfoldable pub int_of : (Json → Result ℤ) → Json → Result ℤ
int_of other (integer n) = ok n
int_of other (boolean true) = ok (pos 1)
int_of other (boolean false) = ok (pos 0)
int_of other null = other null
int_of other (float x) = other (float x)
int_of other (text s) = other (text s)
int_of other (array items) = other (array items)
int_of other (object fields) = other (object fields)

unfoldable pub timing : (Json → Result ℤ) → Fields → Result Timing
unfolding require_field as_dict int_of
timing other response = do
  answer ← require_field "timings" response
  timings ← as_dict answer
  cached ← require_field "cache_n" timings
  cache_n ← int_of other cached
  prompted ← require_field "prompt_n" timings
  prompt_n ← int_of other prompted
  ok (record { cache_n = cache_n; prompt_n = prompt_n })

unfoldable pub lcp : List ℤ → List ℤ → ℕ
lcp [] right = 0
lcp (x ∷ left) [] = 0
lcp (x ∷ left) (y ∷ right) = let rest = lcp left right in if x == y then suc rest else 0

-- `bool(value)`, where `nonzero` says of a float whether it is not zero.
unfoldable pub is_truthy : (String → Bool) → Json → Bool
is_truthy nonzero null = false
is_truthy nonzero (boolean b) = b
is_truthy nonzero (integer n) = not (n == pos 0)
is_truthy nonzero (float x) = nonzero x
is_truthy nonzero (text s) = not (s == "")
is_truthy nonzero (array end_of_items) = false
is_truthy nonzero (array (item _ _)) = true
is_truthy nonzero (object end_of_fields) = false
is_truthy nonzero (object (field _ _ _)) = true

-- `n <= m`, `n <= m - 1` and `n >= 1`.
abbrev pub at_most : ℤ → ℕ → Bool
at_most (pos n) m = leb n m
at_most (negsuc n) m = true

abbrev pub below : ℤ → ℕ → Bool
below (pos n) m = ltb n m
below (negsuc n) m = true

abbrev pub is_positive : ℤ → Bool
is_positive (pos n) = leb 1 n
is_positive (negsuc n) = false

-- The token lists of the six texts.
pub record Prompts : Type 0 where
  pub a : List ℤ
  pub a_ext : List ℤ
  pub b : List ℤ
  pub r1 : List ℤ
  pub r2 : List ℤ
  pub r3 : List ℤ

-- `results`.
pub record Results : Type 0 where
  pub cold_a : Timing
  pub exact_a : Timing
  pub exact_a_generation : Timing
  pub content_nonempty : Bool
  pub a_extension : Timing
  pub b_diverge : Timing
  pub a_after_b : Timing
  pub r1_cold : Timing
  pub r2_extend : Timing
  pub r3_extend : Timing
  pub a_after_erase : Timing

-- `all(checks.values())`, with the checks in their order.
unfoldable pub all_checks : Prompts → Results → Bool
unfolding lcp
all_checks p r =
    r.cold_a.cache_n == pos 0
    && ((below r.exact_a.cache_n (length p.a) && is_positive r.exact_a.prompt_n)
        && ((below r.exact_a_generation.cache_n (length p.a)
              && (is_positive r.exact_a_generation.prompt_n && r.content_nonempty))
            && (at_most r.a_extension.cache_n (lcp p.a p.a_ext)
                && (at_most r.b_diverge.cache_n (lcp p.a_ext p.b)
                    && (at_most r.a_after_b.cache_n (lcp p.a p.b)
                        && (r.r1_cold.cache_n == pos 0
                            && (at_most r.r2_extend.cache_n (lcp p.r1 p.r2)
                                && (at_most r.r3_extend.cache_n (lcp p.r2 p.r3)
                                    && r.a_after_erase.cache_n == pos 0))))))))
