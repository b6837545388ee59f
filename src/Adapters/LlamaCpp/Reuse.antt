-- ===== src/Adapters/LlamaCpp/Reuse.antt =====
-- What an observation of llama.cpp tells about a prompt.
use mathlib.Core.Path.{subst}
use statebraid.Prelude.{
  ℕ, ◌+◌, ◌≤◌, ℤ, pos, ◌≡◌, ◌≢◌, ◌⊎◌, refl, ap, sym, ◌∙◌, List, [], ◌∷◌, none, some, String,
  nat_hashable, ◌==◌, length, take, drop, arith, if◌then◌else◌, Option-cases, inl, inr,
}
use statebraid.Prelude.Result.{Result, ok, raise, value_error, ok-injective, ◌>>=◌}
use statebraid.Prelude.Exec.{local, returned, store_kept, continue_ok, ◌>>◌}
use statebraid.Prelude.Json.{
  Json, object, integer, Fields, lookup_field, as_object, as_integer, as_natural,
}
use statebraid.Prelude.Json.Forms.{object_form}
use statebraid.Cache.Key.{from_tokens}
use statebraid.Backend.Observation.{from_backend_result}
use statebraid.Backend.Observation.Laws.{take-append-drop, length-take, observation_accepts}
use statebraid.Adapters.LlamaCpp.{
  LlamaCppNamespace, Observation, LlamaCppReuseStats, from_response, check_counts,
  llama_cpp_cache_namespace, reuse_payload, normalize_llama_cpp_reuse,
}
use statebraid.Adapters.LlamaCpp.Counts.{IsCounted, response-IsCounted}
use statebraid.Adapters.LlamaCpp.Admission.{IsAudited, HasSlot, props-IsAudited, slots-HasSlot}
use statebraid.Adapters.LlamaCpp.Lookup.{
  JsonTransport, LlamaCppHttpAdapter, require_namespace, require_tokens, read_completion,
  check_remaining, check_props, check_slots, lookup, generation_safe_exact, completion_request,
  namespace_hashable, require_reference_source, require_exact_slot, require_server, complete,
}

-- The observation of `c` cached tokens of a prompt.
abbrev pub observed : String → ℕ → List ℤ → LlamaCppReuseStats → Observation
observed backend_identity id_slot tokens stats = record {
  namespace = llama_cpp_cache_namespace backend_identity;
  prompt = tokens;
  remaining = drop stats.cache_n tokens;
  payload = reuse_payload backend_identity id_slot stats;
  matched_key =
      if stats.cache_n == 0
      then none
      else some
          (from_tokens (llama_cpp_cache_namespace backend_identity) (take stats.cache_n tokens));
}

module _ (backend_identity : String) (id_slot : ℕ) (tokens : List ℤ) where
  observation_of :
      (stats : LlamaCppReuseStats)
      → stats.cache_n ≤ length tokens
      → from_backend_result
          (llama_cpp_cache_namespace backend_identity)
          tokens
          (reuse_payload backend_identity id_slot stats)
          (drop stats.cache_n tokens)
        ≡ ok (observed backend_identity id_slot tokens stats)
  unfolding reuse_payload
  observation_of stats le =
      let c = stats.cache_n in
      let whole = take-append-drop c tokens in
      let len = length-take c tokens le in
      let accepted =
        observation_accepts (llama_cpp_cache_namespace backend_identity) (take c tokens)
          (drop c tokens) (reuse_payload backend_identity id_slot stats) (ground (arith, len)) in
      cc (whole, len, accepted)

  -- Where a response's timings have two counts of tokens, normalising it returns an observation exactly
  -- when the counts add up to the prompt; the observation then matches the prompt's first `cache_n`
  -- tokens, and has a payload and a key if that is not 0. Otherwise `ValueError` is raised.
  pub reuse_exact :
      (response timings : Fields) (c n : ℕ)
      → lookup_field "timings" response ≡ object timings
      → lookup_field "cache_n" timings ≡ integer (pos c)
      → lookup_field "prompt_n" timings ≡ integer (pos n)
      → normalize_llama_cpp_reuse backend_identity id_slot tokens response ≡ (
          if c + n == length tokens
          then ok (observed backend_identity id_slot tokens (record { cache_n = c; prompt_n = n }))
          else raise value_error)
  unfolding normalize_llama_cpp_reuse from_response check_counts as_object as_integer as_natural
  reuse_exact response timings c n et ec en =
      let stats : LlamaCppReuseStats = record { cache_n = c; prompt_n = n } in
      ground (arith, et, ec, en, observation_of stats)

list_cases : {A : Type 0} (l : List A) → (l ≡ []) ⊎ ((x : A) × (xs : List A) × (l ≡ x ∷ xs))
list_cases [] = inl refl
list_cases (x ∷ xs) = inr (x, xs, refl)

bind_returned :
    {A B : Type 0} (m : Result A) (f : A → Result B) (b : B)
    → (m >>= f) ≡ ok b
    → (a : A) × (m ≡ ok a) × (f a ≡ ok b)
bind_returned (ok a) f b e = (a, refl, e)
bind_returned (raise x) f b e = cc

-- The observation that is made of a response.
abbrev pub IsObserved : LlamaCppHttpAdapter → List ℤ → Json → Observation → Type 0
IsObserved a tokens response o =
    (fields : Fields) × (stats : LlamaCppReuseStats) × (response ≡ object fields)
    × IsCounted fields (length tokens) stats
    × (o ≡ observed a.base_url a.id_slot tokens stats)

read-IsObserved :
    (a : LlamaCppHttpAdapter) (tokens : List ℤ) (response : Json) (o : Observation)
    → read_completion a tokens response ≡ ok o
    → IsObserved a tokens response o
unfolding read_completion normalize_llama_cpp_reuse
read-IsObserved a tokens response o e = elim (Option-cases (as_object response)) [
  | inl none_found ↦ absurd (ground (arith, none_found, e))
  | inr (fields, found) ↦
      let normalized : normalize_llama_cpp_reuse a.base_url a.id_slot tokens fields ≡ ok o =
        ground (arith, found, e) in
      let (stats, counted, made) =
        bind_returned (from_response fields (length tokens)) _ o normalized in
      let shape = response-IsCounted fields (length tokens) stats counted in
      (
        fields,
        stats,
        object_form response fields found,
        shape,
        ok-injective o (observed a.base_url a.id_slot tokens stats) (
            sym made
            ∙ observation_of a.base_url a.id_slot tokens stats (omega (arith, shape.adds_up))),
      )
]

module _ {S : Type 0} (transport : JsonTransport S) (a : LlamaCppHttpAdapter) where
  -- The store after the two requests of the guards.
  abbrev pub asked : S → S
  asked s = (transport.get_json "/slots" (transport.get_json "/props" s).1).1

  -- The server said that it is at the audited source, and listed the slot of the adapter by its own id.
  pub record IsAdmitted (s : S) : Type 0 where
    pub props : Json
    pub total_slots : ℕ
    pub slots : Json
    pub props_read : (transport.get_json "/props" s).0 ≡ ok props
    pub audited : IsAudited props total_slots
    pub slots_read : (transport.get_json "/slots" (transport.get_json "/props" s).1).0 ≡ ok slots
    pub has_slot : HasSlot a.id_slot slots total_slots

  server-IsAdmitted :
      (s : S)
      → (require_server transport a s).0 ≡ ok tt
      → IsAdmitted s × ((require_server transport a s).1 ≡ asked s)
  unfolding require_server require_reference_source require_exact_slot
  server-IsAdmitted s e =
      let (total, sourced, slotted) =
        returned (require_reference_source transport a) (require_exact_slot transport a) s tt e in
      let (props, props_read, props_good) =
        returned (transport.get_json "/props") (λ x. local (check_props x)) s total sourced in
      let s1 = (transport.get_json "/props" s).1 in
      let kept = store_kept (transport.get_json "/props" s) check_props in
      let (slots, slots_read, slots_good) =
        returned (transport.get_json "/slots") (λ x. local (check_slots a.id_slot total x)) s1 tt
          (subst (λ z. (require_exact_slot transport a total z).0 ≡ ok tt) kept slotted) in
      (
        record {
          props = props;
          total_slots = total;
          slots = slots;
          props_read = props_read;
          audited = props-IsAudited props total props_good;
          slots_read = slots_read;
          has_slot = slots-HasSlot a.id_slot total slots slots_good;
        },
        ap (λ r. r.1)
              (continue_ok (require_reference_source transport a s) (require_exact_slot transport a)
                total sourced)
            ∙ ap (λ z. (require_exact_slot transport a total z).1) kept
            ∙ store_kept (transport.get_json "/slots" s1) (check_slots a.id_slot total),
      )

  -- The server answered to the tokens with what is observed.
  abbrev pub IsAnswered : List ℤ → S → Observation → Type 0
  IsAnswered tokens s o =
      (response : Json) × ((transport.post_json "/completion" (completion_request a.id_slot tokens)
          s).0
        ≡ ok response)
      × IsObserved a tokens response o

  completed :
      (tokens : List ℤ) (s : S) (o : Observation)
      → (complete transport a tokens s).0 ≡ ok o
      → (tokens ≢ []) × IsAnswered tokens s o
  unfolding complete require_tokens
  completed [] s o e = cc
  completed (x ∷ tokens) s o e =
      let (response, posted, read) =
        returned (transport.post_json "/completion" (completion_request a.id_slot (x ∷ tokens)))
          (λ r. local (read_completion a (x ∷ tokens) r)) s o e in
      (λ bad. cc, (response, posted, read-IsObserved a (x ∷ tokens) response o read))

  named_namespace :
      (namespace : LlamaCppNamespace)
      → require_namespace a namespace ≡ ok tt
      → namespace ≡ a.namespace
  unfolding require_namespace
  named_namespace namespace e = ground arith

  -- `lookup` returns only where the namespace is the adapter's, the prompt is not empty, the answer to
  -- the request for /props is an object that names the audited source and a positive number of slots,
  -- and the answer to that for /slots is a list of that many objects with integer ids, all distinct,
  -- and the adapter's one among them. The request for a completion follows these two; its answer has
  -- two counts of tokens that add up to the prompt, and the observation is the split of the prompt
  -- behind as many first tokens as the first count says.
  pub lookup_guarded :
      (namespace : LlamaCppNamespace) (tokens : List ℤ) (s : S) (o : Observation)
      → (lookup transport a namespace tokens s).0 ≡ ok o
      → (namespace ≡ a.namespace) × (tokens ≢ []) × IsAdmitted s × IsAnswered tokens (asked s) o
  unfolding lookup
  lookup_guarded namespace tokens s o e =
      let (_, named, e1) =
        returned (local (require_namespace a namespace))
          (λ _. require_server transport a >> complete transport a tokens) s o e in
      let (tt, served, e2) =
        returned (require_server transport a) (λ _. complete transport a tokens) s o e1 in
      let (admitted, at) = server-IsAdmitted s served in
      let (some_token, answered) = completed tokens (require_server transport a s).1 o e2 in
      (
        named_namespace namespace named,
        some_token,
        admitted,
        subst (λ z. IsAnswered tokens z o) at answered,
      )

  checked_remaining :
      (found o : Observation)
      → check_remaining transport a found ≡ ok o
      → (found ≡ o) × (o.remaining ≢ [])
  unfolding check_remaining
  checked_remaining found o e = elim (list_cases found.remaining) [
    | inl empty ↦ absurd (ground (arith, empty, e))
    | inr (x, xs, left) ↦ (ground (arith, left, e), λ bad. ground (arith, left, e, bad))
  ]

  -- `generation_safe_exact` returns only what `lookup` returns, and only where that leaves at least one
  -- token of the prompt to generate from.
  pub generation_safe_exact_lem :
      (namespace : LlamaCppNamespace) (tokens : List ℤ) (s : S) (o : Observation)
      → (generation_safe_exact transport a namespace tokens s).0 ≡ ok o
      → ((lookup transport a namespace tokens s).0 ≡ ok o) × (o.remaining ≢ [])
  unfolding generation_safe_exact
  generation_safe_exact_lem namespace tokens s o e =
      let (found, looked, checked) =
        returned (lookup transport a namespace tokens) (λ x. local (check_remaining transport a x))
          s o e in
      let (same, left) = checked_remaining found o checked in (looked ∙ ap ok same, left)
