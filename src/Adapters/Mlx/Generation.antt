-- ===== src/Adapters/Mlx/Generation.antt =====
-- src/statebraid/adapters/mlx.py: `generation_safe_prompt_cache_hit`. The functions of MLX-LM's cache
-- module are arguments, which may raise.
use mathlib.Core.Path.{subst}
use statebraid.Prelude.{
  ℕ, ℤ, ◌≡◌, ◌⊎◌, refl, sym, ap, Bool, true, false, List, [], ◌∷◌, Option, none, some, inl, inr,
}
use statebraid.Prelude.Result.{Result, Result-cases, ok, raise, Error}
use statebraid.Prelude.Exec.{Exec, pure, continue, continue_ok, continue_raise, ◌>>=◌}
use statebraid.Cache.Generation.{last_slice, but_last, from_shorter}
use statebraid.Cache.Generation.Safety.{Covers, IsReady, trimmed-IsReady, shorter-IsReady}
use statebraid.Adapters.Mlx.{PromptCacheObject}

-- What the function uses of `mlx_lm.models.cache`. Trimming changes a payload in place.
pub record MlxCacheModule (C P : Type 0) : Type 0 where
  pub can_trim_prompt_cache : P → Exec C Bool
  pub trim_prompt_cache : P → ℕ → Exec C P

module _ {C N P X : Type 0} (module_of_caches : MlxCacheModule C P)
    (cache : PromptCacheObject C N P X) (model : N) where
  -- An exact hit, by whether the payload can be trimmed.
  unfoldable pub replay_one : Bool → P → List ℤ → Exec C (Option P × List ℤ)
  unfolding continue last_slice but_last from_shorter
  replay_one true payload prompt = do
    trimmed ← module_of_caches.trim_prompt_cache payload 1
    pure (some trimmed, last_slice prompt)
  replay_one false payload prompt = do
    shorter ← cache.fetch_nearest_cache model (but_last prompt)
    pure (from_shorter prompt shorter)

  -- `ensure_generation_safe_exact_hit` with callbacks that use the store.
  unfoldable pub ensure_with : Option P → List ℤ → List ℤ → Exec C (Option P × List ℤ)
  unfolding continue replay_one
  ensure_with none rest prompt = pure (none, rest)
  ensure_with (some payload) (r ∷ rest) prompt = pure (some payload, r ∷ rest)
  ensure_with (some payload) [] [] = pure (some payload, [])
  ensure_with (some payload) [] (t ∷ prompt) = do
    can_trim ← module_of_caches.can_trim_prompt_cache payload
    replay_one can_trim payload (t ∷ prompt)

-- The whole function, with the import.
unfoldable pub generation_safe_prompt_cache_hit :
    {C N P X : Type 0}
    → Exec C (MlxCacheModule C P)
    → PromptCacheObject C N P X
    → N
    → List ℤ
    → Option P
    → List ℤ
    → Exec C (Option P × List ℤ)
unfolding continue ensure_with
generation_safe_prompt_cache_hit import_module prompt_cache model_key prompt cache rest = do
  module_of_caches ← import_module
  ensure_with module_of_caches prompt_cache model_key cache rest prompt

-- What is relied on in the callbacks, of what they return in any store: trimming a payload that can be
-- trimmed drops the last token that it holds, and a lookup accounts for its prompt. They may raise.
pub record IsFaithful {C N P X : Type 0} (caches : MlxCacheModule C P)
    (cache : PromptCacheObject C N P X) (model : N) (tokens : P → List ℤ) : Type 0 where
  pub trims :
      (payload trimmed : P) (s : C)
      → (caches.can_trim_prompt_cache payload s).0 ≡ ok true
      → (caches.trim_prompt_cache payload 1 (caches.can_trim_prompt_cache payload s).1).0
        ≡ ok trimmed
      → tokens trimmed ≡ but_last (tokens payload)
  pub fetches :
      (prompt : List ℤ) (s : C) (r : Option P × List ℤ)
      → (cache.fetch_nearest_cache model prompt s).0 ≡ ok r
      → Covers tokens prompt r

module _ {C N P X : Type 0} (caches : MlxCacheModule C P) (cache : PromptCacheObject C N P X)
    (model : N) (tokens : P → List ℤ) (f : IsFaithful caches cache model tokens) where
  -- A callback raised the error.
  abbrev pub HasRaised : Error → Type 0
  HasRaised e =
      ((payload : P) × (s : C) × ((caches.can_trim_prompt_cache payload s).0 ≡ raise e))
      ⊎ ((payload : P) × (s : C) × ((caches.trim_prompt_cache payload 1 s).0 ≡ raise e))
      ⊎ ((prompt : List ℤ) × (s : C) × ((cache.fetch_nearest_cache model prompt s).0 ≡ raise e))

  -- What a call makes of a prompt.
  abbrev pub IsSafe : List ℤ → Result (Option P × List ℤ) → Type 0
  IsSafe prompt out =
      ((r : Option P × List ℤ) × (out ≡ ok r) × IsReady tokens prompt r)
      ⊎ ((e : Error) × (out ≡ raise e) × HasRaised e)

  replay_one_lem :
      (b : Bool) (payload : P) (t : ℤ) (prompt : List ℤ) (s : C)
      → (caches.can_trim_prompt_cache payload s).0 ≡ ok b
      → Covers tokens (t ∷ prompt) (some payload, [])
      → IsSafe
          (t ∷ prompt)
          (replay_one caches cache model b payload
            (t ∷ prompt)
            (caches.can_trim_prompt_cache payload s).1).0
  unfolding replay_one
  replay_one_lem true payload t prompt s told c =
      let s1 = (caches.can_trim_prompt_cache payload s).1 in
      let out = caches.trim_prompt_cache payload 1 s1 in
      elim (Result-cases out.0) [
        | inl (e, bad) ↦
            inr (e, ap (λ r. r.0) (continue_raise out _ e bad), inr (inl (payload, s1, bad)))
        | inr (trimmed, fine) ↦ inl (
          (some trimmed, last_slice (t ∷ prompt)),
          ap (λ r. r.0) (continue_ok out _ trimmed fine),
          trimmed-IsReady tokens payload trimmed t prompt (f.trims payload trimmed s told fine) c,
        )
      ]
  replay_one_lem false payload t prompt s told c =
      let s1 = (caches.can_trim_prompt_cache payload s).1 in
      let shorter = but_last (t ∷ prompt) in
      let out = cache.fetch_nearest_cache model shorter s1 in
      elim (Result-cases out.0) [
        | inl (e, bad) ↦
            inr (e, ap (λ r. r.0) (continue_raise out _ e bad), inr (inr (shorter, s1, bad)))
        | inr (r, fine) ↦ inl (
          from_shorter (t ∷ prompt) r,
          ap (λ x. x.0) (continue_ok out _ r fine),
          shorter-IsReady tokens t prompt r (f.fetches shorter s1 r fine),
        )
      ]

  ensure_with_lem :
      (payload : Option P) (rest : List ℤ) (t : ℤ) (prompt : List ℤ) (s : C)
      → Covers tokens (t ∷ prompt) (payload, rest)
      → IsSafe (t ∷ prompt) (ensure_with caches cache model payload rest (t ∷ prompt) s).0
  unfolding ensure_with
  ensure_with_lem none rest t prompt s c = inl ((none, rest), refl, (c, λ e. cc))
  ensure_with_lem (some payload) (x ∷ rest) t prompt s c =
      inl ((some payload, x ∷ rest), refl, (c, λ e. cc))
  ensure_with_lem (some payload) [] t prompt s c =
      let out = caches.can_trim_prompt_cache payload s in
      elim (Result-cases out.0) [
        | inl (e, bad) ↦ inr (e, ap (λ r. r.0) (continue_raise out _ e bad), inl (payload, s, bad))
        | inr (b, told) ↦
            subst (IsSafe (t ∷ prompt)) (sym (ap (λ r. r.0) (continue_ok out _ b told)))
              (replay_one_lem b payload t prompt s told c)
      ]

  -- Where the import succeeds, what trimming returns has dropped the last token of a payload that can be
  -- trimmed, and what lookups return accounts for their prompts: of a lookup result that accounts for a
  -- non-empty prompt, the function returns one that accounts for it as well and leaves at least one
  -- token to generate from, or raises what one of the callbacks raised.
  pub mlx_hit-IsSafe :
      (import_module : Exec C (MlxCacheModule C P)) (s : C) (t : ℤ) (prompt rest : List ℤ)
      (payload : Option P)
      → (import_module s).0 ≡ ok caches
      → Covers tokens (t ∷ prompt) (payload, rest)
      → IsSafe
          (t ∷ prompt)
          (generation_safe_prompt_cache_hit import_module cache model (t ∷ prompt) payload rest s).0
  unfolding generation_safe_prompt_cache_hit
  mlx_hit-IsSafe import_module s t prompt rest payload fine c =
      subst (IsSafe (t ∷ prompt))
        (sym (ap (λ r. r.0) (continue_ok (import_module s) _ caches fine)))
        (ensure_with_lem payload rest t prompt (import_module s).1 c)
