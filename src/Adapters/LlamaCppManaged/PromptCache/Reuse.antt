-- ===== src/Adapters/LlamaCppManaged/PromptCache/Reuse.antt =====
-- How much reuse a lookup of the managed prompt cache accepts.
use statebraid.Prelude.{
  ℕ, ◌≤◌, ℤ, ◌≡◌, ◌⊎◌, inl, inr, true, List, Option, none, some, nat_hashable, ◌==◌, contains,
  arith,
}
use statebraid.Prelude.Result.{ok}
use statebraid.Prelude.Exec.{local, returned, on_second}
use statebraid.Backend.Observation.{matched_tokens}
use statebraid.Adapters.LlamaCpp.{LlamaCppNamespace, Observation}
use statebraid.Adapters.LlamaCpp.Lookup.{JsonTransport, namespace_hashable, require_namespace}
use statebraid.Adapters.LlamaCppManaged.{LlamaCppManagedRestore}
use statebraid.Adapters.LlamaCppManaged.Mutations.{LlamaCppManagedHttpAdapter}
use statebraid.Adapters.LlamaCppManaged.Http.{clear_live_slot, lookup_after_policy}
use statebraid.Adapters.LlamaCppManaged.Storage.{Key, Registry, restore_live}
use statebraid.Adapters.LlamaCppManaged.PromptCache.{Cache, token_lcp, select_key, require_prompt}
use statebraid.Dict.{keys}
use statebraid.Cache.Key.{key_hashable}
use statebraid.Adapters.LlamaCppManaged.PromptCache.Selection.{
  Shares, lcp_shared, fewer_shared, select_key-IsLongest,
}
use statebraid.Adapters.LlamaCppManaged.PromptCache.Lookup.{
  restore_selected, prepare, check_reuse, lookup, credit,
}
use statebraid.Cache.Policy.{WorkingSetPolicy}

-- The tokens of a prompt that a selected key allows to reuse.
abbrev pub reusable : List ℤ → Option Key → ℕ
reusable prompt none = 0
reusable prompt (some key) = token_lcp key.tokens prompt

-- The bound that `lookup` has from `prepare`.
abbrev allowed : Option LlamaCppManagedRestore → ℕ
allowed none = 0
allowed (some prepared) = prepared.candidate_lcp

check_reuse_bounds :
    (prepared : Option LlamaCppManagedRestore) (matched : ℕ)
    → check_reuse prepared matched ≡ ok tt
    → matched ≤ allowed prepared
unfolding check_reuse
check_reuse_bounds none matched e = ground (arith, e)
check_reuse_bounds (some prepared) matched e = ground (arith, e)

module _ {S : Type 0} (transport : JsonTransport S) (a : LlamaCppManagedHttpAdapter) where
  selected_allows :
      (prompt : List ℤ) (selected : Option Key) (st : Cache transport a)
      (prepared : Option LlamaCppManagedRestore)
      → (restore_selected transport a prompt selected st).0 ≡ ok prepared
      → allowed prepared ≡ reusable prompt selected
  unfolding restore_selected
  selected_allows prompt none st prepared e = ground (arith, e)
  selected_allows prompt (some key) st prepared e =
      let (state, fine, rest) =
        returned (on_second (restore_live transport a key)) _ st prepared e in
      ground (arith, rest)

  prepare_allows :
      (prompt : List ℤ) (p : WorkingSetPolicy LlamaCppNamespace) (r : Registry) (s : S)
      (prepared : Option LlamaCppManagedRestore)
      → (prepare transport a prompt (p, (r, s))).0 ≡ ok prepared
      → allowed prepared ≡ reusable prompt (select_key a.stock.namespace prompt p)
  unfolding prepare on_second
  prepare_allows prompt p r s prepared e =
      let (_, _, e1) = returned (local (require_prompt prompt)) _ (p, (r, s)) prepared e in
      let (_, _, e2) =
        returned (on_second (on_second (clear_live_slot transport a))) _ (p, (r, s)) prepared e1 in
      selected_allows prompt (select_key a.stock.namespace prompt p) _ prepared e2

  lookup_bounded :
      (namespace : LlamaCppNamespace) (prompt : List ℤ) (p : WorkingSetPolicy LlamaCppNamespace)
      (r : Registry) (s : S) (o : Observation)
      → (lookup transport a namespace prompt (p, (r, s))).0 ≡ ok o
      → matched_tokens o ≤ reusable prompt (select_key a.stock.namespace prompt p)
  unfolding lookup
  lookup_bounded namespace prompt p r s o e =
      let st : Cache transport a = (p, (r, s)) in
      let (_, _, e1) = returned (local (require_namespace a.stock namespace)) _ st o e in
      let (_, _, e2) = returned (local (require_prompt prompt)) _ st o e1 in
      let (prepared, fine, e3) = returned (prepare transport a prompt) _ st o e2 in
      let (seen, _, e4) =
        returned (on_second (on_second (lookup_after_policy transport a a.stock.namespace prompt)))
          _ (prepare transport a prompt st).1 o e3 in
      let (_, checked, e5) =
        returned (local (check_reuse prepared (matched_tokens seen))) _ _ o e4 in
      let (_, _, same) = returned (credit transport a prepared (matched_tokens seen)) _ _ o e5 in
      let bounded = check_reuse_bounds prepared (matched_tokens seen) checked in
      let allows = prepare_allows prompt p r s prepared fine in
      ground (arith, same, bounded, allows)

  -- What a lookup that returns reports as reused are no tokens, or first tokens of the prompt that are
  -- also the first tokens of a listed key of the adapter's namespace, the one that `prepare` selects.
  pub lookup_reuses_selected :
      (namespace : LlamaCppNamespace) (prompt : List ℤ) (p : WorkingSetPolicy LlamaCppNamespace)
      (r : Registry) (s : S) (o : Observation)
      → (lookup transport a namespace prompt (p, (r, s))).0 ≡ ok o
      → (matched_tokens o ≡ 0)
        ⊎ ((k : Key) × (select_key a.stock.namespace prompt p ≡ some k)
            × (contains k (keys p.entries) ≡ true)
            × ((k.namespace == a.stock.namespace) ≡ true)
            × Shares (matched_tokens o) k.tokens prompt)
  lookup_reuses_selected namespace prompt p r s o e =
      let bound = lookup_bounded namespace prompt p r s o e in
      elim (select_key-IsLongest a.stock.namespace prompt p) [
        | inl (nothing, _) ↦ inl (ground (arith, nothing, bound))
        | inr (k, n, selected, listed, same, _, _, _) ↦
            let within : matched_tokens o ≤ token_lcp k.tokens prompt =
              ground (arith, selected, bound) in
            inr (
              k,
              selected,
              listed,
              same,
              fewer_shared (matched_tokens o) (token_lcp k.tokens prompt) k.tokens prompt within
                  (lcp_shared k.tokens prompt),
            )
      ]
