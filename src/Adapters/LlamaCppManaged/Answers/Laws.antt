-- ===== src/Adapters/LlamaCppManaged/Answers/Laws.antt =====
-- What a store that the managed adapter reads has, and what it captures.
use mathlib.Core.Path.{subst}
use statebraid.Prelude.{
  ◌≡◌, refl, false, List, [], ◌∷◌, Option, none, some, String, string_hashable, nat_hashable, ◌==◌,
  contains, length, if◌then◌else◌, arith, Bool-cases, Option-cases, eq_of_==, inl, inr,
}
use statebraid.Prelude.Result.{ok, raise, value_error, Result-cases, ok-injective, ok_first}
use statebraid.Prelude.Json.{Json, Fields, as_object, as_object_list, lookup_field}
use statebraid.Adapters.LlamaCpp.{demand}
use statebraid.Adapters.LlamaCppManaged.{StoredHandle, read_handles, as_name, as_positive, as_count}
use statebraid.Adapters.LlamaCppManaged.Answers.{
  ManagedStore, is_true, sum_by, is_consistent, check_totals, check_accounting, check_epoch,
  check_store,
}

-- The items are not empty, positive, unlike each other and unlike those that were seen.
abbrev pub AreDistinct : List String → List StoredHandle → Type 0
AreDistinct seen [] = Unit {0}
AreDistinct seen (x ∷ xs) = (contains x.handle seen ≡ false) × AreDistinct (x.handle ∷ seen) xs

read_handles-AreDistinct :
    (seen : List String) (entries : List Fields) (xs : List StoredHandle)
    → read_handles seen entries ≡ ok xs
    → AreDistinct seen xs
unfolding read_handles
read_handles-AreDistinct seen [] xs e = subst (AreDistinct seen) (ok-injective [] xs e) tt
read_handles-AreDistinct seen (entry ∷ rest) xs e =
    let (handle, _, e1) = ok_first (demand (as_name (lookup_field "handle" entry))) _ xs e in
    let (n_tokens, _, e2) =
      ok_first (demand (as_positive (lookup_field "n_tokens" entry))) _ xs e1 in
    let (n_bytes, _, e3) = ok_first (demand (as_positive (lookup_field "n_bytes" entry))) _ xs e2 in
    let (_, fresh, e4) =
      ok_first (if contains handle seen then raise value_error else ok tt) _ xs e3 in
    let (others, found, e5) = ok_first (read_handles (handle ∷ seen) rest) _ xs e4 in
    subst (AreDistinct seen) (ok-injective _ xs e5)
      (ground (arith, fresh), read_handles-AreDistinct (handle ∷ seen) rest others found)

-- A store with sound accounting.
pub record IsAccounted (epoch : String) (store : ManagedStore) : Type 0 where
  pub same_epoch : store.epoch ≡ epoch
  pub handle_count : store.n_handles ≡ length store.handles
  pub token_sum : store.n_tokens ≡ sum_by (λ x. x.n_tokens) store.handles
  pub byte_sum : store.n_bytes ≡ sum_by (λ x. x.n_bytes) store.handles
  pub distinct : AreDistinct [] store.handles

check_totals_lem :
    (before store : ManagedStore)
    → check_totals before ≡ ok store
    → AreDistinct [] before.handles
    → IsAccounted before.epoch store
unfolding check_totals is_consistent
check_totals_lem before store e d = elim (Bool-cases (is_consistent before)) [
  | inr unsound ↦ absurd (ground (arith, unsound, e))
  | inl sound ↦
      subst (IsAccounted before.epoch) (ok-injective before store (ground (arith, sound, e)))
        (record {
          same_epoch = refl;
          handle_count = ground (arith, sound);
          token_sum = ground (arith, sound);
          byte_sum = ground (arith, sound);
          distinct = d;
        })
]

check_accounting_lem :
    (epoch : String) (fields : Fields) (store : ManagedStore)
    → check_accounting epoch fields ≡ ok store
    → IsAccounted epoch store
unfolding check_accounting
check_accounting_lem epoch fields store e =
    let (n_handles, _, e1) =
      ok_first (demand (as_count (lookup_field "n_handles" fields))) _ store e in
    let (n_tokens, _, e2) =
      ok_first (demand (as_count (lookup_field "n_tokens" fields))) _ store e1 in
    let (n_bytes, _, e3) =
      ok_first (demand (as_count (lookup_field "n_bytes" fields))) _ store e2 in
    let (entries, _, e4) =
      ok_first (demand (as_object_list (lookup_field "handles" fields))) _ store e3 in
    let (handles, found, e5) = ok_first (read_handles [] entries) _ store e4 in
    check_totals_lem _ store e5 (read_handles-AreDistinct [] entries handles found)

check_epoch_lem :
    (epoch : String) (pinned : Option String)
    → check_epoch pinned epoch ≡ ok tt
    → (e : String) → pinned ≡ some e
    → epoch ≡ e
unfolding check_epoch
check_epoch_lem epoch none fine e same = cc
check_epoch_lem epoch (some p) fine e same = elim (Bool-cases (epoch == p)) [
  | inl eq ↦ ground (arith, eq_of_== epoch p eq, same)
  | inr other ↦ absurd (ground (arith, other, fine))
]

-- A store that the adapter accepts names its handles without a repetition and has the sums of their
-- counts for its own counts; its epoch is the pinned one, where one is pinned.
pub check_store_accounts :
    (pinned : Option String) (payload : Json) (store : ManagedStore)
    → check_store pinned payload ≡ ok store
    → (epoch : String) × IsAccounted epoch store × ((e : String) → pinned ≡ some e → epoch ≡ e)
unfolding check_store
check_store_accounts pinned payload store e = elim (Option-cases (as_object payload)) [
  | inl a ↦ absurd (ground (arith, a, e))
  | inr (fields, a) ↦ elim (Bool-cases (is_true (lookup_field "enabled" fields))) [
    | inr b ↦ absurd (ground (arith, a, b, e))
    | inl b ↦ elim (Option-cases (as_name (lookup_field "epoch" fields))) [
      | inl c ↦ absurd (ground (arith, a, b, c, e))
      | inr (epoch, c) ↦ elim (Result-cases (check_epoch pinned epoch)) [
        | inl (x, d) ↦ absurd (ground (arith, a, b, c, d, e))
        | inr (_, d) ↦ (
          epoch,
          check_accounting_lem epoch fields store (ground (arith, a, b, c, d, e)),
          check_epoch_lem epoch pinned d,
        )
      ]
    ]
  ]
]
