-- ===== src/Qualification/Canary/Run/Exact.antt =====
-- What the verdict of the canary says of a server with one slot.
use statebraid.Prelude.{
  ℕ, zero, suc, ◌-◌, ◌<◌, ℤ, pos, int_hashable, ◌≡◌, ◌≢◌, ◌⊎◌, refl, Bool, true, false, not, ◌&&◌,
  List, [], ◌∷◌, ◌++◌, String, string_hashable, text_discrete, ◌==◌, ==_refl, eq_of_==, Bool-cases,
  length, leb, arith, inl, inr,
}
use statebraid.Prelude.Result.{Result, ok}
use statebraid.Prelude.Exec.{continue}
use statebraid.Prelude.Json.{Json, integer, text, object, field, end_of_fields, lookup_field}
use statebraid.Adapters.LlamaCppManaged.PromptCache.{token_lcp}
use statebraid.Adapters.LlamaCppManaged.PromptCache.Selection.{
  Shares, token_lcp_longest, fewer_shared,
}
use statebraid.Qualification.Requests.{as_dict, require_field}
use statebraid.Qualification.Canary.{
  Client, timing, int_of, is_truthy, all_checks, lcp, at_most, below, is_positive,
}
use statebraid.Qualification.Canary.Run.{
  CanaryReport, canary_report, canary_run, tokenize_all, timed, text_a, text_a_ext, text_b, text_r1,
  text_r2, text_r3,
}

-- A test tells whether a proposition holds.
abbrev pub Tells : Bool → Type 0 → Type 0
Tells b P = ((b ≡ true) × P) ⊎ ((b ≡ false) × ¬ P)

both_tell : {P Q : Type 0} (b c : Bool) → Tells b P → Tells c Q → Tells (b && c) (P × Q)
both_tell b c (inl (e, p)) (inl (e', q)) = inl (ground (arith, e, e'), (p, q))
both_tell b c (inl (e, p)) (inr (e', q)) = inr (ground (arith, e, e'), λ x. q x.1)
both_tell b c (inr (e, p)) other = inr (ground (arith, e), λ x. p x.0)

regrouped : {P : Type 0} (b c d : Bool) → Tells ((b && c) && d) P → Tells (b && (c && d)) P
regrouped true c d t = t
regrouped false c d t = t

told_again : {P Q : Type 0} (b : Bool) → (P → Q) → (Q → P) → Tells b P → Tells b Q
told_again b f g (inl (e, p)) = inl (e, f p)
told_again b f g (inr (e, p)) = inr (e, λ q. p (g q))

-- The canary and the managed prompt cache count shared tokens alike.
same_lcp : (left right : List ℤ) → lcp left right ≡ token_lcp left right
unfolding lcp token_lcp
same_lcp [] right = refl
same_lcp (x ∷ left) [] = refl
same_lcp (x ∷ left) (y ∷ right) = ground (arith, same_lcp left right)

lcp_told :
    (n : ℕ) (left right : List ℤ) → Tells (at_most (pos n) (lcp left right)) (Shares n left right)
lcp_told n left right =
    let (shared, longest) = token_lcp_longest left right in
    let same = same_lcp left right in
    elim (Bool-cases (leb n (lcp left right))) [
      | inl e ↦
          inl (e, fewer_shared n (token_lcp left right) left right (ground (arith, e, same)) shared)
      | inr e ↦ inr (e, λ s. ground (arith, e, same, longest n s))
    ]

zero_told : (n : ℕ) → Tells (pos n == pos 0) (n ≡ 0)
zero_told zero = inl (==_refl (pos 0), refl)
zero_told (suc n) = elim (Bool-cases (pos (suc n) == pos 0)) [
  | inl e ↦ absurd (ground (arith, eq_of_== (pos (suc n)) (pos 0) e))
  | inr e ↦ inr (e, λ bad. ground (arith, bad))
]

below_told : (n m : ℕ) → Tells (below (pos n) m && is_positive (pos (m - n))) (n < m)
below_told n m = elim (Bool-cases (below (pos n) m)) [
  | inl e ↦ inl (ground (arith, e), ground (arith, e))
  | inr e ↦ inr (ground (arith, e), λ bad. ground (arith, e, bad))
]

filled_told : (content : String) → Tells (not (content == "")) (content ≢ "")
filled_told content = elim (Bool-cases (content == "")) [
  | inl e ↦ inr (ground (arith, e), λ bad. bad (eq_of_== content "" e))
  | inr e ↦ inl (ground (arith, e), λ bad. ground (arith, e, bad, ==_refl content))
]

filled_below_told :
    (n m : ℕ) (content : String)
    → Tells
        (below (pos n) m && (is_positive (pos (m - n)) && not (content == "")))
        ((n < m) × (content ≢ ""))
filled_below_told n m content =
    regrouped (below (pos n) m) (is_positive (pos (m - n))) (not (content == ""))
      (both_tell _ _ (below_told n m) (filled_told content))

-- What the slot holds after a completion.
abbrev pub after : (List ℤ → ℕ → List ℤ) → List ℤ → ℕ → List ℤ
after generate tokens zero = tokens
after generate tokens (suc n) = tokens ++ generate tokens (suc n)

module _ (reuse : List ℤ → List ℤ → ℕ) (tokens_of : String → List ℤ)
    (generate : List ℤ → ℕ → List ℤ) (content : String) where
  -- A server with one slot, which holds the tokens of the last completion, those that it generated
  -- included: it reuses `reuse held tokens` of a prompt, and evaluates the others.
  unfoldable pub slot_client : Client (List ℤ)
  slot_client = record {
    tokenize = λ prompt s. (ok (tokens_of prompt), s);
    completion = λ tokens n s. (
      ok (
          field "content" (text content) (
            field "timings"
              (object (
                field "cache_n" (integer (pos (reuse s tokens))) (
                  field "prompt_n" (integer (pos (length tokens - reuse s tokens))) end_of_fields)))
              end_of_fields)),
      after generate tokens n,
    );
    erase = λ s. (ok tt, []);
  }

  -- The server reuses nothing of an empty slot, leaves a token of a repeated prompt, and reuses only
  -- tokens that the prompt shares with the one before it; it generates a text that is not empty.
  pub record IsHonest : Type 0 where
    pub cold_a : reuse [] (tokens_of text_a) ≡ 0
    pub exact_a : reuse (tokens_of text_a) (tokens_of text_a) < length (tokens_of text_a)
    pub filled : content ≢ ""
    pub a_extension :
        Shares
          (reuse (after generate (tokens_of text_a) 12) (tokens_of text_a_ext))
          (tokens_of text_a)
          (tokens_of text_a_ext)
    pub b_diverge :
        Shares
          (reuse (tokens_of text_a_ext) (tokens_of text_b))
          (tokens_of text_a_ext)
          (tokens_of text_b)
    pub a_after_b :
        Shares (reuse (tokens_of text_b) (tokens_of text_a)) (tokens_of text_a) (tokens_of text_b)
    pub r1_cold : reuse [] (tokens_of text_r1) ≡ 0
    pub r2_extend :
        Shares
          (reuse (tokens_of text_r1) (tokens_of text_r2))
          (tokens_of text_r1)
          (tokens_of text_r2)
    pub r3_extend :
        Shares
          (reuse (tokens_of text_r2) (tokens_of text_r3))
          (tokens_of text_r2)
          (tokens_of text_r3)

  -- The canary returns a report at every server with one slot, whatever that held before, whatever it
  -- reuses of which prompt and whatever it generates, and the report passes exactly if the server reuses
  -- nothing of an erased slot, leaves a token of the repeated first prompt to evaluate, and reuses of
  -- each other prompt no more tokens than that has in common with the prompt before it, from the start,
  -- and generates a text that is not empty.
  pub canary_exact :
      (other : Json → Result ℤ) (nonzero : String → Bool) (s : List ℤ)
      → (report : CanaryReport) × ((canary_run slot_client other nonzero s).0 ≡ ok report)
        × Tells report.passed IsHonest
  unfolding canary_run tokenize_all timed timing is_truthy canary_report slot_client continue
      require_field as_dict int_of text_discrete lookup_field all_checks
  canary_exact other nonzero s =
      let a = tokens_of text_a in
      let a_ext = tokens_of text_a_ext in
      let b = tokens_of text_b in
      let r1 = tokens_of text_r1 in
      let r2 = tokens_of text_r2 in
      let r3 = tokens_of text_r3 in
      (
        _,
        refl,
        told_again _
            (λ (
              cold,
              (
                twice,
                (
                  (again, generated),
                  (extended, (diverged, (back, (cold_r, (second, (third, erased)))))),
                ),
              ),
            ).
              record {
                cold_a = cold;
                exact_a = twice;
                filled = generated;
                a_extension = extended;
                b_diverge = diverged;
                a_after_b = back;
                r1_cold = cold_r;
                r2_extend = second;
                r3_extend = third;
              })
            (λ h. (
              h.cold_a,
              (
                h.exact_a,
                (
                  (h.exact_a, h.filled),
                  (
                    h.a_extension,
                    (
                      h.b_diverge,
                      (h.a_after_b, (h.r1_cold, (h.r2_extend, (h.r3_extend, h.cold_a)))),
                    ),
                  ),
                ),
              ),
            ))
            (both_tell _ _ (zero_told (reuse [] a)) (
              both_tell _ _ (below_told (reuse a a) (length a)) (
                both_tell _ _ (filled_below_told (reuse a a) (length a) content) (
                  both_tell _ _ (lcp_told (reuse (after generate a 12) a_ext) a a_ext) (
                    both_tell _ _ (lcp_told (reuse a_ext b) a_ext b) (
                      both_tell _ _ (lcp_told (reuse b a) a b) (
                        both_tell _ _ (zero_told (reuse [] r1)) (
                          both_tell _ _ (lcp_told (reuse r1 r2) r1 r2) (
                            both_tell _ _ (lcp_told (reuse r2 r3) r2 r3)
                              (zero_told (reuse [] a))))))))))),
      )
