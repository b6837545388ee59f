-- ===== src/Qualification/Determinism/Verdict.antt =====
-- When an audit passes.
use mathlib.Core.List.{foldl}
use statebraid.Prelude.{
  ℕ, zero, suc, ◌≤◌, ◌≡◌, refl, sym, ap, ◌∙◌, Bool, true, false, not, ◌&&◌, List, [], ◌∷◌, ◌++◌,
  String, string_hashable, nat_hashable, ◌==◌, eq_of_==, ==_refl, add, contains, length,
  length-append, map, arith, Bool-cases, inl, inr,
}
use statebraid.Prelude.Result.{ok, ok-injective}
use statebraid.Prelude.Exec.{Exec, local, returned}
use statebraid.Prelude.Json.{Json, Items, Fields}
use statebraid.Adapters.LlamaCpp.Lookup.{JsonTransport}
use statebraid.Qualification.Determinism.{
  AuditArguments, AuditReport, all_hold, checks_of, content_of, report_of, repeated, set_of,
  read_build_info, tokenize, completion, erase, fixture_prompt, run,
}

-- Whether all contents are one text that is not empty.
abbrev pub all_same : String → List String → Bool
all_same c [] = true
all_same c (x ∷ xs) = x == c && all_same c xs

abbrev pub agree : List String → Bool
agree [] = false
agree (c ∷ cs) = not (c == "") && all_same c cs

set_grows : (set xs : List String) → length set ≤ length (foldl (λ set x. add x set) set xs)
unfolding add
set_grows set [] = omega arith
set_grows set (x ∷ xs) = ground (arith, set_grows (add x set) xs, length-append set (x ∷ []))

distinct_one : (c : String) (xs : List String) → (length (set_of (c ∷ xs)) == 1) ≡ all_same c xs
unfolding set_of add contains
distinct_one c [] = ==_refl {A = ℕ} 1
distinct_one c (x ∷ xs) = elim (Bool-cases (x == c)) [
  | inl e ↦
      let same : (c == x) ≡ true = ground (arith, eq_of_== x c e, ==_refl c) in
      ground (arith, same, e, distinct_one c xs)
  | inr e ↦
      let other : (c == x) ≡ false = elim (Bool-cases (c == x)) [
        | inl f ↦ absurd (ground (arith, eq_of_== c x f, e, ==_refl x))
        | inr f ↦ f
      ] in
      ground (arith, other, e, set_grows (c ∷ x ∷ []) xs)
]

all_same-append :
    (c : String) (xs ys : List String) → all_same c (xs ++ ys) ≡ (all_same c xs && all_same c ys)
all_same-append c [] ys = refl
all_same-append c (x ∷ xs) ys = ground (arith, all_same-append c xs ys)

-- The checks of an audit hold exactly where all contents are one text that is not empty.
checks_exact :
    (cold : String) (colds : List String) (cached : String) (cacheds : List String)
    → all_hold (checks_of cold colds cached cacheds) ≡ agree (cold ∷ colds ++ cached ∷ cacheds)
unfolding all_hold checks_of
checks_exact cold colds cached cacheds =
    let one = distinct_one cold colds in
    let other = distinct_one cached cacheds in
    let both = all_same-append cold colds (cached ∷ cacheds) in
    elim (Bool-cases (cold == cached)) [
      | inl e ↦
          let same = eq_of_== cold cached e in
          let back : (cached == cold) ≡ true = ground (arith, same, ==_refl cold) in
          let moved : all_same cached cacheds ≡ all_same cold cacheds =
            ap (λ c. all_same c cacheds) (sym same) in
          ground (arith, e, back, one, other, both, moved)
      | inr e ↦
          let apart : (cached == cold) ≡ false = elim (Bool-cases (cached == cold)) [
            | inl f ↦ absurd (ground (arith, eq_of_== cached cold f, e, ==_refl cold))
            | inr f ↦ f
          ] in
          ground (arith, e, apart, one, other, both)
    ]

length-repeated :
    {S A : Type 0} (n : ℕ) (call : Exec S A) (s : S) (out : List A)
    → (repeated n call s).0 ≡ ok out
    → length out ≡ n
unfolding repeated
length-repeated zero call s out done = ap length (sym (ok-injective [] out done))
length-repeated (suc n) call s out done =
    let (first, _, d1) = returned call _ s out done in
    let (rest, more, d2) = returned (repeated n call) _ (call s).1 out d1 in
    ap length (sym (ok-injective (first ∷ rest) out d2))
    ∙ ap suc (length-repeated n call (call s).1 rest more)

module _ {S : Type 0} (transport : JsonTransport S) (sha256 : String → String)
    (other : Json → String) (x : AuditArguments) where
  -- The responses that a report is about, and its verdict on them.
  pub record IsVerdict (report : AuditReport) : Type 0 where
    pub tokens : Items
    pub cold : List Fields
    pub cached : List Fields
    pub erased : S
    pub erased_again : S
    pub cold_responses :
        (repeated x.repeats (completion transport x tokens false) erased).0 ≡ ok cold
    pub cached_responses :
        (repeated x.repeats (completion transport x tokens true) erased_again).0 ≡ ok cached
    pub cold_count : length cold ≡ x.repeats
    pub cached_count : length cached ≡ x.repeats
    pub verdict : report.passed ≡ agree (map (content_of other) (cold ++ cached))

  map_contents :
      (xs ys : List Fields)
      → map (content_of other) (xs ++ ys) ≡ map (content_of other) xs ++ map (content_of other) ys
  map_contents [] ys = refl
  map_contents (x ∷ xs) ys = ap (λ rest. content_of other x ∷ rest) (map_contents xs ys)

  reported :
      (build_info : String) (tokens : Items) (cold cached : List Fields) (report : AuditReport)
      → report_of sha256 other x build_info tokens cold cached ≡ ok report
      → report.passed ≡ agree (map (content_of other) (cold ++ cached))
  unfolding report_of
  reported build_info tokens [] cached report e = cc
  reported build_info tokens (c ∷ colds) [] report e = cc
  reported build_info tokens (c ∷ colds) (d ∷ cacheds) report e =
      ap (λ r. r.passed) (sym (ok-injective _ report e))
      ∙ checks_exact (content_of other c) (map (content_of other) colds) (content_of other d)
          (map (content_of other) cacheds)
      ∙ ap agree (sym (map_contents (c ∷ colds) (d ∷ cacheds)))

  -- An audit that returns a report asked for as many cold completions as it was told to and for as many
  -- cached ones, and passes exactly where the contents of all of them are one text that is not empty.
  pub audit_passes_exact :
      (s : S) (report : AuditReport)
      → (run transport sha256 other x s).0 ≡ ok report
      → IsVerdict report
  unfolding run
  audit_passes_exact s report done =
      let (props, _, d1) = returned (transport.get_json "/props") _ s report done in
      let s1 = (transport.get_json "/props" s).1 in
      let (build_info, _, d2) = returned (local (read_build_info other props)) _ s1 report d1 in
      let (tokens, _, d3) = returned (tokenize transport fixture_prompt) _ s1 report d2 in
      let s2 = (tokenize transport fixture_prompt s1).1 in
      let (_, _, d4) = returned (erase transport) _ s2 report d3 in
      let s3 = (erase transport s2).1 in
      let (cold, colds, d5) =
        returned (repeated x.repeats (completion transport x tokens false)) _ s3 report d4 in
      let s4 = (repeated x.repeats (completion transport x tokens false) s3).1 in
      let (_, _, d6) = returned (erase transport) _ s4 report d5 in
      let s5 = (erase transport s4).1 in
      let (cached, cacheds, d7) =
        returned (repeated x.repeats (completion transport x tokens true)) _ s5 report d6 in
      record {
        tokens = tokens;
        cold = cold;
        cached = cached;
        erased = s3;
        erased_again = s5;
        cold_responses = colds;
        cached_responses = cacheds;
        cold_count = length-repeated x.repeats _ s3 cold colds;
        cached_count = length-repeated x.repeats _ s5 cached cacheds;
        verdict = reported build_info tokens cold cached report d7;
      }
