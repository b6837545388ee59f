-- ===== src/Backend/Conformance/Report.antt =====
-- What the report of the conformance suite tells.
use mathlib.Core.Path.{subst}
use statebraid.Prelude.{
  ◌+◌, ◌≡◌, ◌⊎◌, refl, ap, ◌∙◌, suc, true, false, List, [], ◌∷◌, String, Hashable, nat_hashable,
  ◌==◌, contains, length, arith, Bool-cases, inl, inr, if◌then◌else◌,
}
use statebraid.Prelude.Result.{Result, ok, raise, Error}
use statebraid.Prelude.Exec.{continue_ok}
use statebraid.Backend.Descriptor.{
  BackendCapability, BackendDescriptor, capability_hashable, supports, is_subset,
}
use statebraid.Backend.Conformance.{
  ConformanceStatus, pass, skip, fail, unsupported, raised, ConformanceResult,
  BackendConformanceReport, BackendConformanceDriver, DriverFactory, is_pass, is_skip, is_fail,
  passed, passed_count, skipped_count, failed_count, count_of, none_of, missing_of, run_case,
  run_unless, judge,
}
use statebraid.Backend.Conformance.Suite.{
  ConformanceCase, run_cases, standard_cases, run_backend_conformance,
}

missing_none :
    (d : BackendDescriptor) (required : List BackendCapability)
    → supports d required ≡ true
    → missing_of d required ≡ []
unfolding missing_of supports is_subset
missing_none d [] e = refl
missing_none d (c ∷ cs) e = ground (arith, missing_none d cs, e)

missing_some :
    (d : BackendDescriptor) (required : List BackendCapability)
    → supports d required ≡ false
    → (c : BackendCapability) × (cs : List BackendCapability) × (missing_of d required ≡ c ∷ cs)
unfolding missing_of supports is_subset
missing_some d [] e = absurd (ground (arith, e))
missing_some d (c ∷ cs) e = elim (Bool-cases (contains c d.capabilities)) [
  | inr out ↦ (c, missing_of d cs, ground (arith, out))
  | inl here ↦
      let (c', cs', e') = missing_some d cs (ground (arith, here, e)) in
      (c', cs', ground (arith, here, e'))
]

-- The store after a case, which is left alone where a capability is missing.
abbrev pub after_case : {D : Type 0} → BackendDescriptor → ConformanceCase D → D → D
after_case d c s = if supports d c.required then (c.case s).1 else s

-- What a result tells of its case at a store: a skip where a capability is missing, else a pass where
-- the case returns and a failure, with what was raised, where it raises.
abbrev pub Tells :
    {D : Type 0} → BackendDescriptor → ConformanceCase D → D → ConformanceResult → Type 0
Tells d c s r =
    ((supports d c.required ≡ false) × (r.status ≡ skip))
    ⊎ ((supports d c.required ≡ true) × ((c.case s).0 ≡ ok tt) × (r.status ≡ pass))
    ⊎ ((supports d c.required ≡ true)
        × ((e : Error) × ((c.case s).0 ≡ raise e) × (r.status ≡ fail) × (r.detail ≡ raised e)))

-- A result that fits its case.
pub record IsJudged {D : Type 0} (d : BackendDescriptor) (c : ConformanceCase D) (s : D)
    (r : ConformanceResult) : Type 0 where
  pub same_name : r.name ≡ c.name
  pub same_required : r.required_capabilities ≡ c.required
  pub tells : Tells d c s r

-- A case that ran, by what it did.
abbrev Ran : Result (Unit {0}) → ConformanceResult → Type 0
Ran out r =
    ((out ≡ ok tt) × (r.status ≡ pass))
    ⊎ ((e : Error) × (out ≡ raise e) × (r.status ≡ fail) × (r.detail ≡ raised e))

judge_lem :
    {D : Type 0} (name : String) (required : List BackendCapability) (out : Result (Unit {0}) × D)
    → (r : ConformanceResult) × (judge name required out ≡ (ok r, out.1))
      × (r.name ≡ name)
      × (r.required_capabilities ≡ required)
      × Ran out.0 r
unfolding judge
judge_lem name required (ok _, s) = (_, refl, refl, refl, inl (refl, refl))
judge_lem name required (raise e, s) = (_, refl, refl, refl, inr (e, refl, refl, refl))

run_case_lem :
    {D : Type 0} (d : BackendDescriptor) (c : ConformanceCase D) (s : D)
    → (r : ConformanceResult) × (run_case d c.name c.required c.case s ≡ (ok r, after_case d c s))
      × IsJudged d c s r
unfolding run_case run_unless
run_case_lem d c s = elim (Bool-cases (supports d c.required)) [
  | inl e ↦
      let (r, fine, n, q, ran) = judge_lem c.name c.required (c.case s) in
      (
        r,
        rw (missing_none d c.required e, e) fine,
        record {
          same_name = n;
          same_required = q;
          tells = elim ran [
            | inl (returned, good) ↦ inr (inl (e, returned, good))
            | inr (x, bad, failed, detail) ↦ inr (inr (e, (x, bad, failed, detail)))
          ];
        },
      )
  | inr e ↦
      let (x, xs, m) = missing_some d c.required e in
      (
        record {
          name = c.name;
          status = skip;
          required_capabilities = c.required;
          detail = unsupported (x ∷ xs);
        },
        rw (m, e) refl,
        record { same_name = refl; same_required = refl; tells = inl (e, refl) },
      )
]

-- A list of results that fits a list of cases, each at the store that those before it left.
abbrev pub AreJudged :
    {D : Type 0}
    → BackendDescriptor
    → List (ConformanceCase D)
    → D
    → List ConformanceResult
    → Type 0
AreJudged d [] s [] = Unit {0}
AreJudged d [] s (r ∷ rs) = ⊥
AreJudged d (c ∷ cs) s [] = ⊥
AreJudged d (c ∷ cs) s (r ∷ rs) = IsJudged d c s r × AreJudged d cs (after_case d c s) rs

run_cases_lem :
    {D : Type 0} (d : BackendDescriptor) (cs : List (ConformanceCase D)) (s : D)
    → (rs : List ConformanceResult) × ((run_cases d cs s).0 ≡ ok rs) × AreJudged d cs s rs
unfolding run_cases
run_cases_lem d [] s = ([], refl, tt)
run_cases_lem d (c ∷ cs) s =
    let (r, fine, judged) = run_case_lem d c s in
    let out = run_case d c.name c.required c.case s in
    let (rs, rest, all) = run_cases_lem d cs out.1 in
    (
      r ∷ rs,
      ap (λ x. x.0) (continue_ok out _ r (ap (λ x. x.0) fine))
          ∙ ap (λ x. x.0) (continue_ok (run_cases d cs out.1) _ rs rest),
      (judged, subst (λ s'. AreJudged d cs s' rs) (ap (λ x. x.1) fine) all),
    )

status_cases : (st : ConformanceStatus) → (st ≡ pass) ⊎ (st ≡ skip) ⊎ (st ≡ fail)
status_cases pass = inl refl
status_cases skip = inr (inl refl)
status_cases fail = inr (inr refl)

-- Each result is counted once, and a report passes exactly if no result is a failure.
counts_add :
    (rs : List ConformanceResult)
    → (count_of is_pass rs + count_of is_skip rs + count_of is_fail rs ≡ length rs)
      × (none_of is_fail rs ≡ (count_of is_fail rs == 0))
unfolding count_of none_of is_pass is_skip is_fail
counts_add [] = (refl, ground arith)
counts_add (r ∷ rs) =
    let rest = counts_add rs in
    elim (status_cases r.status) [
      | inl p ↦ ground (arith, p, rest)
      | inr (inl k) ↦ ground (arith, k, rest)
      | inr (inr f) ↦ ground (arith, f, rest)
    ]

AreJudged-length :
    {D : Type 0} (d : BackendDescriptor) (cs : List (ConformanceCase D)) (s : D)
    (rs : List ConformanceResult)
    → AreJudged d cs s rs
    → length rs ≡ length cs
AreJudged-length d [] s [] j = refl
AreJudged-length d [] s (r ∷ rs) j = absurd j
AreJudged-length d (c ∷ cs) s [] j = absurd j
AreJudged-length d (c ∷ cs) s (r ∷ rs) j = ap suc (AreJudged-length d cs (after_case d c s) rs j.1)

-- Where the factory makes a first driver, the suite returns a report, whatever the calls of its drivers
-- raise: one result for each of the seven cases, in order. It is a skip where the descriptor lacks a
-- capability that the case requires, and the case did not run; else a pass if the case returns at the
-- store that those before it left, and a failure with the error if it raises. The three counts add up
-- to seven, and the report passes exactly if none of them failed.
pub suite_reports :
    {D K N P : Type 0} ⦃hk : Hashable K⦄ ⦃hp : Hashable P⦄ (factory : DriverFactory D K N P) (s : D)
    (driver : BackendConformanceDriver D K N P)
    → (factory 4 1000 s).0 ≡ ok driver
    → (report : BackendConformanceReport) × ((run_backend_conformance factory s).0 ≡ ok report)
      × AreJudged driver.descriptor (standard_cases factory) (factory 4 1000 s).1 report.results
      × (passed_count report + skipped_count report + failed_count report ≡ 7)
      × (passed report ≡ (failed_count report == 0))
unfolding run_backend_conformance passed passed_count skipped_count failed_count
suite_reports factory s driver e =
    let d = driver.descriptor in
    let (rs, fine, judged) = run_cases_lem d (standard_cases factory) (factory 4 1000 s).1 in
    let (total, passes) = counts_add rs in
    (
      record { descriptor = d; results = rs },
      ap (λ x. x.0) (continue_ok (factory 4 1000 s) _ driver e)
          ∙ ap (λ x. x.0) (continue_ok (run_cases d (standard_cases factory) _) _ rs fine),
      judged,
      total ∙ AreJudged-length d (standard_cases factory) _ rs judged,
      passes,
    )
