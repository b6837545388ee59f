-- ===== src/Cache/Policy/Persistence.antt =====
-- A stable candidate that is proposed twice in a row gets in.
use statebraid.Prelude.{
  ℕ, ◌≤◌, ◌<◌, ◌≡◌, refl, sym, ap, ◌∙◌, true, false, ◌&&◌, List, [], ◌∷◌, none, some, Hashable,
  ◌==◌, nat_hashable, string_hashable, length, ltb, contains, ==_refl, arith, Bool-cases, inl, inr,
}
use statebraid.Prelude.Result.{ok, ok-injective}
use statebraid.Dict.{get}
use statebraid.Cache.Key.{CacheKey, key_hashable}
use statebraid.Cache.Policy.{
  WorkingSetPolicy, EntryState, AdmissionPlan, PlanReason, stable_empty, stable_refresh,
  stable_cold_larger, keys_for_role,
}
use statebraid.Cache.Policy.Plan.{plan_admission}
use statebraid.Cache.Policy.Commit.{commit}
use statebraid.Cache.Policy.Candidate.{
  stable_plan, is_candidate, challenge, challenge_first, plan_stable_candidate,
}
use statebraid.Cache.Policy.Invariant.{IsWellFormed, has_role}
use statebraid.Cache.Policy.Lookup.{contains-keys_for_role}
use statebraid.Cache.Policy.Admission.{plan_admission_accepts}
use statebraid.Cache.Policy.Lineage.{one_stable_entry}
use statebraid.Cache.Policy.Lifecycle.{IsLive}
use statebraid.Cache.Policy.Probation.{
  IsOutcome, first_stable_resident, plan_stable_candidate_returns, outcome-IsLive,
}
use statebraid.Cache.Policy.Probation.Store.{
  SameStore, SameStore-IsLive, commit_refused, reason-SameStore,
}
use statebraid.Cache.Policy.Promotion.{IsContested, promoted, promotion_exact}

module _ {N : Type 0} ⦃h : Hashable N⦄ (key : CacheKey N) (nbytes : ℕ) where
  -- The request can fit.
  pub record Fits (p : WorkingSetPolicy N) : Type 0 where
    pub sequences : 0 < p.max_sequences
    pub bytes : 0 < p.max_bytes
    pub fits : nbytes ≤ p.max_bytes

  module _ (p : WorkingSetPolicy N) (w : IsWellFormed p.config p.state) (f : Fits p) where
    stable_plan_accepts : (reason : PlanReason) → (stable_plan p key nbytes reason).accepted ≡ true
    unfolding stable_plan
    stable_plan_accepts reason =
        ground
          (arith, plan_admission_accepts p key "stable" nbytes none w, f.sequences, f.bytes, f.fits)

    -- A proposal that is refused was not planned as a stable admission.
    not_planned :
        (r : WorkingSetPolicy N × AdmissionPlan N) (reason : PlanReason)
        → plan_stable_candidate p key nbytes ≡ ok r
        → r.1.accepted ≡ false
        → ¬ (plan_stable_candidate p key nbytes ≡ ok (p, stable_plan p key nbytes reason))
    not_planned r reason planned refused e =
        let same : r ≡ (p, stable_plan p key nbytes reason) = ok-injective _ _ (sym planned ∙ e) in
        cc (stable_plan_accepts reason, ap (λ x. x.1.accepted) same, refused)

    refused_first :
        (r : WorkingSetPolicy N × AdmissionPlan N) (ks : List (CacheKey N))
        → keys_for_role p "stable" ≡ ks
        → plan_stable_candidate p key nbytes ≡ ok r
        → r.1.accepted ≡ false
        → (current : CacheKey N) × (e : EntryState N) × IsContested p key current nbytes e
    unfolding plan_stable_candidate challenge_first challenge
    refused_first r [] first planned refused = absurd (
        not_planned r stable_empty planned refused
          (ground (arith, first, f.sequences, f.bytes, f.fits)))
    refused_first r (k ∷ ks) first planned refused =
        let (e, found) = first_stable_resident p key nbytes w k ks first in
        elim (Bool-cases (k == key)) [
          | inl same ↦ absurd (
              not_planned r stable_refresh planned refused
                (ground (arith, first, found, same, f.sequences, f.bytes, f.fits)))
          | inr other ↦
              elim (Bool-cases (e.hits == 0 && ltb (length k.tokens) (length key.tokens))) [
                | inl cold ↦ absurd (
                    not_planned r stable_cold_larger planned refused
                      (ground (arith, first, found, other, cold, f.sequences, f.bytes, f.fits)))
                | inr in_use ↦ (
                  k,
                  e,
                  record {
                    rest = ks;
                    first = first;
                    found = found;
                    other = other;
                    in_use = in_use;
                    sequences = f.sequences;
                    bytes = f.bytes;
                    fits = f.fits;
                  },
                )
              ]
        ]

    -- A key that alone holds a stable entry is not refused.
    resident_accepted :
        (r : WorkingSetPolicy N × AdmissionPlan N)
        → ((j : CacheKey N) → has_role "stable" (get j p.entries) ≡ (key == j))
        → plan_stable_candidate p key nbytes ≡ ok r
        → r.1.accepted ≡ true
    unfolding contains
    resident_accepted r alone planned = elim (Bool-cases r.1.accepted) [
      | inl accepted ↦ accepted
      | inr refused ↦
          let (current, e, c) = refused_first r (keys_for_role p "stable") refl planned refused in
          absurd (
            ground (
              arith,
              c.other,
              alone current,
              contains-keys_for_role p w "stable" current,
              c.first,
              ==_refl current,
            ))
    ]

  Fits-commit :
      (p : WorkingSetPolicy N) (r : WorkingSetPolicy N × AdmissionPlan N)
      → SameStore p r.0
      → Fits p
      → Fits (commit r.0 r.1)
  unfolding commit
  Fits-commit p r s f = record {
    sequences = ground (arith, s.config, f.sequences);
    bytes = ground (arith, s.config, f.bytes);
    fits = ground (arith, s.config, f.fits);
  }

  -- After an accepted proposal, the key alone holds a stable entry.
  admitted_alone :
      (p : WorkingSetPolicy N) (r : WorkingSetPolicy N × AdmissionPlan N)
      → IsWellFormed r.0.config r.0.state
      → IsOutcome p key nbytes r
      → r.1.accepted ≡ true
      → (j : CacheKey N) → has_role "stable" (get j (commit r.0 r.1).entries) ≡ (key == j)
  unfolding stable_plan
  admitted_alone p r w o accepted j = elim o.plan [
    | inl refused ↦ cc
    | inr (reason, e) ↦
        let plain = plan_admission r.0 key "stable" nbytes none in
        let same = (reason-SameStore r.0 plain reason).entries in
        ap (λ plan. has_role "stable" (get j (commit r.0 plan).entries)) e
        ∙ ap (λ entries. has_role "stable" (get j entries)) same
        ∙ one_stable_entry r.0 w key nbytes none (sym (ap (λ plan. plan.accepted) e) ∙ accepted) j
  ]

  -- A contest goes on in a policy with the same store.
  SameStore-IsContested :
      (p q : WorkingSetPolicy N) (current : CacheKey N) (e : EntryState N)
      → SameStore p q
      → IsContested p key current nbytes e
      → IsContested q key current nbytes e
  unfolding keys_for_role
  SameStore-IsContested p q current e s c = record {
    rest = c.rest;
    first = ground (arith, s.buckets, c.first);
    found = ground (arith, s.entries, c.found);
    other = c.other;
    in_use = c.in_use;
    sequences = ground (arith, s.config, c.sequences);
    bytes = ground (arith, s.config, c.bytes);
    fits = ground (arith, s.config, c.fits);
  }

  -- After a proposal that is refused in a contest, the next one is accepted.
  contested_again :
      (p : WorkingSetPolicy N) (r r' : WorkingSetPolicy N × AdmissionPlan N) (current : CacheKey N)
      (e : EntryState N)
      → IsWellFormed p.config p.state
      → IsWellFormed r.0.config r.0.state
      → SameStore p r.0
      → IsContested p key current nbytes e
      → plan_stable_candidate p key nbytes ≡ ok r
      → r.1.accepted ≡ false
      → plan_stable_candidate r.0 key nbytes ≡ ok r'
      → r'.1.accepted ≡ true
  unfolding is_candidate
  contested_again p r r' current e w w' s c planned refused again =
      let (x, made, acc, _, is_now, count, base) = promotion_exact p key current nbytes e w c in
      let (y, made', acc', _, _, _, _) =
        promotion_exact r.0 key current nbytes e w' (SameStore-IsContested p r.0 current e s c) in
      let same : r ≡ x = ok-injective _ _ (sym planned ∙ made) in
      let same' : r' ≡ y = ok-injective _ _ (sym again ∙ made') in
      let off : promoted p key current nbytes e ≡ false =
        sym acc ∙ sym (ap (λ z. z.1.accepted) same) ∙ refused in
      let is_now' : r.0.state.stable_candidate_key ≡ some key =
        ap (λ z. z.0.state.stable_candidate_key) same ∙ is_now in
      let count' : r.0.state.stable_candidate_count ≡ 1 =
        ap (λ z. z.0.state.stable_candidate_count) same ∙ count ∙ rw off refl in
      let base' = ap (λ z. z.0.state.stable_candidate_base_hits) same in
      let met : promoted r.0 key current nbytes e ≡ true =
        ground (arith, is_now', count', base', base, ==_refl key) in
      ap (λ z. z.1.accepted) same' ∙ acc' ∙ met

  -- A policy that is live, at a request that can fit: whatever the policy holds, of two proposals of one
  -- key in a row, each committed, the second is accepted, and then the key holds the stable entry and no
  -- other key does.
  pub proposed_twice :
      (p : WorkingSetPolicy N)
      → IsLive p
      → Fits p
      → (r r' : WorkingSetPolicy N × AdmissionPlan N) × (plan_stable_candidate p key nbytes ≡ ok r)
        × (plan_stable_candidate (commit r.0 r.1) key nbytes ≡ ok r')
        × (r'.1.accepted ≡ true)
        × ((j : CacheKey N) → has_role "stable" (get j (commit r'.0 r'.1).entries) ≡ (key == j))
  proposed_twice p l f =
      let (r, planned, o) = plan_stable_candidate_returns p key nbytes l.well_formed in
      let l' = outcome-IsLive p key nbytes r l o in
      let p' = commit r.0 r.1 in
      let (r', planned', o') = plan_stable_candidate_returns p' key nbytes l'.well_formed in
      let w = (SameStore-IsLive p r.0 o.store l).well_formed in
      let w' = (SameStore-IsLive p' r'.0 o'.store l').well_formed in
      let accepted : r'.1.accepted ≡ true = elim (Bool-cases r.1.accepted) [
        | inl first ↦
            resident_accepted p' l'.well_formed (Fits-commit p r o.store f) r'
              (admitted_alone p r w o first) planned'
        | inr refused ↦
            let (current, e, c) =
              refused_first p l.well_formed f r (keys_for_role p "stable") refl planned refused in
            let stayed : p' ≡ r.0 = commit_refused r.0 r.1 refused in
            contested_again p r r' current e l.well_formed w o.store c planned refused
              (ap (λ q. plan_stable_candidate q key nbytes) (sym stayed) ∙ planned')
      ] in
      (r, r', planned, planned', accepted, admitted_alone p' r' w' o' accepted)
