-- ===== src/Cache/Policy/Promotion.antt =====
-- When a stable candidate replaces the stable entry that is in use.
use statebraid.Prelude.{
  ℕ, suc, ◌≤◌, ◌<◌, ◌≡◌, Bool, false, ◌&&◌, List, ◌∷◌, none, some, Hashable, ◌==◌, nat_hashable,
  length, ltb, leb, arith, if◌then◌else◌,
}
use statebraid.Prelude.Result.{ok}
use statebraid.Dict.{get}
use statebraid.Cache.Key.{CacheKey, key_hashable}
use statebraid.Cache.Policy.{
  WorkingSetPolicy, EntryState, AdmissionPlan, stable_probation, stable_repeated_miss,
  keys_for_role,
}
use statebraid.Cache.Policy.Candidate.{
  stable_plan, is_candidate, note_candidate, probation, challenge, plan_stable_candidate,
}
use statebraid.Cache.Policy.Invariant.{IsWellFormed}
use statebraid.Cache.Policy.Admission.{plan_admission_accepts}
use statebraid.Cache.Policy.Probation.{note_candidate-SameStore}
use statebraid.Cache.Policy.Probation.Store.{SameStore-IsWellFormed}

module _ {N : Type 0} ⦃h : Hashable N⦄ (p : WorkingSetPolicy N) (key current : CacheKey N)
    (nbytes : ℕ) where
  -- The key competes with a stable entry that is another one and has been hit, or is not shorter.
  pub record IsContested (e : EntryState N) : Type 0 where
    pub rest : List (CacheKey N)
    pub first : keys_for_role p "stable" ≡ current ∷ rest
    pub found : get current p.entries ≡ some e
    pub other : (current == key) ≡ false
    pub in_use : (e.hits == 0 && ltb (length current.tokens) (length key.tokens)) ≡ false
    pub sequences : 0 < p.max_sequences
    pub bytes : 0 < p.max_bytes
    pub fits : nbytes ≤ p.max_bytes

  abbrev pub promoted : EntryState N → Bool
  promoted e =
      is_candidate p key
      && (leb e.hits p.state.stable_candidate_base_hits && leb 1 p.state.stable_candidate_count)

  contested_plan :
      (e : EntryState N)
      → IsContested e
      → plan_stable_candidate p key nbytes ≡ ok (probation (note_candidate p key e.hits) key nbytes)
  unfolding plan_stable_candidate challenge
  contested_plan e c = ground (arith, c.first, c.found, c.other, c.in_use)

  -- In a well-formed policy, where the first stable entry is another one that was hit or is not
  -- shorter, and the candidate can fit, a candidate is admitted exactly when it is the candidate already, was counted at least
  -- once, and the stable entry has had no hit since; otherwise it is refused on probation, and its
  -- count starts at 1. Either way it is the candidate afterwards; the hits that are noted are those of the stable
  -- entry, or where it is the candidate already and they are not fewer, those that were noted before.
  pub promotion_exact :
      (e : EntryState N)
      → IsWellFormed p.config p.state
      → IsContested e
      → (r : WorkingSetPolicy N × AdmissionPlan N) × (plan_stable_candidate p key nbytes ≡ ok r)
        × (r.1.accepted ≡ promoted e)
        × (r.1.reason ≡ (if promoted e then stable_repeated_miss else stable_probation))
        × (r.0.state.stable_candidate_key ≡ some key)
        × (r.0.state.stable_candidate_count
            ≡ (if promoted e then suc p.state.stable_candidate_count else 1))
        × (r.0.state.stable_candidate_base_hits ≡ (
            if is_candidate p key && leb e.hits p.state.stable_candidate_base_hits
            then p.state.stable_candidate_base_hits
            else e.hits))
  unfolding probation note_candidate stable_plan is_candidate
  promotion_exact e w c =
      let q = note_candidate p key e.hits in
      let accepts =
        plan_admission_accepts q key "stable" nbytes none
          (SameStore-IsWellFormed p q (note_candidate-SameStore p key nbytes e.hits) w) in
      (
        probation q key nbytes,
        contested_plan e c,
        ground (arith, accepts, c.sequences, c.bytes, c.fits),
        ground arith,
        ground arith,
        ground arith,
        ground arith,
      )
