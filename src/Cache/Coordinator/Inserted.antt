-- ===== src/Cache/Coordinator/Inserted.antt =====
-- The store after an admission that returns `true` is that after the insertion.
use statebraid.Prelude.{
  ℕ, ◌≡◌, refl, ap, ◌∙◌, Bool, true, false, List, [], String, Hashable, if◌then◌else◌,
}
use statebraid.Prelude.Result.{Result, ok, raise, Error}
use statebraid.Prelude.Exec.{returned, continue_ok}
use statebraid.Cache.Key.{CacheKey, key_hashable}
use statebraid.Cache.Policy.{WorkingSetPolicy, AdmissionPlan}
use statebraid.Cache.Policy.Plan.{evicted_keys}
use statebraid.Cache.Policy.Candidate.{plan_stable_candidate}
use statebraid.Cache.Policy.Commit.{commit}
use statebraid.Cache.Coordinator.{
  Backend, State, Captured, settle, reraise, transact, affected_keys, admission_body, remove_all,
  capture_all, admit, admit_planned, admit_stable_candidate,
}

module _ {N : Type 0} ⦃h : Hashable N⦄ (b : Backend N) (payload : b.Payload) where
  -- The insertion that a store comes from.
  pub record IsInserted (key : CacheKey N) (after : b.Store) : Type 0 where
    pub role : String
    pub before : b.Store
    pub fine : (b.insert key payload role before).0 ≡ ok tt
    pub store : after ≡ (b.insert key payload role before).1

  body-IsInserted :
      (plan : AdmissionPlan N) (s : b.Store)
      → (admission_body b plan payload s).0 ≡ ok tt
      → IsInserted plan.key (admission_body b plan payload s).1
  unfolding admission_body
  body-IsInserted plan s fine =
      let (x, removed, rest) = returned (remove_all b (evicted_keys plan.evictions)) _ s tt fine in
      let s1 = (remove_all b (evicted_keys plan.evictions) s).1 in
      let (y, cleared, last) = returned (b.remove plan.key) _ s1 tt rest in
      record {
        role = plan.role;
        before = (b.remove plan.key s1).1;
        fine = last;
        store =
            ap (λ r. r.1) (continue_ok _ _ x removed)
            ∙ ap (λ r. r.1) (continue_ok (b.remove plan.key s1) _ y cleared);
      }

  reraised :
      (p : WorkingSetPolicy N) (e : Error) (r : Result (Unit {0}) × b.Store)
      → ¬ ((reraise b {A = Bool} p e r).0 ≡ ok true)
  unfolding reraise
  reraised p e (ok _, s) same = cc
  reraised p e (raise x, s) same = cc

  settled :
      (before after : WorkingSetPolicy N) (affected : List (CacheKey N)) (captured : Captured b)
      (r : Result (Unit {0}) × b.Store)
      → (settle b before after affected captured true r).0 ≡ ok true
      → (r.0 ≡ ok tt) × ((settle b before after affected captured true r).1.1 ≡ r.1)
  unfolding settle
  settled before after affected captured (ok _, s) same = (refl, refl)
  settled before after affected captured (raise e, s) same = absurd (reraised _ e _ same)

  transacted :
      (p : WorkingSetPolicy N) (plan : AdmissionPlan N) (affected : List (CacheKey N))
      (r : Result (Captured b) × b.Store)
      → (transact b p (commit p plan) affected (admission_body b plan payload) r).0 ≡ ok true
      → IsInserted plan.key
          (transact b p (commit p plan) affected (admission_body b plan payload) r).1.1
  unfolding transact
  transacted p plan affected (raise e, s) same = absurd (cc)
  transacted p plan affected (ok captured, s) same =
      let (fine, store) =
        settled p (commit p plan) affected captured (admission_body b plan payload s) same in
      let i = body-IsInserted plan s fine in
      record { role = i.role; before = i.before; fine = i.fine; store = store ∙ i.store }

  wanted-IsInserted :
      (wanted : Bool) (key : CacheKey N) (st : State b) (r : Result Bool × State b)
      → (r.0 ≡ ok true → IsInserted key r.1.1)
      → (if wanted then r else (ok false, st)).0 ≡ ok true
      → IsInserted key (if wanted then r else (ok false, st)).1.1
  wanted-IsInserted true key st r inserted same = inserted same
  wanted-IsInserted false key st r inserted same = absurd (cc)

  pub admit-IsInserted :
      (plan : AdmissionPlan N) (p : WorkingSetPolicy N) (s : b.Store)
      → (admit b plan payload (p, s)).0 ≡ ok true
      → IsInserted plan.key (admit b plan payload (p, s)).1.1
  unfolding admit
  admit-IsInserted plan p s =
      let affected = affected_keys b plan in
      let captured = capture_all b affected [] s in
      wanted-IsInserted plan.accepted plan.key (p, s)
        (transact b p (commit p plan) affected (admission_body b plan payload) captured)
        (transacted p plan affected captured)

  planned-IsInserted :
      (s : b.Store) (before : WorkingSetPolicy N)
      (r : Result (WorkingSetPolicy N × AdmissionPlan N))
      → (admit_planned b payload s before r).0 ≡ ok true
      → (k : CacheKey N) × IsInserted k (admit_planned b payload s before r).1.1
  unfolding admit_planned
  planned-IsInserted s before (ok (p, plan)) same = (plan.key, admit-IsInserted plan p s same)
  planned-IsInserted s before (raise e) same = absurd (cc)

  pub candidate-IsInserted :
      (key : CacheKey N) (nbytes : ℕ) (p : WorkingSetPolicy N) (s : b.Store)
      → (admit_stable_candidate b key payload nbytes (p, s)).0 ≡ ok true
      → (k : CacheKey N) × IsInserted k (admit_stable_candidate b key payload nbytes (p, s)).1.1
  unfolding admit_stable_candidate
  candidate-IsInserted key nbytes p s same =
      planned-IsInserted s p (plan_stable_candidate p key nbytes) same
