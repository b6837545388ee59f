-- ===== src/Cache/Coordinator/Rollback.antt =====
-- How a transaction of the coordinator may end.
use mathlib.Core.Path.{subst}
use statebraid.Prelude.{
  sym, ◌≡◌, ◌⊎◌, refl, ◌∙◌, Bool, true, false, List, [], ◌∷◌, none, some, Hashable, contains, arith,
  if◌then◌else◌, inl, inr,
}
use statebraid.Prelude.Result.{Result, ok, raise, Error}
use statebraid.Prelude.Exec.{Exec, continue, ignore, continue_ok}
use statebraid.Dict.{get, IsDict}
use statebraid.Cache.Key.{CacheKey, key_hashable}
use statebraid.Cache.Policy.{WorkingSetPolicy, AdmissionPlan, capture_state, restore_state}
use statebraid.Cache.Policy.Commit.{commit}
use statebraid.Cache.Coordinator.{
  Backend, Captured, State, capture_all, discard_all, restore_all, restore_backend, reraise, settle,
  transact, affected_keys, admission_body, admit,
}
use statebraid.Cache.Coordinator.Laws.{
  Served, WereHeld, capture_all_keeps, IsTransactional, discard_all_lem, restore_all_lem,
  capture_all_lem,
}

Result-cases : {A : Type 0} (r : Result A) → ((a : A) × (r ≡ ok a)) ⊎ ((e : Error) × (r ≡ raise e))
Result-cases (ok a) = inl (a, refl)
Result-cases (raise e) = inr (e, refl)

module _ {N : Type 0} ⦃h : Hashable N⦄ (b : Backend N) where
  -- Over any backend: a call that raises has left the policy as it was; one that returns `true` has
  -- committed; one that returns `false` has touched nothing.
  pub data PolicyOutcome (wanted : Bool) (before after : WorkingSetPolicy N) (s : b.Store)
      (r : Result Bool × State b) : Type 0 where
    done : wanted ≡ true → r.0 ≡ ok true → r.1.0 ≡ after → PolicyOutcome wanted before after s r
    declined : wanted ≡ false → r ≡ (ok false, (before, s)) → PolicyOutcome wanted before after s r
    failed :
        (e : Error)
        → wanted ≡ true
        → r.0 ≡ raise e
        → r.1.0 ≡ before
        → PolicyOutcome wanted before after s r

  pub policy_of_ok :
      {wanted : Bool} {before after : WorkingSetPolicy N} {s : b.Store} {r : Result Bool × State b}
      → PolicyOutcome wanted before after s r
      → r.0 ≡ ok true
      → r.1.0 ≡ after
  policy_of_ok (done _ _ e) g = e
  policy_of_ok (declined _ e) g = absurd (ground (arith, e, g))
  policy_of_ok (failed x _ e _) g = absurd (ground (arith, e, g))

  pub policy_of_raise :
      {wanted : Bool} {before after : WorkingSetPolicy N} {s : b.Store} {r : Result Bool × State b}
      (x : Error)
      → PolicyOutcome wanted before after s r
      → r.0 ≡ raise x
      → r.1.0 ≡ before
  policy_of_raise x (done _ e _) g = absurd (ground (arith, e, g))
  policy_of_raise x (declined _ e) g = absurd (ground (arith, e, g))
  policy_of_raise x (failed _ _ _ e) g = e

  reraise-policy :
      (p : WorkingSetPolicy N) (e : Error) (r : Result (Unit {0}) × b.Store)
      → (e' : Error) × ((reraise b {A = Bool} p e r).0 ≡ raise e')
        × ((reraise b {A = Bool} p e r).1.0 ≡ p)
  unfolding reraise
  reraise-policy p e (ok _, s) = (e, refl, refl)
  reraise-policy p e (raise e', s) = (e', refl, refl)

  module _ (p after : WorkingSetPolicy N) (affected : List (CacheKey N)) (s : b.Store) where
    settle-PolicyOutcome :
        (c : Captured b) (r : Result (Unit {0}) × b.Store)
        → PolicyOutcome true p after s (settle b p after affected c true r)
    unfolding settle restore_state capture_state
    settle-PolicyOutcome c (ok _, s') = done refl refl refl
    settle-PolicyOutcome c (raise e, s') =
        let (e', raised, kept) = reraise-policy p e (restore_backend b affected c s') in
        failed e' refl raised kept

    pub transact-PolicyOutcome :
        (body : Exec b.Store (Unit {0})) (r : Result (Captured b) × b.Store)
        → PolicyOutcome true p after s (transact b p after affected body r)
    unfolding transact
    transact-PolicyOutcome body (raise e, s') = failed e refl refl refl
    transact-PolicyOutcome body (ok c, s') = settle-PolicyOutcome c (body s')

  guarded-PolicyOutcome :
      (wanted : Bool) (p after : WorkingSetPolicy N) (s : b.Store) (r : Result Bool × State b)
      → PolicyOutcome true p after s r
      → PolicyOutcome wanted p after s (if wanted then r else (ok false, (p, s)))
  guarded-PolicyOutcome true p after s r o = o
  guarded-PolicyOutcome false p after s r o = declined refl refl

  -- `admit`, over any backend whatever: an accepted plan is committed and `true` returned, or the
  -- call raises with the policy as it was; a plan that is not accepted returns `false`, with policy
  -- and backend untouched.
  pub admit-PolicyOutcome :
      (plan : AdmissionPlan N) (payload : b.Payload) (p : WorkingSetPolicy N) (s : b.Store)
      → PolicyOutcome plan.accepted p (commit p plan) s (admit b plan payload (p, s))
  unfolding admit
  admit-PolicyOutcome plan payload p s = guarded-PolicyOutcome plan.accepted p (commit p plan) s _ (
      transact-PolicyOutcome p (commit p plan) (affected_keys b plan) s
        (admission_body b plan payload) (capture_all b (affected_keys b plan) [] s))

module _ {N : Type 0} ⦃h : Hashable N⦄ (b : Backend N) (t : IsTransactional b) where
  open t use {view, Valid}

  -- The backend after a transaction over served keys: it holds what the body wrote, or what it held
  -- before.
  pub data StoreOutcome (affected : List (CacheKey N)) (before : b.Store)
      (body : Exec b.Store (Unit {0})) (r : Result Bool × State b) : Type 0 where
    done :
        (s : b.Store)
        → Served b t affected
        → ((j : CacheKey N) → view s j ≡ view before j)
        → (body s).0 ≡ ok tt
        → r.0 ≡ ok true
        → r.1.1 ≡ (body s).1
        → StoreOutcome affected before body r
    failed :
        (e : Error)
        → r.0 ≡ raise e
        → ((j : CacheKey N) → view r.1.1 j ≡ view before j)
        → StoreOutcome affected before body r

  -- A body that changes the bindings of the affected keys alone, and keeps the store valid, whether it
  -- raises or not.
  pub record IsLocal (affected : List (CacheKey N)) (body : Exec b.Store (Unit {0})) : Type 0 where
    pub touches :
        (j : CacheKey N) (s : b.Store) → contains j affected ≡ false → view (body s).1 j ≡ view s j
    pub stays_valid : (s : b.Store) → Valid s → Valid (body s).1

  discard_all_valid :
      (ks : List (CacheKey N)) (s : b.Store) → Valid s → Valid (discard_all b ks s).1
  unfolding discard_all continue ignore
  discard_all_valid [] s w = w
  discard_all_valid (k ∷ ks) s w = discard_all_valid ks (b.remove k s).1 (t.remove_valid k s w)

  held_of_captured :
      (affected : List (CacheKey N)) (c : Captured b) (s : b.Store)
      → ((j : CacheKey N) → get j c ≡ (if contains j affected then some (view s j) else none))
      → WereHeld b t c s
  held_of_captured affected c s g k x e = ground (arith, g k, e)

  rollback_restores :
      (affected : List (CacheKey N)) (c : Captured b) (s s' : b.Store)
      → Served b t affected
      → Valid s
      → Valid s'
      → IsDict c
      → ((j : CacheKey N) → get j c ≡ (if contains j affected then some (view s j) else none))
      → ((j : CacheKey N) → contains j affected ≡ false → view s' j ≡ view s j)
      → ((restore_backend b affected c s').0 ≡ ok tt)
        × ((j : CacheKey N) → view (restore_backend b affected c s').1 j ≡ view s j)
        × Valid (restore_backend b affected c s').1
  unfolding restore_backend
  rollback_restores affected c s s' served w w' d g o =
      let dropped = discard_all_lem b t affected s' served in
      let clean = (discard_all b affected s').1 in
      let back = restore_all_lem b t c s clean d w (held_of_captured affected c s g) in
      (
        ground (arith, dropped.0, back.0),
        λ j. ground (arith, dropped.0, dropped.1 j, back.1 j, g j, o j),
        subst (λ r. Valid r.1)
            (sym (continue_ok (discard_all b affected s') (λ _. restore_all b c) tt dropped.0))
            (back.2 (discard_all_valid affected s' w')),
      )

  pub transact-StoreOutcome :
      (p after : WorkingSetPolicy N) (affected : List (CacheKey N)) (body : Exec b.Store (Unit {0}))
      (s : b.Store)
      → Valid s
      → (Served b t affected → IsLocal affected body)
      → StoreOutcome affected s body
          (transact b p after affected body (capture_all b affected [] s))
        × Valid (transact b p after affected body (capture_all b affected [] s)).1.1
  unfolding transact settle reraise get
  transact-StoreOutcome p after affected body s w local =
      let s1 = (capture_all b affected [] s).1 in
      let s2 = (body s1).1 in
      let (v, w1) = capture_all_keeps b t affected [] s in
      elim (capture_all_lem b t affected [] s tt) [
        | inl (x, bad) ↦ (
          failed x (ground (arith, bad)) (λ j. ground (arith, bad, v j)),
          subst Valid (sym (ground (arith, bad))) (w1 w),
        )
        | inr (c, e, served, (d, g)) ↦
            let l = local served in
            let w2 = l.stays_valid s1 (w1 w) in
            elim (Result-cases (body s1).0) [
              | inl (tt, fine) ↦ (
                done s1 served v (ground (arith, fine)) (ground (arith, e, fine))
                    (ground (arith, e, fine)),
                subst Valid (sym (ground (arith, e, fine))) w2,
              )
              | inr (x, bad) ↦
                  let back =
                    rollback_restores affected c s s2 served w w2 d g
                      (λ j m. l.touches j s1 m ∙ v j) in
                  (
                    failed x (ground (arith, e, bad, back.0))
                        (λ j. ground (arith, e, bad, back.0, back.1 j)),
                    subst Valid (sym (ground (arith, e, bad, back.0))) back.2,
                  )
            ]
      ]
