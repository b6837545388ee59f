-- ===== src/Cache/Coordinator/Laws.antt =====
-- What the coordinator relies on in a backend, and what its loops over keys do to such a backend.
use mathlib.Core.Path.{subst}
use statebraid.Prelude.{
  sym, ◌≡◌, ◌⊎◌, refl, Bool, true, false, List, [], ◌∷◌, Option, none, some, String, Hashable, ◌==◌,
  contains, ==_refl, eq_of_==, arith, if◌then◌else◌, Bool-cases, inl, inr,
}
use statebraid.Prelude.Exec.{Exec, continue_ok}
use statebraid.Prelude.Result.{ok, raise, Error}
use statebraid.Dict.{get, put, IsDict}
use statebraid.Dict.Laws.{get-put, put-IsDict}
use statebraid.Cache.Key.{CacheKey, key_hashable}
use statebraid.Cache.Coordinator.{
  Backend, Captured, capture_all, remove_all, discard_all, restore_all,
}
use statebraid.Cache.Policy.Lookup.{is_some}

-- A backend that binds snapshots to the keys that it serves. Capturing reads a binding and raises on
-- any other key; removing clears a binding and does not fail; inserting, which may fail, binds its own
-- key and no other; what a valid store held can be put back, and that does not fail. `forget_remote`,
-- where there is one, may fail, and clears its own key and no other. Every call keeps a store valid.
pub record IsTransactional {N : Type 0} ⦃h : Hashable N⦄ (b : Backend N) : Type 1 where
  pub view : b.Store → CacheKey N → Option b.Snapshot
  pub Valid : b.Store → Type 0
  pub serves : CacheKey N → Bool
  pub capture_reads :
      (k : CacheKey N) (s : b.Store) → serves k ≡ true → (b.capture k s).0 ≡ ok (view s k)
  pub capture_refuses :
      (k : CacheKey N) (s : b.Store)
      → serves k ≡ false
      → (e : Error) × ((b.capture k s).0 ≡ raise e)
  pub capture_keeps : (k j : CacheKey N) (s : b.Store) → view (b.capture k s).1 j ≡ view s j
  pub capture_valid : (k : CacheKey N) (s : b.Store) → Valid s → Valid (b.capture k s).1
  pub remove_succeeds : (k : CacheKey N) (s : b.Store) → serves k ≡ true → (b.remove k s).0 ≡ ok tt
  pub remove_clears :
      (k j : CacheKey N) (s : b.Store)
      → serves k ≡ true
      → view (b.remove k s).1 j ≡ (if k == j then none else view s j)
  pub remove_valid : (k : CacheKey N) (s : b.Store) → Valid s → Valid (b.remove k s).1
  pub restore_succeeds :
      (k : CacheKey N) (x : b.Snapshot) (old s : b.Store)
      → Valid old
      → view old k ≡ some x
      → (b.restore k x s).0 ≡ ok tt
  pub restore_binds :
      (k j : CacheKey N) (x : b.Snapshot) (old s : b.Store)
      → Valid old
      → view old k ≡ some x
      → view (b.restore k x s).1 j ≡ (if k == j then some x else view s j)
  pub restore_valid :
      (k : CacheKey N) (x : b.Snapshot) (old s : b.Store)
      → Valid old
      → view old k ≡ some x
      → Valid s
      → Valid (b.restore k x s).1
  pub insert_keeps_others :
      (k j : CacheKey N) (x : b.Payload) (role : String) (s : b.Store)
      → (k == j) ≡ false
      → view (b.insert k x role s).1 j ≡ view s j
  pub insert_binds :
      (k : CacheKey N) (x : b.Payload) (role : String) (s : b.Store)
      → (b.insert k x role s).0 ≡ ok tt
      → is_some (view (b.insert k x role s).1 k) ≡ true
  pub insert_valid :
      (k : CacheKey N) (x : b.Payload) (role : String) (s : b.Store)
      → Valid s
      → Valid (b.insert k x role s).1
  pub forget_keeps_others :
      (forget : CacheKey N → Exec b.Store (Unit {0})) (k j : CacheKey N) (s : b.Store)
      → b.forget ≡ some forget
      → (k == j) ≡ false
      → view (forget k s).1 j ≡ view s j
  pub forget_clears :
      (forget : CacheKey N → Exec b.Store (Unit {0})) (k : CacheKey N) (s : b.Store)
      → b.forget ≡ some forget
      → (forget k s).0 ≡ ok tt
      → view (forget k s).1 k ≡ none
  pub forget_valid :
      (forget : CacheKey N → Exec b.Store (Unit {0})) (k : CacheKey N) (s : b.Store)
      → b.forget ≡ some forget
      → Valid s
      → Valid (forget k s).1

module _ {N : Type 0} ⦃h : Hashable N⦄ (b : Backend N) (t : IsTransactional b) where
  open t use {view, Valid, serves}

  abbrev pub Served : List (CacheKey N) → Type 0
  Served ks = (k : CacheKey N) → contains k ks ≡ true → serves k ≡ true

  Served-cons :
      (k : CacheKey N) (ks : List (CacheKey N)) → Served (k ∷ ks) → (serves k ≡ true) × Served ks
  unfolding contains
  Served-cons k ks v = (v k (ground (arith, ==_refl k)), λ j m. v j (ground (arith, m)))

  cons-Served :
      (k : CacheKey N) (ks : List (CacheKey N)) → serves k ≡ true → Served ks → Served (k ∷ ks)
  unfolding contains
  cons-Served k ks e v j m = elim (Bool-cases (k == j)) [
    | inl same ↦ ground (arith, eq_of_== k j same, e)
    | inr other ↦ v j (ground (arith, other, m))
  ]

  pub remove_all_lem :
      (ks : List (CacheKey N)) (s : b.Store)
      → Served ks
      → ((remove_all b ks s).0 ≡ ok tt)
        × ((j : CacheKey N)
            → view (remove_all b ks s).1 j ≡ (if contains j ks then none else view s j))
  unfolding remove_all contains
  remove_all_lem [] s v = (refl, λ j. refl)
  remove_all_lem (k ∷ ks) s v =
      let (e, v') = Served-cons k ks v in
      let rest = remove_all_lem ks (b.remove k s).1 v' in
      (
        ground (arith, t.remove_succeeds k s e, rest.0),
        λ j. ground (arith, t.remove_succeeds k s e, rest.1 j, t.remove_clears k j s e),
      )

  pub remove_all_valid :
      (ks : List (CacheKey N)) (s : b.Store) → Served ks → Valid s → Valid (remove_all b ks s).1
  unfolding remove_all
  remove_all_valid [] s v w = w
  remove_all_valid (k ∷ ks) s v w =
      let (e, v') = Served-cons k ks v in
      subst (λ r. Valid r.1)
        (sym (continue_ok (b.remove k s) (λ _. remove_all b ks) tt (t.remove_succeeds k s e)))
        (remove_all_valid ks (b.remove k s).1 v' (t.remove_valid k s w))

  pub discard_all_lem :
      (ks : List (CacheKey N)) (s : b.Store)
      → Served ks
      → ((discard_all b ks s).0 ≡ ok tt)
        × ((j : CacheKey N)
            → view (discard_all b ks s).1 j ≡ (if contains j ks then none else view s j))
  unfolding discard_all contains
  discard_all_lem [] s v = (refl, λ j. refl)
  discard_all_lem (k ∷ ks) s v =
      let (e, v') = Served-cons k ks v in
      let rest = discard_all_lem ks (b.remove k s).1 v' in
      (rest.0, λ j. ground (arith, rest.1 j, t.remove_clears k j s e))

  -- A binding after the snapshots are put back.
  abbrev pub restored : Option (Option b.Snapshot) → Option b.Snapshot → Option b.Snapshot
  restored none old = old
  restored (some none) old = old
  restored (some (some x)) old = some x

  -- Every snapshot was read from a valid store.
  abbrev pub WereHeld : Captured b → b.Store → Type 0
  WereHeld c old = (k : CacheKey N) (x : b.Snapshot) → get k c ≡ some (some x) → view old k ≡ some x

  WereHeld-tail :
      (k : CacheKey N) (o : Option b.Snapshot) (c : Captured b) (old : b.Store)
      → get k c ≡ none
      → WereHeld ((k, o) ∷ c) old
      → WereHeld c old
  unfolding get
  WereHeld-tail k o c old fresh held j x e = elim (Bool-cases (k == j)) [
    | inl same ↦ absurd (ground (arith, eq_of_== k j same, fresh, e))
    | inr other ↦ held j x (ground (arith, other, e))
  ]

  pub restore_all_lem :
      (c : Captured b) (old s : b.Store)
      → IsDict c
      → Valid old
      → WereHeld c old
      → ((restore_all b c s).0 ≡ ok tt)
        × ((j : CacheKey N) → view (restore_all b c s).1 j ≡ restored (get j c) (view s j))
        × (Valid s → Valid (restore_all b c s).1)
  unfolding restore_all get
  restore_all_lem [] old s d v held = (refl, λ j. refl, λ w. w)
  restore_all_lem ((k, none) ∷ c) old s d v held =
      let rest = restore_all_lem c old s d.1 v (WereHeld-tail k none c old d.0 held) in
      (rest.0, λ j. ground (arith, rest.1 j, d.0), rest.2)
  restore_all_lem ((k, some x) ∷ c) old s d v held =
      let here = held k x (ground (arith, ==_refl k)) in
      let done = t.restore_succeeds k x old s v here in
      let rest =
        restore_all_lem c old (b.restore k x s).1 d.1 v (WereHeld-tail k (some x) c old d.0 held) in
      (
        ground (arith, done, rest.0),
        λ j. ground (arith, done, rest.1 j, t.restore_binds k j x old s v here, d.0),
        λ w. rw done (rest.2 (t.restore_valid k x old s v here w)),
      )

  -- Capturing changes no binding and keeps the store valid.
  pub capture_all_keeps :
      (ks : List (CacheKey N)) (c : Captured b) (s : b.Store)
      → ((j : CacheKey N) → view (capture_all b ks c s).1 j ≡ view s j)
        × (Valid s → Valid (capture_all b ks c s).1)
  unfolding capture_all
  capture_all_keeps [] c s = (λ j. refl, λ w. w)
  capture_all_keeps (k ∷ ks) c s = elim (Bool-cases (serves k)) [
    | inl e ↦
        let read = t.capture_reads k s e in
        let rest = capture_all_keeps ks (put k (view s k) c) (b.capture k s).1 in
        (
          λ j. ground (arith, read, rest.0 j, t.capture_keeps k j s),
          λ w. rw read (rest.1 (t.capture_valid k s w)),
        )
    | inr e ↦
        let (x, refused) = t.capture_refuses k s e in
        (
          λ j. ground (arith, refused, t.capture_keeps k j s),
          λ w. rw refused (t.capture_valid k s w),
        )
  ]

  -- What a capture that returns has read.
  abbrev pub IsCaptured : List (CacheKey N) → Captured b → b.Store → Captured b → Type 0
  IsCaptured ks c s c' =
      IsDict c'
      × ((j : CacheKey N) → get j c' ≡ (if contains j ks then some (view s j) else get j c))

  -- Capturing raises, or all keys are served and it reads every binding that it is asked for.
  pub capture_all_lem :
      (ks : List (CacheKey N)) (c : Captured b) (s : b.Store)
      → IsDict c
      → ((e : Error) × ((capture_all b ks c s).0 ≡ raise e))
        ⊎ ((c' : Captured b) × ((capture_all b ks c s).0 ≡ ok c')
            × Served ks
            × IsCaptured ks c s c')
  unfolding capture_all contains
  capture_all_lem [] c s d = inr (c, refl, λ k m. cc, (d, λ j. refl))
  capture_all_lem (k ∷ ks) c s d = elim (Bool-cases (serves k)) [
    | inr e ↦ let (x, refused) = t.capture_refuses k s e in inl (x, ground (arith, refused))
    | inl e ↦
        let read = t.capture_reads k s e in
        elim (capture_all_lem ks (put k (view s k) c) (b.capture k s).1
          (put-IsDict k (view s k) c d)) [
            | inl (x, bad) ↦ inl (x, ground (arith, read, bad))
            | inr (c', fine, v, (d', g)) ↦ inr (
              c',
              ground (arith, read, fine),
              cons-Served k ks e v,
              (d', λ j. ground (arith, g j, get-put j k (view s k) c, t.capture_keeps k j s)),
            )
          ]
  ]
