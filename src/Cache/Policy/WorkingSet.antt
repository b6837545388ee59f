-- ===== src/Cache/Policy/WorkingSet.antt =====
-- The sum of `_working_set_fits` covers every part of the entries that it protects.
use mathlib.Core.List.{foldl}
use statebraid.Prelude.{
  ℕ, ◌+◌, ◌≤◌, ◌≡◌, refl, Bool, true, false, List, [], ◌∷◌, Option, none, some, Hashable, ◌==◌,
  contains, arith, if◌then◌else◌, Bool-cases, Option-cases, inl, inr, ==_refl,
}
use statebraid.Dict.{Dict, get, remove, total, IsDict}
use statebraid.Dict.Laws.{total?, total-remove, get-remove, remove-IsDict}
use statebraid.Cache.Key.{CacheKey, key_hashable}
use statebraid.Cache.Policy.{WorkingSetPolicy, EntryState}
use statebraid.Cache.Policy.Victims.{weigh}

module _ {N : Type 0} ⦃h : Hashable N⦄ (p : WorkingSetPolicy N) (key : CacheKey N) (nbytes : ℕ)
    (evicted : List (CacheKey N)) where
  abbrev pub size : EntryState N → ℕ
  size e = e.nbytes

  -- A round adds what it finds of a key that stays.
  weigh_adds :
      (count sum : ℕ) (k : CacheKey N) (o : Option (EntryState N))
      → ((e : EntryState N)
          → o ≡ some e
          → ((k == key) ≡ false) × (contains k evicted ≡ false) × (get k p.entries ≡ some e))
      → (count + total? (λ _. 1) o ≤ (weigh p key nbytes evicted (count, sum) k).0)
        × (sum + total? size o ≤ (weigh p key nbytes evicted (count, sum) k).1)
  unfolding weigh
  weigh_adds count sum k none stays = elim (Option-cases (get k p.entries)) [
    | inl e ↦ ground (arith, e)
    | inr (x, e) ↦ ground (arith, e)
  ]
  weigh_adds count sum k (some x) stays = ground (arith, stays x refl)

  weigh_key :
      (count sum : ℕ) (k : CacheKey N)
      → (k == key) ≡ true
      → weigh p key nbytes evicted (count, sum) k ≡ (count + 1, sum + nbytes)
  unfolding weigh
  weigh_key count sum k e = ground (arith, e)

  pub record Covers (protected : List (CacheKey N)) (kept : Dict (CacheKey N) (EntryState N))
      : Type 0 where
    pub listed :
        (k : CacheKey N) (e : EntryState N) → get k kept ≡ some e → contains k protected ≡ true
    pub stays :
        (k : CacheKey N) (e : EntryState N)
        → get k kept ≡ some e
        → ((k == key) ≡ false) × (contains k evicted ≡ false) × (get k p.entries ≡ some e)

  nothing_listed : (kept : Dict (CacheKey N) (EntryState N)) → Covers [] kept → kept ≡ []
  unfolding contains get
  nothing_listed [] c = refl
  nothing_listed ((k, e) ∷ kept) c = absurd (ground (arith, c.listed k e, ==_refl k))

  abbrev pub one : Bool → ℕ → ℕ
  one b n = if b then n else 0

  pub weigh_all :
      (protected : List (CacheKey N)) (kept : Dict (CacheKey N) (EntryState N)) (count sum : ℕ)
      → IsDict kept
      → Covers protected kept
      → let r = foldl (weigh p key nbytes evicted) (count, sum) protected in
        (count + total (λ _. 1) kept + one (contains key protected) 1 ≤ r.0)
        × (sum + total size kept + one (contains key protected) nbytes ≤ r.1)
  unfolding contains
  weigh_all [] kept count sum d c = rw (nothing_listed kept c) (omega arith, omega arith)
  weigh_all (k ∷ ks) kept count sum d c = elim (Bool-cases (k == key)) [
    | inl e ↦
        let (x, y) = weigh_all ks kept (count + 1) (sum + nbytes) d (record {
          listed = λ j v found. ground (arith, e, c.listed j v found, (c.stays j v found).0);
          stays = c.stays;
        }) in
        rw (weigh_key count sum k e, foldl) (ground (arith, x, e), ground (arith, y, e))
    | inr e ↦
        let w = weigh p key nbytes evicted (count, sum) k in
        let (a, b) = weigh_adds count sum k (get k kept) (c.stays k) in
        let (x, y) = weigh_all ks (remove k kept) w.0 w.1 (remove-IsDict k kept d) (record {
          listed = λ j v found. ground (arith, get-remove j k kept, c.listed j v, found);
          stays = λ j v found. c.stays j v (ground (arith, get-remove j k kept, found));
        }) in
        (
          ground (arith, x, a, e, total-remove (λ _. 1) k kept d),
          ground (arith, y, b, e, total-remove size k kept d),
        )
  ]
