-- ===== src/Backend/Conformance/Cases.antt =====
-- src/statebraid/backend/conformance.py: the cases of `run_backend_conformance`.
use statebraid.Prelude.{
  ℕ, ℤ, pos, negsuc, nat_hashable, Bool, true, false, not, ◌&&◌, List, [], ◌∷◌, Option, none, some,
  Hashable, ◌==◌, int_hashable, list_hashable, ltb, leb, length,
}
use statebraid.Prelude.Result.{Result, ok, raise}
use statebraid.Prelude.Exec.{Exec, pure, continue, ◌>>=◌, ◌>>◌}
use statebraid.Backend.Observation.{LookupObservation, hit, exact, is_none, matched_tokens}
use statebraid.Backend.Conformance.{BackendConformanceDriver, DriverFactory, require_that}

-- `values == (…)` on tokens.
abbrev pub are : List ℤ → List ℤ → Bool
are xs ys = xs == ys

-- `count == …` on an optional count.
abbrev pub is_just : Option ℤ → ℤ → Bool
is_just none n = false
is_just (some m) n = m == n

-- `<=` on integers.
abbrev pub at_most : ℤ → ℕ → Bool
at_most (pos n) m = leb n m
at_most (negsuc n) m = true

-- `raised`: whether a call that is tried raises.
unfoldable pub raises : {S A : Type 0} → Result A × S → Result Bool × S
raises (ok _, s) = (ok false, s)
raises (raise _, s) = (ok true, s)

module _ {D K N P : Type 0} ⦃hk : Hashable K⦄ ⦃hp : Hashable P⦄
    (factory : DriverFactory D K N P) where
  -- `observation.payload is payload`.
  abbrev pub is_payload : Option P → P → Bool
  is_payload none x = false
  is_payload (some y) x = y == x

  unfoldable pub namespace_identity : Exec D (Unit {0})
  unfolding continue
  namespace_identity = do
    driver ← factory 4 1000
    left ← driver.cache_key "tenant-a" (pos 1 ∷ pos 2 ∷ pos 3 ∷ [])
    same ← driver.cache_key "tenant-a" (pos 1 ∷ pos 2 ∷ pos 3 ∷ [])
    other ← driver.cache_key "tenant-b" (pos 1 ∷ pos 2 ∷ pos 3 ∷ [])
    require_that (left == same)
    require_that (not (left == other))

  unfoldable pub namespace_isolation_case : Exec D (Unit {0})
  unfolding continue
  namespace_isolation_case = do
    driver ← factory 4 1000
    payload ← driver.payload 40
    driver.seed "tenant-a" (pos 1 ∷ pos 2 ∷ pos 3 ∷ []) payload "stable" 40
    miss ← driver.lookup "tenant-b" (pos 1 ∷ pos 2 ∷ pos 3 ∷ [])
    require_that (not (hit miss))
    require_that (are miss.remaining (pos 1 ∷ pos 2 ∷ pos 3 ∷ []))
    found ← driver.lookup "tenant-a" (pos 1 ∷ pos 2 ∷ pos 3 ∷ [])
    require_that (hit found && exact found)
    require_that (is_payload found.payload payload)

  -- The test on the tokens of the matched key, where there is one.
  unfoldable pub require_prefix : LookupObservation N P → Exec D (Unit {0})
  require_prefix observation = elim observation.matched_key [
    | none ↦ pure tt
    | some key ↦ require_that (are key.tokens (pos 2 ∷ pos 3 ∷ []))
  ]

  unfoldable pub hit_attribution_case : Exec D (Unit {0})
  unfolding continue require_prefix
  hit_attribution_case = do
    driver ← factory 4 1000
    payload ← driver.payload 40
    driver.seed "local-default" (pos 2 ∷ pos 3 ∷ []) payload "stable" 40
    observation ← driver.lookup "local-default" (pos 2 ∷ pos 3 ∷ pos 4 ∷ pos 5 ∷ [])
    require_that (hit observation)
    require_that (are observation.remaining (pos 4 ∷ pos 5 ∷ []))
    require_that (not (is_none observation.matched_key))
    require_prefix observation
    hits ← driver.entry_hits "local-default" (pos 2 ∷ pos 3 ∷ [])
    require_that (is_just hits (pos 1))
    false_hits ← driver.entry_hits "local-default" (pos 2 ∷ pos 3 ∷ pos 4 ∷ pos 5 ∷ [])
    require_that (is_none false_hits)

  unfoldable pub stable_active_lineage : Exec D (Unit {0})
  unfolding continue
  stable_active_lineage = do
    driver ← factory 2 1000
    stable ← driver.payload 40
    active ← driver.payload 50
    successor ← driver.payload 60
    first ← driver.admit "tenant-a" (pos 5 ∷ pos 6 ∷ []) stable "stable" 40 none
    require_that first
    second ← driver.admit "tenant-a" (pos 5 ∷ pos 6 ∷ pos 7 ∷ []) active "active" 50 none
    require_that second
    third ←
        driver.admit "tenant-a" (pos 5 ∷ pos 6 ∷ pos 7 ∷ pos 8 ∷ []) successor "active" 60
          (some (pos 5 ∷ pos 6 ∷ pos 7 ∷ []))
    require_that third
    stable_resides ← driver.resides "tenant-a" (pos 5 ∷ pos 6 ∷ [])
    require_that stable_resides
    old_resides ← driver.resides "tenant-a" (pos 5 ∷ pos 6 ∷ pos 7 ∷ [])
    require_that (not old_resides)
    new_resides ← driver.resides "tenant-a" (pos 5 ∷ pos 6 ∷ pos 7 ∷ pos 8 ∷ [])
    require_that new_resides
    (count, total_bytes) ← driver.resident_stats
    require_that (count == pos 2)
    require_that (total_bytes == pos 100)

  unfoldable pub capacity_case : Exec D (Unit {0})
  unfolding continue
  capacity_case = do
    driver ← factory 1 45
    one ← driver.payload 30
    two ← driver.payload 30
    first ← driver.admit "tenant-a" (pos 10 ∷ []) one "user" 30 none
    require_that first
    second ← driver.admit "tenant-a" (pos 11 ∷ []) two "user" 30 none
    require_that second
    (count, total_bytes) ← driver.resident_stats
    require_that (at_most count 1)
    require_that (at_most total_bytes 45)
    resides ← driver.resides "tenant-a" (pos 11 ∷ [])
    require_that resides

  -- The admission that has to raise.
  unfoldable pub failing_admit : BackendConformanceDriver D K N P → Exec D Bool
  unfolding continue
  failing_admit driver = do
    payload ← driver.payload 50
    driver.admit "tenant-a" (pos 20 ∷ pos 21 ∷ pos 22 ∷ []) payload "active" 50
        (some (pos 20 ∷ pos 21 ∷ []))

  unfoldable pub rollback_case : Exec D (Unit {0})
  unfolding continue failing_admit raises
  rollback_case = do
    driver ← factory 2 1000
    old ← driver.payload 40
    first ← driver.admit "tenant-a" (pos 20 ∷ pos 21 ∷ []) old "active" 40 none
    require_that first
    driver.fail_next_insert
    raised ← λ s. raises (failing_admit driver s)
    require_that raised
    old_resides ← driver.resides "tenant-a" (pos 20 ∷ pos 21 ∷ [])
    require_that old_resides
    new_resides ← driver.resides "tenant-a" (pos 20 ∷ pos 21 ∷ pos 22 ∷ [])
    require_that (not new_resides)
    (count, total_bytes) ← driver.resident_stats
    require_that (count == pos 1 && total_bytes == pos 40)

  unfoldable pub generation_safety_case : Exec D (Unit {0})
  unfolding continue
  generation_safety_case = do
    driver ← factory 3 1000
    one ← driver.payload 40
    driver.seed "local-default" (pos 30 ∷ pos 31 ∷ []) one "stable" 40
    two ← driver.payload 50
    driver.seed "local-default" (pos 30 ∷ pos 31 ∷ pos 32 ∷ []) two "active" 50
    safe ← driver.generation_safe_exact "local-default" (pos 30 ∷ pos 31 ∷ pos 32 ∷ [])
    require_that (are safe.prompt (pos 30 ∷ pos 31 ∷ pos 32 ∷ []))
    require_that (not (length safe.remaining == 0))
    require_that (ltb (matched_tokens safe) (length safe.prompt))
