-- ===== src/Tests/Coordinator.antt =====
-- The theorems on the coordinator at the in-memory backend.
use statebraid.Prelude.{
  ℕ, ◌≡◌, refl, false, List, [], ◌∷◌, none, some, String, string_hashable, nat_hashable, pos, arith,
}
use statebraid.Prelude.Result.{raise, runtime_error}
use statebraid.Prelude.Exec.{continue, ignore}
use statebraid.Dict.{Dict, get}
use statebraid.Cache.Key.{CacheKey, key_hashable}
use statebraid.Cache.Policy.{AdmissionPlan, init}
use statebraid.Cache.Policy.Plan.{plan_admission}
use statebraid.Cache.Policy.Commit.{commit}
use statebraid.Cache.Coordinator.{
  capture_all, remove_all, discard_all, restore_all, restore_backend, reraise, settle, transact,
  affected_keys, admission_body, admit,
}
use statebraid.Cache.Coordinator.Rollback.{PolicyOutcome, admit-PolicyOutcome}
use statebraid.Cache.Coordinator.Recovery.{admit_rolls_back}
use statebraid.Cache.Coordinator.Sync.{InStep}
use statebraid.Cache.Coordinator.System.{
  Call, admits, proposes, hits, trims, forgets, run, IsSound, run_from_start,
}
use statebraid.Tests.Fixtures.{k1, k7, k8, admitted, full_policy, memory, memory-IsTransactional}

abbrev calls : List (Call memory)
calls =
    admits k1 "first" "active" 100 none
    ∷ proposes k7 "second" 200
    ∷ hits k7
    ∷ admits k8 "bad" "user" 150 none
    ∷ forgets (k1 ∷ k8 ∷ [])
    ∷ trims (some (pos 1)) none
    ∷ []

nothing_bound : (k : CacheKey ℕ) → memory-IsTransactional.view [] k ≡ none
unfolding get
nothing_bound k = refl

run_from_start_example :
    IsSound memory memory-IsTransactional (run memory (init (pos 4) (pos 400) [] none, []) calls)
run_from_start_example =
    run_from_start memory memory-IsTransactional (pos 4) (pos 400) [] none [] calls tt nothing_bound

abbrev bound : Dict (CacheKey ℕ) String
bound = (k1, "first") ∷ (k7, "second") ∷ []

-- Evicts the entry of `k1`.
abbrev user_request : AdmissionPlan ℕ
user_request = plan_admission full_policy k8 "user" 150 none

bad_insert_raises : (admit memory user_request "bad" (full_policy, bound)).0 ≡ raise runtime_error
unfolding admitted admit transact settle reraise restore_backend discard_all restore_all capture_all
    remove_all admission_body affected_keys continue ignore
bad_insert_raises = refl

admit_rolls_back_example :
    ((admit memory user_request "bad" (full_policy, bound)).1.0 ≡ full_policy)
    × ((j : CacheKey ℕ)
        → get j (admit memory user_request "bad" (full_policy, bound)).1.1 ≡ get j bound)
admit_rolls_back_example =
    admit_rolls_back memory memory-IsTransactional user_request "bad" full_policy bound
      runtime_error tt bad_insert_raises

full_entries :
    full_policy.entries
    ≡ (k1, record { key = k1; role = "active"; nbytes = 100; pinned = false; hits = 0 })
      ∷ (k7, record { key = k7; role = "stable"; nbytes = 200; pinned = false; hits = 0 })
      ∷ []
unfolding admitted
full_entries = refl

full-InStep : InStep memory memory-IsTransactional (full_policy, bound)
unfolding get
full-InStep = (λ j. ground (arith, full_entries), tt)

admit-PolicyOutcome_example :
    PolicyOutcome memory user_request.accepted full_policy
      (commit full_policy user_request)
      bound
      (admit memory user_request "bad" (full_policy, bound))
admit-PolicyOutcome_example = admit-PolicyOutcome memory user_request "bad" full_policy bound
