-- ===== src/Backend/Observation.antt =====
-- src/statebraid/backend/contract.py: `LookupObservation`.
pub mod Laws
use statebraid.Prelude.{
  ℕ, ◌-◌, ℤ, Bool, true, false, not, ◌&&◌, List, [], ◌∷◌, Option, none, some, Hashable, ◌==◌,
  list_hashable, int_hashable, nat_hashable, ltb, length, take, drop, if◌then◌else◌,
}
use statebraid.Prelude.Result.{Result, ok, raise, value_error}
use statebraid.Cache.Key.{CacheKey, from_tokens}

pub record LookupObservation (N P : Type 0) : Type 0 where
  pub namespace : N
  pub prompt : List ℤ
  pub remaining : List ℤ
  pub payload : Option P
  pub matched_key : Option (CacheKey N)

abbrev pub is_none : {A : Type 0} → Option A → Bool
is_none none = true
is_none (some _) = false

module _ {N P : Type 0} where
  unfoldable pub from_backend_result :
      N → List ℤ → Option P → List ℤ → Result (LookupObservation N P)
  from_backend_result namespace prompt payload remaining =
      let matched_len = length prompt - length remaining in
      if ltb (length prompt) (length remaining)
      then raise value_error
      else if not (remaining == drop matched_len prompt)
      then raise value_error
      else if is_none payload && not (matched_len == 0)
      then raise value_error
      else if not (is_none payload) && matched_len == 0
      then raise value_error
      else ok (record {
        namespace = namespace;
        prompt = prompt;
        remaining = remaining;
        payload = payload;
        matched_key =
            if matched_len == 0
            then none
            else some (from_tokens namespace (take matched_len prompt));
      })

  unfoldable pub hit : LookupObservation N P → Bool
  hit o = not (is_none o.matched_key)

  unfoldable pub exact : LookupObservation N P → Bool
  unfolding hit
  exact o = hit o && length o.remaining == 0

  unfoldable pub matched_tokens : LookupObservation N P → ℕ
  matched_tokens o = elim o.matched_key [ none ↦ 0 | some key ↦ length key.tokens ]
