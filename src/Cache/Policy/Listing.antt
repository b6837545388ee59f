-- ===== src/Cache/Policy/Listing.antt =====
-- The buckets of the roles, after a key was taken out or put in.
use statebraid.Prelude.{
  ◌≡◌, Bool, true, false, ◌&&◌, List, [], ◌∷◌, Option, none, some, Hashable, String, ◌==◌,
  string_hashable, contains, contains-add, contains-discard, add, discard, arith, if◌then◌else◌,
  Option-cases, inl, inr,
}
use statebraid.Dict.{Dict, get, IsDict}
use statebraid.Dict.Laws.{get-put, put-IsDict}
use statebraid.Cache.Key.{CacheKey, key_hashable}
use statebraid.Cache.Policy.Commit.{unlist, enlist}

module _ {N : Type 0} ⦃h : Hashable N⦄ where
  abbrev pub listed : Option (List (CacheKey N)) → CacheKey N → Bool
  listed none k = false
  listed (some bucket) k = contains k bucket

  pub get-unlist :
      (k j : CacheKey N) (role r : String) (b : Dict String (List (CacheKey N)))
      → listed (get r (unlist k role b)) j
        ≡ (if role == r && k == j then false else listed (get r b) j)
  unfolding unlist
  get-unlist k j role r b = elim (Option-cases (get role b)) [
    | inl e ↦ ground (arith, e)
    | inr (bucket, e) ↦
        ground (arith, e, get-put r role (discard k bucket) b, contains-discard j k bucket)
  ]

  pub get-enlist :
      (k j : CacheKey N) (role r : String) (b : Dict String (List (CacheKey N)))
      → listed (get r (enlist k role b)) j
        ≡ (if role == r && k == j then true else listed (get r b) j)
  unfolding enlist contains
  get-enlist k j role r b = elim (Option-cases (get role b)) [
    | inl e ↦ ground (arith, e, get-put r role (k ∷ []) b)
    | inr (bucket, e) ↦ ground (arith, e, get-put r role (add k bucket) b, contains-add j k bucket)
  ]

  pub unlist-IsDict :
      (k : CacheKey N) (role : String) (b : Dict String (List (CacheKey N)))
      → IsDict b
      → IsDict (unlist k role b)
  unfolding unlist
  unlist-IsDict k role b d = elim (Option-cases (get role b)) [
    | inl e ↦ ground (arith, e)
    | inr (bucket, e) ↦ ground (arith, e, put-IsDict role (discard k bucket) b d)
  ]

  pub enlist-IsDict :
      (k : CacheKey N) (role : String) (b : Dict String (List (CacheKey N)))
      → IsDict b
      → IsDict (enlist k role b)
  unfolding enlist
  enlist-IsDict k role b d = elim (Option-cases (get role b)) [
    | inl e ↦ ground (arith, e, put-IsDict role (k ∷ []) b d)
    | inr (bucket, e) ↦ ground (arith, e, put-IsDict role (add k bucket) b d)
  ]
