-- ===== src/Adapters/LlamaCppManaged/Storage/Accounted.antt =====
-- A state that the registry accounts for, and what a flush makes of it.
use mathlib.Core.Path.{subst}
use statebraid.Prelude.{
  ℕ, suc, ◌≡◌, ◌⊎◌, refl, sym, ap, ◌∙◌, Bool, true, false, List, [], ◌∷◌, some, String,
  string_hashable, ◌==◌, ==_refl, eq_of_==, contains, map, if◌then◌else◌, arith, inl, inr,
  Bool-cases,
}
use statebraid.Prelude.Result.{Result-cases, ok, raise, Error}
use statebraid.Prelude.Exec.{Exec, continue, continue_ok, continue_raise, on_second}
use statebraid.Prelude.Exec.Keeps.{Keeps, bind-Keeps, local-Keeps}
use statebraid.Dict.{Dict, get, put, values}
use statebraid.Dict.Laws.{get-remove, get-put}
use statebraid.Cache.Key.{key_hashable}
use statebraid.Adapters.LlamaCpp.Lookup.{JsonTransport, namespace_hashable}
use statebraid.Adapters.LlamaCppManaged.Mutations.{LlamaCppManagedHttpAdapter, Handle}
use statebraid.Adapters.LlamaCppManaged.Http.{drop_state}
use statebraid.Adapters.LlamaCppManaged.Storage.{
  Key, Registry, Store, unqueue, queue, bind, referenced,
}
use statebraid.Adapters.LlamaCppManaged.Storage.Kept.{flush_drops_keeps}
use statebraid.Adapters.LlamaCppManaged.Storage.Flush.{item-Keeps}
use statebraid.Adapters.LlamaCppManaged.Storage.Cleanup.{
  flush_item, flush_one, flush_all, flush_drops,
}

-- A key is bound to the state's handle, or the state itself waits for a drop.
abbrev pub IsAccounted : Handle → Registry → Type 0
IsAccounted state r =
    (contains state.handle (referenced r) ≡ true) ⊎ (get state.handle r.pending_drops ≡ some state)

contains-map-put :
    (key : Key) (state : Handle) (m : Dict Key Handle)
    → contains state.handle (map (λ x. x.handle) (values (put key state m))) ≡ true
unfolding put contains
contains-map-put key state [] = ground (arith, ==_refl state.handle)
contains-map-put key state ((k, x) ∷ m) =
    ground (arith, ==_refl state.handle, contains-map-put key state m)

pub bound_handle :
    (key : Key) (state : Handle) (r : Registry)
    → contains state.handle (referenced (bind key state r)) ≡ true
unfolding bind referenced
bound_handle key state r = contains-map-put key state r.records

pub queue-IsAccounted : (state : Handle) (r : Registry) → IsAccounted state (queue state r)
unfolding queue
queue-IsAccounted state r =
    inr (
      ground (arith, get-put state.handle state.handle state r.pending_drops, ==_refl state.handle))

still_bound :
    (state : Handle) (r r' : Registry)
    → r'.records ≡ r.records
    → contains state.handle (referenced r) ≡ true
    → contains state.handle (referenced r') ≡ true
unfolding referenced
still_bound state r r' same bound =
    ap (λ records. contains state.handle (map (λ x. x.handle) (values records))) same ∙ bound

module _ {S : Type 0} (transport : JsonTransport S) (a : LlamaCppManagedHttpAdapter)
    (state : Handle) (Gone : S → Type 0) where
  -- `Gone` is what every drop of the state that returns brings about, and what no drop takes back.
  pub record AreDrops : Type 0 where
    pub brings :
        (s : S)
        → (drop_state transport a state s).0 ≡ ok tt
        → Gone (drop_state transport a state s).1
    pub stays : (x : Handle) → Keeps Gone (drop_state transport a x)

  module _ (d : AreDrops) where
    -- It still waits for the drop, or is gone.
    abbrev Waits : Store transport a → Type 0
    Waits (r, s) = (get state.handle r.pending_drops ≡ some state) ⊎ Gone s

    gone-Keeps :
        (bound : List String) (pending : Dict String Handle) (n : ℕ)
        → Keeps {S = Store transport a} (λ st. Gone st.1) (flush_all transport a bound pending n)
    unfolding flush_all flush_one
    gone-Keeps bound [] n = local-Keeps
    gone-Keeps bound ((k, x) ∷ rest) n =
        bind-Keeps (item-Keeps transport a Gone (contains k bound) k x (λ _. d.stays x))
          (λ gone. gone-Keeps bound rest (if gone then suc n else n))

    -- A round on another handle.
    other_waits :
        (b : Bool) (k : String) (x : Handle) (r : Registry) (s : S)
        → (k == state.handle) ≡ false
        → get state.handle r.pending_drops ≡ some state
        → get state.handle (flush_item transport a b k x (r, s)).1.0.pending_drops ≡ some state
    unfolding flush_item continue unqueue on_second
    other_waits true k x r s other waits =
        ground (arith, get-remove state.handle k r.pending_drops, other, waits)
    other_waits false k x r s other waits = elim (Result-cases (drop_state transport a x s).0) [
      | inl (e, bad) ↦ ground (arith, bad, waits)
      | inr (_, fine) ↦
          ground (arith, fine, get-remove state.handle k r.pending_drops, other, waits)
    ]

    -- The round on the state itself drops it, or raises and leaves it waiting.
    own_round :
        (r : Registry) (s : S)
        → get state.handle r.pending_drops ≡ some state
        → let out = flush_item transport a false state.handle state (r, s) in
          ((e : Error) × (out.0 ≡ raise e) × (get state.handle out.1.0.pending_drops ≡ some state))
          ⊎ Gone out.1.1
    unfolding flush_item continue on_second
    own_round r s waits = elim (Result-cases (drop_state transport a state s).0) [
      | inl (e, bad) ↦ inl (e, ground (arith, bad), ground (arith, bad, waits))
      | inr (_, fine) ↦ inr (rw (fine, flush_item) (d.brings s fine))
    ]

    flush_all-Waits :
        (bound : List String) (pending : Dict String Handle) (n : ℕ) (st : Store transport a)
        → contains state.handle bound ≡ false
        → get state.handle pending ≡ some state
        → get state.handle st.0.pending_drops ≡ some state
        → Waits (flush_all transport a bound pending n st).1
    unfolding flush_all flush_one get
    flush_all-Waits bound [] n st free queued waits = inl waits
    flush_all-Waits bound ((k, x) ∷ rest) n (r, s) free queued waits =
        let next : Bool → Exec (Store transport a) ℕ =
          λ gone. flush_all transport a bound rest (if gone then suc n else n) in
        let out = flush_one transport a bound k x (r, s) in
        elim (Bool-cases (k == state.handle)) [
          | inr other ↦
              let left = other_waits (contains k bound) k x r s other waits in
              elim (Result-cases out.0) [
                | inl (e, bad) ↦
                    subst (λ o. Waits o.1) (sym (continue_raise out next e bad)) (inl left)
                | inr (gone, fine) ↦
                    subst (λ o. Waits o.1) (sym (continue_ok out next gone fine))
                      (flush_all-Waits bound rest (if gone then suc n else n) out.1 free
                        (ground (arith, other, queued)) left)
              ]
          | inl same ↦
              let first : x ≡ state = ground (arith, same, queued) in
              let here : out ≡ flush_item transport a false state.handle state (r, s) =
                ground (arith, eq_of_== k state.handle same, first, free) in
              elim (own_round r s waits) [
                | inl (e, bad, left) ↦
                    subst (λ o. Waits o.1)
                      (sym (continue_raise out next e (ap (λ o. o.0) here ∙ bad)))
                      (inl (ap (λ o. get state.handle o.1.0.pending_drops) here ∙ left))
                | inr gone ↦
                    let now : Gone out.1.1 = subst (λ o. Gone o.1.1) (sym here) gone in
                    elim (Result-cases out.0) [
                      | inl (e, bad) ↦
                          subst (λ o. Waits o.1) (sym (continue_raise out next e bad)) (inr now)
                      | inr (g, fine) ↦
                          subst (λ o. Waits o.1) (sym (continue_ok out next g fine))
                            (inr ((gone-Keeps bound rest (if g then suc n else n)).keeps out.1 now))
                    ]
              ]
        ]

    -- A flush keeps a state accounted for, or drops it.
    pub flush_drops-IsAccounted :
        (r : Registry) (s : S)
        → IsAccounted state r
        → let out = flush_drops transport a (r, s) in IsAccounted state out.1.0 ⊎ Gone out.1.1
    unfolding flush_drops
    flush_drops-IsAccounted r s known =
        let same = (flush_drops_keeps transport a r.records).keeps (r, s) refl in
        elim (Bool-cases (contains state.handle (referenced r))) [
          | inl bound ↦ inl (inl (still_bound state r _ same bound))
          | inr free ↦ elim known [
            | inl bound ↦ absurd (cc)
            | inr queued ↦
                elim (flush_all-Waits (referenced r) r.pending_drops 0 (r, s) free queued queued) [
                  | inl waits ↦ inl (inr waits)
                  | inr gone ↦ inr gone
                ]
          ]
        ]
