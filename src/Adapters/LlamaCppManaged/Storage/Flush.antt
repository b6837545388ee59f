-- ===== src/Adapters/LlamaCppManaged/Storage/Flush.antt =====
-- What a flush of the managed storage does to the pending drops and to the server.
use mathlib.Core.Path.{subst}
use statebraid.Prelude.{
  ℕ, suc, ◌≡◌, ◌⊎◌, refl, sym, ap, ◌∙◌, Bool, true, false, List, [], ◌∷◌, none, some, String,
  string_hashable, ==_refl, contains, if◌then◌else◌, arith, inl, inr,
}
use statebraid.Prelude.Result.{Result, Result-cases, ok, raise, Error}
use statebraid.Prelude.Exec.{Exec, continue, continue_ok, continue_raise, on_second, update}
use statebraid.Prelude.Exec.Keeps.{Keeps, bind-Keeps, local-Keeps}
use statebraid.Dict.{Dict, get, remove, IsDict}
use statebraid.Dict.Laws.{remove_absent}
use statebraid.Adapters.LlamaCpp.Lookup.{JsonTransport}
use statebraid.Adapters.LlamaCppManaged.Mutations.{LlamaCppManagedHttpAdapter, Handle}
use statebraid.Adapters.LlamaCppManaged.Http.{drop_state}
use statebraid.Adapters.LlamaCppManaged.Storage.{Registry, Store, unqueue, referenced}
use statebraid.Adapters.LlamaCppManaged.Storage.Kept.{flush_drops_keeps}
use statebraid.Adapters.LlamaCppManaged.Storage.Cleanup.{
  flush_item, flush_one, flush_all, flush_drops,
}

module _ {S : Type 0} (transport : JsonTransport S) (a : LlamaCppManagedHttpAdapter) where
  -- One round of the loop. A handle that is bound only leaves the queue. Else the server is asked to
  -- drop its state: where that returns, it leaves the queue, and where it raises, the round raises.
  abbrev IsRound :
      Bool → String → Handle → Store transport a → Result Bool × Store transport a → Type 0
  IsRound bound handle state st out =
      let drop = drop_state transport a state st.1 in
      ((bound ≡ true)
        × (out.0 ≡ ok false)
        × (out.1.0.pending_drops ≡ remove handle st.0.pending_drops)
        × (out.1.1 ≡ st.1))
      ⊎ ((bound ≡ false)
          × (drop.0 ≡ ok tt)
          × (out.0 ≡ ok true)
          × (out.1.0.pending_drops ≡ remove handle st.0.pending_drops)
          × (out.1.1 ≡ drop.1))
      ⊎ ((bound ≡ false)
          × ((e : Error) × (drop.0 ≡ raise e)
              × (out.0 ≡ raise e)
              × (out.1.0.pending_drops ≡ st.0.pending_drops)
              × (out.1.1 ≡ drop.1)))

  item_cases :
      (bound : Bool) (handle : String) (state : Handle) (st : Store transport a)
      → IsRound bound handle state st (flush_item transport a bound handle state st)
  unfolding flush_item continue unqueue on_second
  item_cases true handle state st = inl (refl, refl, refl, refl)
  item_cases false handle state (r, s) = elim (Result-cases (drop_state transport a state s).0) [
    | inl (e, bad) ↦
        inr (inr (refl, (e, bad, ground (arith, bad), ground (arith, bad), ground (arith, bad))))
    | inr (_, fine) ↦
        inr (inl (refl, fine, ground (arith, fine), ground (arith, fine), ground (arith, fine)))
  ]

  -- What a flush of a queue does from a server, where `n` states are dropped already: its result, what it
  -- leaves of the queue, and the server.
  abbrev pub Flushes :
      List String → Dict String Handle → ℕ → S → Result ℕ → Dict String Handle → S → Type 0
  Flushes bound [] n s out left s' = (out ≡ ok n) × (left ≡ []) × (s' ≡ s)
  Flushes bound ((handle, state) ∷ rest) n s out left s' =
      let drop = drop_state transport a state s in
      ((contains handle bound ≡ true) × Flushes bound rest n s out left s')
      ⊎ ((contains handle bound ≡ false)
          × (drop.0 ≡ ok tt)
          × Flushes bound rest (suc n) drop.1 out left s')
      ⊎ ((contains handle bound ≡ false)
          × ((e : Error) × (drop.0 ≡ raise e)
              × (out ≡ raise e)
              × (left ≡ (handle, state) ∷ rest)
              × (s' ≡ drop.1)))

  -- The same of what a call returns.
  abbrev FlushesTo :
      List String → Dict String Handle → ℕ → S → Result ℕ × Store transport a → Type 0
  FlushesTo bound pending n s out = Flushes bound pending n s out.0 out.1.0.pending_drops out.1.1

  flush_all_lem :
      (bound : List String) (pending : Dict String Handle) (n : ℕ) (st : Store transport a)
      → IsDict pending
      → st.0.pending_drops ≡ pending
      → FlushesTo bound pending n st.1 (flush_all transport a bound pending n st)
  unfolding flush_all flush_one remove
  flush_all_lem bound [] n st d e = (refl, e, refl)
  flush_all_lem bound ((handle, state) ∷ rest) n st d e =
      let next : Bool → Exec (Store transport a) ℕ =
        λ gone. flush_all transport a bound rest (if gone then suc n else n) in
      let out = flush_one transport a bound handle state st in
      let popped : remove handle st.0.pending_drops ≡ rest =
        ap (remove handle) e ∙ ground (arith, ==_refl handle, remove_absent handle rest d.0) in
      let Goal = FlushesTo bound ((handle, state) ∷ rest) n st.1 in
      elim (item_cases (contains handle bound) handle state st) [
        | inl (held, fine, left, same) ↦ subst Goal (sym (continue_ok out next false fine)) (
            inl (
              held,
              subst (λ s. FlushesTo bound rest n s (next false out.1)) same
                  (flush_all_lem bound rest n out.1 d.1 (left ∙ popped)),
            ))
        | inr (inl (unheld, dropped, fine, left, same)) ↦
            subst Goal (sym (continue_ok out next true fine)) (
              inr (
                inl (
                  unheld,
                  dropped,
                  subst (λ s. FlushesTo bound rest (suc n) s (next true out.1)) same
                      (flush_all_lem bound rest (suc n) out.1 d.1 (left ∙ popped)),
                )))
        | inr (inr (unheld, (x, refused, bad, left, same))) ↦
            subst Goal (sym (continue_raise out next x bad))
              (inr (inr (unheld, (x, refused, refl, left ∙ e, same))))
      ]

  -- A flush goes through the pending drops in order. A handle that a key is bound to is taken off the
  -- queue and nothing is asked of the server; for any other one the server is asked to drop the state,
  -- which takes it off the queue where it returns, and is counted. A drop that raises ends the flush
  -- with its error, and the handle stays queued with all behind it; without one the flush returns the
  -- count, with the queue empty. The server is what the drops make of it, and no binding changes.
  pub flush_drops_lem :
      (r : Registry) (s : S)
      → IsDict r.pending_drops
      → Flushes
          (referenced r)
          r.pending_drops
          0
          s
          (flush_drops transport a (r, s)).0
          (flush_drops transport a (r, s)).1.0.pending_drops
          (flush_drops transport a (r, s)).1.1
        × ((flush_drops transport a (r, s)).1.0.records ≡ r.records)
  unfolding flush_drops
  flush_drops_lem r s d = (
    flush_all_lem (referenced r) r.pending_drops 0 (r, s) d refl,
    (flush_drops_keeps transport a r.records).keeps (r, s) refl,
  )

  -- What every drop of some states keeps of the server.
  abbrev pub DropsKeep : (S → Type 0) → List String → Dict String Handle → Type 0
  DropsKeep P bound pending =
      (handle : String) (state : Handle)
      → get handle pending ≡ some state
      → contains handle bound ≡ false
      → Keeps P (drop_state transport a state)

  unqueue-Keeps :
      (P : S → Type 0) (handle : String)
      → Keeps {S = Store transport a} (λ st. P st.1) (update (unqueue handle))
  unqueue-Keeps P handle = record { keeps = λ st now. now }

  drop-Keeps :
      (P : S → Type 0) (state : Handle)
      → Keeps P (drop_state transport a state)
      → Keeps {S = Store transport a} (λ st. P st.1) (on_second (drop_state transport a state))
  unfolding on_second
  drop-Keeps P state each = record { keeps = λ (r, s) now. each.keeps s now }

  pub item-Keeps :
      (P : S → Type 0) (bound : Bool) (handle : String) (state : Handle)
      → (bound ≡ false → Keeps P (drop_state transport a state))
      → Keeps (λ st. P st.1) (flush_item transport a bound handle state)
  unfolding flush_item
  item-Keeps P true handle state each =
      bind-Keeps (unqueue-Keeps P handle) (λ _. local-Keeps {r = ok false})
  item-Keeps P false handle state each =
      bind-Keeps (drop-Keeps P state (each refl))
        (λ _. bind-Keeps (unqueue-Keeps P handle) (λ _. local-Keeps {r = ok true}))

  DropsKeep-tail :
      (P : S → Type 0) (bound : List String) (handle : String) (state : Handle)
      (rest : Dict String Handle)
      → get handle rest ≡ none
      → DropsKeep P bound ((handle, state) ∷ rest)
      → DropsKeep P bound rest
  unfolding get
  DropsKeep-tail P bound handle state rest fresh each other x held =
      each other x (ground (arith, fresh, held))

  flush_all_server :
      (P : S → Type 0) (bound : List String) (pending : Dict String Handle) (n : ℕ)
      → IsDict pending
      → DropsKeep P bound pending
      → Keeps (λ st. P st.1) (flush_all transport a bound pending n)
  unfolding flush_all flush_one get
  flush_all_server P bound [] n d each = local-Keeps
  flush_all_server P bound ((handle, state) ∷ rest) n d each =
      bind-Keeps
        (item-Keeps P (contains handle bound) handle state
          (each handle state (ground (arith, ==_refl handle))))
        (λ gone.
          flush_all_server P bound rest (if gone then suc n else n) d.1
            (DropsKeep-tail P bound handle state rest d.0 each))

  -- A flush changes the server only by dropping pending states to whose handle no key is bound: what
  -- every such drop keeps, the flush keeps, whether or not it raises.
  pub flush_drops_unreferenced :
      (P : S → Type 0) (r : Registry) (s : S)
      → IsDict r.pending_drops
      → DropsKeep P (referenced r) r.pending_drops
      → P s
      → P (flush_drops transport a (r, s)).1.1
  unfolding flush_drops
  flush_drops_unreferenced P r s d each now =
      (flush_all_server P (referenced r) r.pending_drops 0 d each).keeps (r, s) now
