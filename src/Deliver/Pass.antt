-- ===== src/Deliver/Pass.antt =====
-- A whole pass (`run_once`): who is claimed, and what is left of it.
use opc_stack.Base.{
  String, ℕ, ◌≡◌, refl, ◌∙◌, Bool, true, false, List, [], ◌∷◌, Option, none, some, arith,
  if◌then◌else◌, Bool-cases, inl, inr, ◌⊎◌, ◌==◌, any, All, take-All,
}
use mathlib.Core.Option
use opc_stack.Base.Sort.{sort_by-All}
use opc_stack.Base.Table.{find, update, find-update, find-key}
use opc_stack.Config.{Config, Iso}
use opc_stack.Store.Row.{Store, EventRow, DeliveryRow}
use opc_stack.Store.Outbox.{
  ClaimedRow, delivery_key, start_sending, claim_each, claim_due, due_rows, join_events, joined,
  delivery, find_event, event_key,
}
use opc_stack.Deliver.{Buzz, World, deliver_each, run_once}
use opc_stack.Deliver.Progress.{Quiet, Updates-found, Updates-Quiet, round-Updates}

abbrev pub claims : String → List ClaimedRow → Bool
claims j rows = any (λ (r : ClaimedRow). r.event_id == j) rows

abbrev pub carries : String → List ClaimedRow → Bool
carries j rows = any (λ (r : ClaimedRow). r.payload.event_id == j) rows

pub find-claim_each :
    (now : ℕ) (j : String) (rows : List ClaimedRow) (ds : List DeliveryRow)
    → find delivery_key j (claim_each now rows ds) ≡ (
        if claims j rows
        then Option.map (start_sending now) (find delivery_key j ds)
        else find delivery_key j ds)
unfolding claim_each
find-claim_each now j [] ds = refl
find-claim_each now j (r ∷ rows) ds =
    rw
      (
        find-claim_each now j rows (update delivery_key r.event_id (start_sending now) ds),
        find-update delivery_key j r.event_id (start_sending now) ds (λ d. keeps d),
      )
      (go (find delivery_key j ds))
  where
    keeps : (d : DeliveryRow) → (start_sending now d).event_id ≡ d.event_id
    keeps d = ground arith

    go :
        (o : Option DeliveryRow)
        → (if claims j rows
            then Option.map
                (start_sending now)
                (if r.event_id == j then Option.map (start_sending now) o else o)
            else (if r.event_id == j then Option.map (start_sending now) o else o))
          ≡ (if claims j (r ∷ rows) then Option.map (start_sending now) o else o)
    go none = ground arith
    go (some d) = ground arith

-- The event of a claimed row is the one under its id.
abbrev pub IsJoined : ClaimedRow → Type 0
IsJoined r = r.payload.event_id ≡ r.event_id

join_events-IsJoined : (s : Store) (ds : List DeliveryRow) → All IsJoined (join_events s ds)
unfolding join_events
join_events-IsJoined s [] = tt
join_events-IsJoined s (d ∷ ds) =
    go (find_event d.event_id s) (find-key event_key d.event_id s.events)
      (join_events-IsJoined s ds)
  where
    go :
        (o : Option EventRow)
        → ((e : EventRow) → o ≡ some e → e.payload.event_id ≡ d.event_id)
        → All IsJoined (join_events s ds)
        → All IsJoined (joined d o (join_events s ds))
    go none h ih = ih
    go (some e) h ih = (h e refl, ih)

pub due_rows-IsJoined : (now limit : ℕ) (s : Store) → All IsJoined (due_rows now limit s)
unfolding due_rows
due_rows-IsJoined now limit s =
    take-All IsJoined limit _ (sort_by-All _ IsJoined _ (join_events-IsJoined s _))

pub carries-claims :
    (j : String) (rows : List ClaimedRow) → All IsJoined rows → carries j rows ≡ claims j rows
carries-claims j [] h = refl
carries-claims j (r ∷ rows) h = rw (h.0, carries-claims j rows h.1)

module _ (cfg : Config) (time : Iso) (buzz : Buzz) (clock : World → ℕ) where
  pub deliver_each-Quiet :
      (j : String) (rows : List ClaimedRow) (now : ℕ) (w : World)
      → (carries j rows ≡ true) ⊎ Quiet (find delivery_key j w.store.deliveries)
      → Quiet (find delivery_key j (deliver_each cfg time buzz clock rows now w).0.store.deliveries)
  unfolding deliver_each
  deliver_each-Quiet j [] now w (inl h) = ground arith
  deliver_each-Quiet j [] now w (inr q) = q
  deliver_each-Quiet j (r ∷ rows) now w h =
      deliver_each-Quiet j rows now _ (elim (Bool-cases (carries j rows)) [
        | inl e ↦ inl e
        | inr e ↦ inr (
            Updates-Quiet j (round-Updates cfg time buzz clock r now w)
              (elim h [ inl c ↦ inl (ground arith) | inr q ↦ inr q ]))
      ])

  pub deliver_each-other :
      (j : String) (rows : List ClaimedRow) (now : ℕ) (w : World)
      → carries j rows ≡ false
      → find delivery_key j (deliver_each cfg time buzz clock rows now w).0.store.deliveries
        ≡ find delivery_key j w.store.deliveries
  unfolding deliver_each
  deliver_each-other j [] now w h = refl
  deliver_each-other j (r ∷ rows) now w h =
      deliver_each-other j rows now _ (ground arith)
      ∙ Updates-found j (round-Updates cfg time buzz clock r now w)
      ∙ ground arith

  -- Whatever `buzz` answers to each call, a pass of the deliverer leaves no row in `sending` that
  -- was not in `sending` before it: every claimed row is settled or put back.
  pub run_once-Quiet :
      (w : World) (j : String)
      → Quiet (delivery j w.store)
      → Quiet (delivery j (run_once cfg time buzz clock w).0.store)
  unfolding run_once claim_due delivery
  run_once-Quiet w j q =
      let rows = due_rows (clock w) 50 w.store in
      deliver_each-Quiet j rows (clock w) _ (elim (Bool-cases (claims j rows)) [
        | inl e ↦ inl (carries-claims j rows (due_rows-IsJoined (clock w) 50 w.store) ∙ e)
        | inr e ↦ inr (rw (find-claim_each (clock w) j rows w.store.deliveries, e) q)
      ])
