-- ===== src/Deliver/Keeps.antt =====
-- What a pass of the deliverer leaves alone: the events, the ids of the outbox, and every delivery
-- that was not pending.
use opc_stack.Base.{
  ℕ, ◌≡◌, refl, ap, ◌∙◌, true, false, List, [], ◌∷◌, map, Option, none, some, arith, String,
  Bool-cases, inl, inr, eq_iff, All, All-select, any_found, take-All,
}
use opc_stack.Base.Sort.{sort_by-All}
use opc_stack.Base.Table.{find, find-All, map-update}
use opc_stack.Config.{Config, Iso}
use opc_stack.Store.Row.{Store, EventRow, DeliveryRow}
use opc_stack.Store.Outbox.{
  ClaimedRow, joined, join_events, due_rows, delivery_key, find_event, delivery, is_pending, is_due,
  start_sending, claim_each, claim_due,
}
use opc_stack.Store.Integrity.{IsOutbox, IsOutbox-frame}
use opc_stack.Deliver.{Buzz, World, deliver_each, run_once}
use opc_stack.Deliver.Progress.{round-Updates}
use opc_stack.Deliver.Pass.{
  claims, find-claim_each, due_rows-IsJoined, carries-claims, deliver_each-other,
}

-- A claimed row stands for a delivery that is found under its id and is due.
abbrev pub IsDueIn : Store → ℕ → ClaimedRow → Type 0
IsDueIn s now c =
    (d : DeliveryRow) × (find delivery_key c.event_id s.deliveries ≡ some d) × (is_due now d ≡ true)

join_events-IsDueIn :
    (s : Store) (now : ℕ) (ds : List DeliveryRow)
    → All (λ d. (find delivery_key d.event_id s.deliveries ≡ some d) × (is_due now d ≡ true)) ds
    → All (IsDueIn s now) (join_events s ds)
unfolding join_events
join_events-IsDueIn s now [] h = tt
join_events-IsDueIn s now (d ∷ ds) h =
    go (find_event d.event_id s) (join_events-IsDueIn s now ds h.1)
  where
    go :
        (o : Option EventRow)
        → All (IsDueIn s now) (join_events s ds)
        → All (IsDueIn s now) (joined d o (join_events s ds))
    go none ih = ih
    go (some e) ih = ((d, h.0.0, h.0.1), ih)

pub due_rows-IsDueIn :
    (now limit : ℕ) (s : Store) → IsOutbox s → All (IsDueIn s now) (due_rows now limit s)
unfolding due_rows
due_rows-IsDueIn now limit s o = take-All (IsDueIn s now) limit _ (
    sort_by-All _ (IsDueIn s now) _ (
      join_events-IsDueIn s now _ (
        All-select _ (is_due now) s.deliveries
          (find-All delivery_key s.deliveries (rw o.paired o.distinct)))))

-- Nobody claims a delivery that is not pending.
pub claims_pending :
    (now : ℕ) (s : Store) (j : String) (d : DeliveryRow)
    → IsOutbox s
    → find delivery_key j s.deliveries ≡ some d
    → is_pending d.state ≡ false
    → claims j (due_rows now 50 s) ≡ false
claims_pending now s j d o found idle = elim (Bool-cases (claims j (due_rows now 50 s))) [
  | inr e ↦ e
  | inl e ↦
      let (c, same, has_due) =
        any_found (IsDueIn s now) _ (due_rows now 50 s) e (due_rows-IsDueIn now 50 s o) in
      let (d', found', due) = has_due in ground (arith, eq_iff c.event_id j)
]

claim_each-ids :
    (now : ℕ) (rows : List ClaimedRow) (ds : List DeliveryRow)
    → map delivery_key (claim_each now rows ds) ≡ map delivery_key ds
unfolding claim_each
claim_each-ids now [] ds = refl
claim_each-ids now (r ∷ rows) ds =
    claim_each-ids now rows _
    ∙ map-update delivery_key r.event_id (start_sending now) ds (λ d. ground arith)

pub claim_due-IsOutbox :
    (now limit : ℕ) (s : Store) → IsOutbox s → IsOutbox (claim_due now limit s).0
unfolding claim_due
claim_due-IsOutbox now limit s o =
    IsOutbox-frame s _ (claim_each-ids now (due_rows now limit s) s.deliveries) refl o

module _ (cfg : Config) (time : Iso) (buzz : Buzz) (clock : World → ℕ) where
  deliver_each-IsOutbox :
      (rows : List ClaimedRow) (now : ℕ) (w : World)
      → IsOutbox w.store
      → IsOutbox (deliver_each cfg time buzz clock rows now w).0.store
        × ((deliver_each cfg time buzz clock rows now w).0.store.events ≡ w.store.events)
  unfolding deliver_each
  deliver_each-IsOutbox [] now w o = (o, refl)
  deliver_each-IsOutbox (r ∷ rows) now w o =
      let u = round-Updates cfg time buzz clock r now w in
      let (o', e) = deliver_each-IsOutbox rows now _ (
        IsOutbox-frame w.store _
          (ap (map delivery_key) u.same
            ∙ map-update delivery_key r.payload.event_id u.change w.store.deliveries u.keeps)
          u.frame o) in
      (o', e ∙ u.frame)

  -- A pass loses no event and adds none, and keeps one delivery for each event, whatever `buzz`
  -- answers.
  pub run_once-IsOutbox :
      (w : World)
      → IsOutbox w.store
      → IsOutbox (run_once cfg time buzz clock w).0.store
        × ((run_once cfg time buzz clock w).0.store.events ≡ w.store.events)
  unfolding run_once claim_due
  run_once-IsOutbox w o =
      deliver_each-IsOutbox (due_rows (clock w) 50 w.store) (clock w) _
        (claim_due-IsOutbox (clock w) 50 w.store o)

  -- A delivery that is not pending when a pass begins (sent, sent to the fallback, failed, expired,
  -- or in flight) is the same after it.
  pub run_once_keeps :
      (w : World) (j : String) (d : DeliveryRow)
      → IsOutbox w.store
      → delivery j w.store ≡ some d
      → is_pending d.state ≡ false
      → delivery j (run_once cfg time buzz clock w).0.store ≡ some d
  unfolding run_once claim_due delivery
  run_once_keeps w j d o found idle =
      let rows = due_rows (clock w) 50 w.store in
      let free = claims_pending (clock w) w.store j d o found idle in
      deliver_each-other cfg time buzz clock j rows (clock w) _
        (carries-claims j rows (due_rows-IsJoined (clock w) 50 w.store) ∙ free)
      ∙ find-claim_each (clock w) j rows w.store.deliveries
      ∙ rw free found
