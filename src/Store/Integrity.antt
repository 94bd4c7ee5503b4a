-- ===== src/Store/Integrity.antt =====
-- The integrity of the outbox: one delivery for each event, in the same order, under distinct ids.
use mathlib.Core.List.{map-append}
use opc_stack.Base.{
  ℕ, ◌+◌, ◌≡◌, ◌↔◌, Bool, not, ◌&&◌, refl, sym, ap, ◌∙◌, true, false, List, [], ◌∷◌, ◌++◌, map,
  none, some, arith, length, select, Bool-cases, inl, inr, is_some, eq_iff, All, String,
}
use opc_stack.Base.Table.{find, contains, Distinct, Distinct-snoc, is_some-find, find-append}
use opc_stack.Event.{Event}
use opc_stack.Store.Row.{Store, DeliveryRow}
use opc_stack.Store.Outbox.{
  event_key, delivery_key, find_event, delivery, new_delivery, enqueue_event, is_pending,
  is_sending, back_to_pending, recover_inflight,
}

pub record IsOutbox (s : Store) : Type 0 where
  pub paired : map delivery_key s.deliveries ≡ map event_key s.events
  pub distinct : Distinct (map event_key s.events)

-- A change that keeps the ids of the deliveries and the events keeps the integrity.
pub IsOutbox-frame :
    (s s' : Store)
    → map delivery_key s'.deliveries ≡ map delivery_key s.deliveries
    → s'.events ≡ s.events
    → IsOutbox s
    → IsOutbox s'
IsOutbox-frame s s' d e o = record {
  paired = d ∙ o.paired ∙ ap (map event_key) (sym e);
  distinct = rw e o.distinct;
}

is_some-delivery :
    (k : String) (s : Store) → IsOutbox s → is_some (delivery k s) ≡ is_some (find_event k s)
unfolding delivery
is_some-delivery k s o =
    is_some-find delivery_key k s.deliveries
    ∙ ap (contains k) o.paired
    ∙ sym (is_some-find event_key k s.events)

-- Enqueueing keeps the integrity. It answers True exactly when the event was not known; then the
-- event is there with a pending delivery, and otherwise nothing changes at all.
pub enqueue_event-IsOutbox :
    (event : Event) (now : ℕ) (s : Store)
    → IsOutbox s
    → IsOutbox (enqueue_event event now s).0
      × (((enqueue_event event now s).1 ≡ true) ↔ (find_event event.event_id s ≡ none))
      × ((enqueue_event event now s).1 ≡ true
          → is_some (find_event event.event_id (enqueue_event event now s).0) ≡ true)
      × ((enqueue_event event now s).1 ≡ true
          → delivery event.event_id (enqueue_event event now s).0
            ≡ some (new_delivery event.event_id now))
      × ((enqueue_event event now s).1 ≡ false → (enqueue_event event now s).0 ≡ s)
unfolding enqueue_event delivery find
enqueue_event-IsOutbox event now s o = elim (Bool-cases (is_some (find_event event.event_id s))) [
  | inl known ↦ rw known (
    o,
    ((λ h. ground arith), (λ h. ground (arith, known, h))),
    (λ h. known),
    (λ h. ground arith),
    (λ h. refl),
  )
  | inr fresh ↦
      let absent = is_some-delivery event.event_id s o ∙ fresh in
      let lost = is_some-find event_key event.event_id s.events in
      rw (fresh, absent)
        (
          record {
            paired =
                map-append delivery_key s.deliveries _
                ∙ ap (λ ids. ids ++ event.event_id ∷ []) o.paired
                ∙ sym (map-append event_key s.events _);
            distinct = rw (map-append event_key s.events) (
                Distinct-snoc event.event_id (map event_key s.events) (sym lost ∙ fresh)
                  o.distinct);
          },
          ((λ h. ground (arith, fresh)), (λ h. refl)),
          (λ h.
              rw (find-append event_key event.event_id s.events)
                (rw fresh (ground (arith, eq_iff event.event_id event.event_id)))),
          (λ h.
              find-append delivery_key event.event_id s.deliveries _
              ∙ rw absent (ground (arith, eq_iff event.event_id event.event_id))),
          (λ h. ground arith),
        )
]

-- A row that is neither waiting nor in flight.
abbrev pub is_finished : DeliveryRow → Bool
is_finished d = not (is_pending d.state) && not (is_sending d.state)

-- After the boot's recovery no row is in flight, the answer is the number of rows that were and as
-- many more rows are pending, the rows that are sent, failed or expired are as they were, and the
-- integrity is kept.
pub recover_inflight-IsOutbox :
    (s : Store)
    → IsOutbox s
    → IsOutbox (recover_inflight s).0
      × All (λ (d : DeliveryRow). is_sending d.state ≡ false) (recover_inflight s).0.deliveries
      × (length (select (λ (d : DeliveryRow). is_pending d.state) (recover_inflight s).0.deliveries)
          ≡ length (select (λ (d : DeliveryRow). is_pending d.state) s.deliveries)
            + (recover_inflight s).1)
      × ((recover_inflight s).1
          ≡ length (select (λ (d : DeliveryRow). is_sending d.state) s.deliveries))
      × (select is_finished (recover_inflight s).0.deliveries ≡ select is_finished s.deliveries)
unfolding recover_inflight
recover_inflight-IsOutbox s o = (
  IsOutbox-frame s _ (ids s.deliveries) refl o,
  quiet s.deliveries,
  counts s.deliveries,
  refl,
  settled s.deliveries,
)
  where
    ids : (ds : List DeliveryRow) → map delivery_key (map back_to_pending ds) ≡ map delivery_key ds
    ids [] = refl
    ids (d ∷ ds) = ground (arith, ids ds)

    quiet :
        (ds : List DeliveryRow)
        → All (λ (d : DeliveryRow). is_sending d.state ≡ false) (map back_to_pending ds)
    quiet [] = tt
    quiet (d ∷ ds) = (ground arith, quiet ds)

    settled :
        (ds : List DeliveryRow)
        → select is_finished (map back_to_pending ds) ≡ select is_finished ds
    settled [] = refl
    settled (d ∷ ds) = elim (Bool-cases (is_sending d.state)) [
      | inl e ↦ rw e (ground (arith, settled ds))
      | inr e ↦ rw e (ground (arith, settled ds))
    ]

    counts :
        (ds : List DeliveryRow)
        → length (select (λ (d : DeliveryRow). is_pending d.state) (map back_to_pending ds))
          ≡ length (select (λ (d : DeliveryRow). is_pending d.state) ds)
            + length (select (λ (d : DeliveryRow). is_sending d.state) ds)
    counts [] = omega arith
    counts (d ∷ ds) = ground (arith, counts ds)
