-- ===== src/Store/Outbox.antt =====
-- The methods of store.py on events and deliveries: the durable outbox.
use opc_stack.Base.{
  ℕ, ◌+◌, Bool, true, false, ◌&&◌, List, [], ◌∷◌, ◌++◌, map, Option, none, some, leb, if◌then◌else◌,
  is_some, select, take, length, or_else, String,
}
use opc_stack.Base.Table.{find, update}
use opc_stack.Base.Sort.{sort_by}
use opc_stack.Event.{Event}
use opc_stack.Policy.Json.{Value}
use opc_stack.Store.Row.{
  Store, EventRow, DeliveryRow, DeliveryState, pending, sending, sent, fallback_sent, failed,
  expired,
}

abbrev pub is_pending : DeliveryState → Bool
is_pending pending = true
is_pending _ = false

abbrev pub is_sending : DeliveryState → Bool
is_sending sending = true
is_sending _ = false

abbrev pub event_key : EventRow → String
event_key row = row.payload.event_id

abbrev pub delivery_key : DeliveryRow → String
delivery_key row = row.event_id

abbrev pub find_event : String → Store → Option EventRow
find_event k s = find event_key k s.events

unfoldable pub delivery : String → Store → Option DeliveryRow
delivery k s = find delivery_key k s.deliveries

abbrev pub new_delivery : String → ℕ → DeliveryRow
new_delivery k now = record {
  event_id = k;
  state = pending;
  attempts = 0;
  next_attempt_at = 0;
  last_error = none;
  buzz_event_id = none;
  updated_at = now;
}

-- INSERT OR IGNORE into both tables. A known event rolls back and answers False.
unfoldable pub enqueue_event : Event → ℕ → Store → Store × Bool
unfolding delivery
enqueue_event event now s = if is_some (find_event event.event_id s) then (s, false) else (
  record s {
    events = s.events ++ record { payload = event; created_at = now } ∷ [];
    deliveries =
        if is_some (delivery event.event_id s)
        then s.deliveries
        else s.deliveries ++ new_delivery event.event_id now ∷ [];
  },
  true,
)

pub record ClaimedRow : Type 0 where
  pub event_id : String
  pub attempts : ℕ
  pub next_attempt_at : ℕ
  pub payload : Event

abbrev pub claimed : DeliveryRow → EventRow → ClaimedRow
claimed d e = record {
  event_id = d.event_id;
  attempts = d.attempts;
  next_attempt_at = d.next_attempt_at;
  payload = e.payload;
}

-- JOIN events ON e.event_id = d.event_id: a delivery with no event is left out.
abbrev pub joined : DeliveryRow → Option EventRow → List ClaimedRow → List ClaimedRow
joined d none rest = rest
joined d (some e) rest = claimed d e ∷ rest

unfoldable pub join_events : Store → List DeliveryRow → List ClaimedRow
join_events s [] = []
join_events s (d ∷ ds) = joined d (find_event d.event_id s) (join_events s ds)

abbrev pub is_due : ℕ → DeliveryRow → Bool
is_due now d = is_pending d.state && leb d.next_attempt_at now

unfoldable pub due_rows : ℕ → ℕ → Store → List ClaimedRow
unfolding join_events
due_rows now limit s = take limit (
    sort_by (λ a b. leb a.next_attempt_at b.next_attempt_at)
      (join_events s (select (is_due now) s.deliveries)))

abbrev pub start_sending : ℕ → DeliveryRow → DeliveryRow
start_sending now d =
    if is_pending d.state then record d { state = sending; updated_at = now } else d

unfoldable pub claim_each : ℕ → List ClaimedRow → List DeliveryRow → List DeliveryRow
claim_each now [] ds = ds
claim_each now (row ∷ rows) ds =
    claim_each now rows (update delivery_key row.event_id (start_sending now) ds)

unfoldable pub claim_due : ℕ → ℕ → Store → Store × List ClaimedRow
unfolding claim_each
claim_due now limit s = (
  record s { deliveries = claim_each now (due_rows now limit s) s.deliveries },
  due_rows now limit s,
)

abbrev pub back_to_pending : DeliveryRow → DeliveryRow
back_to_pending d = if is_sending d.state then record d { state = pending } else d

-- Boot: whatever was in flight is tried again.
unfoldable pub recover_inflight : Store → Store × ℕ
recover_inflight s = (
  record s { deliveries = map back_to_pending s.deliveries },
  length (select (λ (d : DeliveryRow). is_sending d.state) s.deliveries),
)

abbrev pub finished : DeliveryState → ℕ → Option String → Option String → DeliveryRow → DeliveryRow
finished state now buzz_event_id error d = record d {
  state = state;
  buzz_event_id = or_else buzz_event_id d.buzz_event_id;
  last_error = or_else error d.last_error;
  updated_at = now;
}

unfoldable pub finish_delivery :
    String → DeliveryState → ℕ → Option String → Option String → Store → Store
finish_delivery k state now buzz_event_id error s = record s {
  deliveries = update delivery_key k (finished state now buzz_event_id error) s.deliveries;
}

unfoldable pub mark_sent : String → String → ℕ → Store → Store
unfolding finish_delivery
mark_sent k buzz_event_id now = finish_delivery k sent now (some buzz_event_id) none

unfoldable pub mark_fallback : String → String → ℕ → Store → Store
unfolding finish_delivery
mark_fallback k buzz_event_id now = finish_delivery k fallback_sent now (some buzz_event_id) none

unfoldable pub mark_expired : String → ℕ → Store → Store
unfolding finish_delivery
mark_expired k now = finish_delivery k expired now none (some "expired")

unfoldable pub mark_failed : String → String → ℕ → Store → Store
unfolding finish_delivery
mark_failed k reason now = finish_delivery k failed now none (some reason)

abbrev pub rescheduled : ℕ → String → ℕ → DeliveryRow → DeliveryRow
rescheduled next_attempt_at error now d = record d {
  state = pending;
  attempts = d.attempts + 1;
  next_attempt_at = next_attempt_at;
  last_error = some error;
  updated_at = now;
}

unfoldable pub reschedule : String → ℕ → String → ℕ → Store → Store
reschedule k next_attempt_at error now s = record s {
  deliveries = update delivery_key k (rescheduled next_attempt_at error now) s.deliveries;
}

unfoldable pub audit :
    String → String → Option String → List (String × Value) → Option String → Store → Store
audit actor action target detail source_event_id s = record s {
  audits =
      s.audits
      ++ record {
        actor = actor;
        action = action;
        target = target;
        detail = detail;
        source_event_id = source_event_id;
      }
        ∷ [];
}
