-- ===== src/Tests/Outbox.antt =====
-- The outbox on the sample store.
use opc_stack.Base.{is_some, ◌↔◌, ◌+◌, ◌≤◌, ◌≡◌, refl, true, false, none, some, All, length, select}
use opc_stack.Base.Table.{find}
use opc_stack.Store.Row.{DeliveryRow, failed}
use opc_stack.Store.Outbox.{
  ClaimedRow, delivery, new_delivery, find_event, enqueue_event, recover_inflight, is_sending,
  is_pending,
}
use opc_stack.Store.Integrity.{
  IsOutbox, is_finished, enqueue_event-IsOutbox, recover_inflight-IsOutbox,
}
use opc_stack.Deliver.{run_once, next_backoff, is_expired, destination}
use opc_stack.Deliver.Progress.{Quiet}
use opc_stack.Deliver.Pass.{run_once-Quiet}
use opc_stack.Deliver.Keeps.{run_once-IsOutbox, run_once_keeps}
use opc_stack.Deliver.Retry.{next_backoff_bounds, refused_retry, crashed_retry, attempt, Retried}
use opc_stack.Tests.Samples.{
  sample_config, sample_iso, sample_event, sent_delivery, sample_store, sample_world, sample_clock,
  accepting, refusing, crashing, sample_store-IsOutbox,
}

abbrev claimed_row : ClaimedRow
claimed_row = record {
  event_id = "a";
  attempts = 20;
  next_attempt_at = 0;
  payload = sample_event "a";
}

run_once_keeps_example :
    delivery "b" (run_once sample_config sample_iso accepting sample_clock sample_world).0.store
    ≡ some sent_delivery
unfolding delivery find
run_once_keeps_example =
    run_once_keeps sample_config sample_iso accepting sample_clock sample_world "b" sent_delivery
      sample_store-IsOutbox refl refl

run_once-Quiet_example :
    Quiet
      (delivery "a" (run_once sample_config sample_iso refusing sample_clock sample_world).0.store)
unfolding delivery find
run_once-Quiet_example =
    run_once-Quiet sample_config sample_iso refusing sample_clock sample_world "a" refl

run_once-IsOutbox_example :
    IsOutbox (run_once sample_config sample_iso crashing sample_clock sample_world).0.store
    × ((run_once sample_config sample_iso crashing sample_clock sample_world).0.store.events
        ≡ sample_store.events)
run_once-IsOutbox_example =
    run_once-IsOutbox sample_config sample_iso crashing sample_clock sample_world
      sample_store-IsOutbox

enqueue_event-IsOutbox_example :
    IsOutbox (enqueue_event (sample_event "c") 7 sample_store).0
    × (((enqueue_event (sample_event "c") 7 sample_store).1 ≡ true)
        ↔ (find_event "c" sample_store ≡ none))
    × ((enqueue_event (sample_event "c") 7 sample_store).1 ≡ true
        → is_some (find_event "c" (enqueue_event (sample_event "c") 7 sample_store).0) ≡ true)
    × ((enqueue_event (sample_event "c") 7 sample_store).1 ≡ true
        → delivery "c" (enqueue_event (sample_event "c") 7 sample_store).0
          ≡ some (new_delivery "c" 7))
    × ((enqueue_event (sample_event "c") 7 sample_store).1 ≡ false
        → (enqueue_event (sample_event "c") 7 sample_store).0 ≡ sample_store)
enqueue_event-IsOutbox_example =
    enqueue_event-IsOutbox (sample_event "c") 7 sample_store sample_store-IsOutbox

recover_inflight-IsOutbox_example :
    IsOutbox (recover_inflight sample_store).0
    × All
        (λ (d : DeliveryRow). is_sending d.state ≡ false)
        (recover_inflight sample_store).0.deliveries
    × (length (
          select
            (λ (d : DeliveryRow). is_pending d.state)
            (recover_inflight sample_store).0.deliveries)
        ≡ 1 + (recover_inflight sample_store).1)
    × ((recover_inflight sample_store).1
        ≡ length (select (λ (d : DeliveryRow). is_sending d.state) sample_store.deliveries))
    × (select is_finished (recover_inflight sample_store).0.deliveries
        ≡ select is_finished sample_store.deliveries)
recover_inflight-IsOutbox_example = recover_inflight-IsOutbox sample_store sample_store-IsOutbox

next_backoff_bounds_example :
    (5 ≤ next_backoff 2)
    × (next_backoff 2 ≤ 300)
    × (next_backoff 2 ≤ next_backoff 3)
    × (next_backoff 8 ≡ 300)
next_backoff_bounds_example = next_backoff_bounds 2

crashed_retry_example :
    (d' : DeliveryRow) × (delivery "a"
        (attempt sample_config sample_iso crashing sample_clock claimed_row 100 sample_world).store
      ≡ some d')
    × Retried sample_config sample_iso crashing sample_clock 100 20 (new_delivery "a" 1) d'
unfolding delivery find is_expired destination
crashed_retry_example =
    crashed_retry sample_config sample_iso crashing sample_clock claimed_row 100 sample_world
      "shape" (new_delivery "a" 1) (refl, refl) refl refl

refused_retry_example :
    (d' : DeliveryRow) × (delivery "a"
        (attempt sample_config sample_iso refusing sample_clock claimed_row 100 sample_world).store
      ≡ some d')
    × (d'.state ≡ failed)
unfolding delivery find is_expired destination
refused_retry_example =
    refused_retry sample_config sample_iso refusing sample_clock claimed_row 100 sample_world
      "relay" "down" (new_delivery "a" 1) (refl, refl) refl refl (λ m h e k. cc) refl
