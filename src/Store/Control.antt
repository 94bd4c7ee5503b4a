-- ===== src/Store/Control.antt =====
-- The methods of store.py on the track_state, agent_pause_ledger and run_health tables.
use opc_stack.Base.{ℕ, Bool, ◌||◌, List, Option, none, some, or_else, String, ◌==◌, select}
use opc_stack.Base.Table.{find, update, upsert}
use opc_stack.Store.Row.{Store, TrackStateRow, LedgerRow, RunHealthRow}

abbrev pub track_key : TrackStateRow → String
track_key row = row.track

abbrev pub ledger_key : LedgerRow → String
ledger_key row = row.agent_id

abbrev pub run_key : RunHealthRow → String
run_key row = row.run_id

unfoldable pub track_state : String → Store → Option TrackStateRow
track_state track s = find track_key track s.track_states

unfoldable pub set_track_state : TrackStateRow → Store → Store
set_track_state row s = record s {
  track_states = upsert track_key (λ old new. record new { track = old.track }) row s.track_states;
}

-- The conflict branch takes the new row and opens it again (`released_at=NULL`).
unfoldable pub ledger_put :
    (agent_id track status lifecycle holds : String) → Option String → String → Store → Store
ledger_put agent_id track status lifecycle holds event_id at s = record s {
  ledger =
      upsert ledger_key (λ old new. record new { agent_id = old.agent_id })
        (record {
          agent_id = agent_id;
          track = track;
          original_status = status;
          original_lifecycle_state = lifecycle;
          original_holds = holds;
          paused_at = at;
          paused_by_event = event_id;
          released_at = none;
        })
        s.ledger;
}

unfoldable pub ledger_get : String → Store → Option LedgerRow
ledger_get agent_id s = find ledger_key agent_id s.ledger

unfoldable pub ledger_release : String → String → Store → Store
ledger_release agent_id at s = record s {
  ledger = update ledger_key agent_id (λ row. record row { released_at = some at }) s.ledger;
}

abbrev pub is_abnormal : String → Bool
is_abnormal state = state == "slow" || state == "suspected_stalled" || state == "lost"

unfoldable pub abnormal_run_health : Store → List RunHealthRow
abnormal_run_health s = select (λ (row : RunHealthRow). is_abnormal row.state) s.run_healths

unfoldable pub run_health : String → Store → Option RunHealthRow
run_health run_id s = find run_key run_id s.run_healths

abbrev pub merge_run_health : RunHealthRow → RunHealthRow → RunHealthRow
merge_run_health old new = record old {
  state = new.state;
  first_abnormal_at = or_else old.first_abnormal_at new.first_abnormal_at;
  last_notified_at = new.last_notified_at;
  notify_count = new.notify_count;
  updated_at = new.updated_at;
}

unfoldable pub set_run_health :
    (run_id state : String) → ℕ → Option ℕ → ℕ → Option ℕ → Store → Store
set_run_health run_id state updated_at last_notified_at notify_count first_abnormal_at s =
    record s {
      run_healths =
          upsert run_key merge_run_health
            (record {
              run_id = run_id;
              track = "unknown";
              state = state;
              first_abnormal_at = first_abnormal_at;
              last_notified_at = last_notified_at;
              notify_count = notify_count;
              last_progress_at = first_abnormal_at;
              updated_at = updated_at;
            })
            s.run_healths;
    }
