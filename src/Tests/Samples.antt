-- ===== src/Tests/Samples.antt =====
-- A configuration, a clock, and a store with three deliveries.
use opc_stack.Base.{
  arith, ℕ, ◌≡◌, refl, ◌≢◌, true, false, [], ◌∷◌, none, some, ◌==◌, eq_iff, String,
}
use opc_stack.Config.{Config, Iso}
use opc_stack.Event.{Event, issue_completed}
use opc_stack.Store.Row.{Store, DeliveryRow, sent, empty}
use opc_stack.Store.Outbox.{new_delivery}
use opc_stack.Store.Integrity.{IsOutbox}
use opc_stack.Deliver.{Buzz, accepted, refused, crashed, World}

abbrev pub sample_config : Config
sample_config = record {
  public_url = "http://board";
  company_id = some "acme";
  reconcile_lookback_hours = 24;
  cutover_lookback_hours = 0;
  max_attempts = 12;
  max_age_hours = 168;
  run_sweep_limit = 100;
  run_sweep_overlap_seconds = 300;
  adaptive_enabled = true;
  adaptive_window_seconds = 3600;
  adaptive_min_runs = 5;
  adaptive_min_seconds = 600;
  adaptive_drift_points = 15;
  adaptive_hold_seconds = 1800;
  fallback_channel = none;
  control_channel = none;
  command_max_age_seconds = 900;
  operator_pubkey = "owner";
  core_selectors = "role:engineer" ∷ [];
  lab_selectors = "name:Prototyper" ∷ "name:Scientist" ∷ [];
  slot_budget = 6;
  slow_seconds = 900;
  stall_seconds = 1800;
  terminal_grace_seconds = 120;
  health_reminder_seconds = 1800;
}

-- Every instant is printed alike, and no text is read as an instant: an event never expires.
abbrev pub sample_iso : Iso
sample_iso = record { iso = λ n. "2026-01-01T00:00:00.000Z"; parse_iso = λ s. none }

abbrev pub sample_event : String → Event
sample_event id = record {
  schema_version = 1;
  event_id = id;
  event_type = issue_completed;
  source = "paperclip";
  company_id = "acme";
  project_id = none;
  issue_id = some "i1";
  issue_identifier = some "OPC-1";
  run_id = none;
  status = some "done";
  occurred_at = "2026-01-01T00:00:00.000Z";
  observed_at = "2026-01-01T00:00:00.000Z";
  artifact_url = none;
  origin_channel_id = some "c1";
  origin_event_id = none;
  correlation_id = "OPC-1-done";
  track = "core";
  issue_title = none;
}

abbrev pub sent_delivery : DeliveryRow
sent_delivery = record {
  event_id = "b";
  state = sent;
  attempts = 0;
  next_attempt_at = 0;
  last_error = none;
  buzz_event_id = some "m0";
  updated_at = 5;
}

abbrev pub sample_store : Store
sample_store = record empty {
  events =
      record { payload = sample_event "a"; created_at = 1 }
      ∷ record { payload = sample_event "b"; created_at = 2 }
      ∷ [];
  deliveries = new_delivery "a" 1 ∷ sent_delivery ∷ [];
}

abbrev pub sample_world : World
sample_world = record { store = sample_store; messages = [] }

abbrev pub sample_clock : World → ℕ
sample_clock w = 100

abbrev pub accepting : Buzz
accepting history m = accepted "m1"

abbrev pub refusing : Buzz
refusing history m = refused "relay" "down"

abbrev pub crashing : Buzz
crashing history m = crashed "shape"

pub text_ne : (s t : String) → (s == t) ≡ false → s ≢ t
text_ne s t h e = ground (arith, eq_iff s t)

pub sample_store-IsOutbox : IsOutbox sample_store
sample_store-IsOutbox = record { paired = refl; distinct = ((text_ne "a" "b" refl, tt), (tt, tt)) }
