-- ===== src/Store/Row.antt =====
-- The tables of patches/event-bridge/opc_bridge/store.py (`_SCHEMA_SQL`), a record for a row. The
-- payload of an event is the event itself: its JSON text is written by `json.dumps` and read by
-- `json.loads`. The audit's running number is its place, and its wall-clock stamp is not kept.
use opc_stack.Base.{String, ℕ, Bool, List, [], Option, none}
use opc_stack.Event.{Event}
use opc_stack.Policy.Json.{Value}

pub record MetaRow : Type 0 where
  pub key : String
  pub value : String

pub record CursorRow : Type 0 where
  pub updated_since : Option String
  pub bootstrapped_at : Option String

pub record IssueStateRow : Type 0 where
  pub issue_id : String
  pub identifier : Option String
  pub project_id : Option String
  pub status : Option String
  pub terminal_ts : Option String
  pub track : Option String
  pub updated_at : String

pub record OriginRow : Type 0 where
  pub issue_id : String
  pub channel_id : Option String
  pub event_id : Option String
  pub resolved_at : String

pub record EventRow : Type 0 where
  pub payload : Event
  pub created_at : ℕ

-- pending -> sending -> sent | fallback_sent | failed | expired
pub data DeliveryState : Type 0 where
  pending sending sent fallback_sent failed expired : DeliveryState

pub record DeliveryRow : Type 0 where
  pub event_id : String
  pub state : DeliveryState
  pub attempts : ℕ
  pub next_attempt_at : ℕ
  pub last_error : Option String
  pub buzz_event_id : Option String
  pub updated_at : ℕ

pub record RunHealthRow : Type 0 where
  pub run_id : String
  pub track : String
  pub state : String
  pub first_abnormal_at : Option ℕ
  pub last_notified_at : Option ℕ
  pub notify_count : ℕ
  pub last_progress_at : Option ℕ
  pub updated_at : ℕ

pub record PolicyRow : Type 0 where
  pub id : String
  pub scope_kind : String
  pub scope_id : String
  pub key : String
  pub value : Value
  pub priority : ℕ
  pub created_by : String
  pub reason : String
  pub source_event_id : Option String
  pub created_at : String
  pub expires_at : Option String
  pub revoked_at : Option String

pub record MandateRow : Type 0 where
  pub id : String
  pub scope_kind : String
  pub scope_id : String
  pub style : String
  pub track : String
  pub allowed : List String
  pub restricted : List String
  pub followups_allowed : Bool
  pub max_followups_per_day : Option ℕ
  pub review_policy : String
  pub created_by : String
  pub source_event_id : Option String
  pub created_at : String
  pub expires_at : Option String
  pub revoked_at : Option String
  pub revoked_by : Option String
  pub reason : String

pub record TrackStateRow : Type 0 where
  pub track : String
  pub desired : String
  pub state : String
  pub changed_by : String
  pub reason : String
  pub source_event_id : Option String
  pub changed_at : String

pub record LedgerRow : Type 0 where
  pub agent_id : String
  pub track : String
  pub original_status : String
  pub original_lifecycle_state : String
  pub original_holds : String
  pub paused_at : String
  pub paused_by_event : Option String
  pub released_at : Option String

pub record AuthUseRow : Type 0 where
  pub event_id : String
  pub used_at : String
  pub action : String

pub record AuditRow : Type 0 where
  pub actor : String
  pub action : String
  pub target : Option String
  pub detail : List (String × Value)
  pub source_event_id : Option String

-- The database. The cursor table holds at most the row with id 1.
pub record Store : Type 0 where
  pub metas : List MetaRow
  pub cursor_row : Option CursorRow
  pub issue_states : List IssueStateRow
  pub origins : List OriginRow
  pub events : List EventRow
  pub deliveries : List DeliveryRow
  pub run_healths : List RunHealthRow
  pub policies : List PolicyRow
  pub mandates : List MandateRow
  pub track_states : List TrackStateRow
  pub ledger : List LedgerRow
  pub auth_uses : List AuthUseRow
  pub audits : List AuditRow

abbrev pub empty : Store
empty = record {
  metas = [];
  cursor_row = none;
  issue_states = [];
  origins = [];
  events = [];
  deliveries = [];
  run_healths = [];
  policies = [];
  mandates = [];
  track_states = [];
  ledger = [];
  auth_uses = [];
  audits = [];
}
