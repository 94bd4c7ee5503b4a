-- ===== src/Event.antt =====
-- patches/event-bridge/opc_bridge/events.py: the versioned events, their ids and their tags, and
-- which change of an issue is an event. An issue is the row that Paperclip's API answers with; a
-- column that may be missing or null is an `Option`.
pub mod Transition
pub mod Message
use opc_stack.Base.{
  String, ℕ, ◌&◌, ◌≡◌, Bool, true, false, List, [], ◌∷◌, Option, none, some, ◌==◌, if◌then◌else◌,
}

-- Python's `a or b` on a text or None: an empty text counts as absent.
abbrev pub or_text : Option String → Option String → Option String
or_text none b = b
or_text (some a) b = if a == "" then b else some a

-- `str(a or default)`
abbrev pub text_or : Option String → String → String
text_or none d = d
text_or (some a) d = if a == "" then d else a

-- `bool(a)` of a text or None.
abbrev pub is_set : Option String → Bool
is_set none = false
is_set (some a) = if a == "" then false else true

abbrev pub same_text : Option String → Option String → Bool
same_text none none = true
same_text none (some b) = false
same_text (some a) none = false
same_text (some a) (some b) = a == b

pub record Issue : Type 0 where
  pub id : String
  pub identifier : Option String
  pub project_id : Option String
  pub title : Option String
  pub status : Option String
  pub completed_at : Option String
  pub cancelled_at : Option String
  pub blocked_transition_at : Option String
  pub updated_at : Option String
  pub created_at : Option String
  pub assignee_agent_id : Option String
  pub label_ids : List String
  pub track : Option String

abbrev pub issue_completed : String
issue_completed = "paperclip.issue.completed"

abbrev pub issue_blocked : String
issue_blocked = "paperclip.issue.blocked"

abbrev pub issue_cancelled : String
issue_cancelled = "paperclip.issue.cancelled"

abbrev pub issue_failed : String
issue_failed = "paperclip.issue.failed"

abbrev pub health_slow : String
health_slow = "opc.run.slow"

abbrev pub health_stalled : String
health_stalled = "opc.run.stalled"

abbrev pub health_lost : String
health_lost = "opc.run.lost"

abbrev pub health_recovered : String
health_recovered = "opc.run.recovered"

abbrev pub admission_cancelled : String
admission_cancelled = "opc.run.admission_cancelled"

abbrev pub policy_violation : String
policy_violation = "opc.policy.violation"

pub record Event : Type 0 where
  pub schema_version : ℕ
  pub event_id : String
  pub event_type : String
  pub source : String
  pub company_id : String
  pub project_id : Option String
  pub issue_id : Option String
  pub issue_identifier : Option String
  pub run_id : Option String
  pub status : Option String
  pub occurred_at : String
  pub observed_at : String
  pub artifact_url : Option String
  pub origin_channel_id : Option String
  pub origin_event_id : Option String
  pub correlation_id : String
  pub track : String
  pub issue_title : Option String

-- `digest` is the truncated SHA-256 of the source, an argument here.
abbrev pub Digest : Type 0
Digest = String → String

unfoldable pub issue_event_id : Digest → String → String → String → String
issue_event_id digest issue_id status terminal_ts =
    digest ("issue|" & issue_id & "|" & status & "|" & terminal_ts)

unfoldable pub run_event_id : Digest → String → String → String
run_event_id digest run_id status = digest ("run|" & run_id & "|" & status)

unfoldable pub health_event_id : Digest → String → String → String → String
health_event_id digest run_id kind bucket = digest ("health|" & run_id & "|" & kind & "|" & bucket)

-- The timestamp that makes a terminal observation unique.
unfoldable pub terminal_ts : Issue → Option String
terminal_ts issue =
    if same_text issue.status (some "done")
    then issue.completed_at
    else if same_text issue.status (some "cancelled")
    then issue.cancelled_at
    else if same_text issue.status (some "blocked")
    then or_text issue.blocked_transition_at issue.updated_at
    else none

-- `_TERMINAL.get(status)`
unfoldable pub terminal_type : String → Option String
terminal_type status =
    if status == "done"
    then some issue_completed
    else if status == "blocked"
    then some issue_blocked
    else if status == "cancelled"
    then some issue_cancelled
    else none

-- `str(status)`, and the same in an f-string.
abbrev pub status_text : Option String → String
status_text none = "None"
status_text (some s) = s

-- The event type of a transition, if it is one. `none` for the previous row is a first sight.
unfoldable pub classify_issue : Option Issue → Issue → Option String
classify_issue none issue = none
classify_issue (some previous) issue =
    if same_text issue.status previous.status
    then (if same_text issue.status (some "blocked")
        then (if same_text (terminal_ts issue) (terminal_ts previous)
            then none
            else some issue_blocked)
        else none)
    else terminal_type (status_text issue.status)

pub record Tag : Type 0 where
  pub name : String
  pub value : String

unfoldable pub event_tags : Event → List Tag
event_tags event =
    record { name = "opc-event"; value = event.event_id }
    ∷ record { name = "opc-event-type"; value = event.event_type }
    ∷ record { name = "opc-track"; value = if event.track == "" then "unknown" else event.track }
    ∷ (if is_set (or_text event.issue_identifier event.issue_id)
        then record {
          name = "opc-issue";
          value = text_or event.issue_identifier (text_or event.issue_id "");
        }
          ∷ []
        else [])
