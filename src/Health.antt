-- ===== src/Health.antt =====
-- patches/event-bridge/opc_bridge/health.py: the state of a run, and when it is an alert. A time
-- column of Paperclip may be a number, a text, or absent; numbers are whole seconds.
pub mod Silence
pub mod Alerts
pub mod Watch
pub mod Reaped
use opc_stack.Base.{
  ℕ, zero, suc, ◌+◌, ◌/◌, ◌≡◌, refl, Bool, true, false, ◌&&◌, ◌||◌, not, List, [], ◌∷◌, Option,
  none, some, ltb, leb, ◌==◌, ◌&◌, is_some, is_none, if◌then◌else◌, String, or_else,
}
use opc_stack.Config.{Config, Iso}
use opc_stack.Event.{
  Event, Issue, Digest, or_text, text_or, is_set, health_event_id, health_slow, health_stalled,
  health_lost, health_recovered,
}
use opc_stack.Store.Row.{Store, RunHealthRow}
use opc_stack.Store.Control.{run_health, set_run_health}
use opc_stack.Store.Meta.{get_origin}
use opc_stack.Store.Outbox.{enqueue_event}

pub data Stamp : Type 0 where
  absent : Stamp
  number : ℕ → Stamp
  written : String → Stamp

pub record Run : Type 0 where
  pub status : Option String
  pub agent_id : Option String
  pub issue_id : Option String
  pub finished_at : Option String
  pub silence_last_output_at : Stamp
  pub silence_level : Option String
  pub last_output_at : Stamp
  pub last_event_at : Stamp
  pub started_at : Stamp
  pub process_pid : Option ℕ
  pub track : Option String

abbrev pub read_stamp : Iso → Stamp → Option ℕ
read_stamp time absent = none
read_stamp time (number n) = some n
read_stamp time (written s) = time.parse_iso s

-- The first of the four times that can be read.
unfoldable pub progress_at : Iso → Run → Option ℕ
progress_at time run = or_else (read_stamp time run.silence_last_output_at) (
    or_else (read_stamp time run.last_output_at)
      (or_else (read_stamp time run.last_event_at) (read_stamp time run.started_at)))

abbrev pub is_stamped : Stamp → Bool
is_stamped absent = false
is_stamped (number zero) = false
is_stamped (number (suc n)) = true
is_stamped (written s) = is_set (some s)

pub data RunState : Type 0 where
  healthy slow suspected_stalled lost unknown : RunState

abbrev pub state_name : RunState → String
state_name healthy = "healthy"
state_name slow = "slow"
state_name suspected_stalled = "suspected_stalled"
state_name lost = "lost"
state_name unknown = "unknown"

-- now - at >= span, and now - at > span.
abbrev pub reached : ℕ → ℕ → ℕ → Bool
reached now at span = leb (at + span) now

abbrev pub passed : ℕ → ℕ → ℕ → Bool
passed now at span = ltb (at + span) now

-- An unknown time is infinitely long ago.
abbrev pub silent_for : ℕ → Option ℕ → ℕ → Bool
silent_for now none span = true
silent_for now (some at) span = reached now at span

abbrev pub is_over : Option String → Bool
is_over none = false
is_over (some s) = s == "done" || s == "cancelled" || s == "blocked"

abbrev pub is_held : Option String → Bool
is_held none = false
is_held (some s) = s == "paused" || s == "terminated"

-- The issue is over, and the run went on well past the grace time without a word.
unfoldable pub outlives_issue :
    ℕ → Option String → Option ℕ → Option ℕ → (slow_after grace : ℕ) → Bool
outlives_issue now issue_status none progress slow_after grace = false
outlives_issue now issue_status (some ended) progress slow_after grace =
    is_over issue_status && (passed now ended grace && silent_for now progress slow_after)

abbrev pub is_abnormal_level : Option String → Bool
is_abnormal_level level = text_or level "" == "suspicious" || text_or level "" == "critical"

abbrev pub has_pid : Option ℕ → Bool
has_pid none = false
has_pid (some zero) = false
has_pid (some (suc n)) = true

unfoldable pub stalled_state : Run → RunState
stalled_state run =
    if is_abnormal_level run.silence_level
    then suspected_stalled
    else if has_pid run.process_pid || is_stamped run.silence_last_output_at
    then slow
    else unknown

-- The end of `classify`, for a run with a known time of progress.
unfoldable pub by_age : Run → ℕ → ℕ → (slow_after stall_after : ℕ) → RunState
unfolding stalled_state
by_age run progress now slow_after stall_after =
    if reached now progress stall_after
    then stalled_state run
    else if reached now progress slow_after
    then slow
    else healthy

unfoldable pub by_progress :
    Run → Option ℕ → Option String → ℕ → (slow_after stall_after : ℕ) → RunState
unfolding by_age
by_progress run none agent_status now slow_after stall_after = unknown
by_progress run (some progress) agent_status now slow_after stall_after =
    if is_held agent_status && reached now progress slow_after
    then lost
    else by_age run progress now slow_after stall_after

-- `classify` with the time of progress worked out: `last_output_at`, or else `_progress_at(run)`.
unfoldable pub classify_by :
    Run
    → Option ℕ
    → Option String
    → ℕ
    → (slow_after stall_after : ℕ) → Option String
    → Option ℕ
    → ℕ
    → RunState
unfolding outlives_issue by_progress
classify_by run progress agent_status now slow_after stall_after issue_status issue_terminal_at
      grace =
    if not (text_or run.status "" == "running")
    then healthy
    else if is_set run.finished_at
    then lost
    else if outlives_issue now issue_status issue_terminal_at progress slow_after grace
    then lost
    else by_progress run progress agent_status now slow_after stall_after

unfoldable pub classify :
    Iso
    → Run
    → Option ℕ
    → Option String
    → ℕ
    → (slow_after stall_after : ℕ) → Option String
    → Option ℕ
    → ℕ
    → RunState
unfolding classify_by progress_at
classify time run last_output_at = classify_by run (or_else last_output_at (progress_at time run))

abbrev pub kind_of : RunState → String
kind_of slow = health_slow
kind_of suspected_stalled = health_stalled
kind_of lost = health_lost
kind_of healthy = health_recovered
kind_of unknown = ""

abbrev pub is_alert : RunState → Bool
is_alert slow = true
is_alert suspected_stalled = true
is_alert lost = true
is_alert healthy = false
is_alert unknown = false

abbrev pub previous_state : Option RunHealthRow → Option String
previous_state none = none
previous_state (some row) = some row.state

abbrev pub same_state : Option String → String → Bool
same_state none t = false
same_state (some s) t = s == t

abbrev pub is_due_again : Option RunHealthRow → ℕ → ℕ → Bool
is_due_again none now reminder = true
is_due_again (some row) now reminder = elim row.last_notified_at [
  | none ↦ true
  | some at ↦ reached now at reminder
]

abbrev pub count_of : Option RunHealthRow → ℕ
count_of none = 0
count_of (some row) = row.notify_count

abbrev pub notified_of : Option RunHealthRow → Option ℕ
notified_of none = none
notified_of (some row) = row.last_notified_at

module _ (cfg : Config) (time : Iso) (digest : Digest) (show_number : ℕ → String) where
  -- `event_type.rsplit('.', 1)[-1]` of the four kinds.
  abbrev last_word : String → String
  last_word kind =
      if kind == health_slow
      then "slow"
      else if kind == health_stalled
      then "stalled"
      else if kind == health_lost
      then "lost"
      else "recovered"

  abbrev pub origin_of : Option String → Store → Option String × Option String
  origin_of none s = (none, none)
  origin_of (some issue_id) s = elim (get_origin issue_id s) [ none ↦ (none, none) | some o ↦ o ]

  -- The event of an alert; one kind of alert of a run has one id within a reminder's interval.
  unfoldable pub health_event : String → Run → Option Issue → String → ℕ → Store → Event
  health_event run_id run issue kind now s =
      let own : Option String = elim issue [ none ↦ none | some i ↦ some i.id ] in
      let named : String = text_or (or_text run.issue_id own) "" in
      let issue_id : Option String = if named == "" then none else some named in
      record {
        schema_version = 1;
        event_id =
            health_event_id digest run_id kind (show_number (now / cfg.health_reminder_seconds));
        event_type = kind;
        source = "opc";
        company_id = text_or cfg.company_id "";
        project_id = elim issue [ none ↦ none | some i ↦ i.project_id ];
        issue_id = issue_id;
        issue_identifier = elim issue [ none ↦ none | some i ↦ i.identifier ];
        run_id = some run_id;
        status = some (text_or run.status "");
        occurred_at = time.iso now;
        observed_at = time.iso now;
        artifact_url = none;
        origin_channel_id = (origin_of issue_id s).0;
        origin_event_id = (origin_of issue_id s).1;
        correlation_id = run_id & "-" & last_word kind;
        track = text_or run.track "unknown";
        issue_title = elim issue [ none ↦ none | some i ↦ i.title ];
      }

  unfoldable pub emit : String → Run → Option Issue → String → ℕ → Store → Store × Bool
  emit run_id run issue kind now s = enqueue_event (health_event run_id run issue kind now s) now s

  -- A first sight is written down with its own state before anything else.
  unfoldable pub first_sight : String → RunState → ℕ → Store → Store
  first_sight run_id state now s =
      if is_none (run_health run_id s)
      then set_run_health run_id (state_name state) now none 0 (some now) s
      else s

  -- `_apply` for a state that is an alert; `row` is the row as it is read back.
  unfoldable pub raise_alert :
      String → RunState → Run → Option Issue → ℕ → Option String → Store → Store × Bool
  unfolding emit
  raise_alert run_id state run issue now previous s =
      let row = run_health run_id s in
      if not (same_state previous (state_name state))
        || is_due_again row now cfg.health_reminder_seconds
      then emit run_id run issue (kind_of state) now (
          set_run_health run_id (state_name state) now (some now) (suc (count_of row)) (some now) s)
      else (
        set_run_health run_id (state_name state) now (notified_of row) (count_of row) (some now) s,
        false,
      )

  unfoldable pub clear_alert :
      String → Run → Option Issue → ℕ → Option String → Store → Store × Bool
  unfolding emit
  clear_alert run_id run issue now previous s =
      if is_some previous && not (same_state previous "healthy" || same_state previous "")
      then emit run_id run issue health_recovered now
          (set_run_health run_id "healthy" now none 0 (some now) s)
      else (s, false)

  unfoldable pub apply_from :
      String → RunState → Run → Option Issue → ℕ → Option String → Store → Store × Bool
  unfolding raise_alert clear_alert
  apply_from run_id healthy run issue now previous s = clear_alert run_id run issue now previous s
  apply_from run_id unknown run issue now previous s = (s, false)
  apply_from run_id state run issue now previous s =
      raise_alert run_id state run issue now previous s

  unfoldable pub apply : String → RunState → Run → Option Issue → ℕ → Store → Store × Bool
  unfolding apply_from first_sight
  apply run_id state run issue now s =
      apply_from run_id state run issue now (previous_state (run_health run_id s))
        (first_sight run_id state now s)
