-- ===== src/Poller/Observe.antt =====
-- The observation of an issue (poller.py): its event, the violations of the track policy, and the
-- pages of changed issues after the cursor.
use opc_stack.Base.{
  ◌-◌, String, ◌&◌, ℕ, zero, suc, ◌+◌, not, ◌&&◌, ◌||◌, List, [], ◌∷◌, Option, none, some, ◌==◌,
  if◌then◌else◌, length, ltb, select, text_ltb, or_else,
}
use opc_stack.Base.Table.{contains}
use opc_stack.Base.Text.{starts_with, partition_colon}
use opc_stack.Base.Proc.{or_raise, give, fold_each, ◌>>=◌, ◌>>◌}
use opc_stack.Event.{
  Issue, Event, text_or, or_text, terminal_ts, terminal_type, classify_issue, issue_completed,
  issue_event_id, health_event_id, policy_violation,
}
use opc_stack.Label.{track_of}
use opc_stack.Store.Row.{Store, IssueStateRow}
use opc_stack.Store.Meta.{
  get_origin, get_issue_state, upsert_issue_state, cursor, bootstrap_at, set_cursor,
}
use opc_stack.Poller.{
  Act, Setting, ask, get_company, issues_updated_since, in_store, from_store, read_clock, enqueue,
  page_size, max_pages, poll_overlap_seconds,
}
use opc_stack.Poller.Labels.{names_of, agent_of, issue_track}
use opc_stack.Poller.Origin.{resolve_origin, comments, extract_artifact}

abbrev pub first_of : Option (Option String × Option String) → Option String
first_of none = none
first_of (some origin) = origin.0

abbrev pub second_of : Option (Option String × Option String) → Option String
second_of none = none
second_of (some origin) = origin.1

-- The elements of a set, once each.
unfoldable pub once_each : List String → List String
once_each [] = []
once_each (x ∷ xs) = let rest = once_each xs in if contains x rest then rest else x ∷ rest

abbrev pub track_labels : List String → List String
track_labels names = once_each (select (starts_with "track:") names)

-- The row that `_observe_issue` gives to `classify_issue` for the issue as it was last seen.
unfoldable pub as_seen : IssueStateRow → Issue
as_seen row = record {
  id = row.issue_id;
  identifier = row.identifier;
  project_id = row.project_id;
  title = none;
  status = row.status;
  completed_at = row.terminal_ts;
  cancelled_at = row.terminal_ts;
  blocked_transition_at = row.terminal_ts;
  updated_at = row.terminal_ts;
  created_at = none;
  assignee_agent_id = none;
  label_ids = [];
  track = none;
}

abbrev pub late_type : Option String → Option String → String → Option String
late_type none watermark seen_at = none
late_type (some event_type) none seen_at = none
late_type (some event_type) (some watermark) seen_at =
    if not (seen_at == "") && text_ltb watermark seen_at then some event_type else none

-- A terminal issue at first sight is an event when it was made after the bridge.
unfoldable pub late_terminal_type : Issue → Store → Option String
late_terminal_type issue s =
    late_type (terminal_type (text_or issue.status "")) (bootstrap_at s)
      (text_or (or_text issue.created_at issue.updated_at) "")

abbrev pub observed_type : Issue → Option IssueStateRow → Store → Option String
observed_type issue none s = or_else (classify_issue none issue) (late_terminal_type issue s)
observed_type issue (some previous) s = classify_issue (some (as_seen previous)) issue

abbrev pub later : String → String → String
later latest updated = if not (updated == "") && text_ltb latest updated then updated else latest

abbrev pub move_cursor : String → String → Act (Unit {0})
move_cursor from latest = if latest == from then give tt else in_store (set_cursor latest none)

module _ (w : Setting) where
  abbrev pub company : Act String
  company = ask get_company w.pc.company

  -- An artifact is announced with a completed issue only.
  unfoldable pub artifact_of : Issue → String → Act (Option String)
  artifact_of issue event_type =
      if event_type == issue_completed
      then (comments w issue.id >>= λ found. give (extract_artifact found))
      else give none

  unfoldable pub issue_event : Issue → String → ℕ → Act Event
  issue_event issue event_type now =
      let status = text_or issue.status "" in
      let occurred = text_or (terminal_ts issue) (text_or issue.updated_at (w.time.iso now)) in
      do
        origin ← resolve_origin w issue.id
        artifact ← artifact_of issue event_type
        owner ← company
        track ← issue_track w issue
        give (record {
          schema_version = 1;
          event_id = issue_event_id w.digest issue.id status occurred;
          event_type = event_type;
          source = "paperclip";
          company_id = owner;
          project_id = issue.project_id;
          issue_id = some issue.id;
          issue_identifier = issue.identifier;
          run_id = none;
          status = some status;
          occurred_at = occurred;
          observed_at = w.time.iso now;
          artifact_url = artifact;
          origin_channel_id = origin.0;
          origin_event_id = origin.1;
          correlation_id = text_or issue.identifier issue.id & "-" & status;
          track = track;
          issue_title = issue.title;
        })

  abbrev pub violation :
      Issue → String → ℕ → String → Option (Option String × Option String) → Event
  violation issue reason now owner origin = record {
    schema_version = 1;
    event_id = health_event_id w.digest issue.id ("policy_" & reason) "0";
    event_type = policy_violation;
    source = "opc";
    company_id = owner;
    project_id = issue.project_id;
    issue_id = some issue.id;
    issue_identifier = issue.identifier;
    run_id = none;
    status = some reason;
    occurred_at = text_or issue.updated_at (w.time.iso now);
    observed_at = w.time.iso now;
    artifact_url = none;
    origin_channel_id = first_of origin;
    origin_event_id = second_of origin;
    correlation_id = text_or issue.identifier issue.id & "-" & reason;
    track = "unknown";
    issue_title = issue.title;
  }

  unfoldable pub report_violation : Issue → String → Act (Unit {0})
  report_violation issue reason = do
    now ← read_clock w
    owner ← company
    origin ← from_store (get_origin issue.id)
    _ ← enqueue (violation issue reason now owner origin) now
    give tt

  -- An issue with one track label, against the track of its agent.
  abbrev pub check_agent : Issue → String → String → Act (Unit {0})
  check_agent issue label_track agent_track =
      if (agent_track == "core" || agent_track == "lab") && not (agent_track == label_track)
      then report_violation issue "cross_track_assignment"
      else give tt

  abbrev pub check_tracks : Issue → List String → Act (Unit {0})
  check_tracks issue [] = give tt
  check_tracks issue (name ∷ []) = do
    agent ← agent_of w issue
    check_agent issue (partition_colon name).1 (track_of [] agent)
  check_tracks issue (a ∷ b ∷ more) = report_violation issue "conflicting_track"

  unfoldable pub check_track_conflict : Issue → Act (Unit {0})
  check_track_conflict issue = do names ← names_of w issue; check_tracks issue (track_labels names)

  abbrev pub enqueue_issue : Issue → Option String → ℕ → Act ℕ
  enqueue_issue issue none now = give 0
  enqueue_issue issue (some event_type) now = do
    event ← issue_event issue event_type now
    enqueue event now

  unfoldable pub observe_issue : Issue → ℕ → Act ℕ
  observe_issue issue now = do
    previous ← from_store (get_issue_state issue.id)
    check_track_conflict issue
    event_type ← from_store (observed_type issue previous)
    emitted ← enqueue_issue issue event_type now
    in_store (upsert_issue_state issue)
    give emitted

  -- The pages of issues changed since an instant, at most `n` of them: an empty page or a short one
  -- is the last. `each` is the body of the loop over the rows of a page.
  unfoldable pub each_page {ℓ} :
      {A : Type ℓ} → (A → Issue → Act A) → String → (n offset : ℕ) → A → Act A
  each_page each since zero offset acc = give acc
  each_page each since (suc n) offset acc =
      ask (issues_updated_since since page_size offset)
        (λ calls. w.pc.issues_updated_since calls since page_size offset)
      >>= λ rows. fold_each each rows acc >>= λ next.
          if ltb (length rows) page_size
          then give next
          else each_page each since n (offset + page_size) next

  abbrev pub observe_row : ℕ → ℕ × String → Issue → Act (ℕ × String)
  observe_row now (emitted, latest) issue = do
    n ← observe_issue issue now
    give (emitted + n, later latest (text_or issue.updated_at ""))

  unfoldable pub poll_transitions : ℕ → Act ℕ
  poll_transitions now = do
    held ← from_store cursor
    let from = text_or held (w.time.iso now)
    at ← λ s. (s, or_raise (w.time.parse_iso from))
    found ←
        each_page (observe_row now) (w.time.iso (at - poll_overlap_seconds)) max_pages 0 (0, from)
    move_cursor from found.1
    give found.0
