-- ===== src/Tests/Watching.antt =====
-- The poller on a board with one issue.
use opc_stack.Base.{
  ℕ, ◌≡◌, refl, true, List, [], ◌∷◌, Option, none, some, String, if◌then◌else◌, eqb, is_some,
}
use opc_stack.Base.Table.{find, upsert}
use opc_stack.Base.Dict.{put, get}
use opc_stack.Base.Text.{starts_with, is_space, lstrip}
use opc_stack.Base.Proc.{give, ◌>>◌, ◌>>=◌, ok, fold_each}
use opc_stack.Base.Ends.{EndsIn}
use opc_stack.Config.{Iso}
use opc_stack.Event.{Issue, text_or, terminal_ts, terminal_type, classify_issue, issue_event_id}
use opc_stack.Label.{track_of, track_from_agent}
use opc_stack.Store.Outbox.{find_event, delivery, enqueue_event}
use opc_stack.Store.Meta.{
  cursor, bootstrap_at, get_issue_state, upsert_issue_state, get_origin, set_origin,
}
use opc_stack.Poller.{in_store, Paperclip, Setting, PollerState, Comment}
use opc_stack.Poller.Labels.{
  ensure_labels, label_names_by_id, agents_map, agents_of, names_of, agent_of, issue_track,
  ids_by_name, names_by_id,
}
use opc_stack.Poller.Pattern.{
  anchor_marker, channel_marker, search_marker, marker_value, after_prefix, span, size, is_uuid,
  find_from, github_repo, port_url,
}
use opc_stack.Poller.Origin.{
  resolve_origin, comments, marker, trusted_marker_author, extract_artifact, after_slashes, before,
  first_link, host_of, is_forge, preview_link, repo_link, same_lower, strip_marks,
}
use opc_stack.Poller.Observe.{
  observe_issue, check_track_conflict, once_each, late_terminal_type, as_seen, issue_event,
  artifact_of, each_page, poll_transitions,
}
use opc_stack.Poller.Recover.{tick, reconcile, backfill, backfill_labels, recover}
use opc_stack.Store.Extends.{Extends}
use opc_stack.Poller.Outbox.{poller-Extends}
use opc_stack.Poller.Cursor.{Forward, poll_transitions-Forward}
use opc_stack.Poller.Once.{resolve_origin-Once, observe_issue-Once}
use opc_stack.Poller.Missed.{done, here, recover_id, recover-Complete}
use opc_stack.Tests.Samples.{sample_config, sample_store, sample_store-IsOutbox}
use mathlib.Core.List.Memᴰ.{head}

abbrev board_time : Iso
board_time = record { iso = λ n. "2026-01-01T00:00:00.000Z"; parse_iso = λ s. some 1000 }

abbrev done_issue : Issue
done_issue = record {
  id = "i7";
  identifier = some "OPC-7";
  project_id = none;
  title = some "Seven";
  status = some "done";
  completed_at = some "2026-01-02T00:00:00.000Z";
  cancelled_at = none;
  blocked_transition_at = none;
  updated_at = some "2026-01-02T00:00:00.000Z";
  created_at = some "2026-01-01T12:00:00.000Z";
  assignee_agent_id = none;
  label_ids = [];
  track = none;
}

abbrev board_page : ℕ → List Issue
board_page offset = if eqb offset 0 then done_issue ∷ [] else []

abbrev marked_comment : Comment
marked_comment = record {
  author_type = some "user";
  body = some "BUZZ_CHANNEL: 01234567-89ab-cdef-0123-456789abcdef";
}

abbrev board : Paperclip
board = record {
  labels = λ calls. some [];
  create_label = λ calls name color. some (some name);
  agents = λ calls. some [];
  company = λ calls. some "acme";
  issues_with_status = λ calls status limit. some [];
  issues_updated_since = λ calls since limit offset. some (board_page offset);
  heartbeat_runs = λ calls limit. none;
  run = λ calls id. none;
  issue = λ calls id. none;
  comments = λ calls id. some (marked_comment ∷ []);
  patch_labels = λ calls id ids. some tt;
}

abbrev watching : Setting
watching = record {
  cfg = sample_config;
  time = board_time;
  digest = λ s. s;
  pc = board;
  clock = λ n. n;
}

abbrev before_pass : PollerState
before_pass = record {
  store = sample_store;
  comments_cache = [];
  label_names = none;
  agents_by_id = none;
  calls = [];
  clock_reads = 0;
}

poller-Extends_example :
    Extends sample_store (tick watching none before_pass).0.store
    × Extends sample_store (reconcile watching none before_pass).0.store
    × Extends sample_store (backfill watching "2026" none before_pass).0.store
    × Extends sample_store (backfill_labels watching before_pass).0.store
poller-Extends_example = poller-Extends watching "2026" none before_pass sample_store-IsOutbox

abbrev resolved : PollerState
resolved = (resolve_origin watching "i7" before_pass).0

abbrev marked_origin : Option String × Option String
marked_origin = (some "01234567-89ab-cdef-0123-456789abcdef", none)

resolve_origin-Once_example :
    resolve_origin watching "i7" (record resolved { comments_cache = [] })
    ≡ (record resolved { comments_cache = [] }, ok marked_origin)
unfolding resolve_origin get_origin set_origin find upsert comments get put marker
    trusted_marker_author channel_marker search_marker marker_value after_prefix span size lstrip
    is_space is_uuid anchor_marker
resolve_origin-Once_example =
    resolve_origin-Once watching "i7" before_pass resolved marked_origin refl
      (record resolved { comments_cache = [] }) refl

-- The issue was in progress when it was last seen.
abbrev seen_before : PollerState
seen_before = record before_pass {
  store = upsert_issue_state (record done_issue { status = some "in_progress" }) sample_store;
}

abbrev observed : PollerState
observed = (observe_issue watching done_issue 50 seen_before).0

observe_issue-Once_example :
    observe_issue watching done_issue 60 observed
    ≡ (check_track_conflict watching done_issue >>= λ _.
          in_store (upsert_issue_state done_issue) >> give 0)
        observed
unfolding observe_issue check_track_conflict once_each as_seen classify_issue starts_with
    get_issue_state late_terminal_type bootstrap_at each_page fold_each terminal_type issue_event
    resolve_origin get_origin find upsert_issue_state comments get artifact_of put issue_track
    names_of agent_of agents_map enqueue_event upsert is_space lstrip issue_event_id terminal_ts
    track_from_agent track_of agents_of ensure_labels ids_by_name label_names_by_id names_by_id
    after_slashes before extract_artifact first_link host_of is_forge marker preview_link repo_link
    same_lower strip_marks trusted_marker_author after_prefix anchor_marker channel_marker find_from
    github_repo is_uuid marker_value port_url search_marker size span set_origin delivery
observe_issue-Once_example =
    observe_issue-Once watching done_issue 50 1 seen_before observed refl 60 observed refl

poll_transitions-Forward_example :
    EndsIn
      (λ (s' : PollerState). s'.store.cursor_row ≡ none)
      (λ n (s' : PollerState).
        Forward seen_before.store
          (text_or (cursor seen_before.store) "2026-01-01T00:00:00.000Z")
          s'.store)
      (poll_transitions watching 50 seen_before)
unfolding upsert_issue_state
poll_transitions-Forward_example = poll_transitions-Forward watching 50 seen_before

abbrev recovered : PollerState
recovered = (recover watching "2026" 50 none seen_before).0

recover-Complete_example :
    is_some (find_event (recover_id watching done_issue 50) recovered.store) ≡ true
unfolding recover each_page fold_each terminal_type issue_event resolve_origin get_origin find
    upsert_issue_state comments get artifact_of put issue_track names_of agent_of agents_map
    enqueue_event upsert is_space lstrip issue_event_id terminal_ts track_from_agent track_of
    agents_of ensure_labels ids_by_name label_names_by_id names_by_id after_slashes before
    extract_artifact first_link host_of is_forge marker preview_link repo_link same_lower
    strip_marks trusted_marker_author after_prefix anchor_marker channel_marker find_from
    github_repo is_uuid marker_value port_url search_marker size span set_origin delivery
recover-Complete_example =
    recover-Complete watching board_page "2026" none 50 (λ calls offset. refl) seen_before recovered
      1 refl done_issue (here (head refl)) (done refl) tt
