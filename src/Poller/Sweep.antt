-- ===== src/Poller/Sweep.antt =====
-- The sweep over the company's runs (`_sweep_runs` and `_run_event` of poller.py).
use opc_stack.Base.{
  String, ◌&◌, ℕ, zero, suc, ◌+◌, ◌-◌, Bool, false, ◌||◌, List, [], ◌∷◌, Option, none, some, ◌==◌,
  if◌then◌else◌, text_ltb,
}
use opc_stack.Base.Dict.{put, get}
use opc_stack.Base.Text.{strip}
use opc_stack.Base.Proc.{or_raise, give, fold_each, attempt, ◌>>=◌, ◌>>◌}
use opc_stack.Event.{
  Issue, Event, text_or, or_text, status_text, issue_failed, admission_cancelled, run_event_id,
}
use opc_stack.Store.Meta.{get_meta, set_meta}
use opc_stack.Poller.{
  Act, Setting, RunRow, ask, heartbeat_runs, get_run, get_issue, in_store, from_store, enqueue,
}
use opc_stack.Poller.Labels.{issue_track}
use opc_stack.Poller.Origin.{resolve_origin}
use opc_stack.Poller.Observe.{company}

abbrev pub sweep_key : String
sweep_key = "run_sweep_cursor"

-- `s[:n]`
unfoldable pub cut : ℕ → String → String
cut zero s = ""
cut (suc n) String.[] = ""
cut (suc n) (String.◌∷◌ c s) = String.◌∷◌ c (cut n s)

-- `max(finished)` over the texts that are not empty; none if there is none.
abbrev pub greater : String → Option String → Option String
greater t none = some t
greater t (some best) = if text_ltb best t then some t else some best

unfoldable pub last_finished : List RunRow → Option String
last_finished [] = none
last_finished (row ∷ rows) =
    let rest = last_finished rows in
    let t = text_or row.finished_at "" in if t == "" then rest else greater t rest

-- The variables of the loop over the runs.
pub record Sweep : Type 0 where
  pub emitted : ℕ
  pub latest : String
  pub issues : List (String × Option Issue)

abbrev pub run_key : RunRow → String
run_key run = text_or (or_text run.run_id run.id) ""

abbrev pub is_refusal : Option (Option String) → Bool
is_refusal none = false
is_refusal (some code) = text_or code "" == "agent_not_invokable"

abbrev pub seen_up_to : String → Sweep → Sweep
seen_up_to observed acc = record acc {
  latest = if text_ltb acc.latest observed then observed else acc.latest;
}

abbrev pub keep_mark : String → Option String → Act (Unit {0})
keep_mark key none = give tt
keep_mark key (some value) = in_store (set_meta key value)

module _ (w : Setting) where
  unfoldable pub run_event : Issue → RunRow → ℕ → String → Act Event
  run_event issue run now event_type =
      let status = text_or run.status "" in
      do
        origin ← resolve_origin w issue.id
        owner ← company w
        track ← issue_track w issue
        give (record {
          schema_version = 1;
          event_id =
              run_event_id w.digest (run_key run)
                (if event_type == issue_failed then status else "admission_cancelled");
          event_type = event_type;
          source = "paperclip";
          company_id = owner;
          project_id = issue.project_id;
          issue_id = some issue.id;
          issue_identifier = issue.identifier;
          run_id = some (run_key run);
          status = some status;
          occurred_at = text_or (or_text run.finished_at run.updated_at) (w.time.iso now);
          observed_at = w.time.iso now;
          artifact_url = none;
          origin_channel_id = origin.0;
          origin_event_id = origin.1;
          correlation_id = text_or issue.identifier issue.id & "-run-" & cut 8 (run_key run);
          track = track;
          issue_title = issue.title;
        })

  abbrev pub cancelled_type : String → Act (Option String)
  cancelled_type id = do
    detail ← attempt (ask (get_run id) (λ calls. w.pc.run calls id))
    give (if is_refusal detail then some admission_cancelled else none)

  -- The type of the event of a finished run; none is no event. A cancelled run is looked up.
  unfoldable pub run_type : RunRow → Act (Option String)
  run_type run =
      if text_or run.status "" == "failed" || text_or run.status "" == "timed_out"
      then give (some issue_failed)
      else if text_or run.status "" == "cancelled"
      then cancelled_type (text_or (or_text run.id run.run_id) "")
      else give none

  abbrev pub issue_from :
      String
      → List (String × Option Issue)
      → Option (Option Issue)
      → Act (Option Issue × List (String × Option Issue))
  issue_from id known (some issue) = give (issue, known)
  issue_from id known none = do
    issue ← attempt (ask (get_issue id) (λ calls. w.pc.issue calls id))
    give (issue, put id issue known)

  -- The issue of a run: asked for once in a sweep, and none if that failed.
  abbrev pub issue_of :
      String → List (String × Option Issue) → Act (Option Issue × List (String × Option Issue))
  issue_of id known = issue_from id known (get id known)

  abbrev pub enqueue_run : ℕ → RunRow → String → Option Issue → Act ℕ
  enqueue_run now run event_type none = give 0
  enqueue_run now run event_type (some issue) =
      if status_text issue.status == "done" || status_text issue.status == "cancelled"
      then give 0
      else (run_event issue run now event_type >>= λ event. enqueue event now)

  abbrev pub sweep_known : ℕ → Sweep → RunRow → String → Act Sweep
  sweep_known now acc run event_type = do
    known ← issue_of (text_or run.issue_id "") acc.issues
    n ← enqueue_run now run event_type known.0
    give (record acc { emitted = acc.emitted + n; issues = known.1 })

  abbrev pub sweep_event : ℕ → Sweep → RunRow → Option String → Act Sweep
  sweep_event now acc run none = give acc
  sweep_event now acc run (some event_type) =
      if strip (run_key run) == "" || text_or run.issue_id "" == ""
      then give acc
      else sweep_known now acc run event_type

  abbrev pub sweep_run : String → ℕ → Sweep → RunRow → Act Sweep
  sweep_run since now acc run =
      if text_or run.finished_at "" == "" || text_ltb (text_or run.finished_at "") since
      then give acc
      else (run_type run >>= sweep_event now (seen_up_to (text_or run.finished_at "") acc) run)

  abbrev pub sweep_from : ℕ → List RunRow → Option String → Act ℕ
  sweep_from now rows none = keep_mark sweep_key (last_finished rows) >> give 0
  sweep_from now rows (some held) = do
    at ← λ s. (s, or_raise (w.time.parse_iso held))
    found ←
        fold_each (sweep_run (w.time.iso (at - w.cfg.run_sweep_overlap_seconds)) now) rows
          (record { emitted = 0; latest = held; issues = [] })
    keep_mark sweep_key (if found.latest == held then none else some found.latest)
    give found.emitted

  unfoldable pub sweep_runs : ℕ → Act ℕ
  sweep_runs now = do
    held ← from_store (get_meta sweep_key)
    rows ←
        ask (heartbeat_runs w.cfg.run_sweep_limit)
          (λ calls. w.pc.heartbeat_runs calls w.cfg.run_sweep_limit)
    sweep_from now rows held
