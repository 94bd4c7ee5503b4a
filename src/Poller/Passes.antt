-- ===== src/Poller/Passes.antt =====
-- What a sweep over the runs, an observation and a recovery keep of the database (poller.py).
use opc_stack.Base.{String, ℕ, ◌+◌, List, Option, none, some}
use opc_stack.Base.Keeps.{
  Keeps, give-Keeps, or_raise-Keeps, then-Keeps, and-Keeps, if-Keeps, attempt-Keeps,
  fold_each-Keeps,
}
use opc_stack.Base.{◌==◌, ◌||◌}
use opc_stack.Base.Text.{strip}
use opc_stack.Base.Dict.{get}
use opc_stack.Event.{Issue, text_or}
use opc_stack.Store.Row.{Store}
use opc_stack.Store.Meta.{set_meta, get_meta, upsert_issue_state}
use opc_stack.Poller.{Setting, RunRow, heartbeat_runs, get_issue, get_run, get_company}
use opc_stack.Poller.Keeps.{
  IsStable, OnStore, ask-Keeps, in_store-Keeps, from_store-Keeps, issue_track-Keeps,
  resolve_origin-Keeps, enqueue-Keeps, issue_event-Keeps, observe_issue-Keeps, each_page-Keeps,
}
use opc_stack.Poller.Observe.{observe_row}
use opc_stack.Poller.Sweep.{
  Sweep, run_key, sweep_known, run_event, run_type, issue_from, enqueue_run, sweep_event, sweep_run,
  sweep_from, sweep_runs, sweep_key, keep_mark,
}
use opc_stack.Poller.Recover.{recover_issue, recover_row, recover}

module _ (P : Store → Type 0) (w : Setting) (stable : IsStable P) where
  run_type-Keeps : (run : RunRow) → Keeps (OnStore P) (run_type w run)
  unfolding run_type
  run_type-Keeps run = if-Keeps _ _ (give-Keeps _ _) (
      if-Keeps _ _
        (then-Keeps _ (attempt-Keeps _ (ask-Keeps P (get_run _) (λ calls. w.pc.run calls _)))
          (λ detail. give-Keeps _ _))
        (give-Keeps _ _))

  issue_from-Keeps :
      (id : String) (known : List (String × Option Issue)) (held : Option (Option Issue))
      → Keeps (OnStore P) (issue_from w id known held)
  issue_from-Keeps id known (some issue) = give-Keeps _ _
  issue_from-Keeps id known none =
      then-Keeps _ (attempt-Keeps _ (ask-Keeps P (get_issue id) (λ calls. w.pc.issue calls id)))
        (λ issue. give-Keeps _ _)

  run_event-Keeps :
      (issue : Issue) (run : RunRow) (now : ℕ) (event_type : String)
      → Keeps (OnStore P) (run_event w issue run now event_type)
  unfolding run_event
  run_event-Keeps issue run now event_type =
      then-Keeps _ (resolve_origin-Keeps P w stable issue.id) (λ origin.
        then-Keeps _ (ask-Keeps P get_company w.pc.company)
          (λ owner. then-Keeps _ (issue_track-Keeps P w issue) (λ track. give-Keeps _ _)))

  enqueue_run-Keeps :
      (now : ℕ) (run : RunRow) (event_type : String) (issue : Option Issue)
      → Keeps (OnStore P) (enqueue_run w now run event_type issue)
  enqueue_run-Keeps now run event_type none = give-Keeps _ _
  enqueue_run-Keeps now run event_type (some issue) = if-Keeps _ _ (give-Keeps _ _) (
      then-Keeps _ (run_event-Keeps issue run now event_type)
        (λ event. enqueue-Keeps P w stable event now))

  sweep_known-Keeps :
      (now : ℕ) (acc : Sweep) (run : RunRow) (event_type : String)
      → Keeps (OnStore P) (sweep_known w now acc run event_type)
  sweep_known-Keeps now acc run event_type =
      then-Keeps _
        (issue_from-Keeps (text_or run.issue_id "") acc.issues
          (get (text_or run.issue_id "") acc.issues))
        (λ known.
          then-Keeps _ (enqueue_run-Keeps now run event_type known.0)
            (λ n. give-Keeps _ (record acc { emitted = acc.emitted + n; issues = known.1 })))

  sweep_event-Keeps :
      (now : ℕ) (acc : Sweep) (run : RunRow) (event_type : Option String)
      → Keeps (OnStore P) (sweep_event w now acc run event_type)
  sweep_event-Keeps now acc run none = give-Keeps _ _
  sweep_event-Keeps now acc run (some event_type) =
      if-Keeps _ (strip (run_key run) == "" || text_or run.issue_id "" == "") (give-Keeps _ acc)
        (sweep_known-Keeps now acc run event_type)

  pub sweep_run-Keeps :
      (since : String) (now : ℕ) (acc : Sweep) (run : RunRow)
      → Keeps (OnStore P) (sweep_run w since now acc run)
  sweep_run-Keeps since now acc run =
      if-Keeps _ _ (give-Keeps _ _)
        (then-Keeps _ (run_type-Keeps run) (λ event_type. sweep_event-Keeps now _ run event_type))

  module _ (marked : (value : String) (s : Store) → P s → P (set_meta sweep_key value s)) where
    keep_mark-Keeps : (value : Option String) → Keeps (OnStore P) (keep_mark sweep_key value)
    keep_mark-Keeps none = give-Keeps _ _
    keep_mark-Keeps (some value) = in_store-Keeps P _ (marked value)

    sweep_from-Keeps :
        (now : ℕ) (rows : List RunRow) (held : Option String)
        → Keeps (OnStore P) (sweep_from w now rows held)
    sweep_from-Keeps now rows none = and-Keeps _ (keep_mark-Keeps _) (give-Keeps _ 0)
    sweep_from-Keeps now rows (some held) = then-Keeps _ (or_raise-Keeps _ _) (λ at.
        then-Keeps _ (fold_each-Keeps _ rows _ (sweep_run-Keeps _ now))
          (λ found. and-Keeps _ (keep_mark-Keeps _) (give-Keeps _ found.emitted)))

    pub sweep_runs-Keeps : (now : ℕ) → Keeps (OnStore P) (sweep_runs w now)
    unfolding sweep_runs
    sweep_runs-Keeps now = then-Keeps _ (from_store-Keeps P (get_meta sweep_key)) (λ held.
        then-Keeps _
          (ask-Keeps P (heartbeat_runs w.cfg.run_sweep_limit)
            (λ calls. w.pc.heartbeat_runs calls w.cfg.run_sweep_limit))
          (λ rows. sweep_from-Keeps now rows held))

  module _ (observed : (issue : Issue) (s : Store) → P s → P (upsert_issue_state issue s)) where
    pub observe_row-Keeps :
        (now : ℕ) (acc : ℕ × String) (issue : Issue)
        → Keeps (OnStore P) (observe_row w now acc issue)
    observe_row-Keeps now (emitted, latest) issue =
        then-Keeps _ (observe_issue-Keeps P w stable issue now (observed issue))
          (λ n. give-Keeps _ _)

    recover_issue-Keeps :
        (issue : Issue) (now : ℕ) (event_type : Option String)
        → Keeps (OnStore P) (recover_issue w issue now event_type)
    recover_issue-Keeps issue now none = give-Keeps _ _
    recover_issue-Keeps issue now (some event_type) =
        then-Keeps _ (issue_event-Keeps P w stable issue event_type now)
          (λ event. enqueue-Keeps P w stable event now)

    pub recover_row-Keeps :
        (watermark : Option String) (now emitted : ℕ) (issue : Issue)
        → Keeps (OnStore P) (recover_row w watermark now emitted issue)
    recover_row-Keeps watermark now emitted issue =
        then-Keeps _ (recover_issue-Keeps issue now _)
          (λ n. and-Keeps _ (in_store-Keeps P _ (observed issue)) (give-Keeps _ (emitted + n)))

    pub recover-Keeps :
        (since_iso : String) (now : ℕ) (watermark : Option String)
        → Keeps (OnStore P) (recover w since_iso now watermark)
    unfolding recover
    recover-Keeps since_iso now watermark =
        each_page-Keeps P w stable (recover_row w watermark now) since_iso _ 0 0
          (recover_row-Keeps watermark now)
