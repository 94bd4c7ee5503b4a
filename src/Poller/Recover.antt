-- ===== src/Poller/Recover.antt =====
-- The entry points of the poller (poller.py): the baseline, a tick, the recovery of a window, and
-- the labels of older tickets.
use opc_stack.Base.{
  String, ℕ, ◌+◌, ◌-◌, ◌*◌, Bool, true, false, ◌&&◌, ◌||◌, List, [], ◌∷◌, ◌++◌, Option, none, some,
  ◌==◌, if◌then◌else◌, text_ltb, any,
}
use opc_stack.Base.Dict.{get}
use opc_stack.Base.Text.{starts_with}
use opc_stack.Base.Proc.{give, change, fold_each, ◌>>=◌, ◌>>◌}
use opc_stack.Event.{Issue, text_or, terminal_ts, terminal_type}
use opc_stack.Label.{track_of, labels_for_markers}
use opc_stack.Store.Meta.{cursor, bootstrap_at, set_cursor, upsert_issue_state}
use opc_stack.Poller.{
  Act, Setting, ask, issues_with_status, patch_labels, in_store, from_store, enqueue, read_clock,
  now_or, open_statuses, page_size, max_pages,
}
use opc_stack.Poller.Labels.{ensure_labels, names_by_id, keep_names, agent_of}
use opc_stack.Poller.Observe.{
  issue_event, poll_transitions, each_page, check_track_conflict, report_violation,
}
use opc_stack.Poller.Sweep.{sweep_runs}

abbrev pub seed : Unit {0} → Issue → Act (Unit {0})
seed acc issue = in_store (upsert_issue_state issue)

abbrev pub is_fresh : Option String → Issue → Bool
is_fresh none issue = true
is_fresh (some watermark) issue = text_ltb watermark (text_or (terminal_ts issue) "")

abbrev pub recover_type : Option String → Issue → Option String
recover_type watermark issue =
    if is_fresh watermark issue then terminal_type (text_or issue.status "") else none

abbrev pub is_track_id : List (String × String) → String → Bool
is_track_id [] id = false
is_track_id ((name, label_id) ∷ more) id =
    (starts_with "track:" name && label_id == id) || is_track_id more id

unfoldable pub ids_of : List (String × String) → List String → List String
ids_of ensured [] = []
ids_of ensured (name ∷ more) = elim (get name ensured) [
  | none ↦ ids_of ensured more
  | some id ↦ id ∷ ids_of ensured more
]

abbrev pub desired_ids : List (String × String) → String → List String
desired_ids ensured track = ids_of ensured (
    labels_for_markers (record {
      lane = some (if track == "core" then "engineering" else "prototype");
      track = none;
      style = none;
    }))

module _ (w : Setting) where
  -- `for status in _OPEN_STATUSES: for issue in self.pc.issues_with_status(status)`
  abbrev pub each_open {ℓ} : {A : Type ℓ} → (A → Issue → Act A) → A → Act A
  each_open each acc =
      fold_each
        (λ acc status.
          ask (issues_with_status status page_size)
            (λ calls. w.pc.issues_with_status calls status page_size)
          >>= λ rows. fold_each each rows acc)
        open_statuses acc

  abbrev pub baseline : Act (Unit {0})
  baseline = do
    each_open seed tt
    start ← read_clock w
    at ← read_clock w
    in_store (
        set_cursor (w.time.iso (start - w.cfg.cutover_lookback_hours * 3600))
          (some (w.time.iso at)))

  abbrev pub baseline_unless : Option String → Act (Unit {0})
  baseline_unless (some _) = give tt
  baseline_unless none = baseline

  unfoldable pub bootstrap : Act (Unit {0})
  bootstrap = do held ← from_store cursor; baseline_unless held

  unfoldable pub tick : Option ℕ → Act ℕ
  tick given = do
    bootstrap
    change (λ s. record s { comments_cache = [] })
    now ← now_or w given
    emitted ← poll_transitions w now
    swept ← sweep_runs w now
    give (emitted + swept)

  abbrev pub recover_issue : Issue → ℕ → Option String → Act ℕ
  recover_issue issue now none = give 0
  recover_issue issue now (some event_type) = do
    event ← issue_event w issue event_type now
    enqueue event now

  abbrev pub recover_row : Option String → ℕ → ℕ → Issue → Act ℕ
  recover_row watermark now emitted issue = do
    n ← recover_issue issue now (recover_type watermark issue)
    in_store (upsert_issue_state issue)
    give (emitted + n)

  unfoldable pub recover : String → ℕ → Option String → Act ℕ
  recover since_iso now watermark = each_page w (recover_row watermark now) since_iso max_pages 0 0

  unfoldable pub reconcile : Option ℕ → Act ℕ
  reconcile given = do
    now ← now_or w given
    watermark ← from_store bootstrap_at
    recover (w.time.iso (now - w.cfg.reconcile_lookback_hours * 3600)) now watermark

  unfoldable pub backfill : String → Option ℕ → Act ℕ
  backfill since_iso given = do now ← now_or w given; recover since_iso now none

  abbrev pub patch_with : ℕ → Issue → List String → Act ℕ
  patch_with changed issue [] = give changed
  patch_with changed issue (id ∷ ids) =
      let wanted = issue.label_ids ++ id ∷ ids in
      ask (patch_labels issue.id wanted) (λ calls. w.pc.patch_labels calls issue.id wanted) >>= λ _.
      give (changed + 1)

  abbrev pub label_by : List (String × String) → ℕ → Issue → String → Act ℕ
  label_by ensured changed issue track =
      if track == "unknown"
      then (report_violation w issue "unlabeled_track" >> give changed)
      else patch_with changed issue (desired_ids ensured track)

  abbrev pub by_agent : List (String × String) → ℕ → Issue → Bool → Act ℕ
  by_agent ensured changed issue true = give changed
  by_agent ensured changed issue false = do
    agent ← agent_of w issue
    label_by ensured changed issue (track_of [] agent)

  abbrev pub label_issue : List (String × String) → ℕ → Issue → Act ℕ
  label_issue ensured changed issue = do
    check_track_conflict w issue
    by_agent ensured changed issue (any (is_track_id ensured) issue.label_ids)

  unfoldable pub backfill_labels : Act ℕ
  backfill_labels = do
    ensured ← ensure_labels w
    keep_names (names_by_id ensured [])
    each_open (label_issue ensured) 0
