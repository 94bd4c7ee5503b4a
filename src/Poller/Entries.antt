-- ===== src/Poller/Entries.antt =====
-- What the entry points of the poller keep of the database (poller.py), whatever the client answers
-- and wherever it raises.
use opc_stack.Base.{
  String, ℕ, ◌+◌, ◌-◌, ◌*◌, ◌++◌, List, Option, none, some, Bool, true, false, [], ◌∷◌,
}
use opc_stack.Base.Keeps.{
  Keeps, change-Keeps, give-Keeps, or_raise-Keeps, then-Keeps, and-Keeps, if-Keeps, fold_each-Keeps,
}
use opc_stack.Base.{◌==◌}
use opc_stack.Event.{Issue, text_or}
use opc_stack.Store.Row.{Store}
use opc_stack.Store.Meta.{set_meta, set_cursor, cursor, bootstrap_at, upsert_issue_state}
use opc_stack.Poller.{
  Act, Setting, now_or, issues_with_status, patch_labels, open_statuses, page_size, max_pages,
  poll_overlap_seconds,
}
use opc_stack.Poller.Keeps.{
  IsStable, OnStore, ask-Keeps, in_store-Keeps, from_store-Keeps, read_clock-Keeps, each_page-Keeps,
  ensure_labels-Keeps, agent_of-Keeps, check_track_conflict-Keeps, report_violation-Keeps,
}
use opc_stack.Label.{track_of}
use opc_stack.Poller.Passes.{sweep_runs-Keeps, observe_row-Keeps, recover-Keeps}
use opc_stack.Poller.Observe.{observe_row, move_cursor, poll_transitions}
use opc_stack.Poller.Sweep.{sweep_key}
use opc_stack.Poller.Recover.{
  each_open, seed, baseline, baseline_unless, bootstrap, tick, reconcile, backfill, patch_with,
  label_by, by_agent, label_issue, desired_ids, backfill_labels,
}

-- Every statement that the poller sends keeps `P`.
pub record IsKept (P : Store → Type 0) : Type 0 where
  pub stable : IsStable P
  pub observed : (issue : Issue) (s : Store) → P s → P (upsert_issue_state issue s)
  pub marked : (value : String) (s : Store) → P s → P (set_meta sweep_key value s)
  pub moved : (at : String) (start : Option String) (s : Store) → P s → P (set_cursor at start s)

module _ (P : Store → Type 0) (w : Setting) (kept : IsKept P) where
  move_cursor-Keeps : (from latest : String) → Keeps (OnStore P) (move_cursor from latest)
  move_cursor-Keeps from latest =
      if-Keeps _ (latest == from) (give-Keeps _ tt) (in_store-Keeps P _ (kept.moved latest none))

  poll_transitions-Keeps : (now : ℕ) → Keeps (OnStore P) (poll_transitions w now)
  unfolding poll_transitions
  poll_transitions-Keeps now = then-Keeps _ (from_store-Keeps P cursor) (λ held.
      then-Keeps _ (or_raise-Keeps _ (w.time.parse_iso (text_or held (w.time.iso now)))) (λ at.
        then-Keeps _
          (each_page-Keeps P w kept.stable (observe_row w now)
            (w.time.iso (at - poll_overlap_seconds)) max_pages 0 (0, text_or held (w.time.iso now))
            (observe_row-Keeps P w kept.stable kept.observed now))
          (λ found.
            and-Keeps _ (move_cursor-Keeps (text_or held (w.time.iso now)) found.1)
              (give-Keeps _ found.0))))

  each_open-Keeps {ℓ} :
      {A : Type ℓ} (each : A → Issue → Act A) (acc : A)
      → ((acc : A) (issue : Issue) → Keeps (OnStore P) (each acc issue))
      → Keeps (OnStore P) (each_open w each acc)
  each_open-Keeps each acc h = fold_each-Keeps _ open_statuses acc (λ acc status.
      then-Keeps _
        (ask-Keeps P (issues_with_status status page_size)
          (λ calls. w.pc.issues_with_status calls status page_size))
        (λ rows. fold_each-Keeps _ rows acc h))

  baseline-Keeps : Keeps (OnStore P) (baseline w)
  baseline-Keeps =
      and-Keeps _
        (each_open-Keeps (seed) tt (λ acc issue. in_store-Keeps P _ (kept.observed issue)))
        (then-Keeps _ (read_clock-Keeps P w) (λ start. then-Keeps _ (read_clock-Keeps P w) (λ at.
          in_store-Keeps P _ (
            kept.moved (w.time.iso (start - w.cfg.cutover_lookback_hours * 3600))
              (some (w.time.iso at))))))

  baseline_unless-Keeps : (held : Option String) → Keeps (OnStore P) (baseline_unless w held)
  baseline_unless-Keeps (some _) = give-Keeps _ tt
  baseline_unless-Keeps none = baseline-Keeps

  now_or-Keeps : (given : Option ℕ) → Keeps (OnStore P) (now_or w given)
  now_or-Keeps none = read_clock-Keeps P w
  now_or-Keeps (some now) = give-Keeps _ now

  pub tick-Keeps : (given : Option ℕ) → Keeps (OnStore P) (tick w given)
  unfolding tick bootstrap
  tick-Keeps given = and-Keeps _ (then-Keeps _ (from_store-Keeps P cursor) baseline_unless-Keeps) (
      and-Keeps _ (change-Keeps _ _ (λ s p. p)) (
        then-Keeps _ (now_or-Keeps given) (λ now.
          then-Keeps _ (poll_transitions-Keeps now) (λ emitted.
            then-Keeps _ (sweep_runs-Keeps P w kept.stable kept.marked now)
              (λ swept. give-Keeps _ (emitted + swept))))))

  pub reconcile-Keeps : (given : Option ℕ) → Keeps (OnStore P) (reconcile w given)
  unfolding reconcile
  reconcile-Keeps given = then-Keeps _ (now_or-Keeps given) (λ now.
      then-Keeps _ (from_store-Keeps P bootstrap_at) (λ watermark.
        recover-Keeps P w kept.stable kept.observed
          (w.time.iso (now - w.cfg.reconcile_lookback_hours * 3600)) now watermark))

  pub backfill-Keeps :
      (since_iso : String) (given : Option ℕ) → Keeps (OnStore P) (backfill w since_iso given)
  unfolding backfill
  backfill-Keeps since_iso given =
      then-Keeps _ (now_or-Keeps given)
        (λ now. recover-Keeps P w kept.stable kept.observed since_iso now none)

  patch_with-Keeps :
      (changed : ℕ) (issue : Issue) (ids : List String)
      → Keeps (OnStore P) (patch_with w changed issue ids)
  patch_with-Keeps changed issue [] = give-Keeps _ changed
  patch_with-Keeps changed issue (id ∷ ids) =
      then-Keeps _
        (ask-Keeps P (patch_labels issue.id (issue.label_ids ++ id ∷ ids))
          (λ calls. w.pc.patch_labels calls issue.id (issue.label_ids ++ id ∷ ids)))
        (λ _. give-Keeps _ (changed + 1))

  label_by-Keeps :
      (ensured : List (String × String)) (changed : ℕ) (issue : Issue) (track : String)
      → Keeps (OnStore P) (label_by w ensured changed issue track)
  label_by-Keeps ensured changed issue track =
      if-Keeps _ (track == "unknown")
        (and-Keeps _ (report_violation-Keeps P w kept.stable issue "unlabeled_track")
          (give-Keeps _ changed))
        (patch_with-Keeps changed issue (desired_ids ensured track))

  by_agent-Keeps :
      (ensured : List (String × String)) (changed : ℕ) (issue : Issue) (labelled : Bool)
      → Keeps (OnStore P) (by_agent w ensured changed issue labelled)
  by_agent-Keeps ensured changed issue true = give-Keeps _ changed
  by_agent-Keeps ensured changed issue false =
      then-Keeps _ (agent_of-Keeps P w issue)
        (λ agent. label_by-Keeps ensured changed issue (track_of [] agent))

  pub backfill_labels-Keeps : Keeps (OnStore P) (backfill_labels w)
  unfolding backfill_labels
  backfill_labels-Keeps = then-Keeps _ (ensure_labels-Keeps P w) (λ ensured.
      and-Keeps _ (change-Keeps _ _ (λ s p. p)) (
        each_open-Keeps (label_issue w ensured) 0 (λ changed issue.
          and-Keeps _ (check_track_conflict-Keeps P w kept.stable issue)
            (by_agent-Keeps ensured changed issue _))))
