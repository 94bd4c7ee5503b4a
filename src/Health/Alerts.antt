-- ===== src/Health/Alerts.antt =====
-- When an alert is sent again (`_apply` of health.py).
use opc_stack.Base.{
  ℕ, suc, ◌+◌, ◌<◌, ◌≡◌, refl, ap, sym, subst, ◌∙◌, Bool, ◌||◌, true, false, Option, none, some,
  arith, eq_refl, String, List, [], ◌∷◌, All,
}
use opc_stack.Base.Table.{find, upsert, find-upsert, merged}
use opc_stack.Config.{Config, Iso}
use opc_stack.Event.{Digest, Issue, Event}
use opc_stack.Store.Row.{Store, RunHealthRow}
use opc_stack.Store.Control.{run_health, set_run_health, run_key, merge_run_health}
use opc_stack.Store.Outbox.{enqueue_event}
use opc_stack.Health.{
  Run, RunState, healthy, unknown, state_name, is_alert, emit, first_sight, raise_alert, apply_from,
  apply, previous_state, same_state, count_of, reached, health_event, kind_of,
}

-- The row that `set_run_health` leaves under the run.
set_run_health_found :
    (run_id state : String) (now : ℕ) (notified : Option ℕ) (count : ℕ) (abnormal : Option ℕ)
    (s : Store)
    → (row : RunHealthRow) × (run_health run_id
          (set_run_health run_id state now notified count abnormal s)
        ≡ some row)
      × (row.state ≡ state)
      × (row.last_notified_at ≡ notified)
      × (row.notify_count ≡ count)
unfolding run_health set_run_health
set_run_health_found run_id state now notified count abnormal s =
    go (find run_key run_id s.run_healths) (
      find-upsert run_key run_id merge_run_health new s.run_healths (λ old. refl)
      ∙ rw (eq_refl run_id))
  where
    new : RunHealthRow
    new = record {
      run_id = run_id;
      track = "unknown";
      state = state;
      first_abnormal_at = abnormal;
      last_notified_at = notified;
      notify_count = count;
      last_progress_at = abnormal;
      updated_at = now;
    }

    go :
        (o : Option RunHealthRow)
        → find run_key run_id (upsert run_key merge_run_health new s.run_healths)
          ≡ some (merged run_key merge_run_health new o)
        → (row : RunHealthRow) × (find run_key run_id
              (upsert run_key merge_run_health new s.run_healths)
            ≡ some row)
          × (row.state ≡ state)
          × (row.last_notified_at ≡ notified)
          × (row.notify_count ≡ count)
    go none h = (_, h, refl, refl, refl)
    go (some old) h = (_, h, refl, refl, refl)

enqueue_event-run_healths :
    (event : Event) (now : ℕ) (s : Store)
    → (enqueue_event event now s).0.run_healths ≡ s.run_healths
unfolding enqueue_event
enqueue_event-run_healths event now s = ground arith

-- Nothing was announced, and the outbox is the one of before.
abbrev pub IsQuiet : Store → Store × Bool → Type 0
IsQuiet s (s', sent) = (sent ≡ false) × (s'.events ≡ s.events) × (s'.deliveries ≡ s.deliveries)

module _ (cfg : Config) (time : Iso) (digest : Digest) (show_number : ℕ → String) where
  -- After an alert has gone out, the row says so.
  raise_alert_first :
      (run_id : String) (st : RunState) (run : Run) (issue : Option Issue) (now : ℕ)
      (previous : Option String) (s : Store)
      → same_state previous (state_name st) ≡ false
      → (row : RunHealthRow) × (run_health run_id
            (raise_alert cfg time digest show_number run_id st run issue now previous s).0
          ≡ some row)
        × (row.state ≡ state_name st)
        × (row.last_notified_at ≡ some now)
        × (row.notify_count ≡ suc (count_of (run_health run_id s)))
  unfolding raise_alert emit run_health
  raise_alert_first run_id st run issue now previous s new =
      let s' =
        set_run_health run_id (state_name st) now (some now) (suc (count_of (run_health run_id s)))
          (some now) s in
      let event = health_event cfg time digest show_number run_id run issue (kind_of st) now s' in
      let (row, found, is_state, is_notified, counted) =
        set_run_health_found run_id (state_name st) now (some now)
          (suc (count_of (run_health run_id s))) (some now) s in
      rw new (
        row,
        ap (find run_key run_id) (enqueue_event-run_healths event now s') ∙ found,
        is_state,
        is_notified,
        counted,
      )

  -- A state that is on the row, and was notified within the reminder's interval, is not sent again.
  raise_alert_again :
      (run_id : String) (st : RunState) (run : Run) (issue : Option Issue) (now at : ℕ) (s : Store)
      (row : RunHealthRow)
      → run_health run_id s ≡ some row
      → row.last_notified_at ≡ some at
      → now < at + cfg.health_reminder_seconds
      → let (s', sent) =
          raise_alert cfg time digest show_number run_id st run issue now
            (some (state_name st))
            s in
        (sent ≡ false) × (s'.events ≡ s.events) × (s'.deliveries ≡ s.deliveries)
  unfolding raise_alert set_run_health
  raise_alert_again run_id st run issue now at s row found told soon =
      let waits : reached now at cfg.health_reminder_seconds ≡ false = ground arith in
      rw (found, told, eq_refl (state_name st), waits) (refl, refl, refl)

  -- `apply` on a run whose row holds the state already.
  apply_known :
      (run_id : String) (st : RunState) (run : Run) (issue : Option Issue) (now : ℕ) (s : Store)
      (row : RunHealthRow)
      → run_health run_id s ≡ some row
      → row.state ≡ state_name st
      → apply cfg time digest show_number run_id st run issue now s
        ≡ apply_from cfg time digest show_number run_id st run issue now (some (state_name st)) s
  unfolding apply first_sight
  apply_known run_id st run issue now s row found e = rw (found, e)

  -- The run's row has the state and was notified at `at`.
  abbrev Told : String → RunState → ℕ → Store → Type 0
  Told run_id st at s =
      (row : RunHealthRow) × (run_health run_id s ≡ some row)
      × (row.state ≡ state_name st)
      × (row.last_notified_at ≡ some at)

  -- A quiet look leaves the row so.
  raise_alert-Told :
      (run_id : String) (st : RunState) (run : Run) (issue : Option Issue) (now at : ℕ) (s : Store)
      (row : RunHealthRow)
      → run_health run_id s ≡ some row
      → row.last_notified_at ≡ some at
      → now < at + cfg.health_reminder_seconds
      → Told run_id st at
          (raise_alert cfg time digest show_number run_id st run issue now
            (some (state_name st))
            s).0
  unfolding raise_alert
  raise_alert-Told run_id st run issue now at s row found told soon =
      let waits : reached now at cfg.health_reminder_seconds ≡ false = ground arith in
      let (row', found', is_state, is_notified, counted) =
        set_run_health_found run_id (state_name st) now (some at) row.notify_count (some now) s in
      rw (found, told, eq_refl (state_name st), waits) (row', found', is_state, is_notified)

  again :
      (run_id : String) (st : RunState) (run : Run) (issue : Option Issue) (now at : ℕ) (s : Store)
      → is_alert st ≡ true
      → Told run_id st at s
      → now < at + cfg.health_reminder_seconds
      → IsQuiet s (apply cfg time digest show_number run_id st run issue now s)
        × Told run_id st at (apply cfg time digest show_number run_id st run issue now s).0
  unfolding apply_from
  again run_id healthy run issue now at s a t soon = ground arith
  again run_id unknown run issue now at s a t soon = ground arith
  again run_id st run issue now at s a (row, found, e, told) soon =
      subst (λ r. IsQuiet s r × Told run_id st at r.0)
        (sym (apply_known run_id st run issue now s row found e))
        (
          raise_alert_again run_id st run issue now at s row found told soon,
          raise_alert-Told run_id st run issue now at s row found told soon,
        )

  -- A run that enters an alert state.
  entered :
      (run_id : String) (st : RunState) (run : Run) (issue : Option Issue) (now : ℕ) (s : Store)
      → is_alert st ≡ true
      → same_state (previous_state (run_health run_id s)) (state_name st) ≡ false
      → Told run_id st now (apply cfg time digest show_number run_id st run issue now s).0
  unfolding apply apply_from
  entered run_id healthy run issue now s a new = ground arith
  entered run_id unknown run issue now s a new = ground arith
  entered run_id st run issue now s a new =
      let (row, found, is_state, is_notified, counted) =
        raise_alert_first run_id st run issue now (previous_state (run_health run_id s))
          (first_sight cfg time digest show_number run_id st now s) new in
      (row, found, is_state, is_notified)

  -- The looks at a run that stays in one state, each with the run, its issue and the time; whether
  -- one of them announced it.
  unfoldable pub look_again :
      String → RunState → List (Run × Option Issue × ℕ) → Store → Store × Bool
  look_again run_id st [] s = (s, false)
  look_again run_id st ((run, issue, at) ∷ looks) s =
      let seen = apply cfg time digest show_number run_id st run issue at s in
      let rest = look_again run_id st looks seen.0 in (rest.0, seen.1 || rest.1)

  looks-IsQuiet :
      (run_id : String) (st : RunState) (at : ℕ) (looks : List (Run × Option Issue × ℕ)) (s : Store)
      → is_alert st ≡ true
      → Told run_id st at s
      → All (λ look. look.2 < at + cfg.health_reminder_seconds) looks
      → IsQuiet s (look_again run_id st looks s)
  unfolding look_again
  looks-IsQuiet run_id st at [] s a t soon = (refl, refl, refl)
  looks-IsQuiet run_id st at ((run, issue, now) ∷ looks) s a t soon =
      let (quiet, told) = again run_id st run issue now at s a t soon.0 in
      let rest = looks-IsQuiet run_id st at looks _ a told soon.1 in
      (rw quiet.0 rest.0, rest.1 ∙ quiet.1, rest.2 ∙ quiet.2)

  -- A run that enters an alert state is announced once: however often it is seen in the same state
  -- before the reminder's interval is over, whatever else changes, no look announces it and nothing
  -- is enqueued.
  pub apply_twice :
      (run_id : String) (st : RunState) (run : Run) (issue : Option Issue) (now : ℕ) (s : Store)
      (looks : List (Run × Option Issue × ℕ))
      → is_alert st ≡ true
      → same_state (previous_state (run_health run_id s)) (state_name st) ≡ false
      → All (λ look. look.2 < now + cfg.health_reminder_seconds) looks
      → let s' = (apply cfg time digest show_number run_id st run issue now s).0 in
        IsQuiet s' (look_again run_id st looks s')
  apply_twice run_id st run issue now s looks a new soon =
      looks-IsQuiet run_id st now looks _ a (entered run_id st run issue now s a new) soon
