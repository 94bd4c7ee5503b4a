-- ===== src/Health/Reaped.antt =====
-- What a tick of health.py leaves of the outbox and of the alerts.
use opc_stack.Base.{
  ℕ, ◌+◌, ◌≡◌, refl, Bool, true, false, not, List, [], ◌∷◌, ◌++◌, Option, none, some, String, map,
  is_none, Bool-cases, inl, inr, ◌==◌, ◌||◌, if◌then◌else◌,
}
use opc_stack.Base.Table.{contains}
use opc_stack.Base.Dict.{get}
use opc_stack.Base.Proc.{or_raise-Leaves}
use opc_stack.Base.Keeps.{
  Keeps, Keeps-state, give-Keeps, look-Keeps, then-Keeps, and-Keeps, if-Keeps, attempt-Keeps,
  fold_each-Keeps,
}
use opc_stack.Config.{Config, Iso}
use opc_stack.Event.{Digest, Issue, Event, text_or, status_text}
use opc_stack.Store.Row.{Store, RunHealthRow}
use opc_stack.Store.Control.{run_health, set_run_health, abnormal_run_health}
use opc_stack.Store.Outbox.{audit, enqueue_event}
use opc_stack.Store.Extends.{Extends, Extends-refl, Extends-frame, Extends-enqueue_event}
use opc_stack.Store.Integrity.{IsOutbox}
use opc_stack.Health.{
  slow, suspected_stalled, lost, state_name, kind_of, Run, RunState, healthy, unknown, apply,
  apply_from, raise_alert, clear_alert, first_sight, emit, previous_state,
}
use opc_stack.Health.Watch.{
  Call, list_agents, live_runs, get_run, get_issue, AgentRow, LiveRow, Client, Monitor, ask,
  issue_of, state_of, apply_state, watch_run, watch_live, agents_of, clear, clear_ended, reap_row,
  reap, tick,
}

-- The statements of an alert keep `P`.
pub record IsQuietly (P : Store → Type 0) : Type 0 where
  pub marked :
      (run_id state : String) (now : ℕ) (notified : Option ℕ) (count : ℕ) (abnormal : Option ℕ)
      (s : Store)
      → P s
      → P (set_run_health run_id state now notified count abnormal s)
  pub enqueued : (event : Event) (now : ℕ) (s : Store) → P s → P (enqueue_event event now s).0

abbrev OnStore : (Store → Type 0) → Monitor → Type 0
OnStore P s = P s.store

ask-Keeps {ℓ} :
    {A : Type ℓ} (P : Store → Type 0) (call : Call) (answer : List Call → Option A)
    → Keeps (OnStore P) (ask call answer)
ask-Keeps P call answer = record {
  run = λ s p.
      or_raise-Leaves (OnStore P) (λ _. Unit) (record s { calls = s.calls ++ call ∷ [] })
        (answer s.calls) (λ a e. tt) p;
}

module _ (cfg : Config) (time : Iso) (digest : Digest) (show_number : ℕ → String) (pc : Client)
    (P : Store → Type 0)
    (cleared : (row : RunHealthRow) (now : ℕ) (s : Store)
      → P s
      → P (clear cfg time digest show_number pc row now s)) where
  clear_ended-Keeps :
      (row : RunHealthRow) (now : ℕ) (run : Option Run)
      → Keeps (OnStore P) (clear_ended cfg time digest show_number pc row now run)
  clear_ended-Keeps row now none = give-Keeps _ tt
  clear_ended-Keeps row now (some run) =
      if-Keeps _ (status_text run.status == "running") (give-Keeps _ tt)
        (record { run = λ s p. (cleared row now s.store p, tt) })

  reap-Keeps : (now : ℕ) → Keeps (OnStore P) (reap cfg time digest show_number pc now)
  unfolding reap
  reap-Keeps now = then-Keeps _ (ask-Keeps P live_runs pc.live) (λ live.
      then-Keeps _ (look-Keeps _ (λ s. abnormal_run_health s.store)) (λ rows.
        and-Keeps _
          (fold_each-Keeps _
            {f = reap_row cfg time digest show_number pc
              (map (λ (row : LiveRow). status_text row.id) live) now}
            rows tt
            (λ acc row.
              if-Keeps _ (contains row.run_id (map (λ (row : LiveRow). status_text row.id) live))
                (give-Keeps _ tt)
                (then-Keeps _
                  (attempt-Keeps _
                    (ask-Keeps P (get_run row.run_id) (λ calls. pc.run calls row.run_id)))
                  (clear_ended-Keeps row now))))
          (give-Keeps _ 0)))

module _ (cfg : Config) (time : Iso) (digest : Digest) (show_number : ℕ → String) (pc : Client)
    (P : Store → Type 0) (quiet : IsQuietly P) where
  emit-Keeps :
      (run_id : String) (run : Run) (issue : Option Issue) (kind : String) (now : ℕ) (s : Store)
      → P s
      → P (emit cfg time digest show_number run_id run issue kind now s).0
  unfolding emit
  emit-Keeps run_id run issue kind now s p = quiet.enqueued _ now s p

  if-P {ℓ} : {A : Type ℓ} (b : Bool) (x y : Store × A) → P x.0 → P y.0 → P (if b then x else y).0
  if-P true x y h k = h
  if-P false x y h k = k

  first_sight-Keeps :
      (run_id : String) (state : RunState) (now : ℕ) (s : Store)
      → P s
      → P (first_sight cfg time digest show_number run_id state now s)
  unfolding first_sight
  first_sight-Keeps run_id state now s p = elim (Bool-cases (is_none (run_health run_id s))) [
    | inl e ↦ rw e (quiet.marked run_id (state_name state) now none 0 (some now) s p)
    | inr e ↦ rw e p
  ]

  raise_alert-Keeps :
      (run_id : String) (state : RunState) (run : Run) (issue : Option Issue) (now : ℕ)
      (previous : Option String) (s : Store)
      → P s
      → P (raise_alert cfg time digest show_number run_id state run issue now previous s).0
  unfolding raise_alert
  raise_alert-Keeps run_id state run issue now previous s p =
      if-P _ _ _
        (emit-Keeps run_id run issue (kind_of state) now _ (quiet.marked run_id _ now _ _ _ s p))
        (quiet.marked run_id _ now _ _ _ s p)

  clear_alert-Keeps :
      (run_id : String) (run : Run) (issue : Option Issue) (now : ℕ) (previous : Option String)
      (s : Store)
      → P s
      → P (clear_alert cfg time digest show_number run_id run issue now previous s).0
  unfolding clear_alert
  clear_alert-Keeps run_id run issue now previous s p =
      if-P _ _ _ (emit-Keeps run_id run issue _ now _ (quiet.marked run_id _ now _ _ _ s p)) p

  apply_from-Keeps :
      (run_id : String) (state : RunState) (run : Run) (issue : Option Issue) (now : ℕ)
      (previous : Option String) (s : Store)
      → P s
      → P (apply_from cfg time digest show_number run_id state run issue now previous s).0
  unfolding apply_from
  apply_from-Keeps run_id healthy run issue now previous s p =
      clear_alert-Keeps run_id run issue now previous s p
  apply_from-Keeps run_id unknown run issue now previous s p = p
  apply_from-Keeps run_id slow run issue now previous s p =
      raise_alert-Keeps run_id slow run issue now previous s p
  apply_from-Keeps run_id suspected_stalled run issue now previous s p =
      raise_alert-Keeps run_id suspected_stalled run issue now previous s p
  apply_from-Keeps run_id lost run issue now previous s p =
      raise_alert-Keeps run_id lost run issue now previous s p

  apply_state-Keeps :
      (run_id : String) (state : RunState) (run : Run) (issue : Option Issue) (now : ℕ)
      → Keeps (OnStore P) (apply_state cfg time digest show_number pc run_id state run issue now)
  unfolding apply
  apply_state-Keeps run_id state run issue now = record {
    run = λ s p. (
      apply_from-Keeps run_id state run issue now (previous_state (run_health run_id s.store))
          (first_sight cfg time digest show_number run_id state now s.store)
          (first_sight-Keeps run_id state now s.store p),
      tt,
    );
  }

  watch_run-Keeps :
      (agents : List (String × AgentRow)) (now : ℕ) (run_id : String)
      → Keeps (OnStore P) (watch_run cfg time digest show_number pc agents now run_id)
  unfolding issue_of
  watch_run-Keeps agents now run_id =
      then-Keeps _ (ask-Keeps P (get_run run_id) (λ calls. pc.run calls run_id)) (λ run.
        then-Keeps _ {m = issue_of cfg time digest show_number pc (text_or run.issue_id "")}
          (if-Keeps _ (text_or run.issue_id "" == "") (give-Keeps _ none) (
            attempt-Keeps _ (
              ask-Keeps P (get_issue (text_or run.issue_id ""))
                (λ calls. pc.issue calls (text_or run.issue_id "")))))
          (λ issue.
            apply_state-Keeps run_id
              (state_of cfg time digest show_number pc run (get (text_or run.agent_id "") agents)
                issue now)
              run issue now))

  watch_live-Keeps :
      (agents : List (String × AgentRow)) (now emitted : ℕ) (live : LiveRow)
      → Keeps (OnStore P) (watch_live cfg time digest show_number pc agents now emitted live)
  watch_live-Keeps agents now emitted live =
      if-Keeps _ (text_or live.id "" == "" || not (status_text live.status == "running"))
        (give-Keeps _ emitted)
        (then-Keeps _ (watch_run-Keeps agents now (text_or live.id ""))
          (λ n. give-Keeps _ (emitted + n)))

  pub tick-Keeps :
      (now : ℕ)
      → Keeps (OnStore P) (reap cfg time digest show_number pc now)
      → Keeps (OnStore P) (tick cfg time digest show_number pc now)
  unfolding tick
  tick-Keeps now reaped = then-Keeps _ (ask-Keeps P list_agents pc.agents) (λ agents.
      then-Keeps _ (ask-Keeps P live_runs pc.live) (λ live.
        then-Keeps _
          (fold_each-Keeps _
            {f = watch_live cfg time digest show_number pc (agents_of agents []) now} live 0
            (watch_live-Keeps (agents_of agents []) now))
          (λ emitted. then-Keeps _ reaped (λ n. give-Keeps _ (emitted + n)))))

Extends-IsQuietly : (old : Store) → IsQuietly (Extends old)
unfolding set_run_health
Extends-IsQuietly old = record {
  marked = λ run_id state now notified count abnormal s x. Extends-frame old s _ refl refl x;
  enqueued = Extends-enqueue_event old;
}

module _ (cfg : Config) (time : Iso) (digest : Digest) (show_number : ℕ → String)
    (pc : Client) where
  -- A reap announces nothing.
  reap-Extends :
      (old : Store) (now : ℕ)
      → Keeps (OnStore (Extends old)) (reap cfg time digest show_number pc now)
  unfolding audit set_run_health
  reap-Extends old now =
      reap-Keeps cfg time digest show_number pc (Extends old)
        (λ row now s x. Extends-frame old s _ refl refl x) now

  -- A tick of the monitor, whatever the client answers and wherever it raises, leaves a sound outbox
  -- in which every event and every delivery that was there is there unchanged; and the clearing of
  -- the alerts of runs that ended announces nothing: it leaves the outbox exactly as it was.
  pub tick-Extends :
      (now : ℕ) (s : Monitor)
      → IsOutbox s.store
      → Extends s.store (tick cfg time digest show_number pc now s).0.store
        × ((reap cfg time digest show_number pc now s).0.store.events ≡ s.store.events)
        × ((reap cfg time digest show_number pc now s).0.store.deliveries ≡ s.store.deliveries)
  unfolding audit set_run_health
  tick-Extends now s o =
      let silent =
        Keeps-state _
          (reap-Keeps cfg time digest show_number pc
            (λ (t : Store). (t.events ≡ s.store.events) × (t.deliveries ≡ s.store.deliveries))
            (λ row now t p. p) now)
          s (refl, refl) in
      (
        Keeps-state _
            (tick-Keeps cfg time digest show_number pc (Extends s.store) (Extends-IsQuietly s.store)
              now (reap-Extends s.store now))
            s (Extends-refl s.store o),
        silent.0,
        silent.1,
      )
