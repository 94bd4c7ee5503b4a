-- ===== src/Poller/Keeps.antt =====
-- What the poller keeps of the database, whatever the client answers and wherever it raises: any
-- property that the statements of an observation keep.
use opc_stack.Base.{String, ℕ, List, Option, none, some, ◌++◌, [], ◌∷◌, zero, suc}
use opc_stack.Base.Keeps.{
  Keeps, change-Keeps, give-Keeps, look-Keeps, then-Keeps, and-Keeps, if-Keeps, fold_each-Keeps,
}
use opc_stack.Base.Proc.{or_raise-Leaves}
use opc_stack.Event.{Issue, Event}
use opc_stack.Label
use opc_stack.Store.Row.{Store}
use opc_stack.Store.Outbox.{enqueue_event}
use opc_stack.Store.Meta.{get_origin, get_issue_state, set_origin, upsert_issue_state}
use opc_stack.Poller.{
  Act, Setting, PollerState, Call, list_labels, get_company, Comment, ask, in_store, from_store,
  enqueue, read_clock,
}
use opc_stack.Poller.Labels.{
  ensure_labels, label_names_by_id, agents_map, names_of, agent_of, issue_track, collect_name,
  all_labels, ensure_label, ids_by_name, label_from, names_from, agents_from,
}
use opc_stack.Poller.Origin.{comments, comments_from, resolve_origin, origin_from, read_origin}
use opc_stack.Poller.Observe.{
  observed_type, violation, artifact_of, issue_event, report_violation, check_tracks,
  check_track_conflict, enqueue_issue, observe_issue, each_page,
}

-- The statements that make an event keep `P`.
pub record IsStable (P : Store → Type 0) : Type 0 where
  pub origin :
      (issue_id : String) (channel anchor : Option String) (at : String) (s : Store)
      → P s
      → P (set_origin issue_id channel anchor at s)
  pub enqueued : (event : Event) (now : ℕ) (s : Store) → P s → P (enqueue_event event now s).0

-- A property of the database, as one of the poller.
abbrev pub OnStore : (Store → Type 0) → PollerState → Type 0
OnStore P s = P s.store

module _ (P : Store → Type 0) where
  pub ask-Keeps {ℓ} :
      {A : Type ℓ} (call : Call) (answer : List Call → Option A)
      → Keeps (OnStore P) (ask call answer)
  ask-Keeps call answer = record {
    run = λ s p.
        or_raise-Leaves (OnStore P) (λ _. Unit) (record s { calls = s.calls ++ call ∷ [] })
          (answer s.calls) (λ a e. tt) p;
  }

  pub in_store-Keeps :
      (f : Store → Store) → ((s : Store) → P s → P (f s)) → Keeps (OnStore P) (in_store f)
  in_store-Keeps f h = record { run = λ s p. (h s.store p, tt) }

  pub from_store-Keeps {ℓ} : {A : Type ℓ} (f : Store → A) → Keeps (OnStore P) (from_store f)
  from_store-Keeps f = record { run = λ s p. (p, tt) }

  module _ (w : Setting) where
    pub read_clock-Keeps : Keeps (OnStore P) (read_clock w)
    read_clock-Keeps = record { run = λ s p. (p, tt) }

    label_from-Keeps :
        (result : List (String × String)) (name : String) (known : Option String)
        → Keeps (OnStore P) (label_from w result name known)
    label_from-Keeps result name (some id) = give-Keeps _ _
    label_from-Keeps result name none = then-Keeps _ (ask-Keeps _ _) (λ created. give-Keeps _ _)

    pub ensure_labels-Keeps : Keeps (OnStore P) (ensure_labels w)
    unfolding ensure_labels
    ensure_labels-Keeps = then-Keeps _ (ask-Keeps list_labels w.pc.labels) (λ rows.
        fold_each-Keeps _ {f = ensure_label w (ids_by_name rows [])} all_labels []
          (λ result name. label_from-Keeps result name _))

    names_from-Keeps :
        (held : Option (List (String × String))) → Keeps (OnStore P) (names_from w held)
    names_from-Keeps (some names) = give-Keeps _ _
    names_from-Keeps none =
        then-Keeps _ ensure_labels-Keeps
          (λ ensured. and-Keeps _ (change-Keeps _ _ (λ s p. p)) (give-Keeps _ _))

    agents_from-Keeps :
        (held : Option (List (String × Label.Agent))) → Keeps (OnStore P) (agents_from w held)
    agents_from-Keeps (some agents) = give-Keeps _ _
    agents_from-Keeps none =
        then-Keeps _ (ask-Keeps _ _)
          (λ rows. and-Keeps _ (change-Keeps _ _ (λ s p. p)) (give-Keeps _ _))

    pub agent_of-Keeps : (issue : Issue) → Keeps (OnStore P) (agent_of w issue)
    unfolding agent_of agents_map
    agent_of-Keeps issue =
        then-Keeps _ (then-Keeps _ (look-Keeps _ _) agents_from-Keeps) (λ agents. give-Keeps _ _)

    pub names_of-Keeps : (issue : Issue) → Keeps (OnStore P) (names_of w issue)
    unfolding names_of label_names_by_id
    names_of-Keeps issue = fold_each-Keeps _ {f = collect_name w} issue.label_ids [] (λ names id.
        then-Keeps _ (then-Keeps _ (look-Keeps _ _) names_from-Keeps) (λ known. give-Keeps _ _))

    pub issue_track-Keeps : (issue : Issue) → Keeps (OnStore P) (issue_track w issue)
    unfolding issue_track
    issue_track-Keeps issue =
        then-Keeps _ (names_of-Keeps issue)
          (λ names. then-Keeps _ (agent_of-Keeps issue) (λ agent. give-Keeps _ _))

    comments_from-Keeps :
        (issue_id : String) (held : Option (List Comment))
        → Keeps (OnStore P) (comments_from w issue_id held)
    comments_from-Keeps issue_id (some found) = give-Keeps _ _
    comments_from-Keeps issue_id none =
        then-Keeps _ (ask-Keeps _ _)
          (λ found. and-Keeps _ (change-Keeps _ _ (λ s p. p)) (give-Keeps _ _))

    comments-Keeps : (issue_id : String) → Keeps (OnStore P) (comments w issue_id)
    unfolding comments
    comments-Keeps issue_id = then-Keeps _ (look-Keeps _ _) (comments_from-Keeps issue_id)

    module _ (stable : IsStable P) where
      origin_from-Keeps :
          (held : Option (Option String × Option String)) (issue_id : String)
          → Keeps (OnStore P) (origin_from w held issue_id)
      origin_from-Keeps (some origin) issue_id = give-Keeps _ _
      origin_from-Keeps none issue_id = then-Keeps _ (comments-Keeps issue_id) (λ found.
          then-Keeps _ read_clock-Keeps (λ at.
            and-Keeps _
              (in_store-Keeps _ (
                stable.origin issue_id (read_origin found).0 (read_origin found).1 (w.time.iso at)))
              (give-Keeps _ (read_origin found))))

      pub resolve_origin-Keeps : (issue_id : String) → Keeps (OnStore P) (resolve_origin w issue_id)
      unfolding resolve_origin
      resolve_origin-Keeps issue_id =
          then-Keeps _ (from_store-Keeps _) (λ held. origin_from-Keeps held issue_id)

      pub enqueue-Keeps : (event : Event) (now : ℕ) → Keeps (OnStore P) (enqueue event now)
      enqueue-Keeps event now = record { run = λ s p. (stable.enqueued event now s.store p, tt) }

      artifact_of-Keeps :
          (issue : Issue) (event_type : String) → Keeps (OnStore P) (artifact_of w issue event_type)
      unfolding artifact_of
      artifact_of-Keeps issue event_type =
          if-Keeps _ _ (then-Keeps _ (comments-Keeps issue.id) (λ found. give-Keeps _ _))
            (give-Keeps _ _)

      pub issue_event-Keeps :
          (issue : Issue) (event_type : String) (now : ℕ)
          → Keeps (OnStore P) (issue_event w issue event_type now)
      unfolding issue_event
      issue_event-Keeps issue event_type now =
          then-Keeps _ (resolve_origin-Keeps issue.id) (λ origin.
            then-Keeps _ (artifact_of-Keeps issue event_type) (λ artifact.
              then-Keeps _ (ask-Keeps _ _)
                (λ owner. then-Keeps _ (issue_track-Keeps issue) (λ track. give-Keeps _ _))))

      pub report_violation-Keeps :
          (issue : Issue) (reason : String) → Keeps (OnStore P) (report_violation w issue reason)
      unfolding report_violation
      report_violation-Keeps issue reason = then-Keeps _ read_clock-Keeps (λ now.
          then-Keeps _ (ask-Keeps get_company w.pc.company) (λ owner.
            then-Keeps _ (from_store-Keeps (get_origin issue.id)) (λ origin.
              then-Keeps _ (enqueue-Keeps (violation w issue reason now owner origin) now)
                (λ fresh. give-Keeps _ tt))))

      pub check_tracks-Keeps :
          (issue : Issue) (names : List String) → Keeps (OnStore P) (check_tracks w issue names)
      check_tracks-Keeps issue [] = give-Keeps _ _
      check_tracks-Keeps issue (name ∷ []) =
          then-Keeps _ (agent_of-Keeps issue)
            (λ agent. if-Keeps _ _ (report_violation-Keeps issue _) (give-Keeps _ _))
      check_tracks-Keeps issue (a ∷ b ∷ more) = report_violation-Keeps issue _

      pub check_track_conflict-Keeps :
          (issue : Issue) → Keeps (OnStore P) (check_track_conflict w issue)
      unfolding check_track_conflict
      check_track_conflict-Keeps issue =
          then-Keeps _ (names_of-Keeps issue) (λ names. check_tracks-Keeps issue _)

      pub enqueue_issue-Keeps :
          (issue : Issue) (event_type : Option String) (now : ℕ)
          → Keeps (OnStore P) (enqueue_issue w issue event_type now)
      enqueue_issue-Keeps issue none now = give-Keeps _ _
      enqueue_issue-Keeps issue (some event_type) now =
          then-Keeps _ (issue_event-Keeps issue event_type now) (λ event. enqueue-Keeps event now)

      pub observe_issue-Keeps :
          (issue : Issue) (now : ℕ)
          → ((s : Store) → P s → P (upsert_issue_state issue s))
          → Keeps (OnStore P) (observe_issue w issue now)
      unfolding observe_issue
      observe_issue-Keeps issue now observed =
          then-Keeps _ (from_store-Keeps (get_issue_state issue.id)) (λ previous.
            and-Keeps _ (check_track_conflict-Keeps issue) (
              then-Keeps _ (from_store-Keeps (observed_type issue previous)) (λ event_type.
                then-Keeps _ (enqueue_issue-Keeps issue event_type now)
                  (λ emitted. and-Keeps _ (in_store-Keeps _ observed) (give-Keeps _ emitted)))))

      pub each_page-Keeps {ℓ} :
          {A : Type ℓ} (each : A → Issue → Act A) (since : String) (n offset : ℕ) (acc : A)
          → ((acc : A) (issue : Issue) → Keeps (OnStore P) (each acc issue))
          → Keeps (OnStore P) (each_page w each since n offset acc)
      unfolding each_page
      each_page-Keeps each since zero offset acc h = give-Keeps _ _
      each_page-Keeps each since (suc n) offset acc h = then-Keeps _ (ask-Keeps _ _) (λ rows.
          then-Keeps _ (fold_each-Keeps _ rows acc h)
            (λ next. if-Keeps _ _ (give-Keeps _ _) (each_page-Keeps each since n _ next h)))
