-- ===== src/Poller/Once.antt =====
-- What the poller does once for an issue: its origin and its event (poller.py).
use opc_stack.Base.{
  String, ℕ, ◌≡◌, refl, ap, ◌∙◌, Option, none, some, Option-cases, inl, inr, arith, eq_refl,
  Bool-cases,
}
use opc_stack.Base.Table.{find-upsert, find}
use opc_stack.Base.Proc.{◌>>◌, ◌>>=◌, ok, give}
use opc_stack.Base.Ends.{Ends, EndsIn-ok, then-Ends, give-Ends, any-Ends}
use opc_stack.Event.{Issue, terminal_ts, or_text, classify_issue, same_text}
use opc_stack.Event.Transition.{classify_issue-replay}
use opc_stack.Store.Row.{Store, IssueStateRow}
use opc_stack.Store.Meta.{
  get_origin, set_origin, origin_key, get_issue_state, upsert_issue_state, issue_state_key,
  merge_issue_state, observed_row,
}
use opc_stack.Poller.{Setting, PollerState, from_store, in_store}
use opc_stack.Poller.Origin.{resolve_origin, origin_from, read_origin, comments}
use opc_stack.Poller.Observe.{
  observe_issue, as_seen, check_track_conflict, enqueue_issue, observed_type,
}

abbrev Any : PollerState → Type 0
Any s = Unit

get_origin-set_origin :
    (issue_id : String) (channel anchor : Option String) (at : String) (s : Store)
    → get_origin issue_id (set_origin issue_id channel anchor at s) ≡ some (channel, anchor)
unfolding get_origin set_origin
get_origin-set_origin issue_id channel anchor at s =
    rw
      (
        find-upsert origin_key issue_id (λ old new. record new { issue_id = old.issue_id })
            (record {
              issue_id = issue_id;
              channel_id = channel;
              event_id = anchor;
              resolved_at = at;
            })
            s.origins (λ old. refl),
        eq_refl issue_id,
      )
      (elim (Option-cases (find origin_key issue_id s.origins)) [
        | inl e ↦ rw e refl
        | inr (old, e) ↦ rw e refl
      ])

-- The origin is in the table.
abbrev Resolved : String → Option String × Option String → PollerState → Type 0
Resolved issue_id origin s = get_origin issue_id s.store ≡ some origin

origin_from-Resolved :
    (w : Setting) (issue_id : String) (held : Option (Option String × Option String))
    → Ends Any
        (λ s. get_origin issue_id s.store ≡ held)
        (Resolved issue_id)
        (origin_from w held issue_id)
origin_from-Resolved w issue_id (some origin) =
    give-Ends Any (λ s. get_origin issue_id s.store ≡ some origin) (Resolved issue_id) origin
      (λ s e. e)
origin_from-Resolved w issue_id none =
    then-Ends Any (λ s. get_origin issue_id s.store ≡ none) (λ found. Any) (Resolved issue_id)
      (any-Ends Any (λ s. get_origin issue_id s.store ≡ none) (comments w issue_id) (λ s. tt))
      (λ found. record {
        run = λ s p.
            get_origin-set_origin issue_id (read_origin found).0 (read_origin found).1
              (w.time.iso (w.clock s.clock_reads)) s.store;
      })

-- Where an issue's notices go is settled the first time it is resolved: while the row of that
-- resolution stands, a later one gives the same answer, a missing origin included, asks Paperclip
-- for nothing and changes nothing, whatever the comments have become.
pub resolve_origin-Once :
    (w : Setting) (issue_id : String) (s s' : PollerState) (origin : Option String × Option String)
    → resolve_origin w issue_id s ≡ (s', ok origin)
    → (t : PollerState) → get_origin issue_id t.store ≡ get_origin issue_id s'.store
    → resolve_origin w issue_id t ≡ (t, ok origin)
unfolding resolve_origin
resolve_origin-Once w issue_id s s' origin h t e =
    let settled =
      EndsIn-ok Any (Resolved issue_id) (resolve_origin w issue_id s) s' origin h
        ((origin_from-Resolved w issue_id (get_origin issue_id s.store)).run s refl) in
    rw (e ∙ settled) refl

-- The issue's row is as the issue was.
abbrev Seen : Issue → Store → Type 0
Seen issue s =
    (row : IssueStateRow) × (get_issue_state issue.id s ≡ some row)
    × (issue.status ≡ row.status)
    × (terminal_ts issue ≡ row.terminal_ts)

Seen-upsert_issue_state : (issue : Issue) (s : Store) → Seen issue (upsert_issue_state issue s)
unfolding get_issue_state upsert_issue_state
Seen-upsert_issue_state issue s =
    rw
      (
        find-upsert issue_state_key issue.id merge_issue_state (observed_row issue) s.issue_states
            (λ old. refl),
        eq_refl issue.id,
      )
      (elim (Option-cases (find issue_state_key issue.id s.issue_states)) [
        | inl e ↦ rw e (observed_row issue, refl, refl, refl)
        | inr (old, e) ↦ rw e (merge_issue_state old (observed_row issue), refl, refl, refl)
      ])

observe_issue-Seen :
    (w : Setting) (issue : Issue) (now : ℕ)
    → Ends Any Any (λ n s. Seen issue s.store) (observe_issue w issue now)
unfolding observe_issue
observe_issue-Seen w issue now =
    then-Ends Any Any (λ previous. Any) (λ n s. Seen issue s.store)
      (any-Ends Any Any (from_store (get_issue_state issue.id)) (λ s. tt))
      (λ previous.
        then-Ends Any Any (λ _. Any) (λ n s. Seen issue s.store)
          (any-Ends Any Any (check_track_conflict w issue) (λ s. tt))
          (λ _.
            then-Ends Any Any (λ event_type. Any) (λ n s. Seen issue s.store)
              (any-Ends Any Any (from_store (observed_type issue previous)) (λ s. tt))
              (λ event_type.
                then-Ends Any Any (λ n. Any) (λ n s. Seen issue s.store)
                  {f = λ emitted. in_store (upsert_issue_state issue) >> give emitted}
                  (any-Ends Any Any (enqueue_issue w issue event_type now) (λ s. tt))
                  (λ emitted. record { run = λ s p. Seen-upsert_issue_state issue s.store }))))

or_text_same : (a : Option String) → or_text a a ≡ a
or_text_same none = refl
or_text_same (some a) = ground arith

terminal_ts-as_seen :
    (issue : Issue) (row : IssueStateRow)
    → issue.status ≡ row.status
    → terminal_ts issue ≡ row.terminal_ts
    → terminal_ts issue ≡ terminal_ts (as_seen row)
unfolding terminal_ts as_seen
terminal_ts-as_seen issue row e t =
    rw⁻¹ e (elim (Bool-cases (same_text issue.status (some "done"))) [
      | inl d ↦ rw d (ground (arith, t))
      | inr d ↦ rw d (elim (Bool-cases (same_text issue.status (some "cancelled"))) [
        | inl c ↦ rw c (ground (arith, t))
        | inr c ↦ rw c (elim (Bool-cases (same_text issue.status (some "blocked"))) [
          | inl b ↦ rw b (ground (arith, t, or_text_same row.terminal_ts))
          | inr b ↦ rw b refl
        ])
      ])
    ])

observe_issue-Silent :
    (w : Setting) (issue : Issue) (later : ℕ) (row : IssueStateRow) (t : PollerState)
    → classify_issue (some (as_seen row)) issue ≡ none
    → get_issue_state issue.id t.store ≡ some row
    → observe_issue w issue later t
      ≡ (check_track_conflict w issue >>= λ _. in_store (upsert_issue_state issue) >> give 0) t
unfolding observe_issue
observe_issue-Silent w issue later row t quiet e = rw e (
    ap
      (λ seen.
        (check_track_conflict w issue >>= λ _. from_store (λ (s : Store). seen) >>= λ event_type.
        enqueue_issue w issue event_type later >>= λ emitted.
        in_store (upsert_issue_state issue) >> give emitted)
          t)
      quiet)

-- Once an issue was observed, observing it again as it is announces no transition of it: while its
-- row in the table stands, a later observation checks its track labels anew, which may report a
-- violation of the track policy, writes the row, and does nothing else, whatever else has changed; it
-- answers 0, unless the check raises.
pub observe_issue-Once :
    (w : Setting) (issue : Issue) (now n : ℕ) (s s' : PollerState)
    → observe_issue w issue now s ≡ (s', ok n)
    → (later : ℕ) (t : PollerState)
    → get_issue_state issue.id t.store ≡ get_issue_state issue.id s'.store
    → observe_issue w issue later t
      ≡ (check_track_conflict w issue >>= λ _. in_store (upsert_issue_state issue) >> give 0) t
unfolding as_seen
observe_issue-Once w issue now n s s' h later t e =
    let seen =
      EndsIn-ok Any (λ n s. Seen issue s.store) (observe_issue w issue now s) s' n h
        ((observe_issue-Seen w issue now).run s tt) in
    let quiet =
      classify_issue-replay (as_seen seen.0) issue seen.2
        (terminal_ts-as_seen issue seen.0 seen.2 seen.3) in
    observe_issue-Silent w issue later seen.0 t quiet (e ∙ seen.1)
