-- ===== src/Poller/Cursor.antt =====
-- The cursor of the poll over changed issues (`_poll_transitions` of poller.py).
use opc_stack.Base.{
  String, ℕ, ◌+◌, ◌-◌, ◌≡◌, refl, true, Option, none, some, is_some, Option-cases, Bool-cases, inl,
  inr, arith, ◌⊎◌, ◌==◌, ◌&&◌, not, zero, suc, ltb, length, text_ltb, text_ltb_trans,
  text_ltb_empty, eq_iff,
}
use opc_stack.Base.Proc.{◌>>◌, give}
use opc_stack.Base.Keeps.{or_raise-Keeps}
use opc_stack.Base.Ends.{Ends, EndsIn, if-Ends, then-Ends, give-Ends, Keeps-Ends, fold_each-Ends}
use opc_stack.Event.{Issue, text_or}
use opc_stack.Store.Row.{Store, CursorRow}
use opc_stack.Store.Outbox.{find_event, enqueue_event}
use opc_stack.Store.Meta.{set_origin, upsert_issue_state, set_cursor, cursor, bootstrap_at}
use opc_stack.Poller.{
  Setting, PollerState, issues_updated_since, page_size, max_pages, poll_overlap_seconds,
}
use opc_stack.Poller.Keeps.{IsStable, ask-Keeps, observe_issue-Keeps}
use opc_stack.Poller.Observe.{observe_row, later, each_page, poll_transitions, move_cursor}

-- The cursor is the row `c`.
abbrev At : Option CursorRow → PollerState → Type 0
At c s = s.store.cursor_row ≡ c

At-IsStable : (c : Option CursorRow) → IsStable (λ (s : Store). s.cursor_row ≡ c)
unfolding set_origin enqueue_event
At-IsStable c = record {
  origin = λ issue_id channel anchor at s p. p;
  enqueued = λ event now s p. elim (Bool-cases (is_some (find_event event.event_id s))) [
    | inl known ↦ rw known p
    | inr fresh ↦ rw fresh p
  ];
}

-- A time is `from` or comes after it.
abbrev FromOn : String → String → Type 0
FromOn from t = (t ≡ from) ⊎ (text_ltb from t ≡ true)

later-FromOn :
    (from latest updated : String) → FromOn from latest → FromOn from (later latest updated)
later-FromOn from latest updated h =
    elim (Bool-cases (not (updated == "") && text_ltb latest updated)) [
      | inr e ↦ rw e h
      | inl e ↦ rw e (
          inr (elim h [
            | inl same ↦ rw⁻¹ same (ground arith)
            | inr after ↦ text_ltb_trans from latest updated after (ground arith)
          ]))
    ]

module _ (c : Option CursorRow) (from : String) where
  -- The invariant of the loops: the cursor is where it was, and the latest time is no earlier.
  abbrev Polled : ℕ × String → PollerState → Type 0
  Polled acc s = At c s × FromOn from acc.1

module _ (w : Setting) (c : Option CursorRow) (from : String) where
  observe_row-Polled :
      (now : ℕ) (acc : ℕ × String) (issue : Issue)
      → Ends (At c) (Polled c from acc) (Polled c from) (observe_row w now acc issue)
  unfolding upsert_issue_state
  observe_row-Polled now (emitted, latest) issue = record {
    run = λ s p.
        (then-Ends (At c) (At c) (λ n s. At c s) (Polled c from)
            (Keeps-Ends (At c) (At c) (λ s p. p)
              (observe_issue-Keeps (λ (s : Store). s.cursor_row ≡ c) w (At-IsStable c) issue now
                (λ s p. p)))
            (λ n.
              give-Ends (At c) (At c) (Polled c from)
                (emitted + n, later latest (text_or issue.updated_at ""))
                (λ s q. (q, later-FromOn from latest (text_or issue.updated_at "") p.1)))).run
          s p.0;
  }

  each_page-Polled :
      (now : ℕ) (since : String) (n offset : ℕ) (acc : ℕ × String)
      → Ends
          (At c)
          (Polled c from acc)
          (Polled c from)
          (each_page w (observe_row w now) since n offset acc)
  unfolding each_page
  each_page-Polled now since zero offset acc =
      give-Ends (At c) (Polled c from acc) (Polled c from) acc (λ s p. p)
  each_page-Polled now since (suc n) offset acc =
      then-Ends (At c) (Polled c from acc) (λ rows. Polled c from acc) (Polled c from)
        (Keeps-Ends (At c) (Polled c from acc) (λ s p. p.0)
          (ask-Keeps (λ (s : Store). (s.cursor_row ≡ c) × FromOn from acc.1)
            (issues_updated_since since page_size offset)
            (λ calls. w.pc.issues_updated_since calls since page_size offset)))
        (λ rows.
          then-Ends (At c) (Polled c from acc) (Polled c from) (Polled c from)
            (fold_each-Ends (At c) (Polled c from) rows acc (observe_row-Polled now))
            (λ next.
              if-Ends (At c) (Polled c from next) (Polled c from) (ltb (length rows) page_size)
                (give-Ends (At c) (Polled c from next) (Polled c from) next (λ s p. p))
                (each_page-Polled now since n (offset + page_size) next)))

-- The cursor of `before` is kept, or it moved on from `from`, and the time of the baseline is kept.
abbrev pub Forward : Store → String → Store → Type 0
Forward before from s =
    (s.cursor_row ≡ before.cursor_row)
    ⊎ ((t : String) × (text_ltb from t ≡ true)
        × (cursor s ≡ some t)
        × (bootstrap_at s ≡ bootstrap_at before))

moved-Forward :
    (before : Store) (from t : String) (s : Store)
    → s.cursor_row ≡ before.cursor_row
    → text_ltb from t ≡ true
    → Forward before from (set_cursor t none s)
unfolding set_cursor cursor bootstrap_at
moved-Forward before from t s e h = elim (Bool-cases (t == "")) [
  | inl empty ↦ ground (arith, eq_iff t "", text_ltb_empty from)
  | inr full ↦ elim (Option-cases s.cursor_row) [
    | inl none_yet ↦ inr (t, h, rw (none_yet, full) refl, rw⁻¹ e (rw none_yet refl))
    | inr (row, held) ↦ inr (t, h, rw (held, full) refl, rw⁻¹ e (rw held refl))
  ]
]

move_cursor-Forward :
    (before : Store) (from : String) (found : ℕ × String)
    → Ends
        (At before.cursor_row)
        (Polled before.cursor_row from found)
        (λ n s. Forward before from s.store)
        (move_cursor from found.1 >> give found.0)
move_cursor-Forward before from (n, latest) = record {
  run = λ s p. elim (Bool-cases (latest == from)) [
    | inl e ↦ rw e (inl p.0)
    | inr e ↦ rw e (elim p.1 [
      | inl same ↦ ground (arith, eq_iff latest from)
      | inr after ↦ moved-Forward before from latest s.store p.0 after
    ])
  ];
}

-- A poll over the changed issues never moves the cursor back, and never forgets the time of the
-- baseline: it leaves the cursor as it was or moves it past the time that the poll started from.
-- Where the pass raises, the cursor is left as it was.
pub poll_transitions-Forward :
    (w : Setting) (now : ℕ) (s : PollerState)
    → EndsIn
        (λ (s' : PollerState). s'.store.cursor_row ≡ s.store.cursor_row)
        (λ n (s' : PollerState).
          Forward s.store (text_or (cursor s.store) (w.time.iso now)) s'.store)
        (poll_transitions w now s)
unfolding poll_transitions
poll_transitions-Forward w now s =
    let c = s.store.cursor_row in
    let from = text_or (cursor s.store) (w.time.iso now) in
    (then-Ends (At c) (At c) (λ at. At c) (λ n s'. Forward s.store from s'.store)
        (Keeps-Ends (At c) (At c) (λ s p. p) (or_raise-Keeps (At c) (w.time.parse_iso from)))
        (λ at. record {
          run = λ s' p.
              (then-Ends (At c) (Polled c from (0, from)) (Polled c from)
                  (λ n s'. Forward s.store from s'.store)
                  (each_page-Polled w c from now (w.time.iso (at - poll_overlap_seconds)) max_pages
                    0 (0, from))
                  (λ found. move_cursor-Forward s.store from found)).run
                s' (p, inl refl);
        })).run
      s refl
