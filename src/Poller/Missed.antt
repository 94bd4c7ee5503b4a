-- ===== src/Poller/Missed.antt =====
-- A recovery misses no terminal issue of its window (`_recover` of poller.py).
use opc_stack.Base.{
  String, ℕ, zero, suc, ◌+◌, ◌≡◌, ◌≢◌, text_ltb, refl, sym, subst, true, false, List, Option, none,
  some, inl, inr, ◌⊎◌, arith, eq_refl, eq_iff, ◌==◌, Bool-cases, is_some, All, length, ltb,
}
use opc_stack.Base.Table.{find, find-append}
use opc_stack.Base.Proc.{◌>>◌, ok, give, fold_each}
use opc_stack.Base.Keeps.{Keeps}
use opc_stack.Base.Ends.{
  Ends, EndsIn-ok, then-Ends, give-Ends, any-Ends, Keeps-Ends, Ends-map, fold_each-All, if-Ends,
}
use mathlib.Core.List.{Memᴰ}
use mathlib.Core.List.Memᴰ.{head, tail}
use opc_stack.Event.{Issue, Event, terminal_type, terminal_ts, text_or, issue_event_id}
use opc_stack.Store.Row.{Store}
use opc_stack.Store.Outbox.{find_event, enqueue_event, event_key}
use opc_stack.Store.Meta.{set_origin, upsert_issue_state}
use opc_stack.Poller.{
  in_store, Call, Setting, PollerState, page_size, max_pages, issues_updated_since, ask,
}
use opc_stack.Poller.Keeps.{IsStable, OnStore}
use opc_stack.Poller.Passes.{recover_row-Keeps}
use opc_stack.Poller.Keeps.{each_page-Keeps}
use opc_stack.Poller.Origin.{resolve_origin}
use opc_stack.Poller.Observe.{issue_event, artifact_of, company, each_page}
use opc_stack.Poller.Labels.{issue_track}
use opc_stack.Poller.Recover.{is_fresh, recover_type, recover_issue, recover_row, recover}

abbrev Any : PollerState → Type 0
Any s = Unit

abbrev IsKnown : String → Store → Type 0
IsKnown k s = is_some (find_event k s) ≡ true

-- The id of the event that a recovery at `now` makes for an issue.
abbrev pub recover_id : Setting → Issue → ℕ → String
recover_id w issue now =
    issue_event_id w.digest issue.id (text_or issue.status "")
      (text_or (terminal_ts issue) (text_or issue.updated_at (w.time.iso now)))

enqueue_event-IsKnown :
    (event : Event) (now : ℕ) (s : Store) → IsKnown event.event_id (enqueue_event event now s).0
unfolding enqueue_event find
enqueue_event-IsKnown event now s = elim (Bool-cases (is_some (find_event event.event_id s))) [
  | inl known ↦ rw known known
  | inr fresh ↦
      rw (fresh, find-append event_key event.event_id s.events)
        (rw (fresh, eq_refl event.event_id) refl)
]

IsKnown-enqueue_event :
    (k : String) (event : Event) (now : ℕ) (s : Store)
    → IsKnown k s
    → IsKnown k (enqueue_event event now s).0
unfolding enqueue_event
IsKnown-enqueue_event k event now s h = elim (Bool-cases (is_some (find_event event.event_id s))) [
  | inl known ↦ rw known h
  | inr fresh ↦ rw (fresh, find-append event_key k s.events) (rw h h)
]

module _ (w : Setting) (watermark : Option String) (now : ℕ) where
  -- The issue is none of the recovery's, or its event is in the outbox.
  abbrev IsCovered : Issue → Store → Type 0
  IsCovered issue s = (recover_type watermark issue ≡ none) ⊎ IsKnown (recover_id w issue now) s

  IsCovered-IsStable : (issue : Issue) → IsStable (IsCovered issue)
  unfolding set_origin
  IsCovered-IsStable issue = record {
    origin = λ issue_id channel anchor at s h. h;
    enqueued = λ event at s. elim [
      | inl e ↦ inl e
      | inr k ↦ inr (IsKnown-enqueue_event (recover_id w issue now) event at s k)
    ];
  }

  issue_event-Id :
      (issue : Issue) (event_type : String)
      → Ends Any Any
          (λ event s. event.event_id ≡ recover_id w issue now)
          (issue_event w issue event_type now)
  unfolding issue_event
  issue_event-Id issue event_type =
      then-Ends Any Any (λ _. Any) (λ event s. event.event_id ≡ recover_id w issue now)
        (any-Ends Any Any (resolve_origin w issue.id) (λ s. tt))
        (λ origin.
          then-Ends Any Any (λ _. Any) (λ event s. event.event_id ≡ recover_id w issue now)
            (any-Ends Any Any (artifact_of w issue event_type) (λ s. tt))
            (λ artifact.
              then-Ends Any Any (λ _. Any) (λ event s. event.event_id ≡ recover_id w issue now)
                (any-Ends Any Any (company w) (λ s. tt))
                (λ owner.
                  then-Ends Any Any (λ _. Any) (λ event s. event.event_id ≡ recover_id w issue now)
                    (any-Ends Any Any (issue_track w issue) (λ s. tt))
                    (λ track. record { run = λ s p. refl }))))

  recover_issue-IsCovered :
      (issue : Issue) (event_type : Option String)
      → recover_type watermark issue ≡ event_type
      → Ends Any Any (λ n s. IsCovered issue s.store) (recover_issue w issue now event_type)
  recover_issue-IsCovered issue none e =
      give-Ends Any Any (λ n s. IsCovered issue s.store) 0 (λ s p. inl e)
  recover_issue-IsCovered issue (some event_type) e =
      then-Ends Any Any (λ event s. event.event_id ≡ recover_id w issue now)
        (λ n s. IsCovered issue s.store) (issue_event-Id issue event_type)
        (λ event. record {
          run = λ s q. inr (
              subst (λ k. IsKnown k (enqueue_event event now s.store).0) q
                (enqueue_event-IsKnown event now s.store));
        })

  recover_row-IsCovered :
      (emitted : ℕ) (issue : Issue)
      → Ends Any Any (λ n s. IsCovered issue s.store) (recover_row w watermark now emitted issue)
  unfolding upsert_issue_state
  recover_row-IsCovered emitted issue =
      then-Ends Any Any (λ n s. IsCovered issue s.store) (λ n s. IsCovered issue s.store)
        {f = λ n. in_store (upsert_issue_state issue) >> give (emitted + n)}
        (recover_issue-IsCovered issue (recover_type watermark issue) refl)
        (λ n. record { run = λ s q. q })

  -- A row handled keeps what is covered.
  row-Keeps :
      (x : Issue) (emitted : ℕ) (issue : Issue)
      → Keeps (OnStore (IsCovered x)) (recover_row w watermark now emitted issue)
  unfolding upsert_issue_state
  row-Keeps x =
      recover_row-Keeps (IsCovered x) w (IsCovered-IsStable x) (λ issue s h. h) watermark now

  rows-IsCovered :
      (rows : List Issue) (acc : ℕ)
      → Ends Any Any
          (λ n s. All (λ x. IsCovered x s.store) rows)
          (fold_each (recover_row w watermark now) rows acc)
  rows-IsCovered rows acc =
      fold_each-All Any (λ x (s : PollerState). IsCovered x s.store) rows acc recover_row-IsCovered
        (λ acc x y. Keeps-Ends Any (OnStore (IsCovered y)) (λ s p. tt) (row-Keeps y acc x))

All-found {ℓ κ} : {A : Type ℓ} (P : A → Type κ) {a : A} {xs : List A} → Memᴰ a xs → All P xs → P a
All-found P (head e) h = subst P (sym e) h.0
All-found P (tail m) h = All-found P m h.1

-- The statuses whose transitions are announced.
pub data IsTerminal (issue : Issue) : Type 0 where
  done : issue.status ≡ some "done" → IsTerminal issue
  blocked : issue.status ≡ some "blocked" → IsTerminal issue
  cancelled : issue.status ≡ some "cancelled" → IsTerminal issue

-- The transition came after the watermark, if there is one; times are compared as texts.
abbrev pub IsNewer : Option String → Issue → Type 0
IsNewer none issue = Unit
IsNewer (some watermark) issue =
    (t : String) × (terminal_ts issue ≡ some t) × (text_ltb watermark t ≡ true)

is_fresh-IsNewer :
    (watermark : Option String) (issue : Issue)
    → IsNewer watermark issue
    → is_fresh watermark issue ≡ true
is_fresh-IsNewer none issue h = refl
is_fresh-IsNewer (some watermark) issue (t, e, after) = rw e (elim (Bool-cases (t == "")) [
  | inl empty ↦ rw empty (subst (λ x. text_ltb watermark x ≡ true) ((eq_iff t "").0 empty) after)
  | inr full ↦ rw full after
])

recover_type-IsTerminal :
    (watermark : Option String) (issue : Issue)
    → IsTerminal issue
    → IsNewer watermark issue
    → recover_type watermark issue ≢ none
unfolding terminal_type
recover_type-IsTerminal watermark issue (done e) h k =
    let q = rw (is_fresh-IsNewer watermark issue h, e) at k in ground arith
recover_type-IsTerminal watermark issue (blocked e) h k =
    let q = rw (is_fresh-IsNewer watermark issue h, e) at k in ground arith
recover_type-IsTerminal watermark issue (cancelled e) h k =
    let q = rw (is_fresh-IsNewer watermark issue h, e) at k in ground arith

-- The issues on the pages of a window of at most `n` pages from `offset` on: a page follows a full
-- one.
pub data Read (page : ℕ → List Issue) (issue : Issue) : ℕ → ℕ → Type 0 where
  here : {n offset : ℕ} → Memᴰ issue (page offset) → Read page issue (suc n) offset
  next :
      {n offset : ℕ}
      → ltb (length (page offset)) page_size ≡ false
      → Read page issue n (offset + page_size)
      → Read page issue (suc n) offset

module _ (w : Setting) (page : ℕ → List Issue) (since : String) (watermark : Option String)
    (now : ℕ)
    (answers : (calls : List Call) (offset : ℕ)
      → w.pc.issues_updated_since calls since page_size offset ≡ some (page offset)) where
  ask_page :
      (offset : ℕ)
      → Ends Any Any
          (λ rows s. rows ≡ page offset)
          (ask
            (issues_updated_since since page_size offset)
            (λ calls. w.pc.issues_updated_since calls since page_size offset))
  ask_page offset = record { run = λ s p. rw (answers s.calls offset) refl }

  each_page-IsCovered :
      (issue : Issue) (n offset acc : ℕ)
      → Read page issue n offset
      → Ends Any Any
          (λ k s. IsCovered w watermark now issue s.store)
          (each_page w (recover_row w watermark now) since n offset acc)
  unfolding each_page
  each_page-IsCovered issue zero offset acc r = elim r [ ]
  each_page-IsCovered issue (suc n) offset acc (here m) =
      then-Ends Any Any (λ rows s. rows ≡ page offset)
        (λ k s. IsCovered w watermark now issue s.store) (ask_page offset)
        (λ rows. record {
          run = λ s e.
              (then-Ends Any Any (λ k s. IsCovered w watermark now issue s.store)
                  (λ k s. IsCovered w watermark now issue s.store)
                  (Ends-map Any Any (λ k s. All (λ x. IsCovered w watermark now x s.store) rows)
                    (λ k s. IsCovered w watermark now issue s.store)
                    (λ k s h.
                      All-found (λ x. IsCovered w watermark now x s.store)
                        (subst (Memᴰ issue) (sym e) m) h)
                    (rows-IsCovered w watermark now rows acc))
                  (λ next.
                    if-Ends Any (OnStore (IsCovered w watermark now issue))
                      (λ k s. IsCovered w watermark now issue s.store) (ltb (length rows) page_size)
                      (give-Ends Any (OnStore (IsCovered w watermark now issue))
                        (λ k s. IsCovered w watermark now issue s.store) next (λ s p. p))
                      (Keeps-Ends Any (OnStore (IsCovered w watermark now issue)) (λ s p. tt)
                        (each_page-Keeps (IsCovered w watermark now issue) w
                          (IsCovered-IsStable w watermark now issue) (recover_row w watermark now)
                          since n (offset + page_size) next
                          (row-Keeps w watermark now issue))))).run
                s tt;
        })
  each_page-IsCovered issue (suc n) offset acc (next full more) =
      then-Ends Any Any (λ rows s. rows ≡ page offset)
        (λ k s. IsCovered w watermark now issue s.store) (ask_page offset)
        (λ rows. record {
          run = λ s e.
              (then-Ends Any Any (λ k. Any) (λ k s. IsCovered w watermark now issue s.store)
                  (any-Ends Any Any (fold_each (recover_row w watermark now) rows acc) (λ s. tt))
                  (λ next.
                    rw (e, full) (each_page-IsCovered issue n (offset + page_size) next more))).run
                s tt;
        })

  -- A recovery misses nothing of its window. Where Paperclip answers each page of the window in the
  -- same way whenever it is asked, and the recovery ends without an exception, the event of every
  -- issue on the pages read that is done, blocked or cancelled, and whose transition is later than
  -- the watermark if there is one, is in the outbox; the pages are those up to the first that is not full, fifty at most.
  pub recover-Complete :
      (s s' : PollerState) (n : ℕ)
      → recover w since now watermark s ≡ (s', ok n)
      → (issue : Issue) → Read page issue max_pages 0
      → IsTerminal issue
      → IsNewer watermark issue
      → is_some (find_event (recover_id w issue now) s'.store) ≡ true
  unfolding recover
  recover-Complete s s' n h issue r terminal newer =
      elim (EndsIn-ok Any (λ k s. IsCovered w watermark now issue s.store)
        (recover w since now watermark s) s' n h
        ((each_page-IsCovered issue max_pages 0 0 r).run s tt)) [
          | inl none_wanted ↦
              absurd (recover_type-IsTerminal watermark issue terminal newer none_wanted)
          | inr known ↦ known
        ]
