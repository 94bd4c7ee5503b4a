-- ===== src/Poller.antt =====
-- patches/event-bridge/opc_bridge/poller.py: the observation of issues and runs. The poller keeps
-- the database, its three caches, the calls of the client made so far and how often it read the
-- clock. A call is answered from the calls before it, and `none` is an exception; the n-th reading
-- of the clock is `clock n`, in whole seconds. An instant before 1970 stops at 0.
pub mod Labels
pub mod Pattern
pub mod Origin
pub mod Observe
pub mod Sweep
pub mod Recover
pub mod Keeps
pub mod Passes
pub mod Entries
pub mod Outbox
pub mod Cursor
pub mod Once
pub mod Missed
use opc_stack.Base.{
  ℕ, ◌+◌, suc, String, Bool, List, [], ◌∷◌, ◌++◌, Option, none, some, ◌≡◌, if◌then◌else◌,
}
use opc_stack.Base.Proc.{Proc, Outcome, ok, raised, or_raise}
use opc_stack.Config.{Config, Iso}
use opc_stack.Event.{Event, Issue, Digest}
use opc_stack.Label
use opc_stack.Store.Row.{Store}
use opc_stack.Store.Outbox.{enqueue_event}

abbrev pub poll_overlap_seconds : ℕ
poll_overlap_seconds = 10

abbrev pub page_size : ℕ
page_size = 100

abbrev pub max_pages : ℕ
max_pages = 50

abbrev pub open_statuses : List String
open_statuses = "backlog" ∷ "todo" ∷ "in_progress" ∷ "in_review" ∷ []

pub record Comment : Type 0 where
  pub author_type : Option String
  pub body : Option String

-- A row of the run list.
pub record RunRow : Type 0 where
  pub id : Option String
  pub run_id : Option String
  pub status : Option String
  pub finished_at : Option String
  pub updated_at : Option String
  pub issue_id : Option String

pub record LabelRow : Type 0 where
  pub name : Option String
  pub id : Option String

pub record AgentRow : Type 0 where
  pub id : Option String
  pub agent : Label.Agent

pub data Call : Type 0 where
  list_labels list_agents get_company : Call
  create_label : (name color : String) → Call
  issues_with_status : (status : String) (limit : ℕ) → Call
  issues_updated_since : (since : String) (limit offset : ℕ) → Call
  heartbeat_runs : (limit : ℕ) → Call
  get_run get_issue list_comments : String → Call
  patch_labels : (issue_id : String) (label_ids : List String) → Call

-- The client: what it answers to a call after the calls made so far.
pub record Paperclip : Type 0 where
  pub labels : List Call → Option (List LabelRow)
  pub create_label : List Call → (name color : String) → Option (Option String)
  pub agents : List Call → Option (List AgentRow)
  pub company : List Call → Option String
  pub issues_with_status : List Call → String → ℕ → Option (List Issue)
  pub issues_updated_since : List Call → String → ℕ → ℕ → Option (List Issue)
  pub heartbeat_runs : List Call → ℕ → Option (List RunRow)
  -- The error code of the run.
  pub run : List Call → String → Option (Option String)
  pub issue : List Call → String → Option Issue
  pub comments : List Call → String → Option (List Comment)
  pub patch_labels : List Call → String → List String → Option (Unit {0})

pub record Setting : Type 0 where
  pub cfg : Config
  pub time : Iso
  pub digest : Digest
  pub pc : Paperclip
  pub clock : ℕ → ℕ

pub record PollerState : Type 0 where
  pub store : Store
  pub comments_cache : List (String × List Comment)
  pub label_names : Option (List (String × String))
  pub agents_by_id : Option (List (String × Label.Agent))
  pub calls : List Call
  pub clock_reads : ℕ

abbrev pub Act {ℓ} : Type ℓ → Type ℓ
Act A = Proc PollerState A

abbrev pub ask {ℓ} : {A : Type ℓ} → Call → (List Call → Option A) → Act A
ask call answer s = (record s { calls = s.calls ++ call ∷ [] }, or_raise (answer s.calls))

abbrev pub in_store : (Store → Store) → Act (Unit {0})
in_store f s = (record s { store = f s.store }, ok tt)

abbrev pub from_store {ℓ} : {A : Type ℓ} → (Store → A) → Act A
from_store f s = (s, ok (f s.store))

abbrev pub read_clock : Setting → Act ℕ
read_clock w s = (record s { clock_reads = suc s.clock_reads }, ok (w.clock s.clock_reads))

-- `self._clock() if now is None else now`
abbrev pub now_or : Setting → Option ℕ → Act ℕ
now_or w none = read_clock w
now_or w (some now) = λ s. (s, ok now)

-- `int(self.store.enqueue_event(event, now))`
abbrev pub enqueued : PollerState → Store × Bool → PollerState × Outcome ℕ
enqueued s (store, fresh) = (record s { store = store }, ok (if fresh then 1 else 0))

abbrev pub enqueue : Event → ℕ → Act ℕ
enqueue event now s = enqueued s (enqueue_event event now s.store)
