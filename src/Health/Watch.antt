-- ===== src/Health/Watch.antt =====
-- The tick of health.py: every running run is read and classified, and the alerts of runs that ended
-- are cleared. The client answers a call from the calls made so far, and `none` is an exception.
use opc_stack.Base.{
  ℕ, ◌+◌, Bool, not, ◌||◌, List, [], ◌∷◌, ◌++◌, map, Option, none, some, ◌==◌, if◌then◌else◌,
  String, or_else,
}
use opc_stack.Base.Dict.{put, get}
use opc_stack.Base.Table.{contains}
use opc_stack.Base.Proc.{Proc, Outcome, ok, or_raise, give, look, attempt, fold_each, ◌>>=◌, ◌>>◌}
use opc_stack.Config.{Config, Iso}
use opc_stack.Event.{Digest, Issue, text_or, status_text}
use opc_stack.Policy.Json.{text}
use opc_stack.Store.Row.{Store, RunHealthRow}
use opc_stack.Store.Control.{set_run_health, abnormal_run_health}
use opc_stack.Store.Outbox.{audit}
use opc_stack.Health.{Run, RunState, classify, progress_at, apply}

pub data Call : Type 0 where
  list_agents live_runs : Call
  get_run get_issue : String → Call

pub record AgentRow : Type 0 where
  pub id : String
  pub status : Option String

pub record LiveRow : Type 0 where
  pub id : Option String
  pub status : Option String

pub record Client : Type 0 where
  pub agents : List Call → Option (List AgentRow)
  pub live : List Call → Option (List LiveRow)
  pub run : List Call → String → Option Run
  pub issue : List Call → String → Option Issue

pub record Monitor : Type 0 where
  pub store : Store
  pub calls : List Call

abbrev pub Act {ℓ} : Type ℓ → Type ℓ
Act A = Proc Monitor A

abbrev pub ask {ℓ} : {A : Type ℓ} → Call → (List Call → Option A) → Act A
ask call answer s = (record s { calls = s.calls ++ call ∷ [] }, or_raise (answer s.calls))

abbrev pub in_store : (Store → Store) → Act (Unit {0})
in_store f s = (record s { store = f s.store }, ok tt)

abbrev pub counted : Monitor → Store × Bool → Monitor × Outcome ℕ
counted s (store, fresh) = (record s { store = store }, ok (if fresh then 1 else 0))

-- `{str(a["id"]): a for a in self.pc.agents()}`
unfoldable pub agents_of : List AgentRow → List (String × AgentRow) → List (String × AgentRow)
agents_of [] found = found
agents_of (row ∷ rows) found = agents_of rows (put row.id row found)

abbrev pub agent_status : Option AgentRow → Option String
agent_status none = none
agent_status (some agent) = some (status_text agent.status)

abbrev pub some_text : String → Option String
some_text s = if s == "" then none else some s

abbrev pub issue_status : Option Issue → Option String
issue_status none = none
issue_status (some issue) = some_text (text_or issue.status "")

-- A text of the column, if there is one and it can be read.
abbrev pub read_time : Iso → Option String → Option ℕ
read_time time none = none
read_time time (some at) = if at == "" then none else time.parse_iso at

-- `_terminal_at`: the first of the four times that can be read.
unfoldable pub terminal_at : Iso → Option Issue → Option ℕ
terminal_at time none = none
terminal_at time (some issue) = or_else (read_time time issue.completed_at) (
    or_else (read_time time issue.cancelled_at)
      (or_else (read_time time issue.blocked_transition_at) (read_time time issue.updated_at)))

module _ (cfg : Config) (time : Iso) (digest : Digest) (show_number : ℕ → String)
    (pc : Client) where
  -- A run with no issue, or whose issue cannot be read, has none.
  unfoldable pub issue_of : String → Act (Option Issue)
  issue_of issue_id =
      if issue_id == ""
      then give none
      else attempt (ask (get_issue issue_id) (λ calls. pc.issue calls issue_id))

  abbrev pub state_of : Run → Option AgentRow → Option Issue → ℕ → RunState
  state_of run agent issue now =
      classify time run (progress_at time run) (agent_status agent) now cfg.slow_seconds
        cfg.stall_seconds (issue_status issue) (terminal_at time issue) cfg.terminal_grace_seconds

  abbrev pub apply_state : String → RunState → Run → Option Issue → ℕ → Act ℕ
  apply_state run_id state run issue now s =
      counted s (apply cfg time digest show_number run_id state run issue now s.store)

  abbrev pub watch_run : List (String × AgentRow) → ℕ → String → Act ℕ
  watch_run agents now run_id = do
    run ← ask (get_run run_id) (λ calls. pc.run calls run_id)
    issue ← issue_of (text_or run.issue_id "")
    apply_state run_id (state_of run (get (text_or run.agent_id "") agents) issue now) run issue now

  abbrev pub watch_live : List (String × AgentRow) → ℕ → ℕ → LiveRow → Act ℕ
  watch_live agents now emitted live =
      if text_or live.id "" == "" || not (status_text live.status == "running")
      then give emitted
      else (watch_run agents now (text_or live.id "") >>= λ n. give (emitted + n))

  abbrev pub clear : RunHealthRow → ℕ → Store → Store
  clear row now s =
      audit "bridge" "run_health_cleared" (some row.run_id) (("previous", text row.state) ∷ []) none
        (set_run_health row.run_id "healthy" now none 0 (some now) s)

  abbrev pub clear_ended : RunHealthRow → ℕ → Option Run → Act (Unit {0})
  clear_ended row now none = give tt
  clear_ended row now (some run) =
      if status_text run.status == "running" then give tt else in_store (clear row now)

  abbrev pub reap_row : List String → ℕ → Unit {0} → RunHealthRow → Act (Unit {0})
  reap_row live now acc row =
      if contains row.run_id live
      then give tt
      else (attempt (ask (get_run row.run_id) (λ calls. pc.run calls row.run_id))
          >>= clear_ended row now)

  unfoldable pub reap : ℕ → Act ℕ
  reap now = do
    live ← ask live_runs pc.live
    rows ← look (λ s. abnormal_run_health s.store)
    fold_each (reap_row (map (λ (row : LiveRow). status_text row.id) live) now) rows tt
    give 0

  unfoldable pub tick : ℕ → Act ℕ
  tick now = do
    agents ← ask list_agents pc.agents
    live ← ask live_runs pc.live
    emitted ← fold_each (watch_live (agents_of agents []) now) live 0
    reaped ← reap now
    give (emitted + reaped)
