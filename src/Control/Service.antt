-- ===== src/Control/Service.antt =====
-- The Paperclip client as control.py uses it: a call is kept, and answered by a parameter from the
-- calls made so far, or it raises. A procedure takes the store and the calls and leaves both, with
-- its answer; an exception stops it and leaves what was done.
use opc_stack.Base.{
  ℕ, zero, suc, Bool, true, false, not, ◌||◌, ◌&&◌, List, [], ◌∷◌, ◌++◌, Option, none, some, ◌==◌,
  if◌then◌else◌, select, map, String, ◌&◌,
}
use opc_stack.Base.Table.{contains}
use opc_stack.Base.Text.{partition_colon}
use opc_stack.Event.{status_text, text_or}
use opc_stack.Store.Row.{Store}
use opc_stack.Control.Grants.{Answer, answered, policy_error, failed}
use opc_stack.Control.Agents.{Agent, Field}

pub data Patch : Type 0 where
  set_status : String → Patch
  set_slots : (runtime_config metadata : List (String × Field)) → Patch

pub data Call : Type 0 where
  list_agents : Call
  get_agent : String → Call
  patch_agent : String → Patch → Call

-- `none` is an exception of the client.
pub record Service : Type 0 where
  pub agents : List Call → Option (List Agent)
  pub agent : List Call → String → Option Agent
  pub accepts : List Call → String → Patch → Bool

pub record Board : Type 0 where
  pub store : Store
  pub calls : List Call

abbrev pub Act {ℓ} : Type ℓ → Type ℓ
Act A = Board → Board × Answer A

abbrev pub proceed {ℓ κ} :
    {A : Type ℓ} {B : Type κ} → Board × Answer A → (A → Act B) → Board × Answer B
proceed (b, answered a) f = f a b
proceed (b, policy_error e) f = (b, policy_error e)
proceed (b, failed e) f = (b, failed e)

infixl 5 ◌>>=◌ ◌>>◌
abbrev pub ◌>>=◌ {ℓ κ} : {A : Type ℓ} {B : Type κ} → Act A → (A → Act B) → Act B
m >>= f = λ b. proceed (m b) f

abbrev pub ◌>>◌ {ℓ} : {B : Type ℓ} → Act (Unit {0}) → Act B → Act B
m >> k = m >>= λ _. k

abbrev pub done {ℓ} : {A : Type ℓ} → A → Act A
done a b = (b, answered a)

abbrev pub refuse {ℓ} : {A : Type ℓ} → String → Act A
refuse e b = (b, policy_error e)

-- A method of the store that answers nothing.
abbrev pub change : (Store → Store) → Act (Unit {0})
change f b = (record b { store = f b.store }, answered tt)

abbrev pub look {ℓ} : {A : Type ℓ} → (Store → A) → Act A
look f b = (b, answered (f b.store))

-- An INSERT that may fail.
abbrev pub attempted : Board → Option Store → Board × Answer (Unit {0})
attempted b none = (b, failed "IntegrityError")
attempted b (some s) = (record b { store = s }, answered tt)

abbrev pub insert_or_fail : (Store → Option Store) → Act (Unit {0})
insert_or_fail f b = attempted b (f b.store)

abbrev pub or_fail {ℓ} : {A : Type ℓ} → Option A → Answer A
or_fail none = failed "PaperclipError"
or_fail (some a) = answered a

abbrev pub called : Call → Board → Board
called c b = record b { calls = b.calls ++ c ∷ [] }

module _ (pc : Service) where
  abbrev pub ask_agents : Act (List Agent)
  ask_agents b = (called list_agents b, or_fail (pc.agents b.calls))

  abbrev pub ask_agent : String → Act Agent
  ask_agent id b = (called (get_agent id) b, or_fail (pc.agent b.calls id))

  abbrev pub send : String → Patch → Act (Unit {0})
  send id p b = (
    called (patch_agent id p) b,
    if pc.accepts b.calls id p then answered tt else failed "PaperclipError",
  )

  abbrev pub hits : String → String → List Agent → List Agent
  hits kind value agents =
      select
        (λ (a : Agent).
          if kind == "role" then status_text a.role == value else status_text a.name == value)
        agents

  abbrev pub only_hit : String → List Agent → Act Agent
  only_hit selector [] = refuse ("no agent matches " & selector)
  only_hit selector (a ∷ []) = done a
  only_hit selector (a ∷ b ∷ more) = refuse ("multiple agents match " & selector)

  abbrev pub match_selector : String → String × String → List Agent → Act Agent
  match_selector selector (kind, value) agents =
      if not (kind == "role" || kind == "name") || value == ""
      then refuse ("bad agent selector " & selector)
      else only_hit selector (hits kind value agents)

  unfoldable pub match_each : List String → List Agent → Act (List Agent)
  unfolding partition_colon
  match_each [] agents = done []
  match_each (selector ∷ more) agents = do
    a ← match_selector selector (partition_colon selector) agents
    rest ← match_each more agents
    done (a ∷ rest)

  -- The last filter of the source keeps every agent that was matched.
  unfoldable pub resolve_track_agents : List String → Act (List Agent)
  unfolding match_each
  resolve_track_agents selectors = do
    agents ← ask_agents
    matched ← match_each selectors agents
    done (select (λ (a : Agent). contains a.id (map (λ (m : Agent). m.id) matched)) matched)

  abbrev pub is_settled : Bool → Agent → Bool
  is_settled true a = text_or a.status "" == "paused" || text_or a.lifecycle_state "" == "paused"
  is_settled false a =
      (text_or a.status "" == "idle" || text_or a.status "" == "active")
      && not (text_or a.lifecycle_state "" == "pausing" || text_or a.lifecycle_state "" == "paused")

  -- Up to `tries` looks at the agent, after the first; every caller drops the answer.
  unfoldable pub wait_again : ℕ → String → Bool → Agent → Act Agent
  wait_again zero id want_paused a = done a
  wait_again (suc n) id want_paused a =
      let again : Agent → Act Agent = wait_again n id want_paused in
      if is_settled want_paused a then done a else (ask_agent id >>= again)

  unfoldable pub wait_settled : String → Bool → Act (Unit {0})
  unfolding wait_again
  wait_settled id want_paused = do a ← ask_agent id; _ ← wait_again 20 id want_paused a; done tt
