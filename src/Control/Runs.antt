-- ===== src/Control/Runs.antt =====
-- Reasoning on the procedures of control.py: what holds of the store and the calls before and after
-- a procedure, on every path, and of what it answers.
use opc_stack.Base.{
  ℕ, zero, suc, ◌≡◌, refl, Bool, List, [], ◌∷◌, Option, none, some, All, All-kept, String,
  Bool-cases, inl, inr, ◌==◌, not, ◌||◌,
}
use opc_stack.Base.Text.{partition_colon}
use opc_stack.Store.Row.{Store}
use opc_stack.Control.Grants.{Answer, answered, policy_error, failed}
use opc_stack.Control.Agents.{Agent}
use opc_stack.Control.Service.{
  Service, Board, Call, Act, Patch, send, patch_agent, list_agents, get_agent, proceed, ◌>>=◌, done,
  change, called, or_fail, ask_agent, hits, only_hit, match_selector, match_each,
  resolve_track_agents, wait_again, wait_settled, is_settled,
}

abbrev pub Any {ℓ} : {A : Type ℓ} → A → Type 0
Any a = Unit

module _ (P : Board → Type 0) where
  -- The state after, and the answer if there is one.
  abbrev pub Leaves : {A : Type 0} → (A → Type 0) → Board × Answer A → Type 0
  Leaves Q (b, answered a) = P b × Q a
  Leaves Q (b, policy_error e) = P b
  Leaves Q (b, failed e) = P b

  abbrev pub Runs : {A : Type 0} → (A → Type 0) → Act A → Type 0
  Runs Q m = (b : Board) → P b → Leaves Q (m b)

  proceed-Leaves :
      {A B : Type 0} (Q : A → Type 0) (R : B → Type 0) (r : Board × Answer A) (f : A → Act B)
      → Leaves Q r
      → ((a : A) → Q a → Runs R (f a))
      → Leaves R (proceed r f)
  proceed-Leaves Q R (b, answered a) f h k = k a h.1 b h.0
  proceed-Leaves Q R (b, policy_error e) f h k = h
  proceed-Leaves Q R (b, failed e) f h k = h

  pub bind-Runs :
      {A B : Type 0} (Q : A → Type 0) (R : B → Type 0) (m : Act A) (f : A → Act B)
      → Runs Q m
      → ((a : A) → Q a → Runs R (f a))
      → Runs R (m >>= f)
  bind-Runs Q R m f h k b p = proceed-Leaves Q R (m b) f (h b p) k

  pub done-Runs : {A : Type 0} (Q : A → Type 0) (a : A) → Q a → Runs Q (done a)
  done-Runs Q a q b p = (p, q)

  pub change-Runs :
      (f : Store → Store)
      → ((b : Board) → P b → P (record b { store = f b.store }))
      → Runs Any (change f)
  change-Runs f h b p = (h b p, tt)

  or_fail-Leaves :
      {A : Type 0} (Q : A → Type 0) (b : Board) (r : Option A)
      → ((a : A) → r ≡ some a → Q a)
      → P b
      → Leaves Q (b, or_fail r)
  or_fail-Leaves Q b none h p = p
  or_fail-Leaves Q b (some a) h p = (p, h a refl)

  module _ (pc : Service)
      (reads : (b : Board) (id : String) → P b → P (called (get_agent id) b)) where
    pub ask_agent-Runs : (id : String) → Runs Any (ask_agent pc id)
    ask_agent-Runs id b p =
        or_fail-Leaves Any (called (get_agent id) b) (pc.agent b.calls id) (λ a e. tt)
          (reads b id p)

    wait_again-Runs :
        (n : ℕ) (id : String) (want : Bool) (a : Agent) → Runs Any (wait_again pc n id want a)
    unfolding wait_again
    wait_again-Runs zero id want a = done-Runs Any a tt
    wait_again-Runs (suc n) id want a = elim (Bool-cases (is_settled pc want a)) [
      | inl e ↦ rw e (done-Runs Any a tt)
      | inr e ↦ rw e (
          bind-Runs Any Any (ask_agent pc id) (wait_again pc n id want) (ask_agent-Runs id)
            (λ a' q. wait_again-Runs n id want a'))
    ]

    pub wait_settled-Runs : (id : String) (want : Bool) → Runs Any (wait_settled pc id want)
    unfolding wait_settled
    wait_settled-Runs id want = bind-Runs Any Any (ask_agent pc id) _ (ask_agent-Runs id) (λ a q.
        bind-Runs Any Any (wait_again pc 20 id want a) _ (wait_again-Runs 20 id want a)
          (λ a' q'. done-Runs Any tt tt))

  module _ (pc : Service) (Q : Agent → Type 0)
      (lists : (b : Board) → P b → P (called list_agents b))
      (listed : (h : List Call) (agents : List Agent)
        → pc.agents h ≡ some agents
        → All Q agents) where
    only_hit-Runs :
        (selector : String) (agents : List Agent)
        → All Q agents
        → Runs Q (only_hit pc selector agents)
    only_hit-Runs selector [] h b p = p
    only_hit-Runs selector (a ∷ []) h b p = (p, h.0)
    only_hit-Runs selector (a ∷ a' ∷ more) h b p = p

    match_selector-Runs :
        (selector : String) (kv : String × String) (agents : List Agent)
        → All Q agents
        → Runs Q (match_selector pc selector kv agents)
    match_selector-Runs selector (kind, value) agents h =
        elim (Bool-cases (not (kind == "role" || kind == "name") || value == "")) [
          | inl e ↦ rw e (λ b p. p)
          | inr e ↦
              rw e (only_hit-Runs selector (hits pc kind value agents) (All-kept Q _ agents h))
        ]

    match_each-Runs :
        (selectors : List String) (agents : List Agent)
        → All Q agents
        → Runs (All Q) (match_each pc selectors agents)
    unfolding match_each
    match_each-Runs [] agents h = done-Runs (All Q) [] tt
    match_each-Runs (selector ∷ more) agents h =
        bind-Runs Q (All Q) (match_selector pc selector (partition_colon selector) agents) _
          (match_selector-Runs selector (partition_colon selector) agents h)
          (λ a q.
            bind-Runs (All Q) (All Q) (match_each pc more agents) _ (match_each-Runs more agents h)
              (λ rest qs. done-Runs (All Q) (a ∷ rest) (q, qs)))

    pub resolve_track_agents-Runs :
        (selectors : List String) → Runs (All Q) (resolve_track_agents pc selectors)
    unfolding resolve_track_agents
    resolve_track_agents-Runs selectors =
        bind-Runs (All Q) (All Q) _ _
          (λ b p.
            or_fail-Leaves (All Q) (called list_agents b) (pc.agents b.calls) (listed b.calls)
              (lists b p))
          (λ agents h.
            bind-Runs (All Q) (All Q) (match_each pc selectors agents) _
              (match_each-Runs selectors agents h)
              (λ matched qs. done-Runs (All Q) _ (All-kept Q _ matched qs)))

  pub send-Runs :
      (pc : Service) (id : String) (patch : Patch)
      → ((b : Board) → P b → P (called (patch_agent id patch) b))
      → Runs Any (send pc id patch)
  send-Runs pc id patch sends b p = elim (Bool-cases (pc.accepts b.calls id patch)) [
    | inl e ↦ rw e (sends b p, tt)
    | inr e ↦ rw e (sends b p)
  ]
