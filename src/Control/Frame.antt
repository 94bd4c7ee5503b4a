-- ===== src/Control/Frame.antt =====
-- The walk through `apply_allocation`: what each of its steps keeps, the whole keeps.
use opc_stack.Base.{
  ℕ, zero, suc, ◌+◌, ◌<◌, ◌≡◌, refl, Bool, true, false, List, [], ◌∷◌, Option, none, some, All,
  String, Bool-cases, inl, inr, eqb, arith,
}
use opc_stack.Base.Int.{ℤ}
use opc_stack.Config.{Config}
use opc_stack.Policy.{hard_priority, operator_priority, adaptive_priority}
use opc_stack.Policy.Json.{Value}
use opc_stack.Store.Row.{Store, PolicyRow, TrackStateRow}
use opc_stack.Store.Outbox.{audit}
use opc_stack.Store.Policies.{insert_policy}
use opc_stack.Store.Control.{set_track_state}
use opc_stack.Control.Agents.{Agent, SlotPlan, slot_plan}
use opc_stack.Control.Service.{
  Service, Board, Call, Act, list_agents, get_agent, called, attempted, look,
}
use opc_stack.Control.Runs.{Any, Runs, Leaves, bind-Runs, resolve_track_agents-Runs}
use opc_stack.Control.Allocation.{
  share_of, allocation_row, write_policy, write_policies, lock_agent, unlock_agent, each,
  slots_patch, give_slots, apply_track, apply_split, has_operator_row, unless_overruled,
  with_shares, apply_allocation,
}

module _ (cfg : Config) (pc : Service) (uuid : Store → String)
    (loads : String → Option (List String)) (repr : List String → String) (show_number : ℕ → String)
    (actor : String) (source_event_id : Option String) (now_iso : String) where
  -- What the steps keep: `P` of the store and the calls, where `Q` holds of every listed agent.
  pub record IsFrame (P : Board → Type 0) (Q : Agent → Type 0) : Type 0 where
    pub reads : (b : Board) (id : String) → P b → P (called (get_agent id) b)
    pub lists : (b : Board) → P b → P (called list_agents b)
    pub listed : (h : List Call) (agents : List Agent) → pc.agents h ≡ some agents → All Q agents
    pub policies :
        (b : Board) (row : PolicyRow) (s : Store)
        → hard_priority < row.priority
        → insert_policy row b.store ≡ some s
        → P b
        → P (record b { store = s })
    pub locks :
        (track : String) (a : Agent)
        → Q a
        → Runs P Any
            (lock_agent cfg pc uuid loads repr show_number actor source_event_id now_iso track a)
    pub unlocks :
        (a : Agent)
        → Q a
        → Runs P Any
            (unlock_agent cfg pc uuid loads repr show_number actor source_event_id now_iso a)
    pub slots :
        (n : ℕ) (a : Agent)
        → Runs P Any
            (slots_patch cfg pc uuid loads repr show_number actor source_event_id now_iso n a)
    pub states :
        (b : Board) (row : TrackStateRow)
        → P b
        → P (record b { store = set_track_state row b.store })
    pub audits :
        (b : Board) (who what : String) (target : Option String) (detail : List (String × Value))
        (from : Option String)
        → P b
        → P (record b { store = audit who what target detail from b.store })

  module _ (P : Board → Type 0) (Q : Agent → Type 0) (frame : IsFrame P Q) where
    each-Runs :
        (f : Agent → Act (List String)) (agents : List Agent)
        → All (λ a. Runs P Any (f a)) agents
        → Runs P Any
            (each cfg pc uuid loads repr show_number actor source_event_id now_iso f agents)
    unfolding each
    each-Runs f [] h = λ b p. (p, tt)
    each-Runs f (a ∷ more) h = bind-Runs P Any Any (f a) _ h.0 (λ xs q.
        bind-Runs P Any Any
          (each cfg pc uuid loads repr show_number actor source_event_id now_iso f more) _
          (each-Runs f more h.1) (λ ys q' b p. (p, tt)))

    All-agents :
        (f : Agent → Act (List String)) (agents : List Agent)
        → ((a : Agent) → Q a → Runs P Any (f a))
        → All Q agents
        → All (λ a. Runs P Any (f a)) agents
    All-agents f [] h q = tt
    All-agents f (a ∷ more) h q = (h a q.0, All-agents f more h q.1)

    Any-agents :
        (f : Agent → Act (List String)) (agents : List Agent)
        → ((a : Agent) → Runs P Any (f a))
        → All (λ a. Runs P Any (f a)) agents
    Any-agents f [] h = tt
    Any-agents f (a ∷ more) h = (h a, Any-agents f more h)

    attempted-Leaves :
        (b : Board) (r : Option Store)
        → P b
        → ((s : Store) → r ≡ some s → P (record b { store = s }))
        → Leaves P Any (attempted b r)
    attempted-Leaves b none p h = p
    attempted-Leaves b (some s) p h = (h s refl, tt)

    write_policy-Runs :
        (kind id key : String) (value : Value) (priority : ℕ)
        → hard_priority < priority
        → Runs P Any (
            write_policy cfg pc uuid loads repr show_number actor source_event_id now_iso kind id
              key value priority)
    write_policy-Runs kind id key value priority h b p =
        let row =
          allocation_row cfg pc uuid loads repr show_number actor source_event_id now_iso kind id
            key value priority b.store in
        attempted-Leaves b (insert_policy row b.store) p (λ s e. frame.policies b row s h e p)

    write_policies-Runs :
        (core lab priority : ℕ)
        → hard_priority < priority
        → Runs P Any (
            write_policies cfg pc uuid loads repr show_number actor source_event_id now_iso core lab
              priority)
    unfolding write_policies
    write_policies-Runs core lab priority h =
        bind-Runs P Any Any _ _ (write_policy-Runs _ _ _ _ priority h) (λ _ q.
          bind-Runs P Any Any _ _ (write_policy-Runs _ _ _ _ priority h) (λ _ q.
            bind-Runs P Any Any _ _ (write_policy-Runs _ _ _ _ priority h)
              (λ _ q. write_policy-Runs _ _ _ _ priority h)))

    give_slots-Runs :
        (track : String) (agents : List Agent) (plan : Option SlotPlan)
        → Runs P Any (
            give_slots cfg pc uuid loads repr show_number actor source_event_id now_iso track agents
              plan)
    give_slots-Runs track agents none = λ b p. p
    give_slots-Runs track agents (some plan) =
        each-Runs _ agents (Any-agents _ agents (λ a. frame.slots _ a))

    apply_track-Runs :
        (track : String) (agents : List Agent) (share core lab_agents : ℕ)
        → All Q agents
        → Runs P Any (
            apply_track cfg pc uuid loads repr show_number actor source_event_id now_iso track
              agents share core lab_agents)
    unfolding apply_track
    apply_track-Runs track agents zero core lab_agents q =
        bind-Runs P Any Any _ _ (each-Runs _ agents (All-agents _ agents (frame.locks track) q))
          (λ changed q' b p. (frame.states b _ p, tt))
    apply_track-Runs track agents (suc share) core lab_agents q =
        bind-Runs P Any Any _ _ (each-Runs _ agents (All-agents _ agents frame.unlocks q))
          (λ changed q'.
            bind-Runs P Any Any _ _
              (give_slots-Runs track agents (slot_plan core cfg.slot_budget lab_agents))
              (λ _ q'' b p. (frame.states b _ p, tt)))

    apply_split-Runs :
        (core lab priority : ℕ)
        → hard_priority < priority
        → Runs P Any (
            apply_split cfg pc uuid loads repr show_number actor source_event_id now_iso core lab
              priority)
    unfolding apply_split
    apply_split-Runs core lab priority h =
        let team = resolve_track_agents-Runs P pc Q frame.lists frame.listed in
        bind-Runs P Any Any _ _ (write_policies-Runs core lab priority h) (λ _ q0.
          bind-Runs P (All Q) Any _ _ (team cfg.core_selectors) (λ core_agents qc.
            bind-Runs P (All Q) Any _ _ (team cfg.lab_selectors) (λ lab_agents ql.
              bind-Runs P Any Any _ _ (apply_track-Runs "core" core_agents core core _ qc)
                (λ one q1.
                  bind-Runs P Any Any _ _ (apply_track-Runs "lab" lab_agents lab core _ ql)
                    (λ two q2 b p. (frame.audits b _ _ _ _ _ p, tt))))))

    unless_overruled-Runs :
        (core lab : ℕ) (adaptive acts : Bool)
        → Runs P Any (
            unless_overruled cfg pc uuid loads repr show_number actor source_event_id now_iso core
              lab adaptive acts)
    unless_overruled-Runs core lab false acts =
        apply_split-Runs core lab operator_priority (omega arith)
    unless_overruled-Runs core lab true true = λ b p. (p, tt)
    unless_overruled-Runs core lab true false =
        apply_split-Runs core lab adaptive_priority (omega arith)

    with_shares-Runs :
        (core lab : Option ℕ) (adaptive : Bool)
        → Runs P Any (
            with_shares cfg pc uuid loads repr show_number actor source_event_id now_iso core lab
              adaptive)
    with_shares-Runs (some core) (some lab) adaptive = elim (Bool-cases (eqb (core + lab) 100)) [
      | inl e ↦ rw e (
          bind-Runs P Any Any
            (look
              (has_operator_row cfg pc uuid loads repr show_number actor source_event_id now_iso))
            _ (λ b p. (p, tt)) (λ acts q. unless_overruled-Runs core lab adaptive acts))
      | inr e ↦ rw e (λ b p. p)
    ]
    with_shares-Runs (some core) none adaptive = λ b p. p
    with_shares-Runs none lab adaptive = λ b p. p

    pub apply_allocation-Runs :
        (core lab : ℤ) (adaptive : Bool)
        → Runs P Any (
            apply_allocation cfg pc uuid loads repr show_number actor source_event_id now_iso core
              lab adaptive)
    unfolding apply_allocation
    apply_allocation-Runs core lab adaptive =
        with_shares-Runs (share_of core) (share_of lab) adaptive
