-- ===== src/Control/Spared.antt =====
-- An agent that a human paused, and that this service never managed, is left alone.
use opc_stack.Base.{
  ℕ, ◌≡◌, refl, sym, ap, Bool, true, false, List, [], ◌∷◌, Option, none, some, All, All-append,
  String, Bool-cases, inl, inr, ◌==◌, is_some, eq_iff,
}
use opc_stack.Base.Int.{ℤ}
use opc_stack.Base.Table.{find, insert, find-upsert, find-update}
use opc_stack.Config.{Config}
use opc_stack.Store.Row.{Store, PolicyRow, LedgerRow}
use opc_stack.Store.Outbox.{audit}
use opc_stack.Store.Policies.{policy_key, insert_policy}
use opc_stack.Store.Control.{ledger_key, ledger_get, ledger_put, ledger_release, set_track_state}
use opc_stack.Control.Agents.{Agent, is_paused}
use opc_stack.Control.Service.{
  Service, Board, Call, Patch, patch_agent, set_status, set_slots, list_agents, get_agent, called,
}
use opc_stack.Control.Grants.{Answer, answered, policy_error, failed}
use opc_stack.Control.Runs.{Any, Runs, Leaves}
use opc_stack.Control.Allocation.{lock_agent, unlock_agent, reopen, unlock_from, apply_allocation}
use opc_stack.Control.Steps.{lock_agent-Runs, unlock_agent-Runs, slots_patch-Runs}
use opc_stack.Control.Frame.{IsFrame, apply_allocation-Runs}

-- A PATCH of the agent's status.
abbrev pub touches : String → Call → Bool
touches t (patch_agent id (set_status status)) = id == t
touches t _ = false

-- The service keeps no record of the agent, and has not touched its status.
abbrev pub IsUntouched : String → Board → Type 0
IsUntouched t b = (ledger_get t b.store ≡ none) × All (λ c. touches t c ≡ false) b.calls

pub called-IsUntouched :
    (t : String) (c : Call) (b : Board)
    → touches t c ≡ false
    → IsUntouched t b
    → IsUntouched t (called c b)
called-IsUntouched t c b h p = (p.0, All-append _ b.calls (c ∷ []) p.1 (h, tt))

ledger_put-other :
    (t id track status lifecycle held : String) (from : Option String) (at : String) (s : Store)
    → (id == t) ≡ false
    → ledger_get t (ledger_put id track status lifecycle held from at s) ≡ ledger_get t s
unfolding ledger_get ledger_put
ledger_put-other t id track status lifecycle held from at s h =
    rw
      (find-upsert ledger_key t (λ old new. record new { agent_id = old.agent_id }) _ s.ledger
        (λ old. refl))
      (rw h refl)

pub ledger_release-other :
    (t id at : String) (s : Store)
    → (id == t) ≡ false
    → ledger_get t (ledger_release id at s) ≡ ledger_get t s
unfolding ledger_get ledger_release
ledger_release-other t id at s h =
    rw
      (find-update ledger_key t id (λ row. record row { released_at = some at }) s.ledger
        (λ r. refl))
      (rw h refl)

insert_policy-ledger :
    (row : PolicyRow) (s s' : Store) → insert_policy row s ≡ some s' → s'.ledger ≡ s.ledger
unfolding insert_policy insert
insert_policy-ledger row s s' h = go (is_some (find policy_key row.id s.policies)) refl
  where
    go : (taken : Bool) → is_some (find policy_key row.id s.policies) ≡ taken → s'.ledger ≡ s.ledger
    go true e = let q = rw e at h in cc
    go false e =
        let q = rw e at h in
        ap (λ (x : Option Store). elim x [ none ↦ s'.ledger | some y ↦ y.ledger ]) (sym q)

module _ (cfg : Config) (pc : Service) (uuid : Store → String)
    (loads : String → Option (List String)) (repr : List String → String) (show_number : ℕ → String)
    (actor : String) (source_event_id : Option String) (now_iso : String) (t : String) where
  -- The agent is reported as paused whenever it is listed.
  abbrev pub IsHeld : Agent → Type 0
  IsHeld a = a.id ≡ t → is_paused a ≡ true

  other_sends :
      (a : Agent) (p : Patch) (b : Board)
      → (a.id == t) ≡ false
      → IsUntouched t b
      → IsUntouched t (called (patch_agent a.id p) b)
  other_sends a (set_status status) b h k = called-IsUntouched t _ b h k
  other_sends a (set_slots config metadata) b h k = called-IsUntouched t _ b refl k

  reopened :
      (track id : String) (b : Board) (row : Option LedgerRow)
      → row ≡ none
      → IsUntouched t b
      → Leaves
          (IsUntouched t)
          Any
          (reopen cfg pc uuid loads repr show_number actor source_event_id now_iso id track row b)
  reopened track id b none e p = (p, tt)
  reopened track id b (some row) e p = cc

  unlocked :
      (a : Agent) (b : Board) (row : Option LedgerRow)
      → row ≡ none
      → IsUntouched t b
      → Leaves
          (IsUntouched t)
          Any
          (unlock_from cfg pc uuid loads repr show_number actor source_event_id now_iso a row b)
  unlocked a b none e p = (p, tt)
  unlocked a b (some row) e p = cc

  locks :
      (track : String) (a : Agent)
      → IsHeld a
      → Runs
          (IsUntouched t)
          Any
          (lock_agent cfg pc uuid loads repr show_number actor source_event_id now_iso track a)
  unfolding lock_agent
  locks track a q = elim (Bool-cases (a.id == t)) [
    | inl e ↦
        let same = (eq_iff a.id t).0 e in
        rw (q same) (λ b p. reopened track a.id b (ledger_get a.id b.store) (rw same p.0) p)
    | inr e ↦
        lock_agent-Runs cfg pc uuid loads repr show_number actor source_event_id now_iso
          (IsUntouched t) a (λ b id p. called-IsUntouched t (get_agent id) b refl p)
          (λ b p k. other_sends a p b e k) track
          (λ status lifecycle held b p. (
            rw
                (ledger_put-other t a.id track status lifecycle held source_event_id now_iso b.store
                  e)
                p.0,
            p.1,
          ))
  ]

  unlocks :
      (a : Agent)
      → Runs
          (IsUntouched t)
          Any
          (unlock_agent cfg pc uuid loads repr show_number actor source_event_id now_iso a)
  unfolding unlock_agent
  unlocks a = elim (Bool-cases (a.id == t)) [
    | inl e ↦
        let same = (eq_iff a.id t).0 e in
        λ b p. unlocked a b (ledger_get a.id b.store) (rw same p.0) p
    | inr e ↦
        unlock_agent-Runs cfg pc uuid loads repr show_number actor source_event_id now_iso
          (IsUntouched t) a (λ b id p. called-IsUntouched t (get_agent id) b refl p)
          (λ b p k. other_sends a p b e k)
          (λ b p. (rw (ledger_release-other t a.id now_iso b.store e) p.0, p.1))
  ]

  frame :
      ((h : List Call) (agents : List Agent) → pc.agents h ≡ some agents → All IsHeld agents)
      → IsFrame cfg pc uuid loads repr show_number actor source_event_id now_iso
          (IsUntouched t)
          IsHeld
  unfolding set_track_state audit ledger_get
  frame h = record {
    reads = λ b id p. called-IsUntouched t (get_agent id) b refl p;
    lists = λ b p. called-IsUntouched t list_agents b refl p;
    listed = h;
    policies = λ b row s k e p. (rw (insert_policy-ledger row b.store s e) p.0, p.1);
    locks = locks;
    unlocks = λ a q. unlocks a;
    slots = λ n a.
        slots_patch-Runs cfg pc uuid loads repr show_number actor source_event_id now_iso
          (IsUntouched t) a n (λ b config metadata p. called-IsUntouched t _ b refl p);
    states = λ b row p. p;
    audits = λ b who what target detail from p. p;
  }

  Leaves-IsUntouched :
      {A : Type 0} (r : Board × Answer A) → Leaves (IsUntouched t) Any r → IsUntouched t r.0
  Leaves-IsUntouched (b, answered a) h = h.0
  Leaves-IsUntouched (b, policy_error e) h = h
  Leaves-IsUntouched (b, failed e) h = h

  -- An agent that the service keeps no record of and that Paperclip reports as paused whenever it
  -- lists it was paused by someone else. No allocation changes its status or starts a record of it,
  -- whatever the split, also where the service fails on the way.
  pub apply_allocation_spares :
      (core lab : ℤ) (adaptive : Bool) (b : Board)
      → ((h : List Call) (agents : List Agent) → pc.agents h ≡ some agents → All IsHeld agents)
      → IsUntouched t b
      → IsUntouched t
          (apply_allocation cfg pc uuid loads repr show_number actor source_event_id now_iso core
            lab adaptive b).0
  apply_allocation_spares core lab adaptive b h p =
      Leaves-IsUntouched
        (apply_allocation cfg pc uuid loads repr show_number actor source_event_id now_iso core lab
          adaptive b)
        (apply_allocation-Runs cfg pc uuid loads repr show_number actor source_event_id now_iso
          (IsUntouched t) IsHeld (frame h) core lab adaptive b p)
