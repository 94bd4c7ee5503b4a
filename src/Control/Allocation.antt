-- ===== src/Control/Allocation.antt =====
-- `apply_allocation` of control.py: the split between the two tracks is written down as policies,
-- and the agents are paused, resumed and given their slots. `uuid` is what `uuid4` answers.
use opc_stack.Base.{
  ℕ, zero, suc, ◌+◌, Bool, true, false, not, ◌||◌, ◌&&◌, List, [], ◌∷◌, ◌++◌, Option, none, some,
  leb, eqb, ◌==◌, if◌then◌else◌, length, String, any, ◌&◌,
}
use opc_stack.Base.Int.{ℤ, pos, negsuc}
use opc_stack.Base.Dict.{put, get}
use opc_stack.Config.{Config}
use opc_stack.Event.{status_text, text_or}
use opc_stack.Policy.{operator_priority, adaptive_priority}
use opc_stack.Policy.Json.{Value, null, bool, num, text, list, other}
use opc_stack.Store.Row.{Store, PolicyRow, LedgerRow}
use opc_stack.Store.Outbox.{audit}
use opc_stack.Store.Policies.{insert_policy, active_policies}
use opc_stack.Store.Control.{ledger_get, ledger_put, ledger_release, set_track_state}
use opc_stack.Control.Agents.{
  Agent, Field, hold_text, plain, object, is_paused, holds, holds_text, holds_match, SlotPlan,
  slot_plan,
}
use opc_stack.Control.Grants.{failed}
use opc_stack.Control.Service.{
  Service, Act, ◌>>=◌, ◌>>◌, done, refuse, change, look, insert_or_fail, send, set_status,
  set_slots, resolve_track_agents, wait_settled,
}

-- What `apply_allocation` answers: not applied, or the agents changed (or refused).
pub data Applied : Type 0 where
  overruled : Applied
  applied : (core lab : ℕ) → List String → Applied

-- A share between 0 and 100.
abbrev pub share_of : ℤ → Option ℕ
share_of (pos n) = if leb n 100 then some n else none
share_of (negsuc n) = none

abbrev pub is_operator_row : PolicyRow → Bool
is_operator_row row =
    eqb row.priority operator_priority
    && (row.key == "allocation.core" || row.key == "allocation.lab")

-- What Python takes for false.
abbrev pub is_falsy : Value → Bool
is_falsy null = true
is_falsy (bool b) = not b
is_falsy (num (pos n)) = eqb n 0
is_falsy (num (negsuc n)) = false
is_falsy (text s) = s == ""
is_falsy (list xs) = eqb (length xs) 0
is_falsy (other s) = s == "0.0" || s == "-0.0"

-- The fields of `{**(value or {})}`; a value that is no mapping, and not false, raises TypeError.
abbrev pub nested : Option Field → Option (List (String × Value))
nested none = some []
nested (some (object fields)) = some fields
nested (some (plain v)) = if is_falsy v then some [] else none

abbrev is_empty : List String → Bool
is_empty [] = true
is_empty (x ∷ xs) = false

module _ (cfg : Config) (pc : Service) (uuid : Store → String) where
  module _ (loads : String → Option (List String)) (repr : List String → String)
      (show_number : ℕ → String) where
    module _ (actor : String) (source_event_id : Option String) (now_iso : String) where
      abbrev pub allocation_row :
          (scope_kind scope_id key : String) → Value → (priority : ℕ) → Store → PolicyRow
      allocation_row scope_kind scope_id key value priority s = record {
        id = uuid s;
        scope_kind = scope_kind;
        scope_id = scope_id;
        key = key;
        value = value;
        priority = priority;
        created_by = actor;
        reason = "allocation";
        source_event_id = source_event_id;
        created_at = now_iso;
        expires_at = none;
        revoked_at = none;
      }

      abbrev pub write_policy : (scope_kind scope_id key : String) → Value → ℕ → Act (Unit {0})
      write_policy scope_kind scope_id key value priority =
          insert_or_fail
            (λ s. insert_policy (allocation_row scope_kind scope_id key value priority s) s)

      unfoldable pub write_policies : (core lab priority : ℕ) → Act (Unit {0})
      write_policies core lab priority = do
        write_policy "company" (text_or cfg.company_id "default") "allocation.core" (num (pos core))
            priority
        write_policy "company" (text_or cfg.company_id "default") "allocation.lab" (num (pos lab))
            priority
        write_policy "track" "core" "track_locked" (bool (eqb core 0)) priority
        write_policy "track" "lab" "track_locked" (bool (eqb lab 0)) priority

      abbrev pub reopen : (id track : String) → Option LedgerRow → Act (List String)
      reopen id track none = done []
      reopen id track (some prior) = do
        change (
            ledger_put id track
              (if prior.original_status == "" then "idle" else prior.original_status)
              (if prior.original_lifecycle_state == ""
                then "ready"
                else prior.original_lifecycle_state)
              (if prior.original_holds == "" then "[]" else prior.original_holds) source_event_id
              now_iso)
        done []

      -- One agent of a track whose share is 0; the answer is what it adds to `changed`.
      unfoldable pub lock_agent : String → Agent → Act (List String)
      lock_agent track a =
          if is_paused a then (look (ledger_get a.id) >>= reopen a.id track) else (do
            change (
                ledger_put a.id track (status_text a.status) (status_text a.lifecycle_state)
                  (holds_text repr a.lifecycle_holds) source_event_id now_iso)
            send pc a.id (set_status "paused")
            wait_settled pc a.id true
            done (a.id ∷ []))

      -- Someone changed the holds while the lock stood.
      abbrev pub is_foreign : Agent → LedgerRow → Bool
      is_foreign a row =
          let current = holds loads a.lifecycle_holds in
          not (is_empty current)
          && not (holds_match (holds loads (hold_text row.original_holds)) current)

      abbrev pub resume : Agent → LedgerRow → Act (List String)
      resume a row = if is_foreign a row then done (("refused:" & a.id) ∷ []) else (do
        send pc a.id (set_status "idle")
        wait_settled pc a.id false
        change (ledger_release a.id now_iso)
        done (a.id ∷ []))

      abbrev pub is_open : LedgerRow → Bool
      is_open row = text_or row.released_at "" == ""

      abbrev pub unlock_from : Agent → Option LedgerRow → Act (List String)
      unlock_from a none = done []
      unlock_from a (some row) =
          if not (is_open row)
          then done []
          else if is_paused a
          then resume a row
          else (change (ledger_release a.id now_iso) >> done [])

      -- One agent of a track that has a share: resumed if this service paused it.
      unfoldable pub unlock_agent : Agent → Act (List String)
      unlock_agent a = look (ledger_get a.id) >>= unlock_from a

      unfoldable pub each : (Agent → Act (List String)) → List Agent → Act (List String)
      each f [] = done []
      each f (a ∷ more) = do some_changed ← f a; rest ← each f more; done (some_changed ++ rest)

      abbrev pub patch_slots : ℕ → Agent → Option (List (String × Value)) → Act (List String)
      patch_slots slots a none = λ b. (b, failed "TypeError")
      patch_slots slots a (some fields) =
          let limit : List (String × Value) = ("maxConcurrentRuns", num (pos slots)) ∷ [] in
          let heartbeat = put "maxConcurrentRuns" (num (pos slots)) fields in
          send pc a.id (
            set_slots (put "heartbeat" (object heartbeat) a.runtime_config)
              (put "opcBridgeAllocation" (object limit) a.metadata))
          >> done []

      unfoldable pub slots_patch : ℕ → Agent → Act (List String)
      unfolding put get
      slots_patch slots a = patch_slots slots a (nested (get "heartbeat" a.runtime_config))

      abbrev pub slots_of : String → SlotPlan → ℕ
      slots_of track plan = if track == "core" then plan.core else plan.lab_per_agent

      abbrev pub give_slots : String → List Agent → Option SlotPlan → Act (List String)
      give_slots track agents none = refuse "slot budget must be positive"
      give_slots track agents (some plan) = each (slots_patch (slots_of track plan)) agents

      abbrev pub state_track : (track state reason : String) → Act (Unit {0})
      state_track track state reason = change (
          set_track_state (record {
            track = track;
            desired = state;
            state = state;
            changed_by = actor;
            reason = reason;
            source_event_id = source_event_id;
            changed_at = now_iso;
          }))

      unfoldable pub apply_track :
          String → List Agent → (share core lab_agents : ℕ) → Act (List String)
      unfolding lock_agent unlock_agent slots_patch each
      apply_track track agents zero core lab_agents = do
        changed ← each (lock_agent track) agents
        state_track track "paused" "allocation 0"
        done changed
      apply_track track agents (suc share) core lab_agents = do
        changed ← each unlock_agent agents
        _ ← give_slots track agents (slot_plan core cfg.slot_budget lab_agents)
        state_track track "running" "allocation"
        done changed

      unfoldable pub apply_split : (core lab priority : ℕ) → Act Applied
      unfolding write_policies apply_track
      apply_split core lab priority = do
        write_policies core lab priority
        core_agents ← resolve_track_agents pc cfg.core_selectors
        lab_agents ← resolve_track_agents pc cfg.lab_selectors
        one ← apply_track "core" core_agents core core (length lab_agents)
        two ← apply_track "lab" lab_agents lab core (length lab_agents)
        change (
            audit actor "allocation_applied"
              (some ("core=" & show_number core & " lab=" & show_number lab))
              (("changed", list (one ++ two)) ∷ []) source_event_id)
        done (applied core lab (one ++ two))

      abbrev pub has_operator_row : Store → Bool
      has_operator_row s = any is_operator_row (active_policies now_iso s)

      abbrev pub unless_overruled : (core lab : ℕ) → Bool → Bool → Act Applied
      unless_overruled core lab false operator_acts = apply_split core lab operator_priority
      unless_overruled core lab true true = done overruled
      unless_overruled core lab true false = apply_split core lab adaptive_priority

      abbrev pub with_shares : Option ℕ → Option ℕ → Bool → Act Applied
      with_shares (some core) (some lab) adaptive =
          if eqb (core + lab) 100
          then (look has_operator_row >>= unless_overruled core lab adaptive)
          else refuse "allocation must be 0..100 and sum to 100"
      with_shares _ _ adaptive = refuse "allocation must be 0..100 and sum to 100"

      unfoldable pub apply_allocation : (core lab : ℤ) → (adaptive : Bool) → Act Applied
      unfolding apply_split
      apply_allocation core lab adaptive = with_shares (share_of core) (share_of lab) adaptive
