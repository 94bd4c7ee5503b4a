-- ===== src/Tests/Commands.antt =====
-- The commands of an operator on sample stores.
use opc_stack.Base.{
  length, ◌≤◌, ◌≡◌, refl, true, false, List, [], ◌∷◌, Option, none, some, All, ap, subst,
  if◌then◌else◌, ◌==◌, ◌&◌, String,
}
use opc_stack.Base.Int.{pos}
use opc_stack.Base.Table.{find}
use opc_stack.Store.Row.{Store, MandateRow, PolicyRow, LedgerRow, empty}
use opc_stack.Store.Policies.{auth_used, active_mandates, get_mandate}
use opc_stack.Store.Control.{ledger_get}
use opc_stack.Policy.{hard_rules, effective, company_candidate}
use opc_stack.Policy.Json.{bool}
use opc_stack.Control.Auth.{Command, Inbox}
use opc_stack.Control.Once.{Request, authorizations, verify_once}
use opc_stack.Control.Agents.{hold_list, holds, Agent, no_holds}
use opc_stack.Control.Service.{Service, Board, Call}
use opc_stack.Control.Grants.{answered, OverrideBody, set_override, revoke_mandate}
use opc_stack.Control.Revoked.{revoke_mandate_ends}
use opc_stack.Control.Reconcile.{reconcile_lock}
use opc_stack.Control.Reasserted.{IsLeft, reconcile_lock_spares}
use opc_stack.Control.Refused.{unlock_refused}
use opc_stack.Control.Allocation.{unlock_agent, apply_allocation}
use opc_stack.Control.Spared.{IsUntouched, IsHeld, apply_allocation_spares}
use opc_stack.Routes.{revoke_row}
use opc_stack.Store.Policies.{revoke_policy, insert_policy}
use opc_stack.Tests.Door.{wiring}
use opc_stack.Base.Table.{insert}
use opc_stack.Store.Outbox.{audit}
use opc_stack.Base.{length}
use opc_stack.Control.Hard.{new, overridden, override_revoked, commanded_hard}
use opc_stack.Tests.Samples.{sample_config, sample_iso, text_ne}
use opc_stack.Tests.Policies.{lab_mandate}

abbrev order : Command
order = record {
  id = some "e1";
  pubkey = some "owner";
  created_at = some 1000;
  content = some "!opc  grant lab";
}

abbrev channel : Inbox
channel id since = some (order ∷ [])

abbrev same : String → String
same s = s

abbrev request : Request sample_config sample_iso same
request = record {
  inbox = channel;
  channel_id = "c1";
  verb = "!opc grant";
  tokens = "lab" ∷ [];
  event_id = "e1";
  now = 1010;
}

verify_once_example :
    (authorizations sample_config sample_iso same "e1" (request ∷ request ∷ []) empty ≤ 1)
    × (auth_used "e1" empty ≡ true
        → authorizations sample_config sample_iso same "e1" (request ∷ request ∷ []) empty ≡ 0)
verify_once_example = verify_once sample_config sample_iso same "e1" (request ∷ request ∷ []) empty

abbrev body : OverrideBody
body = record {
  scope_kind = some "track";
  scope_id = some "lab";
  key = some "actions.merge_main";
  value = bool true;
  reason = none;
  expires_at = none;
}

-- A permitted override, then its revocation.
abbrev permitted : OverrideBody
permitted = record body { key = some "followups.allowed" }

abbrev overruled_store : Store
overruled_store = (set_override permitted "p1" "operator" none "2026-01-01" empty).0

abbrev recalled_store : Store
recalled_store =
    (revoke_row wiring 1010 none "p1" "operator"
      (revoke_policy "p1" "2026-01-02" overruled_store)).0

-- The override is stored, and no hard rule moves.
overruled_policies : length overruled_store.policies ≡ 1
unfolding set_override insert_policy insert audit
overruled_policies = refl

commanded_hard_example :
    All
      (λ action.
        effective recalled_store "acme" none "lab" "2026-02-01" ("actions." & action)
        ≡ some (company_candidate 10 "hard" ("actions." & action) (bool false)))
      hard_rules
commanded_hard_example = commanded_hard recalled_store "acme" none "lab" "2026-02-01" (
    override_revoked overruled_store wiring 1010 none "p1" "operator" "2026-01-02"
      (overridden empty permitted "p1" "operator" none "2026-01-01" new))

abbrev granted_store : Store
granted_store = record empty { mandates = lab_mandate ∷ [] }

revoke_mandate_ends_example :
    All
      (λ (row : MandateRow). (row.id == "m1") ≡ false)
      (active_mandates "2026-02-02"
        (revoke_mandate "m1" "operator" none "2026-02-01" granted_store).0)
    × ((j : String)
        → ("m1" == j) ≡ false
        → get_mandate j (revoke_mandate "m1" "operator" none "2026-02-01" granted_store).0
          ≡ get_mandate j granted_store)
revoke_mandate_ends_example =
    revoke_mandate_ends "m1" "operator" none "2026-02-01" "2026-02-02" granted_store

abbrev worker : String → String → String → Agent
worker id name status = record {
  id = id;
  role = if name == "Engineer" then some "engineer" else none;
  name = some name;
  status = some status;
  lifecycle_state = some "ready";
  lifecycle_holds = no_holds;
  metadata = [];
  runtime_config = [];
}

abbrev staff : List Agent
staff =
    worker "a1" "Engineer" "idle"
    ∷ worker "a2" "Prototyper" "paused"
    ∷ worker "a3" "Scientist" "idle"
    ∷ []

abbrev service : Service
service = record {
  agents = λ h. some staff;
  agent = λ h id. some (worker id "Engineer" "paused");
  accepts = λ h id p. true;
}

-- A fresh id for each row that is added.
abbrev tag : List PolicyRow → String
tag [] = "p"
tag (row ∷ rows) = "p" & tag rows

abbrev numbered : Store → String
numbered s = tag s.policies

abbrev start : Board
start = record { store = empty; calls = [] }

staff-IsHeld :
    (h : List Call) (agents : List Agent)
    → some staff ≡ some agents
    → All
        (IsHeld sample_config service numbered
          (λ s. none)
          (λ xs. "[]")
          (λ n. "0")
          "operator"
          none
          "2026"
          "a2")
        agents
staff-IsHeld h agents e =
    subst
      (λ x.
        All
          (IsHeld sample_config service numbered (λ s. none) (λ xs. "[]") (λ n. "0") "operator" none
            "2026" "a2")
          x)
      (ap (λ (x : Option (List Agent)). elim x [ none ↦ staff | some y ↦ y ]) e)
      (
        (λ k. absurd (text_ne "a1" "a2" refl k)),
        ((λ k. refl), ((λ k. absurd (text_ne "a3" "a2" refl k)), tt)),
      )

apply_allocation_spares_example :
    IsUntouched "a2"
      (apply_allocation sample_config service numbered
        (λ s. none)
        (λ xs. "[]")
        (λ n. "0")
        "operator"
        none
        "2026"
        (pos 100)
        (pos 0)
        false
        start).0
unfolding ledger_get find
apply_allocation_spares_example =
    apply_allocation_spares sample_config service numbered (λ s. none) (λ xs. "[]") (λ n. "0")
      "operator" none "2026" "a2" (pos 100) (pos 0) false start staff-IsHeld (refl, tt)

abbrev held_worker : Agent
held_worker = record (worker "a1" "Engineer" "paused") { lifecycle_holds = hold_list ("x" ∷ []) }

abbrev opened_row : LedgerRow
opened_row = record {
  agent_id = "a1";
  track = "core";
  original_status = "idle";
  original_lifecycle_state = "ready";
  original_holds = "['x']";
  paused_at = "2026";
  paused_by_event = none;
  released_at = none;
}

abbrev locked : Board
locked = record { store = record empty { ledger = opened_row ∷ [] }; calls = [] }

unlock_refused_example :
    unlock_agent sample_config service numbered
      (λ s. none)
      (λ xs. "['x']")
      (λ n. "0")
      "operator"
      none
      "2026"
      held_worker
      locked
    ≡ (locked, answered (("refused:" & "a1") ∷ []))
unfolding ledger_get find holds
unlock_refused_example =
    unlock_refused sample_config service numbered (λ s. none) (λ xs. "['x']") (λ n. "0") "operator"
      none "2026" held_worker opened_row ("x" ∷ []) [] "x" locked refl refl refl refl refl refl refl

reconcile_lock_spares_example :
    IsLeft "a2"
      (ledger_get "a2" locked.store)
      (reconcile_lock sample_config service "2026" locked).0
reconcile_lock_spares_example =
    reconcile_lock_spares sample_config service "2026" "a2" locked ((λ e. refl), tt) tt
