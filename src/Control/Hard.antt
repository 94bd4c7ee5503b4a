-- ===== src/Control/Hard.antt =====
-- No command of the operator, and no adaptive step, ever moves a hard rule.
use opc_stack.Base.{ℕ, ◌≡◌, Bool, false, List, Option, some, All, String, ◌&◌}
use opc_stack.Base.Int.{ℤ}
use opc_stack.Base.Keeps.{Keeps-state}
use opc_stack.Poller.{PollerState, Setting}
use opc_stack.Poller.Keeps.{OnStore}
use opc_stack.Poller.Entries.{backfill-Keeps, backfill_labels-Keeps}
use opc_stack.Poller.Recover.{backfill, backfill_labels}
use opc_stack.Control.Stop.{Desk, Client, force_stop}
use opc_stack.Control.Stop.Kept.{force_stop-Keeps}
use opc_stack.Routes.{Wiring, revoke_row, refuse_with}
use opc_stack.Config.{Config, Iso}
use opc_stack.Policy.{hard_priority, hard_rules, effective, company_candidate}
use opc_stack.Policy.Json.{bool}
use opc_stack.Policy.Effective.{effective_hard}
use opc_stack.Store.Row.{Store, empty}
use opc_stack.Store.Policies.{revoke_policy}
use opc_stack.Control.Auth.{Inbox, verify}
use opc_stack.Control.Service.{Service, Board}
use opc_stack.Control.Allocation.{apply_allocation}
use opc_stack.Control.Grants.{
  MandateBody, OverrideBody, grant_mandate, revoke_mandate, set_override,
}
use opc_stack.Control.Below.{
  IsBelowHard, allocated-Safe, set_override-IsBelowHard, grant_mandate-IsBelowHard,
  revoke_mandate-IsBelowHard, verify-policies, audit-IsBelowHard, revoke_policy-IsBelowHard,
  revoke_row-IsBelowHard, IsBelowHard-IsKept,
}

-- The stores that commands lead to from a new database, whatever they ask for and however the
-- outside answers, refused and failed ones included: the uses of a message, the refusals, and what
-- each route of the API writes (a mandate, its revocation, an override, its revocation, an
-- allocation, a forced stop, a backfill of events or labels); also the allocations of the loop.
pub data IsCommanded : Store → Type 0 where
  new : IsCommanded empty
  asked :
      (s : Store) (cfg : Config) (time : Iso) (lower : String → String) (inbox : Inbox)
      (channel_id verb : String) (tokens : List String) (e : String) (now : ℕ)
      → IsCommanded s
      → IsCommanded (verify cfg time lower inbox channel_id verb tokens e now s).1
  granted :
      (s : Store) (body : MandateBody) (id actor : String) (from : Option String) (now_iso : String)
      → IsCommanded s
      → IsCommanded (grant_mandate body id actor from now_iso s).0
  revoked :
      (s : Store) (id actor : String) (from : Option String) (now_iso : String)
      → IsCommanded s
      → IsCommanded (revoke_mandate id actor from now_iso s).0
  overridden :
      (s : Store) (body : OverrideBody) (id actor : String) (from : Option String)
      (now_iso : String)
      → IsCommanded s
      → IsCommanded (set_override body id actor from now_iso s).0
  override_revoked :
      (s : Store) (w : Wiring) (now : ℕ) (authorization_event_id : Option String)
      (id actor now_iso : String)
      → IsCommanded s
      → IsCommanded
          (revoke_row w now authorization_event_id id actor (revoke_policy id now_iso s)).0
  refused :
      (s : Store) (w : Wiring) (now : ℕ) (authorization_event_id : Option String) (reason : String)
      → IsCommanded s
      → IsCommanded (refuse_with w now authorization_event_id reason s)
  stopped :
      (desk : Desk) (pc : Client) (run_id actor : String) (from : Option String) (tries : ℕ)
      → IsCommanded desk.store
      → IsCommanded (force_stop pc run_id actor from tries desk).0.store
  backfilled :
      (p : PollerState) (setting : Setting) (since_iso : String) (given : Option ℕ)
      → IsCommanded p.store
      → IsCommanded (backfill setting since_iso given p).0.store
  labelled :
      (p : PollerState) (setting : Setting)
      → IsCommanded p.store
      → IsCommanded (backfill_labels setting p).0.store
  allocated :
      (b : Board) (cfg : Config) (pc : Service) (uuid : Store → String)
      (loads : String → Option (List String)) (repr : List String → String)
      (show_number : ℕ → String) (actor : String) (from : Option String) (now_iso : String)
      (core lab : ℤ) (adaptive : Bool)
      → IsCommanded b.store
      → IsCommanded
          (apply_allocation cfg pc uuid loads repr show_number actor from now_iso core lab adaptive
            b).0.store

commanded-IsBelowHard : (s : Store) → IsCommanded s → IsBelowHard s
commanded-IsBelowHard _ new = tt
commanded-IsBelowHard _ (asked s cfg time lower inbox channel_id verb tokens e now r) =
    rw (verify-policies cfg time lower inbox channel_id verb tokens e now s)
      (commanded-IsBelowHard s r)
commanded-IsBelowHard _ (granted s body id actor from now_iso r) =
    grant_mandate-IsBelowHard body id actor from now_iso s (commanded-IsBelowHard s r)
commanded-IsBelowHard _ (revoked s id actor from now_iso r) =
    revoke_mandate-IsBelowHard id actor from now_iso s (commanded-IsBelowHard s r)
commanded-IsBelowHard _ (overridden s body id actor from now_iso r) =
    set_override-IsBelowHard body id actor from now_iso s (commanded-IsBelowHard s r)
commanded-IsBelowHard _ (override_revoked s w now authorization_event_id id actor now_iso r) =
    revoke_row-IsBelowHard w now authorization_event_id id actor (revoke_policy id now_iso s)
      (revoke_policy-IsBelowHard id now_iso s (commanded-IsBelowHard s r))
commanded-IsBelowHard _ (refused s w now authorization_event_id reason r) =
    audit-IsBelowHard _ _ _ _ _ s (commanded-IsBelowHard s r)
commanded-IsBelowHard _ (stopped desk pc run_id actor from tries r) =
    Keeps-state (λ (d : Desk). IsBelowHard d.store)
      (force_stop-Keeps IsBelowHard audit-IsBelowHard pc run_id actor from tries) desk
      (commanded-IsBelowHard desk.store r)
commanded-IsBelowHard _ (backfilled p setting since_iso given r) =
    Keeps-state (OnStore IsBelowHard)
      (backfill-Keeps IsBelowHard setting IsBelowHard-IsKept since_iso given) p
      (commanded-IsBelowHard p.store r)
commanded-IsBelowHard _ (labelled p setting r) =
    Keeps-state (OnStore IsBelowHard) (backfill_labels-Keeps IsBelowHard setting IsBelowHard-IsKept)
      p (commanded-IsBelowHard p.store r)
commanded-IsBelowHard _
      (allocated b cfg pc uuid loads repr show_number actor from now_iso core lab adaptive r) =
    allocated-Safe cfg pc uuid loads repr show_number actor from now_iso core lab adaptive b
      (commanded-IsBelowHard b.store r)

-- In every store that the commands of the API lead to from a new database, however they are
-- ordered, refused or cut short by a failing service, each of the six hard rules resolves to False, from the source "hard".
pub commanded_hard :
    (s : Store) (company_id : String) (project_id : Option String) (track now : String)
    → IsCommanded s
    → All
        (λ action.
          effective s company_id project_id track now ("actions." & action)
          ≡ some (company_candidate hard_priority "hard" ("actions." & action) (bool false)))
        hard_rules
commanded_hard s company_id project_id track now r =
    effective_hard s company_id project_id track now (commanded-IsBelowHard s r)
