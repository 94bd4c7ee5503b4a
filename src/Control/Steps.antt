-- ===== src/Control/Steps.antt =====
-- What pausing, resuming and setting the slots of one agent keep.
use opc_stack.Base.{ℕ, true, false, List, [], ◌∷◌, Option, none, some, String, Bool-cases, inl, inr}
use opc_stack.Base.Dict.{get}
use opc_stack.Policy.Json.{Value}
use opc_stack.Config.{Config}
use opc_stack.Event.{status_text}
use opc_stack.Store.Row.{Store, LedgerRow}
use opc_stack.Store.Control.{ledger_get, ledger_put, ledger_release}
use opc_stack.Control.Agents.{Agent, Field, is_paused, holds_text}
use opc_stack.Control.Service.{
  Service, Board, Patch, set_status, set_slots, get_agent, patch_agent, called, send, change,
  wait_settled, done,
}
use opc_stack.Control.Runs.{Any, Runs, Leaves, bind-Runs, change-Runs, send-Runs, wait_settled-Runs}
use opc_stack.Control.Allocation.{
  lock_agent, unlock_agent, unlock_from, resume, reopen, slots_patch, patch_slots, nested, is_open,
  is_foreign,
}

module _ (cfg : Config) (pc : Service) (uuid : Store → String)
    (loads : String → Option (List String)) (repr : List String → String) (show_number : ℕ → String)
    (actor : String) (source_event_id : Option String) (now_iso : String) where
  module _ (P : Board → Type 0) (a : Agent)
      (reads : (b : Board) (id : String) → P b → P (called (get_agent id) b))
      (sends : (b : Board) (p : Patch) → P b → P (called (patch_agent a.id p) b)) where
    module _ (track : String)
        (puts : (status lifecycle held : String) (b : Board)
          → P b
          → P (record b {
            store = ledger_put a.id track status lifecycle held source_event_id now_iso b.store;
          })) where
      reopen-Leaves :
          (b : Board) (row : Option LedgerRow)
          → P b
          → Leaves P Any (
              reopen cfg pc uuid loads repr show_number actor source_event_id now_iso a.id track row
                b)
      reopen-Leaves b none p = (p, tt)
      reopen-Leaves b (some row) p = (puts _ _ _ b p, tt)

      pub lock_agent-Runs :
          Runs P Any
            (lock_agent cfg pc uuid loads repr show_number actor source_event_id now_iso track a)
      unfolding lock_agent
      lock_agent-Runs = elim (Bool-cases (is_paused a)) [
        | inl e ↦ rw e (λ b p. reopen-Leaves b (ledger_get a.id b.store) p)
        | inr e ↦ rw e (
            bind-Runs P Any Any
              (change (
                ledger_put a.id track (status_text a.status) (status_text a.lifecycle_state)
                  (holds_text repr a.lifecycle_holds) source_event_id now_iso))
              _ (change-Runs P _ (puts _ _ _))
              (λ _ q.
                bind-Runs P Any Any (send pc a.id (set_status "paused")) _
                  (send-Runs P pc a.id (set_status "paused") (λ b p. sends b _ p))
                  (λ _ q'.
                    bind-Runs P Any Any (wait_settled pc a.id true) (λ _. done (a.id ∷ []))
                      (wait_settled-Runs P pc reads a.id true) (λ _ q'' b p. (p, tt)))))
      ]

    module _
        (releases : (b : Board)
          → P b
          → P (record b { store = ledger_release a.id now_iso b.store })) where
      resume-Runs :
          (row : LedgerRow)
          → Runs P Any
              (resume cfg pc uuid loads repr show_number actor source_event_id now_iso a row)
      resume-Runs row =
          elim (Bool-cases
            (is_foreign cfg pc uuid loads repr show_number actor source_event_id now_iso a row)) [
              | inl e ↦ rw e (λ b p. (p, tt))
              | inr e ↦ rw e (
                  bind-Runs P Any Any (send pc a.id (set_status "idle")) _
                    (send-Runs P pc a.id (set_status "idle") (λ b p. sends b _ p))
                    (λ _ q.
                      bind-Runs P Any Any (wait_settled pc a.id false) _
                        (wait_settled-Runs P pc reads a.id false) (λ _ q' b p. (releases b p, tt))))
            ]

      unlock_from-Runs :
          (row : Option LedgerRow)
          → Runs P Any
              (unlock_from cfg pc uuid loads repr show_number actor source_event_id now_iso a row)
      unlock_from-Runs none b p = (p, tt)
      unlock_from-Runs (some row) b p =
          elim (Bool-cases
            (is_open cfg pc uuid loads repr show_number actor source_event_id now_iso row)) [
              | inl e ↦ rw e (elim (Bool-cases (is_paused a)) [
                | inl f ↦ rw f (resume-Runs row b p)
                | inr f ↦ rw f (releases b p, tt)
              ])
              | inr e ↦ rw e (p, tt)
            ]

      pub unlock_agent-Runs :
          Runs P Any
            (unlock_agent cfg pc uuid loads repr show_number actor source_event_id now_iso a)
      unfolding unlock_agent
      unlock_agent-Runs b p = unlock_from-Runs (ledger_get a.id b.store) b p

  pub slots_patch-Runs :
      (P : Board → Type 0) (a : Agent) (n : ℕ)
      → ((b : Board) (config metadata : List (String × Field))
          → P b
          → P (called (patch_agent a.id (set_slots config metadata)) b))
      → Runs P Any
          (slots_patch cfg pc uuid loads repr show_number actor source_event_id now_iso n a)
  unfolding slots_patch
  slots_patch-Runs P a n sends = patched (nested (get "heartbeat" a.runtime_config))
    where
      patched :
          (fields : Option (List (String × Value)))
          → Runs P Any (
              patch_slots cfg pc uuid loads repr show_number actor source_event_id now_iso n a
                fields)
      patched none = λ b p. p
      patched (some fields) =
          bind-Runs P Any Any (send pc a.id _) _ (send-Runs P pc a.id _ (λ b p. sends b _ _ p))
            (λ _ q b p. (p, tt))
