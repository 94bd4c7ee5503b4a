-- ===== src/Control/Reconcile.antt =====
-- `reconcile_lock` of control.py: the lock that is written down is put on again after a restart.
use opc_stack.Base.{
  Bool, true, false, not, List, [], ◌∷◌, ◌++◌, Option, none, some, String, ◌==◌, ◌&◌, if◌then◌else◌,
}
use opc_stack.Base.Int.{pos, ltb_ℤ}
use opc_stack.Config.{Config}
use opc_stack.Event.{text_or}
use opc_stack.Policy.{Candidate, effective}
use opc_stack.Policy.Json.{Value, null, bool, num, text, list, other}
use opc_stack.Store.Row.{Store, LedgerRow}
use opc_stack.Store.Outbox.{audit}
use opc_stack.Store.Control.{ledger_release}
use opc_stack.Control.Agents.{Agent, is_paused}
use opc_stack.Control.Grants.{Answer, answered, policy_error, failed}
use opc_stack.Control.Service.{
  Service, Act, ◌>>=◌, ◌>>◌, done, change, look, send, set_status, ask_agent, wait_settled,
}

pub record Reconciled : Type 0 where
  pub paused : List String
  pub skipped : List String

abbrev pub is_released : LedgerRow → Bool
is_released row = not (text_or row.released_at "" == "")

-- `share and share > 0`; a text or a list that is not empty is a TypeError, as any other value.
abbrev pub grants_share : Value → Answer Bool
grants_share null = answered false
grants_share (bool b) = answered b
grants_share (num n) = answered (ltb_ℤ (pos 0) n)
grants_share (text s) = if s == "" then answered false else failed "TypeError"
grants_share (list []) = answered false
grants_share (list (x ∷ xs)) = failed "TypeError"
grants_share (other s) = failed "TypeError"

abbrev pub share_value : Option Candidate → Value
share_value none = num (pos 100)
share_value (some c) = c.value

abbrev pub none_yet : Reconciled
none_yet = record { paused = []; skipped = [] }

abbrev pub joined : Reconciled → Reconciled → Reconciled
joined a b = record { paused = a.paused ++ b.paused; skipped = a.skipped ++ b.skipped }

abbrev pub skip : String → Reconciled
skip id = record { paused = []; skipped = id ∷ [] }

abbrev pub stop : Answer Reconciled → Act Reconciled
stop e b = (b, e)

module _ (cfg : Config) (pc : Service) (now_iso : String) where
  abbrev pub track_share : LedgerRow → Store → Value
  track_share row s = share_value (
      effective s (text_or cfg.company_id "default") none row.track now_iso
        ("allocation." & row.track))

  abbrev pub lock_again : String → Agent → Act Reconciled
  lock_again id a = if is_paused a then done (skip id) else (do
    send pc id (set_status "paused")
    wait_settled pc id true
    done (record { paused = id ∷ []; skipped = [] }))

  abbrev pub by_share : String → Agent → Answer Bool → Act Reconciled
  by_share id a (answered true) = change (ledger_release id now_iso) >> done (skip id)
  by_share id a (answered false) = lock_again id a
  by_share id a (policy_error e) = stop (policy_error e)
  by_share id a (failed e) = stop (failed e)

  -- One row of the ledger.
  unfoldable pub reconcile_row : LedgerRow → Act Reconciled
  reconcile_row row = if is_released row then done none_yet else (do
    share ← look (track_share row)
    a ← ask_agent pc row.agent_id
    by_share row.agent_id a (grants_share share))

  unfoldable pub reconcile_rows : List LedgerRow → Act Reconciled
  unfolding reconcile_row
  reconcile_rows [] = done none_yet
  reconcile_rows (row ∷ rows) = do
    one ← reconcile_row row
    rest ← reconcile_rows rows
    done (joined one rest)

  abbrev pub report : Reconciled → Act Reconciled
  report r = elim r.paused [
    | [] ↦ done r
    | _ ∷ _ ↦
        change (
          audit "bridge" "lock_reasserted" none
            (("paused", list r.paused) ∷ ("skipped", list r.skipped) ∷ []) none)
        >> done r
  ]

  unfoldable pub reconcile_lock : Act Reconciled
  unfolding reconcile_rows
  reconcile_lock = do rows ← look (λ s. s.ledger); r ← reconcile_rows rows; report r
