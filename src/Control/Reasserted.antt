-- ===== src/Control/Reasserted.antt =====
-- Which agents `reconcile_lock` touches.
use opc_stack.Base.{
  ◌≡◌, refl, Bool, true, false, List, [], ◌∷◌, Option, All, All-append, String, Bool-cases, inl,
  inr, ◌==◌,
}
use opc_stack.Config.{Config}
use opc_stack.Store.Row.{LedgerRow}
use opc_stack.Store.Outbox.{audit}
use opc_stack.Store.Control.{ledger_get}
use opc_stack.Control.Agents.{Agent, is_paused}
use opc_stack.Control.Grants.{Answer, answered, policy_error, failed}
use opc_stack.Control.Service.{
  Service, Board, Call, done, look, send, set_status, ask_agent, wait_settled, get_agent, called,
}
use opc_stack.Control.Runs.{
  Any, Runs, Leaves, bind-Runs, send-Runs, wait_settled-Runs, ask_agent-Runs,
}
use opc_stack.Control.Spared.{touches, ledger_release-other}
use opc_stack.Control.Reconcile.{
  Reconciled, is_released, grants_share, lock_again, by_share, reconcile_row, reconcile_rows,
  report, reconcile_lock, track_share,
}

-- The agent's row is `r`, and no call touched its status.
abbrev pub IsLeft : String → Option LedgerRow → Board → Type 0
IsLeft t r b = (ledger_get t b.store ≡ r) × All (λ c. touches t c ≡ false) b.calls

-- The row is released, or it is another agent's.
abbrev pub IsOther : String → LedgerRow → Type 0
IsOther t row = is_released row ≡ false → (row.agent_id == t) ≡ false

module _ (cfg : Config) (pc : Service) (now_iso : String) (t : String) (r : Option LedgerRow) where
  keeps : (c : Call) (b : Board) → touches t c ≡ false → IsLeft t r b → IsLeft t r (called c b)
  keeps c b h p = (p.0, All-append _ b.calls (c ∷ []) p.1 (h, tt))

  reads : (b : Board) (id : String) → IsLeft t r b → IsLeft t r (called (get_agent id) b)
  reads b id p = keeps (get_agent id) b refl p

  lock_again-Runs :
      (id : String) (a : Agent)
      → (id == t) ≡ false
      → Runs (IsLeft t r) Any (lock_again cfg pc now_iso id a)
  lock_again-Runs id a e = elim (Bool-cases (is_paused a)) [
    | inl f ↦ rw f (λ b p. (p, tt))
    | inr f ↦ rw f (
        bind-Runs (IsLeft t r) Any Any (send pc id (set_status "paused")) _
          (send-Runs (IsLeft t r) pc id (set_status "paused") (λ b p. keeps _ b e p))
          (λ _ q.
            bind-Runs (IsLeft t r) Any Any (wait_settled pc id true)
              (λ _. done (record { paused = id ∷ []; skipped = [] }))
              (wait_settled-Runs (IsLeft t r) pc reads id true) (λ _ q' b p. (p, tt))))
  ]

  by_share-Runs :
      (id : String) (a : Agent) (g : Answer Bool)
      → (id == t) ≡ false
      → Runs (IsLeft t r) Any (by_share cfg pc now_iso id a g)
  by_share-Runs id a (answered true) e =
      λ b p. ((rw (ledger_release-other t id now_iso b.store e) p.0, p.1), tt)
  by_share-Runs id a (answered false) e = lock_again-Runs id a e
  by_share-Runs id a (policy_error m) e = λ b p. p
  by_share-Runs id a (failed m) e = λ b p. p

  reconcile_row-Runs :
      (row : LedgerRow) → IsOther t row → Runs (IsLeft t r) Any (reconcile_row cfg pc now_iso row)
  unfolding reconcile_row
  reconcile_row-Runs row h = elim (Bool-cases (is_released row)) [
    | inl e ↦ rw e (λ b p. (p, tt))
    | inr e ↦ rw e (
        bind-Runs (IsLeft t r) Any Any (look (track_share cfg pc now_iso row)) _ (λ b p. (p, tt))
          (λ share q.
            bind-Runs (IsLeft t r) Any Any (ask_agent pc row.agent_id) _
              (ask_agent-Runs (IsLeft t r) pc reads row.agent_id)
              (λ a q'. by_share-Runs row.agent_id a (grants_share share) (h e))))
  ]

  reconcile_rows-Runs :
      (rows : List LedgerRow)
      → All (IsOther t) rows
      → Runs (IsLeft t r) Any (reconcile_rows cfg pc now_iso rows)
  unfolding reconcile_rows
  reconcile_rows-Runs [] h = λ b p. (p, tt)
  reconcile_rows-Runs (row ∷ rows) h =
      bind-Runs (IsLeft t r) Any Any (reconcile_row cfg pc now_iso row) _
        (reconcile_row-Runs row h.0)
        (λ one q.
          bind-Runs (IsLeft t r) Any Any (reconcile_rows cfg pc now_iso rows) _
            (reconcile_rows-Runs rows h.1) (λ rest q' b p. (p, tt)))

  report-Runs :
      (x : Reconciled) (xs : List String)
      → x.paused ≡ xs
      → Runs (IsLeft t r) Any (report cfg pc now_iso x)
  unfolding audit ledger_get
  report-Runs x [] e = rw e (λ b p. (p, tt))
  report-Runs x (y ∷ ys) e = rw e (λ b p. (p, tt))

  left : {A : Type 0} (o : Board × Answer A) → Leaves (IsLeft t r) Any o → IsLeft t r o.0
  left (b, answered a) h = h.0
  left (b, policy_error e) h = h
  left (b, failed e) h = h

-- After a restart only agents with an open row of the ledger are touched: an agent without one
-- keeps its row, or has none still, and no call changes its status, whatever the service answers.
pub reconcile_lock_spares :
    (cfg : Config) (pc : Service) (now_iso t : String) (b : Board)
    → All (IsOther t) b.store.ledger
    → All (λ c. touches t c ≡ false) b.calls
    → IsLeft t (ledger_get t b.store) (reconcile_lock cfg pc now_iso b).0
unfolding reconcile_lock
reconcile_lock_spares cfg pc now_iso t b h k =
    left cfg pc now_iso t (ledger_get t b.store) (reconcile_lock cfg pc now_iso b) (
      bind-Runs (IsLeft t (ledger_get t b.store)) Any Any
        (reconcile_rows cfg pc now_iso b.store.ledger) (report cfg pc now_iso)
        (reconcile_rows-Runs cfg pc now_iso t (ledger_get t b.store) b.store.ledger h)
        (λ x q. report-Runs cfg pc now_iso t (ledger_get t b.store) x x.paused refl) b (refl, k))
