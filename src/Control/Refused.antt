-- ===== src/Control/Refused.antt =====
-- What an unlock does with an agent that had holds when it was paused.
use opc_stack.Base.{
  ℕ, ◌≡◌, refl, Bool, true, false, not, List, [], ◌∷◌, Option, none, some, String, Bool-cases, inl,
  inr, select, arith, ◌==◌, ◌&◌,
}
use opc_stack.Base.Table.{contains}
use opc_stack.Config.{Config}
use opc_stack.Store.Row.{Store, LedgerRow}
use opc_stack.Store.Control.{ledger_get}
use opc_stack.Control.Agents.{Agent, is_paused, holds, holds_match, hold_text}
use opc_stack.Control.Service.{Service, Board}
use opc_stack.Control.Grants.{answered}
use opc_stack.Control.Allocation.{unlock_agent, is_open, is_foreign}

contains-select :
    (k : String) (p : String → Bool) (xs : List String)
    → contains k xs ≡ false
    → contains k (select p xs) ≡ false
contains-select k p [] h = refl
contains-select k p (x ∷ xs) h = elim (Bool-cases (p x)) [
  | inl e ↦ rw e (let q = contains-select k p xs (ground arith) in ground arith)
  | inr e ↦ rw e (contains-select k p xs (ground arith))
]

holds_match-one :
    (k : String) (xs : List String) → contains k xs ≡ false → holds_match (k ∷ []) xs ≡ false
unfolding holds_match
holds_match-one k xs h = rw (contains-select k (λ x. not (x == "manual")) xs h) refl

holds-hold_text :
    (loads : String → Option (List String)) (s : String)
    → loads s ≡ none
    → holds loads (hold_text s) ≡ s ∷ []
unfolding holds
holds-hold_text loads s h = rw (holds, h) refl

module _ (cfg : Config) (pc : Service) (uuid : Store → String)
    (loads : String → Option (List String)) (repr : List String → String) (show_number : ℕ → String)
    (actor : String) (source_event_id : Option String) (now_iso : String) where
  -- The lock writes the holds of an agent down as Python prints a list. Where that text is no JSON
  -- and not itself a hold of the agent, the unlock refuses the agent that this service paused as
  -- soon as it has any hold, also where the holds are those that were written down: no call is made,
  -- and the ledger row stays open.
  pub unlock_refused :
      (a : Agent) (row : LedgerRow) (recorded rest : List String) (h : String) (b : Board)
      → ledger_get a.id b.store ≡ some row
      → is_open cfg pc uuid loads repr show_number actor source_event_id now_iso row ≡ true
      → is_paused a ≡ true
      → row.original_holds ≡ repr recorded
      → loads (repr recorded) ≡ none
      → holds loads a.lifecycle_holds ≡ h ∷ rest
      → contains (repr recorded) (h ∷ rest) ≡ false
      → unlock_agent cfg pc uuid loads repr show_number actor source_event_id now_iso a b
        ≡ (b, answered (("refused:" & a.id) ∷ []))
  unfolding unlock_agent
  unlock_refused a row recorded rest h b found opened paused written broken current strange =
      let foreign : is_foreign cfg pc uuid loads repr show_number actor source_event_id now_iso a
            row
          ≡ true =
        rw
          (
            current,
            written,
            holds-hold_text loads (repr recorded) broken,
            holds_match-one (repr recorded) (h ∷ rest) strange,
          )
          refl in
      rw (found, opened, paused, foreign) refl
