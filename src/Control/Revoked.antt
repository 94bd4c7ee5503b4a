-- ===== src/Control/Revoked.antt =====
-- A revoked mandate stops at once.
use opc_stack.Base.{
  ◌≡◌, refl, true, false, List, [], ◌∷◌, Option, none, some, All, String, Bool-cases, inl, inr,
  if◌then◌else◌, arith, ◌==◌, select, is_none,
}
use opc_stack.Base.Sort.{sort_by-All}
use opc_stack.Base.Table.{find, update, find-update}
use opc_stack.Store.Row.{Store, MandateRow}
use opc_stack.Store.Outbox.{audit}
use opc_stack.Store.Policies.{
  mandate_key, is_active, is_active_mandate, active_mandates, get_mandate, revoke_mandate_row,
}
use opc_stack.Control.Grants.{revoke_mandate, revocation}

abbrev revoke_row : String → String → MandateRow → MandateRow
revoke_row at by row =
    if is_none row.revoked_at
    then record row { revoked_at = some at; revoked_by = some by }
    else row

revoke_row-key :
    (at by : String) (row : MandateRow) → mandate_key (revoke_row at by row) ≡ mandate_key row
revoke_row-key at by row = elim (Bool-cases (is_none row.revoked_at)) [
  | inl e ↦ rw e refl
  | inr e ↦ rw e refl
]

module _ (id now : String) where
  -- A row of the id is not active.
  abbrev Ended : MandateRow → Type 0
  Ended row = is_active_mandate now row ≡ true → (row.id == id) ≡ false

  inactive : (at : String) (expires : Option String) → is_active (some at) expires now ≡ false
  unfolding is_active
  inactive at none = refl
  inactive at (some e) = refl

  row-Ended :
      (at by : String) (row : MandateRow) (r : Option String)
      → row.revoked_at ≡ r
      → Ended (revoke_row at by row)
  row-Ended at by row none e h =
      let q = rw e at h in let k = inactive at row.expires_at in ground arith
  row-Ended at by row (some a) e h =
      let q = rw e at h in let k = inactive a row.expires_at in ground arith

  update-Ended :
      (at by : String) (rows : List MandateRow)
      → All Ended (update mandate_key id (revoke_row at by) rows)
  unfolding update
  update-Ended at by [] = tt
  update-Ended at by (row ∷ rows) = elim (Bool-cases (row.id == id)) [
    | inl e ↦ rw e (row-Ended at by row row.revoked_at refl, update-Ended at by rows)
    | inr e ↦ rw e ((λ h. e), update-Ended at by rows)
  ]

  missing-Ended : (rows : List MandateRow) → find mandate_key id rows ≡ none → All Ended rows
  unfolding find
  missing-Ended [] h = tt
  missing-Ended (row ∷ rows) h = ((λ _. ground arith), missing-Ended rows (ground arith))

  selected :
      (rows : List MandateRow)
      → All Ended rows
      → All (λ (row : MandateRow). (row.id == id) ≡ false) (select (is_active_mandate now) rows)
  selected [] h = tt
  selected (row ∷ rows) h = elim (Bool-cases (is_active_mandate now row)) [
    | inl e ↦ rw e (h.0 e, selected rows h.1)
    | inr e ↦ rw e (selected rows h.1)
  ]

  active-Ended :
      (s : Store)
      → All Ended s.mandates
      → All (λ (row : MandateRow). (row.id == id) ≡ false) (active_mandates now s)
  unfolding active_mandates
  active-Ended s h = sort_by-All _ _ _ (selected s.mandates h)

-- After a revocation, answered or refused, no mandate of the id is active at any time, and every
-- other mandate is what it was.
pub revoke_mandate_ends :
    (id actor : String) (from : Option String) (at now : String) (s : Store)
    → All
        (λ (row : MandateRow). (row.id == id) ≡ false)
        (active_mandates now (revoke_mandate id actor from at s).0)
      × ((j : String)
          → (id == j) ≡ false
          → get_mandate j (revoke_mandate id actor from at s).0 ≡ get_mandate j s)
unfolding revoke_mandate revoke_mandate_row get_mandate audit
revoke_mandate_ends id actor from at now s = go (find mandate_key id s.mandates) refl
  where
    go :
        (r : Option MandateRow)
        → find mandate_key id s.mandates ≡ r
        → All
            (λ (row : MandateRow). (row.id == id) ≡ false)
            (active_mandates now
              (revocation id actor from (revoke_mandate_row id at actor s) r s).0)
          × ((j : String)
              → (id == j) ≡ false
              → get_mandate j (revocation id actor from (revoke_mandate_row id at actor s) r s).0
                ≡ get_mandate j s)
    go none h = (active-Ended id now s (missing-Ended id now s.mandates h), λ j k. refl)
    go (some row) h = (
      active-Ended id now
          (revocation id actor from (revoke_mandate_row id at actor s) (some row) s).0
          (update-Ended id now at actor s.mandates),
      λ j k.
          rw
            (find-update mandate_key j id (revoke_row at actor) s.mandates
              (revoke_row-key at actor))
            (rw k refl),
    )
