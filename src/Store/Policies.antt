-- ===== src/Store/Policies.antt =====
-- The methods of store.py on policies, mandates and used authorizations. A plain INSERT on a taken
-- key fails (`none`), as sqlite's IntegrityError.
use opc_stack.Base.{
  ℕ, Bool, not, ◌&&◌, ◌||◌, List, Option, none, some, ltb, eqb, if◌then◌else◌, is_none, is_some,
  select, length, text_ltb, String, ◌==◌,
}
use mathlib.Core.Option
use opc_stack.Base.Table.{find, update, insert}
use opc_stack.Base.Sort.{sort_by}
use opc_stack.Store.Row.{Store, PolicyRow, MandateRow, AuthUseRow}

abbrev pub policy_key : PolicyRow → String
policy_key row = row.id

abbrev pub mandate_key : MandateRow → String
mandate_key row = row.id

abbrev pub auth_key : AuthUseRow → String
auth_key row = row.event_id

-- revoked_at IS NULL AND (expires_at IS NULL OR expires_at > now)
unfoldable pub is_active : Option String → Option String → String → Bool
is_active revoked_at none now = is_none revoked_at
is_active revoked_at (some expires_at) now = is_none revoked_at && text_ltb now expires_at

abbrev pub is_active_policy : String → PolicyRow → Bool
is_active_policy now row = is_active row.revoked_at row.expires_at now

abbrev pub is_active_mandate : String → MandateRow → Bool
is_active_mandate now row = is_active row.revoked_at row.expires_at now

-- ORDER BY priority, created_at DESC
abbrev pub policy_order : PolicyRow → PolicyRow → Bool
policy_order a b =
    ltb a.priority b.priority
    || (eqb a.priority b.priority && not (text_ltb a.created_at b.created_at))

unfoldable pub active_policies : String → Store → List PolicyRow
unfolding is_active
active_policies now s = sort_by policy_order (select (is_active_policy now) s.policies)

unfoldable pub active_mandates : String → Store → List MandateRow
unfolding is_active
active_mandates now s =
    sort_by (λ a b. not (text_ltb a.created_at b.created_at))
      (select (is_active_mandate now) s.mandates)

unfoldable pub insert_policy : PolicyRow → Store → Option Store
insert_policy row s =
    Option.map (λ rows. record s { policies = rows }) (insert policy_key row s.policies)

unfoldable pub insert_mandate : MandateRow → Store → Option Store
insert_mandate row s =
    Option.map (λ rows. record s { mandates = rows }) (insert mandate_key row s.mandates)

-- The number of rows that a revocation changes: those of the id that are not revoked yet.
unfoldable pub revoke_policy : String → String → Store → Store × ℕ
revoke_policy id at s = (
  record s {
    policies =
        update policy_key id
          (λ row. if is_none row.revoked_at then record row { revoked_at = some at } else row)
          s.policies;
  },
  length (select (λ (row : PolicyRow). row.id == id && is_none row.revoked_at) s.policies),
)

unfoldable pub revoke_mandate_row : String → String → String → Store → Store × ℕ
revoke_mandate_row id at by s = (
  record s {
    mandates =
        update mandate_key id
          (λ row.
            if is_none row.revoked_at
            then record row { revoked_at = some at; revoked_by = some by }
            else row)
          s.mandates;
  },
  length (select (λ (row : MandateRow). row.id == id && is_none row.revoked_at) s.mandates),
)

unfoldable pub get_mandate : String → Store → Option MandateRow
get_mandate id s = find mandate_key id s.mandates

unfoldable pub auth_used : String → Store → Bool
auth_used event_id s = is_some (find auth_key event_id s.auth_uses)

unfoldable pub use_auth : String → String → String → Store → Option Store
use_auth event_id at action s =
    Option.map (λ rows. record s { auth_uses = rows })
      (insert auth_key (record { event_id = event_id; used_at = at; action = action }) s.auth_uses)
