-- ===== src/Control/Grants.antt =====
-- The mutations of control.py on mandates and overrides. `id` is what `uuid4` answers. A method
-- returns, raises PolicyError, or fails in another way; the store is that at the end in each case.
use opc_stack.Base.{
  ℕ, Bool, not, ◌||◌, ◌&&◌, List, [], ◌∷◌, Option, none, some, ltb, ◌==◌, ◌&◌, map, if◌then◌else◌,
  String,
}
use opc_stack.Base.Int.{pos}
use opc_stack.Base.Table.{contains}
use opc_stack.Event.{text_or, or_text}
use opc_stack.Policy.{operator_priority, defaults, hard_rules}
use opc_stack.Policy.Json.{Value, text, num}
use opc_stack.Store.Row.{Store, PolicyRow, MandateRow}
use opc_stack.Store.Outbox.{audit}
use opc_stack.Store.Policies.{insert_policy, insert_mandate, get_mandate, revoke_mandate_row}

pub data Answer {ℓ} (A : Type ℓ) : Type ℓ where
  answered : A → Answer A
  policy_error : String → Answer A
  failed : String → Answer A

pub record MandateBody : Type 0 where
  pub scope_kind : Option String
  pub scope_id : Option String
  pub track : Option String
  pub style : Option String
  pub allowed : List String
  pub restricted : List String
  pub followups_allowed : Bool
  pub max_followups_per_day : Option ℕ
  pub review_policy : Option String
  pub expires_at : Option String
  pub reason : Option String

abbrev pub mandate_row : MandateBody → (id actor : String) → Option String → String → MandateRow
mandate_row body id actor source_event_id now_iso =
    let scope_id : String = text_or (or_text body.scope_id body.track) "" in
    record {
      id = id;
      scope_kind = text_or body.scope_kind "track";
      scope_id = scope_id;
      style = text_or body.style "blueprint";
      track = text_or body.track (if scope_id == "lab" then "lab" else "core");
      allowed = body.allowed;
      restricted = body.restricted;
      followups_allowed = body.followups_allowed;
      max_followups_per_day = body.max_followups_per_day;
      review_policy = text_or body.review_policy "hermes_report";
      created_by = actor;
      source_event_id = source_event_id;
      created_at = now_iso;
      expires_at = body.expires_at;
      revoked_at = none;
      revoked_by = none;
      reason = text_or body.reason "";
    }

abbrev pub is_scoped : MandateRow → Bool
is_scoped row =
    (row.scope_kind == "project" || row.scope_kind == "track") && not (row.scope_id == "")

abbrev pub is_styled : MandateRow → Bool
is_styled row = row.style == "blueprint" || row.style == "exploration"

-- An INSERT, and what follows it.
abbrev pub inserted {ℓ} :
    {A : Type ℓ} → Store → Option Store → (Store → Store) → A → Store × Answer A
inserted s none after row = (s, failed "IntegrityError")
inserted s (some s') after row = (after s', answered row)

unfoldable pub grant_mandate :
    MandateBody
    → (id actor : String) → Option String
    → (now_iso : String) → Store
    → Store × Answer MandateRow
grant_mandate body id actor source_event_id now_iso s =
    let row = mandate_row body id actor source_event_id now_iso in
    if not (is_scoped row)
    then (s, policy_error "scope_kind must be project|track with a scope_id")
    else if not (is_styled row)
    then (s, policy_error "style must be blueprint|exploration")
    else inserted s (insert_mandate row s)
        (audit actor "mandate_granted" (some id)
          (("scope", text (row.scope_kind & ":" & row.scope_id)) ∷ []) source_event_id)
        row

abbrev pub revocation :
    String → String → Option String → Store × ℕ → Option MandateRow → Store → Store × Answer Bool
revocation id actor source_event_id done none s = (s, policy_error "no such mandate")
revocation id actor source_event_id (s', changed) (some row) s = (
  audit actor "mandate_revoked" (some id) (("changed", num (pos changed)) ∷ []) source_event_id s',
  answered (ltb 0 changed),
)

unfoldable pub revoke_mandate :
    (id actor : String) → Option String → (now_iso : String) → Store → Store × Answer Bool
revoke_mandate id actor source_event_id now_iso s =
    revocation id actor source_event_id (revoke_mandate_row id now_iso actor s) (get_mandate id s) s

pub record OverrideBody : Type 0 where
  pub scope_kind : Option String
  pub scope_id : Option String
  pub key : Option String
  pub value : Value
  pub reason : Option String
  pub expires_at : Option String

abbrev pub override_row : OverrideBody → (id actor : String) → Option String → String → PolicyRow
override_row body id actor source_event_id now_iso = record {
  id = id;
  scope_kind = text_or body.scope_kind "track";
  scope_id = text_or body.scope_id "";
  key = text_or body.key "";
  value = body.value;
  priority = operator_priority;
  created_by = actor;
  reason = text_or body.reason "";
  source_event_id = source_event_id;
  created_at = now_iso;
  expires_at = body.expires_at;
  revoked_at = none;
}

abbrev pub default_keys : List String
default_keys = map (λ (d : String × Value). d.0) defaults

abbrev pub is_addressed : PolicyRow → Bool
is_addressed row =
    (row.scope_kind == "company" || row.scope_kind == "track" || row.scope_kind == "project")
    && (not (row.scope_id == "") && not (row.key == ""))

unfoldable pub set_override :
    OverrideBody
    → (id actor : String) → Option String
    → (now_iso : String) → Store
    → Store × Answer PolicyRow
set_override body id actor source_event_id now_iso s =
    let row = override_row body id actor source_event_id now_iso in
    if not (is_addressed row)
    then (s, policy_error "scope_kind, scope_id and key are required")
    else if not (contains row.key default_keys || contains row.key hard_rules)
    then (s, policy_error ("unknown policy key " & row.key))
    else if contains row.key hard_rules
    then (s, policy_error "hard rules cannot be modified")
    else inserted s (insert_policy row s)
        (audit actor "policy_override" (some id)
          (("key", text row.key) ∷ ("value", body.value) ∷ []) source_event_id)
        row
