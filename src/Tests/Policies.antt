-- ===== src/Tests/Policies.antt =====
-- The resolver on sample candidates and a sample store.
use opc_stack.Base.{◌≡◌, refl, ◌↔◌, true, false, [], ◌∷◌, none, some, ◌&◌, All, inl, inr, arith}
use opc_stack.Base.Sort.{sort_by}
use opc_stack.Store.Row.{Store, PolicyRow, MandateRow, empty}
use opc_stack.Store.Policies.{active_policies}
use opc_stack.Policy.Json.{bool}
use opc_stack.Policy.{
  Candidate, company_candidate, hard_rules, pick, effective, check, allowed, standing,
}
use opc_stack.Policy.Precedence.{by_priority, pick_outranked}
use opc_stack.Policy.Effective.{effective_mandates, effective_hard, check_allowed, IsPermitted}

abbrev operator_row : PolicyRow
operator_row = record {
  id = "p1";
  scope_kind = "track";
  scope_id = "lab";
  key = "followups.allowed";
  value = bool false;
  priority = 20;
  created_by = "operator:owner";
  reason = "";
  source_event_id = none;
  created_at = "2026-01-02";
  expires_at = none;
  revoked_at = none;
}

abbrev override : Candidate
override = record {
  key = "followups.allowed";
  value = bool false;
  priority = 20;
  scope = "track";
  created_at = "2026-01-02";
  source = "operator:owner";
  row_id = some "p1";
}

abbrev pub lab_mandate : MandateRow
lab_mandate = record {
  id = "m1";
  scope_kind = "track";
  scope_id = "lab";
  style = "exploration";
  track = "lab";
  allowed = "open_issue" ∷ [];
  restricted = [];
  followups_allowed = true;
  max_followups_per_day = some 3;
  review_policy = "hermes_report";
  created_by = "operator:owner";
  source_event_id = none;
  created_at = "2026-01-03";
  expires_at = none;
  revoked_at = none;
  revoked_by = none;
  reason = "";
}

abbrev ruled : Store
ruled = record empty { policies = operator_row ∷ [] }

abbrev default_followups : Candidate
default_followups = company_candidate 50 "default" "followups.allowed" (bool false)

pick_outranked_example : pick (override ∷ default_followups ∷ []) ≡ pick (override ∷ [])
pick_outranked_example =
    pick_outranked (override ∷ []) [] default_followups override (inl refl)
      (by_priority (omega arith))

effective_hard_example :
    All
      (λ action.
        effective ruled "acme" none "lab" "2026-02-01" ("actions." & action)
        ≡ some (company_candidate 10 "hard" ("actions." & action) (bool false)))
      hard_rules
effective_hard_example = effective_hard ruled "acme" none "lab" "2026-02-01" (omega arith)

effective_mandates_example :
    effective
      (record ruled { mandates = lab_mandate ∷ [] })
      "acme"
      none
      "lab"
      "2026-02-01"
      "followups.allowed"
    ≡ effective ruled "acme" none "lab" "2026-02-01" "followups.allowed"
unfolding standing active_policies sort_by
effective_mandates_example =
    effective_mandates ruled "acme" none "lab" "2026-02-01" "followups.allowed" override
      (lab_mandate ∷ []) (inr (inl refl)) (omega arith)

check_allowed_example :
    (check ruled "acme" none "lab" "open_issue" "2026-02-01" ≡ allowed)
    ↔ IsPermitted ruled "acme" none "lab" "2026-02-01" "open_issue"
check_allowed_example = check_allowed ruled "acme" none "lab" "2026-02-01" "open_issue"
