-- ===== src/Policy.antt =====
-- patches/event-bridge/opc_bridge/policy.py: which value of a policy key wins.
pub mod Json
pub mod Choice
pub mod Precedence
pub mod Effective
use opc_stack.Base.{
  ℕ, suc, max, ◌≡◌, refl, Bool, true, false, not, ◌&&◌, ◌||◌, List, [], ◌∷◌, ◌++◌, map, Option,
  none, some, ltb, leb, eqb, ◌==◌, ◌&◌, if◌then◌else◌, select, any, text_ltb, is_some, String,
}
use opc_stack.Base.Int.{ℤ, pos, ltb_ℤ}
use opc_stack.Base.Sort.{sort_by}
use opc_stack.Base.Table.{contains}
use opc_stack.Event.{is_set, text_or}
use opc_stack.Store.Row.{Store, PolicyRow, MandateRow}
use opc_stack.Store.Policies.{active_policies, active_mandates}
use Json.{Value, null, bool, num, text, list, other}

abbrev pub hard_priority : ℕ
hard_priority = 10

abbrev pub operator_priority : ℕ
operator_priority = 20

abbrev pub mandate_priority : ℕ
mandate_priority = 30

abbrev pub adaptive_priority : ℕ
adaptive_priority = 40

abbrev pub default_priority : ℕ
default_priority = 50

-- `_SCOPE_RANK.get(scope, 0)`
unfoldable pub scope_rank : String → ℕ
scope_rank scope =
    if scope == "company"
    then 1
    else if scope == "track"
    then 2
    else if scope == "project"
    then 3
    else 0

abbrev pub hard_rules : List String
hard_rules =
    "production_deploy" ∷ "merge_main" ∷ "publish_public" ∷ "spend_money" ∷ "destructive_delete"
    ∷ "grant_access" ∷ []

abbrev pub defaults : List (String × Value)
defaults =
    ("allocation.core", num (pos 70))
    ∷ ("allocation.lab", num (pos 30))
    ∷ ("followups.allowed", bool false)
    ∷ ("style", text "blueprint")
    ∷ ("review.policy", text "hermes_report")
    ∷ ("track_locked", bool false)
    ∷ ("max_followups_per_day", num (pos 0))
    ∷ []

-- Python counts True and False among the numbers.
abbrev pub as_number : Value → Option ℤ
as_number (bool true) = some (pos 1)
as_number (bool false) = some (pos 0)
as_number (num n) = some n
as_number _ = none

abbrev pub is_text : String → Value → Bool
is_text s (text t) = t == s
is_text s _ = false

abbrev pub is_blueprint : Value → Bool
is_blueprint v = is_text "blueprint" v

abbrev pub lesser : Option ℤ → Option ℤ → Value → Value → Value
lesser (some a) (some b) left right = if ltb_ℤ b a then right else left
lesser _ _ left right = if is_blueprint left || is_blueprint right then text "blueprint" else left

-- The value that grants less.
unfoldable pub restrictive : Value → Value → Value
restrictive (bool a) (bool b) = bool (a && b)
restrictive (list xs) (list ys) = list (select (λ x. contains x ys) xs)
restrictive left right = lesser (as_number left) (as_number right) left right

pub record Candidate : Type 0 where
  pub key : String
  pub value : Value
  pub priority : ℕ
  pub scope : String
  pub created_at : String
  pub source : String
  pub row_id : Option String

abbrev pub rank : Candidate → ℕ
rank c = scope_rank c.scope

-- The sort key `(priority, -rank)`.
abbrev pub candidate_order : Candidate → Candidate → Bool
candidate_order a b =
    ltb a.priority b.priority || (eqb a.priority b.priority && leb (rank b) (rank a))

unfoldable pub best_rank : List Candidate → ℕ
best_rank [] = 0
best_rank (c ∷ cs) = max (rank c) (best_rank cs)

unfoldable pub newest : List Candidate → String
newest [] = ""
newest (c ∷ cs) = let rest = newest cs in if text_ltb rest c.created_at then c.created_at else rest

unfoldable pub fold_ties : Candidate → List Candidate → Candidate
fold_ties winner [] = winner
fold_ties winner (c ∷ cs) =
    fold_ties (record winner { value = restrictive winner.value c.value }) cs

abbrev pub combine : List Candidate → Option Candidate
combine [] = none
combine (winner ∷ ties) = some (fold_ties winner ties)

-- The ties of the best rank, then of the newest time, folded.
unfoldable pub settle_ties : List Candidate → Option Candidate
settle_ties same =
    let widest = select (λ c. eqb (rank c) (best_rank same)) same in
    combine (select (λ c. c.created_at == newest widest) widest)

unfoldable pub pick_sorted : List Candidate → Option Candidate
unfolding settle_ties
pick_sorted [] = none
pick_sorted (c ∷ cs) = settle_ties (select (λ x. eqb x.priority c.priority) (c ∷ cs))

-- No candidates is an IndexError of the source, `none` here.
unfoldable pub pick : List Candidate → Option Candidate
unfolding pick_sorted
pick candidates = pick_sorted (sort_by candidate_order candidates)

abbrev pub company_candidate : ℕ → String → String → Value → Candidate
company_candidate priority source key value = record {
  key = key;
  value = value;
  priority = priority;
  scope = "company";
  created_at = "";
  source = source;
  row_id = none;
}

abbrev pub default_candidates : List Candidate
default_candidates =
    map (λ (d : String × Value). company_candidate default_priority "default" d.0 d.1) defaults

abbrev pub hard_candidates : List Candidate
hard_candidates =
    map (λ action. company_candidate hard_priority "hard" ("actions." & action) (bool false))
      hard_rules

abbrev pub is_project : Option String → String → Bool
is_project none id = false
is_project (some p) id = id == p

-- The three `continue` guards on a policy row.
unfoldable pub policy_applies : String → Option String → String → PolicyRow → Bool
policy_applies company_id project_id track row =
    not
      (row.scope_kind == "company" && not (row.scope_id == company_id || row.scope_id == "default"))
    && (not (row.scope_kind == "project" && not (is_project project_id row.scope_id))
        && not (row.scope_kind == "track" && not (row.scope_id == track)))

abbrev pub policy_candidate : PolicyRow → Candidate
policy_candidate row = record {
  key = row.key;
  value = row.value;
  priority = row.priority;
  scope = row.scope_kind;
  created_at = row.created_at;
  source = row.created_by;
  row_id = some row.id;
}

unfoldable pub mandate_applies : Option String → String → MandateRow → Bool
mandate_applies project_id track row =
    (row.scope_kind == "project" && is_project project_id row.scope_id)
    || (row.scope_kind == "track" && row.scope_id == track)

abbrev pub followup_cap : Option ℕ → Value
followup_cap none = num (pos 0)
followup_cap (some n) = num (pos n)

abbrev pub or_default : String → String → String
or_default s d = if s == "" then d else s

-- The scalar keys of `mandate_keys`; the two lists of actions are read by `check`.
unfoldable pub mandate_keys : MandateRow → List (String × Value)
mandate_keys row =
    ("followups.allowed", bool row.followups_allowed)
    ∷ ("style", text (or_default row.style "blueprint"))
    ∷ ("review.policy", text (or_default row.review_policy "hermes_report"))
    ∷ ("max_followups_per_day", followup_cap row.max_followups_per_day)
    ∷ []

abbrev pub mandate_candidate : MandateRow → String × Value → Candidate
mandate_candidate row (key, value) = record {
  key = key;
  value = value;
  priority = mandate_priority;
  scope = row.scope_kind;
  created_at = row.created_at;
  source = "mandate:" & row.id;
  row_id = some row.id;
}

unfoldable pub mandate_candidates : List MandateRow → List Candidate
unfolding mandate_keys
mandate_candidates [] = []
mandate_candidates (row ∷ rows) =
    map (mandate_candidate row) (mandate_keys row) ++ mandate_candidates rows

module _ (s : Store) (company_id : String) (project_id : Option String) (track now : String) where
  -- What the source adds before the mandates.
  unfoldable pub standing : List Candidate
  unfolding policy_applies
  standing =
      default_candidates
      ++ (hard_candidates
          ++ map policy_candidate
              (select (policy_applies company_id project_id track) (active_policies now s)))

  unfoldable pub granted : List Candidate
  unfolding mandate_candidates mandate_applies
  granted = mandate_candidates (select (mandate_applies project_id track) (active_mandates now s))

  -- The winner of a key, with its provenance; `none` for a key that no one names.
  unfoldable pub effective : String → Option Candidate
  unfolding pick
  effective key = pick (select (λ c. c.key == key) (standing ++ granted))

abbrev pub is_locked : Option Candidate → Bool
is_locked none = false
is_locked (some c) = elim c.value [ bool b ↦ b | _ ↦ false ]

abbrev pub restricts : String → MandateRow → Bool
restricts action m = contains action m.restricted

abbrev pub has_list : MandateRow → Bool
has_list m = elim m.allowed [ [] ↦ false | _ ∷ _ ↦ true ]

abbrev pub permits : String → MandateRow → Bool
permits action m = has_list m && contains action m.allowed

pub data Verdict : Type 0 where
  hard_rule restricted not_allowed locked allowed : Verdict

-- The early returns of `check`, by their tests.
unfoldable pub verdict : (is_hard is_restricted is_missing is_shut : Bool) → Verdict
verdict true is_restricted is_missing is_shut = hard_rule
verdict false true is_missing is_shut = restricted
verdict false false true is_shut = not_allowed
verdict false false false true = locked
verdict false false false false = allowed

-- `check`; the verdict stands for the pair of answer and reason.
unfoldable pub check : Store → String → Option String → String → String → String → Verdict
unfolding mandate_applies verdict
check s company_id project_id track action now =
    let mandates = select (mandate_applies project_id track) (active_mandates now s) in
    verdict (contains action hard_rules) (any (restricts action) mandates)
      (any has_list mandates && not (any (permits action) mandates))
      (is_locked (effective s company_id project_id track now "track_locked"))
