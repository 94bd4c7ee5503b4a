-- ===== src/Control/Agents.antt =====
-- The helpers of control.py on agents. An agent is the row that Paperclip answers with; its
-- `lifecycleHolds` is a list, or the text of one. `loads` reads a JSON list of texts, and `repr` is
-- Python's `str` of a list of texts.
use opc_stack.Base.{
  ℕ, zero, ◌+◌, ◌-◌, ◌*◌, ◌/◌, ◌%◌, max, Bool, not, ◌&&◌, List, [], ◌∷◌, Option, none, some, ltb,
  ◌==◌, all, select, if◌then◌else◌, String,
}
use opc_stack.Base.Table.{contains}
use opc_stack.Event.{status_text}
use opc_stack.Policy.Json.{Value}

pub data RawHolds : Type 0 where
  no_holds : RawHolds
  hold_list : List String → RawHolds
  hold_text : String → RawHolds

-- A field of `metadata` or `runtimeConfig`: a plain value, or an object of plain values.
pub data Field : Type 0 where
  plain : Value → Field
  object : List (String × Value) → Field

pub record Agent : Type 0 where
  pub id : String
  pub role : Option String
  pub name : Option String
  pub status : Option String
  pub lifecycle_state : Option String
  pub lifecycle_holds : RawHolds
  pub metadata : List (String × Field)
  pub runtime_config : List (String × Field)

abbrev pub is_paused : Agent → Bool
is_paused a = status_text a.status == "paused"

-- `lifecycleHolds or []`, printed.
unfoldable pub holds_text : (List String → String) → RawHolds → String
holds_text repr no_holds = repr []
holds_text repr (hold_list xs) = repr xs
holds_text repr (hold_text s) = if s == "" then repr [] else s

-- A text that is no JSON is one hold.
unfoldable pub holds : (String → Option (List String)) → RawHolds → List String
holds loads no_holds = []
holds loads (hold_list xs) = xs
holds loads (hold_text s) = elim (loads s) [ none ↦ s ∷ [] | some xs ↦ xs ]

abbrev pub all_in : List String → List String → Bool
all_in xs ys = all (λ x. contains x ys) xs

-- Equality of the two as sets, the `manual` hold taken off the second.
unfoldable pub holds_match : List String → List String → Bool
holds_match recorded current =
    let others = select (λ h. not (h == "manual")) current in
    all_in recorded others && all_in others recorded

-- `round(n / d)`: to the nearest, and from the middle to the even one.
unfoldable pub round_ratio : ℕ → ℕ → ℕ
round_ratio n d =
    if ltb (2 * (n % d)) d
    then n / d
    else if ltb d (2 * (n % d))
    then n / d + 1
    else n / d + (n / d) % 2

pub record SlotPlan : Type 0 where
  pub core : ℕ
  pub lab_per_agent : ℕ

unfoldable pub core_slots : ℕ → ℕ → ℕ
unfolding round_ratio
core_slots core budget = if ltb 0 core then max 1 (round_ratio (budget * core) 100) else 0

-- No plan for a budget of 0. A core share of at most 100 takes at most the budget.
unfoldable pub slot_plan : (core budget lab_agents : ℕ) → Option SlotPlan
unfolding core_slots
slot_plan core zero lab_agents = none
slot_plan core budget lab_agents =
    let lab_slots = budget - core_slots core budget in
    some (record {
      core = core_slots core budget;
      lab_per_agent =
          if ltb 0 lab_slots && ltb 0 lab_agents then max 1 (lab_slots / lab_agents) else 0;
    })
