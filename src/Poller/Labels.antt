-- ===== src/Poller/Labels.antt =====
-- The labels of Paperclip and the agents, by id, as poller.py keeps them, and `ensure_labels` of
-- labels.py.
use opc_stack.Base.{String, ◌==◌, List, [], ◌∷◌, Option, none, some, if◌then◌else◌, select, not}
use opc_stack.Base.Dict.{put, get}
use opc_stack.Base.Proc.{give, look, fold_each, ◌>>=◌, ◌>>◌, change}
use opc_stack.Event.{Issue, status_text, text_or}
use opc_stack.Label.{track_of}
use opc_stack.Label
use opc_stack.Poller.{Act, Setting, LabelRow, AgentRow, ask, list_labels, list_agents, create_label}

abbrev pub all_labels : List String
all_labels = "track:core" ∷ "track:lab" ∷ "style:blueprint" ∷ "style:exploration" ∷ []

-- `LABEL_COLORS[name]` of the four names.
abbrev pub label_color : String → String
label_color name =
    if name == "track:core"
    then "#2563eb"
    else if name == "track:lab"
    then "#7c3aed"
    else if name == "style:blueprint"
    then "#0f766e"
    else "#b45309"

unfoldable pub ids_by_name : List LabelRow → List (String × String) → List (String × String)
ids_by_name [] found = found
ids_by_name (row ∷ rows) found =
    ids_by_name rows (put (status_text row.name) (status_text row.id) found)

-- `{label_id: name for name, label_id in ensured.items()}`
unfoldable pub names_by_id :
    List (String × String) → List (String × String) → List (String × String)
names_by_id [] found = found
names_by_id ((name, id) ∷ more) found = names_by_id more (put id name found)

unfoldable pub agents_of : List AgentRow → List (String × Label.Agent) → List (String × Label.Agent)
agents_of [] found = found
agents_of (row ∷ rows) found = agents_of rows (put (status_text row.id) row.agent found)

abbrev pub with_created : String → List (String × String) → Option String → List (String × String)
with_created name result none = result
with_created name result (some id) = if id == "" then result else put name id result

abbrev pub keep_names : List (String × String) → Act (Unit {0})
keep_names names = change (λ s. record s { label_names = some names })

abbrev pub keep_agents : List (String × Label.Agent) → Act (Unit {0})
keep_agents agents = change (λ s. record s { agents_by_id = some agents })

abbrev pub name_or_empty : Option String → String
name_or_empty none = ""
name_or_empty (some name) = name

module _ (w : Setting) where
  abbrev pub label_from :
      List (String × String) → String → Option String → Act (List (String × String))
  label_from result name (some id) = give (put name id result)
  label_from result name none = do
    created ←
        ask (create_label name (label_color name))
          (λ calls. w.pc.create_label calls name (label_color name))
    give (with_created name result created)

  abbrev pub ensure_label :
      List (String × String) → List (String × String) → String → Act (List (String × String))
  ensure_label existing result name = label_from result name (get name existing)

  unfoldable pub ensure_labels : Act (List (String × String))
  ensure_labels = do
    rows ← ask list_labels w.pc.labels
    fold_each (ensure_label (ids_by_name rows [])) all_labels []

  abbrev pub names_from : Option (List (String × String)) → Act (List (String × String))
  names_from (some names) = give names
  names_from none = do
    ensured ← ensure_labels
    keep_names (names_by_id ensured [])
    give (names_by_id ensured [])

  -- Asked for once.
  unfoldable pub label_names_by_id : Act (List (String × String))
  label_names_by_id = do held ← look (λ s. s.label_names); names_from held

  abbrev pub agents_from : Option (List (String × Label.Agent)) → Act (List (String × Label.Agent))
  agents_from (some agents) = give agents
  agents_from none = do
    rows ← ask list_agents w.pc.agents
    keep_agents (agents_of rows [])
    give (agents_of rows [])

  unfoldable pub agents_map : Act (List (String × Label.Agent))
  agents_map = do held ← look (λ s. s.agents_by_id); agents_from held

  abbrev pub collect_name : List String → String → Act (List String)
  collect_name names id = do known ← label_names_by_id; give (name_or_empty (get id known) ∷ names)

  -- The names of the issue's labels. No label, no look at the table.
  unfoldable pub names_of : Issue → Act (List String)
  names_of issue = fold_each collect_name issue.label_ids []

  unfoldable pub agent_of : Issue → Act (Option Label.Agent)
  agent_of issue = do agents ← agents_map; give (get (text_or issue.assignee_agent_id "") agents)

  unfoldable pub issue_track : Issue → Act String
  issue_track issue = do
    names ← names_of issue
    agent ← agent_of issue
    give (track_of (select (λ name. not (name == "")) names) agent)
