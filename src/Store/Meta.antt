-- ===== src/Store/Meta.antt =====
-- The methods of store.py on the meta, cursor, issue_state and origin tables.
use opc_stack.Base.{Option, none, some, if◌then◌else◌, or_else, String}
use mathlib.Core.Option
use opc_stack.Base.Table.{find, upsert}
use opc_stack.Event.{Issue, terminal_ts, text_or, is_set}
use opc_stack.Store.Row.{Store, MetaRow, IssueStateRow, OriginRow}

abbrev pub meta_key : MetaRow → String
meta_key row = row.key

abbrev pub issue_state_key : IssueStateRow → String
issue_state_key row = row.issue_id

abbrev pub origin_key : OriginRow → String
origin_key row = row.issue_id

unfoldable pub set_meta : String → String → Store → Store
set_meta key value s = record s {
  metas =
      upsert meta_key (λ old new. record old { value = new.value })
        (record { key = key; value = value }) s.metas;
}

unfoldable pub get_meta : String → Store → Option String
get_meta key s = Option.map (λ (row : MetaRow). row.value) (find meta_key key s.metas)

-- An empty text in the column counts as no cursor.
abbrev pub non_empty : Option String → Option String
non_empty none = none
non_empty (some a) = if is_set (some a) then some a else none

unfoldable pub cursor : Store → Option String
cursor s = elim s.cursor_row [ none ↦ none | some row ↦ non_empty row.updated_since ]

unfoldable pub bootstrap_at : Store → Option String
bootstrap_at s = elim s.cursor_row [ none ↦ none | some row ↦ non_empty row.bootstrapped_at ]

unfoldable pub set_cursor : String → Option String → Store → Store
set_cursor updated_since bootstrapped_at s = record s {
  cursor_row = elim s.cursor_row [
    | none ↦ some (record { updated_since = some updated_since; bootstrapped_at = bootstrapped_at })
    | some old ↦ some (record {
      updated_since = some updated_since;
      bootstrapped_at = or_else bootstrapped_at old.bootstrapped_at;
    })
  ];
}

unfoldable pub get_issue_state : String → Store → Option IssueStateRow
get_issue_state issue_id s = find issue_state_key issue_id s.issue_states

abbrev pub observed_row : Issue → IssueStateRow
observed_row issue = record {
  issue_id = issue.id;
  identifier = issue.identifier;
  project_id = issue.project_id;
  status = issue.status;
  terminal_ts = terminal_ts issue;
  track = issue.track;
  updated_at = text_or issue.updated_at "";
}

-- The conflict branch leaves the id and the track column alone.
abbrev pub merge_issue_state : IssueStateRow → IssueStateRow → IssueStateRow
merge_issue_state old new = record new { issue_id = old.issue_id; track = old.track }

unfoldable pub upsert_issue_state : Issue → Store → Store
upsert_issue_state issue s = record s {
  issue_states = upsert issue_state_key merge_issue_state (observed_row issue) s.issue_states;
}

unfoldable pub get_origin : String → Store → Option (Option String × Option String)
get_origin issue_id s =
    Option.map (λ (row : OriginRow). (row.channel_id, row.event_id))
      (find origin_key issue_id s.origins)

unfoldable pub set_origin : String → Option String → Option String → String → Store → Store
set_origin issue_id channel_id event_id at s = record s {
  origins =
      upsert origin_key (λ old new. record new { issue_id = old.issue_id })
        (record {
          issue_id = issue_id;
          channel_id = channel_id;
          event_id = event_id;
          resolved_at = at;
        })
        s.origins;
}
