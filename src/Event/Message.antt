-- ===== src/Event/Message.antt =====
-- The text of an announcement (`render_message` of events.py).
use opc_stack.Base.{
  Bool, true, false, List, [], ◌∷◌, ◌++◌, Option, some, ◌&◌, ◌==◌, if◌then◌else◌, String,
}
use opc_stack.Base.Text.{strip, join_lines}
use opc_stack.Event.{
  Event, text_or, is_set, issue_completed, issue_blocked, issue_cancelled, issue_failed,
  health_slow, health_stalled, health_lost, health_recovered, admission_cancelled, policy_violation,
}

-- `_LABEL.get(event_type, event_type)`
unfoldable pub label_of : String → String
label_of t =
    if t == issue_completed
    then "完成"
    else if t == issue_blocked
    then "阻塞"
    else if t == issue_cancelled
    then "已取消"
    else if t == issue_failed
    then "執行失敗"
    else if t == health_slow
    then "進展緩慢"
    else if t == health_stalled
    then "疑似停滯"
    else if t == health_lost
    then "狀態不一致"
    else if t == health_recovered
    then "已恢復"
    else if t == admission_cancelled
    then "准入取消"
    else if t == policy_violation
    then "政策違規"
    else t

abbrev pub line_if : Bool → String → List String
line_if true s = s ∷ []
line_if false s = []

-- The issue's own identifier and title come first; deliver.py hands over none of them.
unfoldable pub render_lines : Event → Option String → Option String → String → List String
unfolding label_of strip
render_lines event issue_identifier issue_title public_url =
    let identifier : String =
      strip (text_or issue_identifier (text_or event.issue_identifier "")) in
    let title : String = strip (text_or issue_title (text_or event.issue_title "")) in
    let label : String = label_of event.event_type in
    (if identifier == ""
      then "Paperclip 事件 · " & label
      else "Paperclip 事件 · " & identifier & " · " & label)
    ∷ (line_if (is_set (some title)) title
        ++ ((if is_set (some identifier)
              then (if public_url == ""
                  then "Ticket: " & identifier
                  else "Ticket: " & public_url & "/issues/" & identifier)
                ∷ []
              else line_if (is_set event.issue_id) ("Issue: " & text_or event.issue_id ""))
            ++ (line_if (is_set event.run_id) ("Run: " & text_or event.run_id "")
                ++ (line_if (is_set event.artifact_url) ("成果: " & text_or event.artifact_url "")
                    ++ "" ∷ ("OPC_EVENT: " & event.event_id) ∷ []))))

unfoldable pub render_message : Event → Option String → Option String → String → String
unfolding render_lines join_lines
render_message event issue_identifier issue_title public_url =
    join_lines (render_lines event issue_identifier issue_title public_url)
