-- ===== src/Tests/Runs.antt =====
-- Issues, labels and the health of runs.
use opc_stack.Base.{◌∷◌, ◌≡◌, refl, ◌↔◌, [], none, some, String, arith}
use opc_stack.Base.Table.{find}
use opc_stack.Event.{Issue, classify_issue, issue_completed}
use opc_stack.Event.Transition.{Emits, classify_issue_iff}
use opc_stack.Label.{Markers}
use opc_stack.Health.{Run, absent, number, slow, classify, progress_at, apply}
use opc_stack.Health.Silence.{Evidence, classify-Evidence}
use opc_stack.Health.Alerts.{IsQuiet, look_again, apply_twice}
use opc_stack.Store.Row.{empty}
use opc_stack.Store.Control.{run_health}
use opc_stack.Tests.Samples.{sample_config, sample_iso}

abbrev sample_issue : String → Issue
sample_issue status = record {
  id = "i1";
  identifier = some "OPC-1";
  project_id = none;
  title = none;
  status = some status;
  completed_at = some "2026-01-01";
  cancelled_at = none;
  blocked_transition_at = none;
  updated_at = some "2026-01-01";
  created_at = none;
  assignee_agent_id = none;
  label_ids = [];
  track = none;
}

classify_issue_iff_example :
    (classify_issue (some (sample_issue "todo")) (sample_issue "done") ≡ some issue_completed)
    ↔ Emits (sample_issue "todo") (sample_issue "done") issue_completed
classify_issue_iff_example =
    classify_issue_iff (sample_issue "todo") (sample_issue "done") issue_completed

-- The track marker says lab, the lane says core.
abbrev contrary : Markers
contrary = record { lane = some "engineering"; track = some "lab"; style = none }

abbrev sample_run : Run
sample_run = record {
  status = some "running";
  agent_id = none;
  issue_id = none;
  finished_at = none;
  silence_last_output_at = absent;
  silence_level = none;
  last_output_at = absent;
  last_event_at = absent;
  started_at = number 1000;
  process_pid = none;
  track = none;
}

classify-Evidence_example :
    Evidence sample_run none 2000 900 1800 none none 120
      (some 1000)
      (classify sample_iso sample_run none none 2000 900 1800 none none 120)
unfolding progress_at
classify-Evidence_example =
    classify-Evidence sample_run none 2000 900 1800 none none 120 sample_iso none

apply_twice_example :
    let s' =
      (apply sample_config sample_iso (λ s. s) (λ n. "0") "r1" slow sample_run none 2000 empty).0 in
    IsQuiet s' (
      look_again sample_config sample_iso
        (λ s. s)
        (λ n. "0")
        "r1"
        slow
        ((sample_run, none, 2500) ∷ (sample_run, none, 2600) ∷ [])
        s')
unfolding run_health find
apply_twice_example =
    apply_twice sample_config sample_iso (λ s. s) (λ n. "0") "r1" slow sample_run none 2000 empty
      ((sample_run, none, 2500) ∷ (sample_run, none, 2600) ∷ []) refl refl
      (omega arith, (omega arith, tt))
