-- ===== src/Tests/Monitored.antt =====
-- A tick of the monitor over a lost run, with one alert of a run that ended.
use opc_stack.Base.{ℕ, ◌≡◌, refl, [], ◌∷◌, none, some, String}
use opc_stack.Store.Control.{set_run_health}
use opc_stack.Store.Extends.{Extends}
use opc_stack.Store.Integrity.{IsOutbox, IsOutbox-frame}
use opc_stack.Health.{Run, absent, number}
use opc_stack.Health.Watch.{Client, Monitor, tick, reap}
use opc_stack.Health.Reaped.{tick-Extends}
use opc_stack.Tests.Samples.{sample_config, sample_iso, sample_store, sample_store-IsOutbox}

abbrev stuck_run : Run
stuck_run = record {
  status = some "running";
  agent_id = some "a1";
  issue_id = none;
  finished_at = none;
  silence_last_output_at = absent;
  silence_level = none;
  last_output_at = absent;
  last_event_at = absent;
  started_at = number 5;
  process_pid = none;
  track = none;
}

abbrev one_live : Client
one_live = record {
  agents = λ calls. some (record { id = "a1"; status = some "paused" } ∷ []);
  live = λ calls. some (record { id = some "r1"; status = some "running" } ∷ []);
  run = λ calls id. some stuck_run;
  issue = λ calls id. none;
}

abbrev show_none : ℕ → String
show_none n = "0"

abbrev monitor : Monitor
monitor = record { store = set_run_health "r9" "lost" 5 none 0 none sample_store; calls = [] }

monitor-IsOutbox : IsOutbox monitor.store
unfolding set_run_health
monitor-IsOutbox = IsOutbox-frame sample_store monitor.store refl refl sample_store-IsOutbox

tick-Extends_example :
    Extends monitor.store
      (tick sample_config sample_iso (λ s. s) show_none one_live 90000 monitor).0.store
    × ((reap sample_config sample_iso (λ s. s) show_none one_live 90000 monitor).0.store.events
        ≡ monitor.store.events)
    × ((reap sample_config sample_iso (λ s. s) show_none one_live 90000 monitor).0.store.deliveries
        ≡ monitor.store.deliveries)
tick-Extends_example =
    tick-Extends sample_config sample_iso (λ s. s) show_none one_live 90000 monitor monitor-IsOutbox
