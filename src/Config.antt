-- ===== src/Config.antt =====
-- patches/event-bridge/opc_bridge/config.py: the settings that the modelled parts read. Durations
-- are whole numbers of the source's own unit (seconds, or hours where the name says so). `Iso` is
-- what `iso` and `parse_iso` take from `datetime`: a printer of instants, and a parser that fails.
use opc_stack.Base.{Bool, String, ℕ, List, Option}

pub record Config : Type 0 where
  pub public_url : String
  pub company_id : Option String
  pub reconcile_lookback_hours : ℕ
  pub cutover_lookback_hours : ℕ
  pub max_attempts : ℕ
  pub max_age_hours : ℕ
  pub run_sweep_limit : ℕ
  pub run_sweep_overlap_seconds : ℕ
  pub adaptive_enabled : Bool
  pub adaptive_window_seconds : ℕ
  pub adaptive_min_runs : ℕ
  pub adaptive_min_seconds : ℕ
  pub adaptive_drift_points : ℕ
  pub adaptive_hold_seconds : ℕ
  pub fallback_channel : Option String
  pub control_channel : Option String
  pub command_max_age_seconds : ℕ
  pub operator_pubkey : String
  pub core_selectors : List String
  pub lab_selectors : List String
  pub slot_budget : ℕ
  pub slow_seconds : ℕ
  pub stall_seconds : ℕ
  pub terminal_grace_seconds : ℕ
  pub health_reminder_seconds : ℕ

pub record Iso : Type 0 where
  pub iso : ℕ → String
  pub parse_iso : String → Option ℕ
