-- ===== src/Adaptive.antt =====
-- patches/event-bridge/opc_bridge/adaptive.py: the split of work that was measured, and the step
-- that answers a lasting drift. A share is kept as a fraction of seconds; times are whole seconds.
pub mod Measured
pub mod Step
pub mod Drift
use opc_stack.Base.{
  ℕ, ◌+◌, ◌-◌, ◌*◌, min, max, Bool, true, false, not, ◌||◌, ◌&&◌, List, [], ◌∷◌, Option, none, some,
  ltb, leb, eqb, ◌==◌, if◌then◌else◌, String,
}
use opc_stack.Base.Int.{ℤ, pos, negsuc}
use opc_stack.Config.{Iso}
use opc_stack.Event.{text_or, same_text}

pub record WorkRun : Type 0 where
  pub agent_id : Option String
  pub started_at : Option String
  pub finished_at : Option String

pub record Tally : Type 0 where
  pub core : ℕ
  pub lab : ℕ
  pub counted : ℕ

abbrev pub no_work : Tally
no_work = record { core = 0; lab = 0; counted = 0 }

abbrev pub add_work : Option String → ℕ → Tally → Tally
add_work none overlap t = t
add_work (some track) overlap t =
    if track == "core"
    then record t { core = t.core + overlap; counted = t.counted + 1 }
    else if track == "lab"
    then record t { lab = t.lab + overlap; counted = t.counted + 1 }
    else t

-- The seconds of a run within the window; 0 for a run that is left out.
unfoldable pub overlap_of : Option ℕ → Option ℕ → (now window : ℕ) → ℕ
overlap_of none ended now window = 0
overlap_of (some began) none now window = 0
overlap_of (some began) (some ended) now window =
    if leb (ended + window) now || leb now began
    then 0
    else min ended now - max began (now - window)

module _ (time : Iso) (agent_track : String → Option String) (now window : ℕ) where
  abbrev pub run_overlap : WorkRun → ℕ
  run_overlap run =
      overlap_of (time.parse_iso (text_or run.started_at ""))
        (time.parse_iso (text_or run.finished_at "")) now window

  abbrev pub count_run : WorkRun → Tally → Tally
  count_run run t =
      if eqb (run_overlap run) 0
      then t
      else add_work (agent_track (text_or run.agent_id "")) (run_overlap run) t

  -- The sums do not depend on the order of the runs.
  unfoldable pub tally : List WorkRun → Tally
  unfolding overlap_of
  tally [] = no_work
  tally (run ∷ runs) = count_run run (tally runs)

pub record Share : Type 0 where
  pub part : ℕ
  pub whole : ℕ

-- The share of Core, or nothing where the samples do not suffice. With no work at all and both
-- minima 0 the source divides by zero; the share is 0 of 0 here.
unfoldable pub measure : Tally → (min_runs min_seconds : ℕ) → Option Share
measure t min_runs min_seconds =
    if ltb t.counted min_runs || ltb (t.core + t.lab) min_seconds
    then none
    else some (record { part = t.core; whole = t.core + t.lab })

-- abs(measured - current) <= points, with 100 * part / whole measured.
abbrev pub is_tolerated : ℕ → Share → ℕ → Bool
is_tolerated current share points =
    leb (100 * share.part) ((current + points) * share.whole)
    && leb (current * share.whole) (100 * share.part + points * share.whole)

abbrev pub split_at : ℕ → Option (ℕ × ℕ)
split_at core = if eqb core 0 || leb 100 core then none else some (core, 100 - core)

-- A negative share is within tolerance, or its step leads further below zero.
unfoldable pub decide : ℤ → Share → (drift_points step : ℕ) → Option (ℕ × ℕ)
decide (negsuc n) share drift_points step = none
decide (pos current) share drift_points step =
    if is_tolerated current share drift_points
    then none
    else if ltb (current * share.whole) (100 * share.part)
    then split_at (current - step)
    else split_at (current + step)

-- What a tick keeps from one to the next.
pub record DriftState : Type 0 where
  pub drift_since : Option String
  pub drift_direction : Option String

-- What a tick finds: too few samples, no target, or a drift in a direction.
pub data Reading : Type 0 where
  insufficient tolerated : Reading
  drifting : String → Reading

abbrev pub held_long : Option ℕ → (now hold : ℕ) → Bool
held_long none now hold = false
held_long (some since) now hold = leb (since + hold) now

-- The end of `tick`: the state it writes, and whether it goes on to adjust. A time that does not
-- parse stops the tick.
unfoldable pub drift_step : Iso → (hold : ℕ) → DriftState → ℕ → Reading → DriftState × Bool
drift_step time hold d now insufficient = (record d { drift_since = none }, false)
drift_step time hold d now tolerated = (record d { drift_since = none }, false)
drift_step time hold d now (drifting direction) =
    if not (same_text d.drift_direction (some direction))
    then (record { drift_since = some (time.iso now); drift_direction = some direction }, false)
    else if held_long (time.parse_iso (text_or d.drift_since (time.iso now))) now hold
    then (record { drift_since = none; drift_direction = none }, true)
    else (d, false)
