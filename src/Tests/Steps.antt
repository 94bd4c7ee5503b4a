-- ===== src/Tests/Steps.antt =====
-- The adaptive step and its timer.
use opc_stack.Adaptive.Measured.{IsBounded, tally_bounds}
use opc_stack.Base.{
  List, ◌==◌, if◌then◌else◌, ℕ, zero, suc, ◌≡◌, refl, ap, false, [], ◌∷◌, Option, some, String,
  arith, inl,
}
use opc_stack.Config.{Iso}
use opc_stack.Adaptive.{WorkRun, tally, Share, decide, drift_step, tolerated}
use opc_stack.Adaptive.Step.{IsStep, decide_steps}
use opc_stack.Adaptive.Drift.{ever_adjusts, interrupted_drift}

abbrev measured : Share
measured = record { part = 95; whole = 100 }

decide_steps_example : IsStep 70 measured 17 53 47
unfolding decide
decide_steps_example = decide_steps 70 measured 15 17 53 47 refl

-- A time is printed as so many strokes.
abbrev strokes : ℕ → String
strokes zero = ""
strokes (suc n) = String.◌∷◌ "1" (strokes n)

abbrev count : String → ℕ
count String.[] = 0
count (String.◌∷◌ c s) = suc (count s)

abbrev stroke_iso : Iso
stroke_iso = record { iso = strokes; parse_iso = λ s. some (count s) }

count-strokes : (n : ℕ) → count (strokes n) ≡ n
count-strokes zero = refl
count-strokes (suc n) = ap suc (count-strokes n)

interrupted_drift_example :
    ever_adjusts stroke_iso 2 "core>measured"
      (4 ∷ 9 ∷ [])
      (drift_step stroke_iso 2
        (record { drift_since = some "1"; drift_direction = some "core>measured" })
        3
        tolerated).0
    ≡ false
interrupted_drift_example =
    interrupted_drift stroke_iso 2 "core>measured" (4 ∷ 9 ∷ []) (some "1") 3 tolerated (inl refl)
      (λ n. ap some (count-strokes n)) (omega arith)

abbrev work : List WorkRun
work =
    record { agent_id = some "a1"; started_at = some "11"; finished_at = some "11111" }
    ∷ record { agent_id = some "a3"; started_at = some "1"; finished_at = some "111" }
    ∷ []

abbrev by_agent : String → Option String
by_agent id = if id == "a1" then some "core" else some "lab"

tally_bounds_example : IsBounded 2 4 (tally stroke_iso by_agent 6 4 work)
tally_bounds_example = tally_bounds stroke_iso by_agent 6 4 work
