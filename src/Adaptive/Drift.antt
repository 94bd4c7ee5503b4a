-- ===== src/Adaptive/Drift.antt =====
-- The timer of a drift.
use opc_stack.Base.{
  ℕ, ◌+◌, ◌<◌, ◌≡◌, ◌⊎◌, refl, Bool, false, ◌||◌, List, [], ◌∷◌, Option, none, some, String, arith,
  leb, inl, inr, eq_refl,
}
use opc_stack.Config.{Iso}
use opc_stack.Adaptive.{DriftState, Reading, insufficient, tolerated, drifting, drift_step}

module _ (time : Iso) (hold : ℕ) where
  -- Whether any of the ticks at the given times, all in drift in one direction, adjusts.
  unfoldable pub ever_adjusts : String → List ℕ → DriftState → Bool
  ever_adjusts direction [] d = false
  ever_adjusts direction (now ∷ more) d =
      let rest = ever_adjusts direction more (drift_step time hold d now (drifting direction)).0 in
      (drift_step time hold d now (drifting direction)).1 || rest

  stuck_step :
      (direction : String) (now : ℕ)
      → time.parse_iso (time.iso now) ≡ some now
      → 0 < hold
      → drift_step time hold
          (record { drift_since = none; drift_direction = some direction })
          now
          (drifting direction)
        ≡ (record { drift_since = none; drift_direction = some direction }, false)
  unfolding drift_step
  stuck_step direction now reads h =
      let short : leb (now + hold) now ≡ false = ground arith in
      rw (eq_refl direction, reads, short) refl

  stuck :
      (direction : String) (times : List ℕ)
      → ((n : ℕ) → time.parse_iso (time.iso n) ≡ some n)
      → 0 < hold
      → ever_adjusts direction times
          (record { drift_since = none; drift_direction = some direction })
        ≡ false
  unfolding ever_adjusts
  stuck direction [] reads h = refl
  stuck direction (now ∷ more) reads h =
      rw (stuck_step direction now (reads now) h) (stuck direction more reads h)

  -- A drift that is interrupted by a tick within tolerance, or with too few samples, and then comes
  -- back in its direction is never answered, however long it lasts: with a printer of times that
  -- can be read back and a positive time to hold, none of the later ticks adjusts.
  pub interrupted_drift :
      (direction : String) (times : List ℕ) (since : Option String) (now : ℕ) (reading : Reading)
      → (reading ≡ tolerated) ⊎ (reading ≡ insufficient)
      → ((n : ℕ) → time.parse_iso (time.iso n) ≡ some n)
      → 0 < hold
      → ever_adjusts direction times
          (drift_step time hold
            (record { drift_since = since; drift_direction = some direction })
            now
            reading).0
        ≡ false
  unfolding drift_step
  interrupted_drift direction times since now reading (inl e) reads h =
      rw e (stuck direction times reads h)
  interrupted_drift direction times since now reading (inr e) reads h =
      rw e (stuck direction times reads h)
