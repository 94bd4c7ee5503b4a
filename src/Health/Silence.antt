-- ===== src/Health/Silence.antt =====
-- The evidence behind each state of a run (`classify` of health.py).
use opc_stack.Base.{
  ℕ, ◌+◌, ◌≤◌, ◌<◌, ◌≡◌, refl, ◌⊎◌, true, false, ◌&&◌, ◌||◌, Option, none, some, arith, ◌==◌,
  String, or_else, Bool-cases, inl, inr,
}
use opc_stack.Config.{Iso}
use opc_stack.Event.{text_or, is_set}
use opc_stack.Health.{
  Run, RunState, healthy, slow, suspected_stalled, lost, unknown, classify, classify_by,
  progress_at, outlives_issue, by_progress, by_age, stalled_state, reached, silent_for, is_over,
  is_held, is_abnormal_level, has_pid, is_stamped,
}

-- Nothing was heard for `span`, or ever.
abbrev pub IsSilent : ℕ → Option ℕ → ℕ → Type 0
IsSilent now none span = Unit
IsSilent now (some at) span = at + span ≤ now

silent→IsSilent :
    (now : ℕ) (progress : Option ℕ) (span : ℕ)
    → silent_for now progress span ≡ true
    → IsSilent now progress span
silent→IsSilent now none span h = tt
silent→IsSilent now (some at) span h = ground arith

module _ (run : Run) (agent_status : Option String) (now slow_after stall_after : ℕ)
    (issue_status : Option String) (ended : Option ℕ) (grace : ℕ) where
  -- What each state of a run rests on, with the time of its last progress.
  abbrev pub Evidence : Option ℕ → RunState → Type 0
  Evidence progress healthy =
      ((text_or run.status "" == "running") ≡ false)
      ⊎ ((at : ℕ) × (progress ≡ some at) × (now < at + slow_after))
  Evidence progress slow =
      (at : ℕ) × (progress ≡ some at) × ((at + slow_after ≤ now) ⊎ (at + stall_after ≤ now))
  Evidence progress suspected_stalled =
      (at : ℕ) × (progress ≡ some at)
      × (at + stall_after ≤ now)
      × (is_abnormal_level run.silence_level ≡ true)
  Evidence progress lost =
      (is_set run.finished_at ≡ true)
      ⊎ ((over : ℕ) × (ended ≡ some over)
          × (over + grace < now)
          × (is_over issue_status ≡ true)
          × IsSilent now progress slow_after)
      ⊎ ((is_held agent_status ≡ true) × IsSilent now progress slow_after)
  Evidence progress unknown =
      (progress ≡ none)
      ⊎ ((is_abnormal_level run.silence_level ≡ false) × (has_pid run.process_pid ≡ false))

  by_age-Evidence : (at : ℕ) → Evidence (some at) (by_age run at now slow_after stall_after)
  unfolding by_age stalled_state
  by_age-Evidence at = elim (Bool-cases (reached now at stall_after)) [
    | inl long ↦ rw long (elim (Bool-cases (is_abnormal_level run.silence_level)) [
      | inl e ↦ rw e (at, refl, ground arith, e)
      | inr e ↦
          rw e
            (elim (Bool-cases (has_pid run.process_pid || is_stamped run.silence_last_output_at)) [
              | inl f ↦ rw f (at, refl, inr (ground arith))
              | inr f ↦ rw f (inr (e, ground arith))
            ])
    ])
    | inr short ↦ rw short (elim (Bool-cases (reached now at slow_after)) [
      | inl e ↦ rw e (at, refl, inl (ground arith))
      | inr e ↦ rw e (inr (at, refl, ground arith))
    ])
  ]

  by_progress-Evidence :
      (progress : Option ℕ)
      → Evidence progress (by_progress run progress agent_status now slow_after stall_after)
  unfolding by_progress
  by_progress-Evidence none = inl refl
  by_progress-Evidence (some at) =
      elim (Bool-cases (is_held agent_status && reached now at slow_after)) [
        | inl e ↦ rw e (inr (inr (ground arith, ground arith)))
        | inr e ↦ rw e (by_age-Evidence at)
      ]

  outlives_issue-Evidence :
      (progress over : Option ℕ)
      → outlives_issue now issue_status over progress slow_after grace ≡ true
      → (at : ℕ) × (over ≡ some at)
        × (at + grace < now)
        × (is_over issue_status ≡ true)
        × IsSilent now progress slow_after
  unfolding outlives_issue
  outlives_issue-Evidence progress none h = ground arith
  outlives_issue-Evidence progress (some at) h =
      (at, refl, ground arith, ground arith, silent→IsSilent now progress slow_after (ground arith))

  pub classify_by-Evidence :
      (progress : Option ℕ)
      → Evidence progress (
          classify_by run progress agent_status now slow_after stall_after issue_status ended grace)
  unfolding classify_by
  classify_by-Evidence progress = elim (Bool-cases (text_or run.status "" == "running")) [
    | inr idle ↦ rw idle (inl idle)
    | inl on ↦ rw on (elim (Bool-cases (is_set run.finished_at)) [
      | inl e ↦ rw e (inl e)
      | inr e ↦
          rw e
            (elim (Bool-cases (outlives_issue now issue_status ended progress slow_after grace)) [
              | inl f ↦ rw f (inr (inl (outlives_issue-Evidence progress ended f)))
              | inr f ↦ rw f (by_progress-Evidence progress)
            ])
    ])
  ]

  -- Every state that `classify` gives rests on its evidence. Healthy: the run does not run, or made
  -- progress within `slow`. Slow: no progress for `slow` or for `stall`. Stalled: none for `stall`
  -- and an abnormal silence level. Lost: it is finished but marked running, or it went on for longer
  -- than the grace time after its issue ended, or its agent is held, and in both of these nothing
  -- was heard for `slow`. Unknown: no time of progress, or neither an abnormal level nor a process.
  pub classify-Evidence :
      (time : Iso) (last_output_at : Option ℕ)
      → Evidence (or_else last_output_at (progress_at time run)) (
          classify time run last_output_at agent_status now slow_after stall_after issue_status
            ended grace)
  unfolding classify
  classify-Evidence time last_output_at = classify_by-Evidence _
