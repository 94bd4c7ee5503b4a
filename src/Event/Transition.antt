-- ===== src/Event/Transition.antt =====
-- Which observations of an issue become events (`classify_issue` of events.py).
use opc_stack.Base.{
  ◌↔◌, String, ◌≡◌, refl, sym, ap, ◌≢◌, ◌∙◌, ◌==◌, true, false, Option, none, some, eq_iff, arith,
  Bool-cases, inl, inr,
}
use opc_stack.Event.{Issue, same_text, status_text, terminal_ts, terminal_type, classify_issue}

pub same_text_refl : (a : Option String) → same_text a a ≡ true
same_text_refl none = refl
same_text_refl (some a) = (eq_iff a a).1 refl

pub same_text→eq : (a b : Option String) → same_text a b ≡ true → a ≡ b
same_text→eq none none h = refl
same_text→eq none (some b) h = ground arith
same_text→eq (some a) none h = ground arith
same_text→eq (some a) (some b) h = ground (arith, eq_iff a b)

pub eq→same_text : (a b : Option String) → a ≡ b → same_text a b ≡ true
eq→same_text a b e = rw e (same_text_refl b)

-- Seeing the same status with the same terminal time again is silent, whatever else changed.
pub classify_issue-replay :
    (previous issue : Issue)
    → issue.status ≡ previous.status
    → terminal_ts issue ≡ terminal_ts previous
    → classify_issue (some previous) issue ≡ none
unfolding classify_issue
classify_issue-replay previous issue e t = ground (
  arith,
  eq→same_text issue.status previous.status e,
  eq→same_text (terminal_ts issue) (terminal_ts previous) t,
)

pub same_text→ne : (a b : Option String) → same_text a b ≡ false → a ≢ b
same_text→ne a b h e = ground (arith, same_text_refl a)

-- An observation of one issue after another is an event of type `t`: the status is a new one and
-- terminal, or it is still blocked and the time of the transition is another one.
pub data Emits (previous issue : Issue) (t : String) : Type 0 where
  completed :
      issue.status ≢ previous.status
      → issue.status ≡ some "done"
      → t ≡ "paperclip.issue.completed"
      → Emits previous issue t
  blocked :
      issue.status ≢ previous.status
      → issue.status ≡ some "blocked"
      → t ≡ "paperclip.issue.blocked"
      → Emits previous issue t
  cancelled :
      issue.status ≢ previous.status
      → issue.status ≡ some "cancelled"
      → t ≡ "paperclip.issue.cancelled"
      → Emits previous issue t
  reasserted :
      issue.status ≡ previous.status
      → issue.status ≡ some "blocked"
      → terminal_ts issue ≢ terminal_ts previous
      → t ≡ "paperclip.issue.blocked"
      → Emits previous issue t

terminal_Emits :
    (previous issue : Issue) (t : String) (status : Option String)
    → issue.status ≡ status
    → issue.status ≢ previous.status
    → terminal_type (status_text status) ≡ some t
    → Emits previous issue t
unfolding terminal_type
terminal_Emits previous issue t none e changed h = ground arith
terminal_Emits previous issue t (some s) e changed h = elim (Bool-cases (s == "done")) [
  | inl d ↦ completed changed (e ∙ ap some ((eq_iff s "done").0 d)) (ground arith)
  | inr d ↦ elim (Bool-cases (s == "blocked")) [
    | inl b ↦ blocked changed (e ∙ ap some ((eq_iff s "blocked").0 b)) (ground arith)
    | inr b ↦ elim (Bool-cases (s == "cancelled")) [
      | inl c ↦ cancelled changed (e ∙ ap some ((eq_iff s "cancelled").0 c)) (ground arith)
      | inr c ↦ ground arith
    ]
  ]
]

classify_issue_sound :
    (previous issue : Issue) (t : String)
    → classify_issue (some previous) issue ≡ some t
    → Emits previous issue t
unfolding classify_issue
classify_issue_sound previous issue t h =
    elim (Bool-cases (same_text issue.status previous.status)) [
      | inr changed ↦
          terminal_Emits previous issue t issue.status refl (same_text→ne _ _ changed)
            (ground arith)
      | inl same ↦ elim (Bool-cases (same_text issue.status (some "blocked"))) [
        | inr other ↦ ground arith
        | inl still ↦
            reasserted (same_text→eq _ _ same) (same_text→eq _ _ still)
              (same_text→ne _ _ (ground arith)) (ground arith)
      ]
    ]

ne→same_text : (a b : Option String) → a ≢ b → same_text a b ≡ false
ne→same_text a b h = elim (Bool-cases (same_text a b)) [
  | inl e ↦ absurd (h (same_text→eq a b e))
  | inr e ↦ e
]

classify_issue_complete :
    (previous issue : Issue) (t : String)
    → Emits previous issue t
    → classify_issue (some previous) issue ≡ some t
unfolding classify_issue terminal_type
classify_issue_complete previous issue t (completed changed s e) =
    rw (ne→same_text _ _ changed, s) (sym (ap some e))
classify_issue_complete previous issue t (blocked changed s e) =
    rw (ne→same_text _ _ changed, s) (sym (ap some e))
classify_issue_complete previous issue t (cancelled changed s e) =
    rw (ne→same_text _ _ changed, s) (sym (ap some e))
classify_issue_complete previous issue t (reasserted same still moved e) =
    rw
      (
        eq→same_text issue.status previous.status same,
        eq→same_text issue.status (some "blocked") still,
        ne→same_text (terminal_ts issue) (terminal_ts previous) moved,
      )
      (sym (ap some e))

-- An observation after another one is an event exactly when the status is a new one and is done
-- (paperclip.issue.completed), blocked (paperclip.issue.blocked) or cancelled
-- (paperclip.issue.cancelled), or when it is still blocked and its transition time is another one
-- (paperclip.issue.blocked).
pub classify_issue_iff :
    (previous issue : Issue) (t : String)
    → (classify_issue (some previous) issue ≡ some t) ↔ Emits previous issue t
classify_issue_iff previous issue t =
    (classify_issue_sound previous issue t, classify_issue_complete previous issue t)
