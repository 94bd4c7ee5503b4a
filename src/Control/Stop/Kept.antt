-- ===== src/Control/Stop/Kept.antt =====
-- What `force_stop` of control.py keeps of the database: what its audit row keeps.
use opc_stack.Base.{ℕ, zero, suc, not, List, [], ◌∷◌, ◌++◌, Option, none, some, String, ◌==◌}
use opc_stack.Base.Proc.{or_raise-Leaves}
use opc_stack.Base.Keeps.{
  Keeps, then-Keeps, and-Keeps, give-Keeps, if-Keeps, attempt-Keeps, change-Keeps,
}
use opc_stack.Event.{status_text, text_or, or_text}
use opc_stack.Policy.Json.{Value}
use opc_stack.Store.Row.{Store}
use opc_stack.Store.Outbox.{audit}
use opc_stack.Control.Stop.{
  Call, RunView, Client, Desk, ask, watch_end, tell_issue, conclude, cancel_and_watch, stop_seen,
  force_stop, status_of, issue_of, is_ended, is_cancellable, get_run, cancel_run, post_comment,
  comment_text,
}

module _ (P : Store → Type 0)
    (audits : (actor action : String) (target : Option String) (detail : List (String × Value))
        (from : Option String) (s : Store)
      → P s
      → P (audit actor action target detail from s))
    (pc : Client) (run_id actor : String) (from : Option String) where
  abbrev On : Desk → Type 0
  On desk = P desk.store

  ask-Keeps {ℓ} :
      {A : Type ℓ} (call : Call) (answer : List Call → Option A) → Keeps On (ask call answer)
  ask-Keeps call answer = record {
    run = λ s p.
        or_raise-Leaves On (λ _. Unit) (record s { calls = s.calls ++ call ∷ [] }) (answer s.calls)
          (λ a e. tt) p;
  }

  watch_end-Keeps :
      (n : ℕ) (final : Option RunView) → Keeps On (watch_end pc run_id actor from n final)
  unfolding watch_end
  watch_end-Keeps zero final = give-Keeps On final
  watch_end-Keeps (suc n) final =
      then-Keeps On (ask-Keeps (get_run run_id) (λ calls. pc.run calls run_id)) (λ seen.
        if-Keeps On (not (is_cancellable (status_text (status_of seen)))) (give-Keeps On seen)
          (watch_end-Keeps n seen))

  tell_issue-Keeps : (issue_id : String) → Keeps On (tell_issue pc run_id actor from issue_id)
  tell_issue-Keeps issue_id = if-Keeps On (issue_id == "") (give-Keeps On tt) (
      then-Keeps On
        (attempt-Keeps On (
          ask-Keeps (post_comment issue_id (comment_text pc run_id actor from))
            (λ calls. pc.comment calls issue_id (comment_text pc run_id actor from))))
        (λ _. give-Keeps On tt))

  conclude-Keeps : (run final : Option RunView) → Keeps On (conclude pc run_id actor from run final)
  conclude-Keeps run final =
      if-Keeps On (not (is_ended (status_text (status_of final)))) (give-Keeps On _) (
        and-Keeps On (tell_issue-Keeps (text_or (or_text (issue_of final) (issue_of run)) ""))
          (and-Keeps On (change-Keeps On _ (λ s p. audits _ _ _ _ _ s.store p)) (give-Keeps On _)))

  cancel_and_watch-Keeps :
      (tries : ℕ) (run : Option RunView)
      → Keeps On (cancel_and_watch pc run_id actor from tries run)
  cancel_and_watch-Keeps tries run =
      then-Keeps On (ask-Keeps (cancel_run run_id) (λ calls. pc.cancel calls run_id))
        (λ _. then-Keeps On (watch_end-Keeps tries run) (conclude-Keeps run))

  stop_seen-Keeps :
      (tries : ℕ) (run : Option RunView) → Keeps On (stop_seen pc run_id actor from tries run)
  stop_seen-Keeps tries none = give-Keeps On _
  stop_seen-Keeps tries (some run) =
      if-Keeps On (not (is_cancellable (text_or run.status ""))) (give-Keeps On _)
        (cancel_and_watch-Keeps tries (some run))

  pub force_stop-Keeps : (tries : ℕ) → Keeps On (force_stop pc run_id actor from tries)
  unfolding force_stop
  force_stop-Keeps tries =
      then-Keeps On (ask-Keeps (get_run run_id) (λ calls. pc.run calls run_id))
        (stop_seen-Keeps tries)
