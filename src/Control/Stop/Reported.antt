-- ===== src/Control/Stop/Reported.antt =====
-- The status that `force_stop` of control.py answers is the one that the client answered last.
use opc_stack.Base.{
  ℕ, zero, suc, ◌≡◌, refl, ap, ◌∙◌, Bool, true, false, not, List, [], ◌∷◌, ◌++◌, Option, none, some,
  String, All, All-append, ◌==◌, append_assoc,
}
use opc_stack.Base.Proc.{caught, or_raise, attempt}
use opc_stack.Base.Ends.{Ends, EndsIn, then-Ends, give-Ends, if-Ends}
use opc_stack.Event.{status_text, text_or, or_text}
use opc_stack.Control.Stop.{
  Call, get_run, cancel_run, post_comment, RunView, Client, Desk, Stopped, stopped, refused, ask,
  watch_end, comment_text, tell_issue, conclude, cancel_and_watch, stop_seen, force_stop, status_of,
  issue_of, is_ended, is_cancellable, read_run,
}

abbrev Any : Desk → Type 0
Any s = Unit

abbrev is_reading : Call → Bool
is_reading (get_run id) = true
is_reading _ = false

module _ (pc : Client) (run_id actor : String) (source_event_id : Option String) where
  -- `final` is what the client answered to the last call that reads a run, and it read this one.
  abbrev pub LastRead : Option RunView → Desk → Type 0
  LastRead final s =
      (before : List Call) × (after : List Call) × (s.calls ≡ before ++ get_run run_id ∷ after)
      × All (λ call. is_reading call ≡ false) after
      × (pc.run before run_id ≡ some final)

  -- A stop is answered with the status of what was read last.
  abbrev pub IsReported : Stopped → Desk → Type 0
  IsReported (refused reason) s = Unit
  IsReported (stopped id status issue_id) s =
      (final : Option RunView) × LastRead final s × (status_text (status_of final) ≡ status)

  read_run-LastRead :
      (P : Desk → Type 0) → Ends Any P LastRead (read_run pc run_id actor source_event_id)
  read_run-LastRead P = record { run = λ s p. answered s (pc.run s.calls run_id) refl }
    where
      answered :
          (s : Desk) (r : Option (Option RunView))
          → pc.run s.calls run_id ≡ r
          → EndsIn Any LastRead (record s { calls = s.calls ++ get_run run_id ∷ [] }, or_raise r)
      answered s none e = tt
      answered s (some final) e = (s.calls, [], refl, tt, e)

  LastRead-snoc :
      (final : Option RunView) (call : Call) (s : Desk)
      → is_reading call ≡ false
      → LastRead final s
      → LastRead final (record s { calls = s.calls ++ call ∷ [] })
  LastRead-snoc final call s quiet (before, after, e, h, read) = (
    before,
    after ++ call ∷ [],
    ap (λ calls. calls ++ call ∷ []) e ∙ append_assoc before (get_run run_id ∷ after) (call ∷ []),
    All-append (λ call. is_reading call ≡ false) after (call ∷ []) h (quiet, tt),
    read,
  )

  ask-LastRead {ℓ} :
      {A : Type ℓ} (final : Option RunView) (call : Call) (answer : List Call → Option A)
      → is_reading call ≡ false
      → Ends Any (LastRead final) (λ a. LastRead final) (ask call answer)
  ask-LastRead {A = A} final call answer quiet = record {
    run = λ s p. answered s (answer s.calls) p;
  }
    where
      answered :
          (s : Desk) (r : Option A)
          → LastRead final s
          → EndsIn Any (λ a. LastRead final) (record s { calls = s.calls ++ call ∷ [] }, or_raise r)
      answered s none p = tt
      answered s (some a) p = LastRead-snoc final call s quiet p

  caught-LastRead {ℓ} :
      {A : Type ℓ} (final : Option RunView) (call : Call) (s : Desk) (r : Option A)
      → is_reading call ≡ false
      → LastRead final s
      → EndsIn Any
          (λ a. LastRead final)
          (caught (record s { calls = s.calls ++ call ∷ [] }, or_raise r))
  caught-LastRead final call s none quiet p = LastRead-snoc final call s quiet p
  caught-LastRead final call s (some a) quiet p = LastRead-snoc final call s quiet p

  watch_end-LastRead :
      (n : ℕ) (final : Option RunView)
      → Ends Any (LastRead final) LastRead (watch_end pc run_id actor source_event_id n final)
  unfolding watch_end
  watch_end-LastRead zero final = give-Ends Any (LastRead final) LastRead final (λ s p. p)
  watch_end-LastRead (suc n) final =
      then-Ends Any (LastRead final) LastRead LastRead (read_run-LastRead (LastRead final)) (λ seen.
        if-Ends Any (LastRead seen) LastRead _
          (give-Ends Any (LastRead seen) LastRead seen (λ s p. p)) (watch_end-LastRead n seen))

  tell_issue-LastRead :
      (final : Option RunView) (issue_id : String)
      → Ends Any
          (LastRead final)
          (λ a. LastRead final)
          (tell_issue pc run_id actor source_event_id issue_id)
  tell_issue-LastRead final issue_id =
      let text = comment_text pc run_id actor source_event_id in
      if-Ends Any (LastRead final) (λ a. LastRead final) (issue_id == "")
        (give-Ends Any (LastRead final) (λ a. LastRead final) tt (λ s p. p))
        (then-Ends Any (LastRead final) (λ a. LastRead final) (λ a. LastRead final)
          {m = attempt (ask (post_comment issue_id text) (λ calls. pc.comment calls issue_id text))}
          (record {
            run = λ s p.
                caught-LastRead final (post_comment issue_id text) s
                  (pc.comment s.calls issue_id text) refl p;
          })
          (λ done. give-Ends Any (LastRead final) (λ a. LastRead final) tt (λ s p. p)))

  conclude-IsReported :
      (run final : Option RunView)
      → Ends Any (LastRead final) IsReported (conclude pc run_id actor source_event_id run final)
  conclude-IsReported run final =
      if-Ends Any (LastRead final) IsReported (not (is_ended (status_text (status_of final))))
        (give-Ends Any (LastRead final) IsReported (refused "timeout") (λ s p. tt))
        (then-Ends Any (LastRead final) (λ a. LastRead final) IsReported
          {m = tell_issue pc run_id actor source_event_id
            (text_or (or_text (issue_of final) (issue_of run)) "")}
          (tell_issue-LastRead final (text_or (or_text (issue_of final) (issue_of run)) ""))
          (λ _. record { run = λ s p. (final, p, refl) }))

  cancel_and_watch-IsReported :
      (tries : ℕ) (run : Option RunView)
      → Ends Any
          (LastRead run)
          IsReported
          (cancel_and_watch pc run_id actor source_event_id tries run)
  cancel_and_watch-IsReported tries run =
      then-Ends Any (LastRead run) (λ a. LastRead run) IsReported
        (ask-LastRead run (cancel_run run_id) (λ calls. pc.cancel calls run_id) refl)
        (λ _.
          then-Ends Any (LastRead run) LastRead IsReported (watch_end-LastRead tries run)
            (conclude-IsReported run))

  stop_seen-IsReported :
      (tries : ℕ) (run : Option RunView)
      → Ends Any (LastRead run) IsReported (stop_seen pc run_id actor source_event_id tries run)
  stop_seen-IsReported tries none =
      give-Ends Any (LastRead none) IsReported (refused "not_found") (λ s p. tt)
  stop_seen-IsReported tries (some run) =
      if-Ends Any (LastRead (some run)) IsReported (not (is_cancellable (text_or run.status "")))
        (give-Ends Any (LastRead (some run)) IsReported (refused "not_cancellable") (λ s p. tt))
        (cancel_and_watch-IsReported tries (some run))

  pub force_stop-IsReported :
      (tries : ℕ) → Ends Any Any IsReported (force_stop pc run_id actor source_event_id tries)
  unfolding force_stop
  force_stop-IsReported tries =
      then-Ends Any Any LastRead IsReported (read_run-LastRead Any) (stop_seen-IsReported tries)
