-- ===== src/Control/Stop/Confined.antt =====
-- What a forced stop touches (`force_stop` of control.py).
use opc_stack.Base.{
  ℕ, zero, suc, ◌+◌, ◌≤◌, ◌≡◌, refl, ap, ◌==◌, true, not, List, [], ◌∷◌, ◌++◌, Option, none, some,
  String, All, All-append, length, arith, Bool-cases, inl, inr,
}
use opc_stack.Base.Proc.{Outcome, caught, ok, raised, or_raise, give, attempt}
use opc_stack.Base.Ends.{Ends, EndsIn, then-Ends, give-Ends, if-Ends, Ends-map}
use opc_stack.Event.{status_text, text_or, or_text}
use opc_stack.Policy.Json.{text}
use opc_stack.Store.Row.{Store}
use opc_stack.Store.Outbox.{audit}
use opc_stack.Control.Stop.Reported.{IsReported, force_stop-IsReported}
use opc_stack.Control.Stop.{
  Call, get_run, cancel_run, post_comment, RunView, Client, Desk, Stopped, stopped, refused, ask,
  watch_end, comment_text, tell_issue, conclude, cancel_and_watch, stop_seen, force_stop, status_of,
  issue_of, is_ended, is_cancellable,
}

length-snoc {ℓ} : {A : Type ℓ} (xs : List A) (x : A) → length (xs ++ x ∷ []) ≡ suc (length xs)
length-snoc [] x = refl
length-snoc (y ∷ xs) x = omega (arith, length-snoc xs x)

module _ (pc : Client) (run_id actor : String) (source_event_id : Option String) (old : Store) where
  -- The call is about the run: it reads or cancels this one, or posts the notice.
  abbrev pub IsAbout : Call → Type 0
  IsAbout (get_run id) = id ≡ run_id
  IsAbout (cancel_run id) = id ≡ run_id
  IsAbout (post_comment issue_id body) = body ≡ comment_text pc run_id actor source_event_id

  -- Only such calls were made, and the database is as it was.
  abbrev pub Untouched : Desk → Type 0
  Untouched s = All IsAbout s.calls × (s.store ≡ old)

  -- The same, after at most `k` calls.
  abbrev UpTo : ℕ → Desk → Type 0
  UpTo k s = Untouched s × (length s.calls ≤ k)

  answered-UpTo {ℓ} :
      {A : Type ℓ} (k : ℕ) (call : Call) (s : Desk) (r : Option A)
      → IsAbout call
      → UpTo k s
      → EndsIn Untouched (λ a. UpTo (suc k)) (record s { calls = s.calls ++ call ∷ [] }, or_raise r)
  answered-UpTo k call s none about ((calls, same), h) =
      (All-append IsAbout s.calls (call ∷ []) calls (about, tt), same)
  answered-UpTo k call s (some a) about ((calls, same), h) = (
    (All-append IsAbout s.calls (call ∷ []) calls (about, tt), same),
    omega (arith, h, length-snoc s.calls call),
  )

  ask-UpTo {ℓ} :
      {A : Type ℓ} (k : ℕ) (call : Call) (answer : List Call → Option A)
      → IsAbout call
      → Ends Untouched (UpTo k) (λ a. UpTo (suc k)) (ask call answer)
  ask-UpTo k call answer about = record {
    run = λ s p. answered-UpTo k call s (answer s.calls) about p;
  }

  caught-UpTo {ℓ} :
      {A : Type ℓ} (k : ℕ) (call : Call) (s : Desk) (r : Option A)
      → IsAbout call
      → UpTo k s
      → EndsIn Untouched
          (λ a. UpTo (suc k))
          (caught (record s { calls = s.calls ++ call ∷ [] }, or_raise r))
  caught-UpTo k call s none about ((calls, same), h) = (
    (All-append IsAbout s.calls (call ∷ []) calls (about, tt), same),
    omega (arith, h, length-snoc s.calls call),
  )
  caught-UpTo k call s (some a) about p = answered-UpTo k call s (some a) about p

  wider : (k j : ℕ) → k ≤ j → (s : Desk) → UpTo k s → UpTo j s
  wider k j h s p = (p.0, omega (arith, h, p.1))

  module _ (tries : ℕ) where
    watch_end-UpTo :
        (n k : ℕ) (final : Option RunView)
        → Ends Untouched
            (UpTo k)
            (λ a. UpTo (k + n))
            (watch_end pc run_id actor source_event_id n final)
    unfolding watch_end
    watch_end-UpTo zero k final =
        give-Ends Untouched (UpTo k) (λ a. UpTo (k + 0)) final (wider k (k + 0) (omega arith))
    watch_end-UpTo (suc n) k final =
        then-Ends Untouched (UpTo k) (λ a. UpTo (suc k)) (λ a. UpTo (k + suc n))
          (ask-UpTo k (get_run run_id) (λ calls. pc.run calls run_id) refl)
          (λ seen.
            if-Ends Untouched (UpTo (suc k)) (λ a. UpTo (k + suc n)) _
              (give-Ends Untouched (UpTo (suc k)) (λ a. UpTo (k + suc n)) seen
                (wider (suc k) (k + suc n) (omega arith)))
              (Ends-map Untouched (UpTo (suc k)) (λ a. UpTo (suc k + n)) (λ a. UpTo (k + suc n))
                (λ a. wider (suc k + n) (k + suc n) (omega arith)) (watch_end-UpTo n (suc k) seen)))

    -- What the answer says is so.
    abbrev pub IsTrue : Stopped → Desk → Type 0
    IsTrue (refused reason) s = Untouched s × (length s.calls ≤ tries + 3)
    IsTrue (stopped id status issue_id) s =
        (id ≡ run_id)
        × (is_ended status ≡ true)
        × (s.store
            ≡ audit actor "force_stop" (some run_id) (("status", text status) ∷ []) source_event_id
                old)
        × All IsAbout s.calls
        × (length s.calls ≤ tries + 3)

    abbrev notice : String → Call
    notice issue_id = post_comment issue_id (comment_text pc run_id actor source_event_id)

    wide_end {ℓ} :
        {A : Type ℓ} (r : Desk × Outcome A)
        → EndsIn Untouched (λ a. UpTo (suc (tries + 2))) r
        → EndsIn Untouched (λ a. UpTo (tries + 3)) r
    wide_end (s, ok a) p = wider (suc (tries + 2)) (tries + 3) (omega arith) s p
    wide_end (s, raised e) p = p

    tell_issue-UpTo :
        (issue_id : String)
        → Ends Untouched
            (UpTo (tries + 2))
            (λ a. UpTo (tries + 3))
            (tell_issue pc run_id actor source_event_id issue_id)
    tell_issue-UpTo issue_id =
        if-Ends Untouched (UpTo (tries + 2)) (λ a. UpTo (tries + 3)) (issue_id == "")
          (give-Ends Untouched (UpTo (tries + 2)) (λ a. UpTo (tries + 3)) tt
            (wider (tries + 2) (tries + 3) (omega arith)))
          (then-Ends Untouched (UpTo (tries + 2)) (λ a. UpTo (tries + 3)) (λ a. UpTo (tries + 3))
            {m = attempt (
              ask (notice issue_id) (λ calls.
                pc.comment calls issue_id (comment_text pc run_id actor source_event_id)))}
            (record {
              run = λ s p. wide_end _ (
                  caught-UpTo (tries + 2) (notice issue_id) s
                    (pc.comment s.calls issue_id (comment_text pc run_id actor source_event_id))
                    refl p);
            })
            (λ done. give-Ends Untouched (UpTo (tries + 3)) (λ a. UpTo (tries + 3)) tt (λ s p. p)))

    abbrev written : String → Store → Store
    written status =
        audit actor "force_stop" (some run_id) (("status", text status) ∷ []) source_event_id

    conclude-IsTrue :
        (run final : Option RunView)
        → Ends Untouched
            (UpTo (tries + 2))
            IsTrue
            (conclude pc run_id actor source_event_id run final)
    conclude-IsTrue run final = elim (Bool-cases (is_ended (status_text (status_of final)))) [
      | inr e ↦ rw e (
          give-Ends Untouched (UpTo (tries + 2)) IsTrue (refused "timeout")
            (wider (tries + 2) (tries + 3) (omega arith)))
      | inl e ↦ rw e (
          then-Ends Untouched (UpTo (tries + 2)) (λ a. UpTo (tries + 3)) IsTrue
            (tell_issue-UpTo (text_or (or_text (issue_of final) (issue_of run)) ""))
            (λ _. record {
              run =
                  λ s p. (refl, e, ap (written (status_text (status_of final))) p.0.1, p.0.0, p.1);
            }))
    ]

    cancel_and_watch-IsTrue :
        (run : Option RunView)
        → Ends Untouched
            (UpTo 1)
            IsTrue
            (cancel_and_watch pc run_id actor source_event_id tries run)
    cancel_and_watch-IsTrue run =
        then-Ends Untouched (UpTo 1) (λ a. UpTo 2) IsTrue
          (ask-UpTo 1 (cancel_run run_id) (λ calls. pc.cancel calls run_id) refl)
          (λ _.
            then-Ends Untouched (UpTo 2) (λ a. UpTo (tries + 2)) IsTrue
              (Ends-map Untouched (UpTo 2) (λ a. UpTo (2 + tries)) (λ a. UpTo (tries + 2))
                (λ a. wider (2 + tries) (tries + 2) (omega arith)) (watch_end-UpTo tries 2 run))
              (conclude-IsTrue run))

    refuse-IsTrue : (reason : String) → Ends Untouched (UpTo 1) IsTrue (give (refused reason))
    refuse-IsTrue reason =
        give-Ends Untouched (UpTo 1) IsTrue (refused reason) (wider 1 (tries + 3) (omega arith))

    stop_seen-IsTrue :
        (run : Option RunView)
        → Ends Untouched (UpTo 1) IsTrue (stop_seen pc run_id actor source_event_id tries run)
    stop_seen-IsTrue none = refuse-IsTrue "not_found"
    stop_seen-IsTrue (some run) =
        if-Ends Untouched (UpTo 1) IsTrue (not (is_cancellable (text_or run.status "")))
          (refuse-IsTrue "not_cancellable") (cancel_and_watch-IsTrue (some run))

    confined :
        EndsIn Untouched IsTrue
          (force_stop pc run_id actor source_event_id tries (record { store = old; calls = [] }))
    unfolding force_stop
    confined =
        (then-Ends Untouched (UpTo 0) (λ a. UpTo 1) IsTrue
            (ask-UpTo 0 (get_run run_id) (λ calls. pc.run calls run_id) refl) stop_seen-IsTrue).run
          (record { store = old; calls = [] }) ((tt, refl), omega arith)

    -- A forced stop reads and cancels no run but its own, and posts nothing but its own notice; where
    -- it answers it has made at most `tries + 3` calls. It answers that the run was stopped only with
    -- the status that the client answered to the last reading of that run, which is cancelled or
    -- interrupted, and then the database has the audit of it and no other change; a refusal, and an
    -- exception of the client, leave the database as it was.
    pub force_stop-Confined :
        EndsIn Untouched
          (λ answer s. IsTrue answer s × IsReported pc run_id actor source_event_id answer s)
          (force_stop pc run_id actor source_event_id tries (record { store = old; calls = [] }))
    force_stop-Confined = both _ confined (
        (force_stop-IsReported pc run_id actor source_event_id tries).run
          (record { store = old; calls = [] }) tt)
      where
        both :
            (o : Desk × Outcome Stopped)
            → EndsIn Untouched IsTrue o
            → EndsIn (λ s. Unit {0}) (IsReported pc run_id actor source_event_id) o
            → EndsIn Untouched
                (λ answer s. IsTrue answer s × IsReported pc run_id actor source_event_id answer s)
                o
        both (s, ok a) p q = (p, q)
        both (s, raised e) p q = p
