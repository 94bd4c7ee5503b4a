-- ===== src/Control/Stop.antt =====
-- `force_stop` of control.py: one run is cancelled, and the end of it is seen. A ForceStopError is an
-- answer with its reason; any other exception of the client raises. The sleeps are left out.
pub mod Confined
pub mod Kept
pub mod Reported
use opc_stack.Base.{
  ℕ, zero, suc, ◌+◌, ◌≤◌, ◌≡◌, refl, Bool, true, false, not, ◌||◌, List, [], ◌∷◌, ◌++◌, Option,
  none, some, ◌==◌, if◌then◌else◌, String, ◌&◌, All, All-append, length, arith,
}
use opc_stack.Base.Proc.{Proc, Outcome, ok, raised, or_raise, give, change, attempt, ◌>>=◌, ◌>>◌}
use opc_stack.Event.{status_text, text_or, or_text}
use opc_stack.Policy.Json.{Value, text}
use opc_stack.Store.Row.{Store}
use opc_stack.Store.Outbox.{audit}

pub data Call : Type 0 where
  get_run cancel_run : String → Call
  post_comment : (issue_id body : String) → Call

pub record RunView : Type 0 where
  pub status : Option String
  pub issue_id : Option String

-- What the client answers after the calls made so far; `none` is an exception. A run may be empty.
pub record Client : Type 0 where
  pub run : List Call → String → Option (Option RunView)
  pub cancel : List Call → String → Option (Unit {0})
  pub comment : List Call → String → String → Option (Unit {0})

pub record Desk : Type 0 where
  pub store : Store
  pub calls : List Call

pub data Stopped : Type 0 where
  stopped : (run_id status : String) (issue_id : Option String) → Stopped
  refused : (reason : String) → Stopped

abbrev pub Act {ℓ} : Type ℓ → Type ℓ
Act A = Proc Desk A

abbrev pub ask {ℓ} : {A : Type ℓ} → Call → (List Call → Option A) → Act A
ask call answer s = (record s { calls = s.calls ++ call ∷ [] }, or_raise (answer s.calls))

abbrev pub status_of : Option RunView → Option String
status_of none = none
status_of (some run) = run.status

abbrev pub issue_of : Option RunView → Option String
issue_of none = none
issue_of (some run) = run.issue_id

abbrev pub is_cancellable : String → Bool
is_cancellable status = status == "queued" || status == "scheduled_retry" || status == "running"

abbrev pub is_ended : String → Bool
is_ended status = status == "cancelled" || status == "interrupted"

module _ (pc : Client) (run_id actor : String) (source_event_id : Option String) where
  abbrev pub read_run : Act (Option RunView)
  read_run = ask (get_run run_id) (λ calls. pc.run calls run_id)

  -- Up to `tries` looks at the run, until it is no longer cancellable.
  unfoldable pub watch_end : ℕ → Option RunView → Act (Option RunView)
  watch_end zero final = give final
  watch_end (suc tries) final = read_run >>= λ seen.
      if not (is_cancellable (status_text (status_of seen)))
      then give seen
      else watch_end tries seen

  abbrev pub comment_text : String
  comment_text = "OPC_CONTROL: force-stop run=" & run_id & " by=" & actor

  abbrev pub tell_issue : String → Act (Unit {0})
  tell_issue issue_id =
      if issue_id == ""
      then give tt
      else (attempt (
            ask (post_comment issue_id comment_text)
              (λ calls. pc.comment calls issue_id comment_text))
          >>= λ _. give tt)

  abbrev pub write_down : String → Act (Unit {0})
  write_down status = change (λ s. record s {
    store =
        audit actor "force_stop" (some run_id) (("status", text status) ∷ []) source_event_id
          s.store;
  })

  abbrev pub report_end : Option RunView → Option RunView → Act Stopped
  report_end run final =
      let issue_id = or_text (issue_of final) (issue_of run) in
      do
        tell_issue (text_or issue_id "")
        write_down (status_text (status_of final))
        give (stopped run_id (status_text (status_of final)) issue_id)

  abbrev pub conclude : Option RunView → Option RunView → Act Stopped
  conclude run final =
      if not (is_ended (status_text (status_of final)))
      then give (refused "timeout")
      else report_end run final

  abbrev pub cancel_and_watch : ℕ → Option RunView → Act Stopped
  cancel_and_watch tries run = do
    _ ← ask (cancel_run run_id) (λ calls. pc.cancel calls run_id)
    final ← watch_end tries run
    conclude run final

  abbrev pub stop_seen : ℕ → Option RunView → Act Stopped
  stop_seen tries none = give (refused "not_found")
  stop_seen tries (some run) =
      if not (is_cancellable (text_or run.status ""))
      then give (refused "not_cancellable")
      else cancel_and_watch tries (some run)

  unfoldable pub force_stop : ℕ → Act Stopped
  force_stop tries = do run ← read_run; stop_seen tries run
