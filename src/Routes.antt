-- ===== src/Routes.antt =====
-- patches/event-bridge/opc_bridge/routes.py: the mutations of the HTTP API, each with the owner's
-- command that it wants. A request is its route with the fields that the route reads from the JSON
-- body; the calls that go out are kept next to the database. `now` is the clock at the request.
pub mod Owned
pub mod Reads
pub mod Wired
use opc_stack.Base.{
  ℕ, Bool, true, false, List, [], ◌∷◌, ◌++◌, Option, none, some, ◌==◌, if◌then◌else◌, String, ◌&◌,
  ltb,
}
use opc_stack.Base.Int.{ℤ, pos}
use opc_stack.Base.Proc.{Proc, Outcome, ok, raised, give, fail, change, ◌>>=◌, ◌>>◌}
use opc_stack.Config.{Config, Iso}
use opc_stack.Event.{text_or, or_text}
use opc_stack.Policy.Json.{Value, text, num}
use opc_stack.Store.Row.{Store, MandateRow, PolicyRow, TrackStateRow}
use opc_stack.Store.Feed.{FeedRow}
use opc_stack.Policy.{Candidate}
use opc_stack.Store.Outbox.{audit}
use opc_stack.Store.Policies.{revoke_policy}
use opc_stack.Control.Auth.{Inbox, Auth, authorized, denied, unreachable, taken, verify}
use opc_stack.Control.Grants.{
  Answer, answered, policy_error, failed, MandateBody, OverrideBody, grant_mandate, revoke_mandate,
  set_override,
}
use opc_stack.Control.Service.{Board, Service}
use opc_stack.Control.Service
use opc_stack.Control.Allocation.{Applied, apply_allocation}
use opc_stack.Control.Stop.{Client, Desk, Stopped, stopped, refused, force_stop}
use opc_stack.Control.Stop

pub record Bridge : Type 0 where
  pub store : Store
  pub board_calls : List Service.Call
  pub stop_calls : List Stop.Call

-- An integer of the body is `none` where `int` fails on it.
pub data Request : Type 0 where
  grant : MandateBody → Request
  override : OverrideBody → Request
  revoke override_revoke stop backfill : Option String → Request
  allocate : (core lab : Option ℤ) (adaptive : Bool) → Request
  label_open : Request

pub data Payload : Type 0 where
  error forbidden : String → Payload
  mandate : MandateRow → Payload
  policy : PolicyRow → Payload
  revoked : String → Bool → Payload
  applied : Applied → Payload
  ended : (run_id status : String) (issue_id : Option String) → Payload
  enqueued labelled : ℕ → Payload
  resolved : (String → Option Candidate) → Payload
  mandates : List MandateRow → Payload
  state :
      (core lab : Option TrackStateRow) (core_share lab_share : Option Value)
      (adaptive : Option String)
      → Payload
  events : List FeedRow → Payload

pub record Reply : Type 0 where
  pub status : ℕ
  pub payload : Payload

-- `_authorize`: the actor, or the reason of a _Forbidden. Any other exception raises.
pub data Standing : Type 0 where
  owner : String → Standing
  stranger : String → Standing

-- What a method of control.py answers, with its PolicyError caught.
pub data Tried {ℓ} (A : Type ℓ) : Type ℓ where
  done : A → Tried A
  rejected : String → Tried A

abbrev pub Act {ℓ} : Type ℓ → Type ℓ
Act A = Proc Bridge A

abbrev pub reply : ℕ → Payload → Reply
reply status payload = record { status = status; payload = payload }

abbrev pub tried {ℓ} : {A : Type ℓ} → Answer A → Outcome (Tried A)
tried (answered a) = ok (done a)
tried (policy_error e) = ok (rejected e)
tried (failed e) = raised e

abbrev pub kept {ℓ} : {A : Type ℓ} → Bridge → Store × Answer A → Bridge × Outcome (Tried A)
kept b (store, answer) = (record b { store = store }, tried answer)

-- A method of control.py on the database.
abbrev pub on_store {ℓ} : {A : Type ℓ} → (Store → Store × Answer A) → Act (Tried A)
on_store f b = kept b (f b.store)

abbrev pub kept_board {ℓ} : {A : Type ℓ} → Bridge → Board × Answer A → Bridge × Outcome (Tried A)
kept_board b (board, answer) =
    (record b { store = board.store; board_calls = board.calls }, tried answer)

abbrev pub on_board {ℓ} : {A : Type ℓ} → (Board → Board × Answer A) → Act (Tried A)
on_board f b = kept_board b (f (record { store = b.store; calls = b.board_calls }))

abbrev pub kept_desk {ℓ} : {A : Type ℓ} → Bridge → Desk × Outcome A → Bridge × Outcome A
kept_desk b (desk, outcome) = (record b { store = desk.store; stop_calls = desk.calls }, outcome)

abbrev pub on_desk {ℓ} : {A : Type ℓ} → Proc Desk A → Act A
on_desk f b = kept_desk b (f (record { store = b.store; calls = b.stop_calls }))

abbrev pub kept_store {ℓ} : {A : Type ℓ} → Bridge → Store × Outcome A → Bridge × Outcome A
kept_store b (store, outcome) = (record b { store = store }, outcome)

-- A callable of the poller.
abbrev pub on_poller {ℓ} : {A : Type ℓ} → Proc Store A → Act A
on_poller f b = kept_store b (f b.store)

-- 200 or 201 with what was done, or the status of the error.
abbrev pub report {ℓ} : {A : Type ℓ} → (good bad : ℕ) → (A → Payload) → Tried A → Reply
report good bad show (done a) = reply good (show a)
report good bad show (rejected e) = reply bad (error e)

abbrev pub report_stop : Stopped → Reply
report_stop (stopped run_id status issue_id) = reply 200 (ended run_id status issue_id)
report_stop (refused reason) = reply (if reason == "not_found" then 404 else 409) (error reason)

-- What the routes are given: the owner's channel, the clients, and the callables of the poller.
pub record Wiring : Type 0 where
  pub cfg : Config
  pub time : Iso
  pub lower : String → String
  pub channel : Option (Inbox × String)
  pub uuid : Store → String
  pub service : Service
  pub client : Client
  pub loads : String → Option (List String)
  pub repr : List String → String
  pub show_number : ℕ → String
  pub show_int : ℤ → String
  pub backfill_from : String → Proc Store ℕ
  pub label_tickets : Option (Proc Store ℕ)

module _ (w : Wiring) (now : ℕ) (authorization_event_id : Option String) where
  abbrev pub event_id : String
  event_id = text_or authorization_event_id ""

  abbrev pub actor : String
  actor = "operator:" & w.cfg.operator_pubkey

  abbrev pub now_iso : String
  now_iso = w.time.iso now

  abbrev pub refuse_with : String → Store → Store
  refuse_with reason =
      audit "anonymous" "authorization_refused" (some event_id) (("reason", text reason) ∷ []) none

  abbrev pub standing_of : Bridge → Auth × Store → Bridge × Outcome Standing
  standing_of b (authorized m, store) = (record b { store = store }, ok (owner actor))
  standing_of b (denied reason, store) =
      (record b { store = refuse_with reason store }, ok (stranger reason))
  standing_of b (unreachable, store) = (record b { store = store }, raised "BuzzError")
  standing_of b (taken, store) = (record b { store = store }, raised "IntegrityError")

  abbrev pub authorize_by : Option (Inbox × String) → String → List String → Act Standing
  authorize_by none verb tokens = give (stranger "control node not ready")
  authorize_by (some (inbox, channel_id)) verb tokens = λ b.
      standing_of b (verify w.cfg w.time w.lower inbox channel_id verb tokens event_id now b.store)

  -- The verb and the tokens are the route's own.
  unfoldable pub authorize : String → List String → Act Standing
  authorize verb tokens = authorize_by w.channel verb tokens

  -- `guarded`: a _Forbidden is answered with 403.
  abbrev pub guarded : (String → Act Reply) → Standing → Act Reply
  guarded handler (owner actor) = handler actor
  guarded handler (stranger reason) = give (reply 403 (forbidden reason))

  abbrev pub with_owner : String → List String → (String → Act Reply) → Act Reply
  with_owner verb tokens handler = authorize verb tokens >>= guarded handler

  abbrev pub grant_tokens : MandateBody → List String
  grant_tokens body =
      (text_or body.scope_kind "track" & "=" & text_or (or_text body.scope_id body.track) "")
      ∷ ("style=" & text_or body.style "blueprint")
      ∷ (if body.followups_allowed then "followups=on" else "followups=off")
      ∷ []

  abbrev pub grant_route : MandateBody → Act Reply
  grant_route body = with_owner "!opc mandate grant" (grant_tokens body) (λ actor. do
    row ← on_store (λ s. grant_mandate body (w.uuid s) actor authorization_event_id now_iso s)
    give (report 201 400 mandate row))

  abbrev pub revoke_route : String → Act Reply
  revoke_route id = with_owner "!opc mandate revoke" (id ∷ []) (λ actor. do
    changed ← on_store (revoke_mandate id actor authorization_event_id now_iso)
    give (report 200 404 (revoked id) changed))

  abbrev pub override_route : OverrideBody → Act Reply
  override_route body =
      with_owner "!opc override" (text_or body.scope_id "" ∷ text_or body.key "" ∷ []) (λ actor. do
        row ← on_store (λ s. set_override body (w.uuid s) actor authorization_event_id now_iso s)
        give (report 201 400 policy row))

  abbrev pub revoke_row : String → String → Store × ℕ → Store × Answer Bool
  revoke_row id actor (s, changed) = (
    audit actor "policy_override_revoked" (some id) (("changed", num (pos changed)) ∷ []) none s,
    answered (ltb 0 changed),
  )

  abbrev pub override_revoke_route : String → Act Reply
  override_revoke_route id = with_owner "!opc override revoke" (id ∷ []) (λ actor. do
    changed ← on_store (λ s. revoke_row id actor (revoke_policy id now_iso s))
    give (report 200 400 (revoked id) changed))

  abbrev pub allocation_tokens : ℤ → ℤ → List String
  allocation_tokens core lab = ("core=" & w.show_int core) ∷ ("lab=" & w.show_int lab) ∷ []

  abbrev pub allocation_route : Option ℤ → Option ℤ → Bool → Act Reply
  allocation_route (some core) (some lab) adaptive =
      with_owner "!opc allocate" (allocation_tokens core lab) (λ actor. do
        result ← on_board (
            apply_allocation w.cfg w.service w.uuid w.loads w.repr w.show_number actor
              authorization_event_id now_iso core lab adaptive)
        give (report 200 400 applied result))
  allocation_route _ _ adaptive = give (reply 400 (error "core and lab must be integers"))

  abbrev pub stop_route : String → Act Reply
  stop_route run_id =
      if run_id == ""
      then give (reply 400 (error "run_id is required"))
      else with_owner "!opc force-stop run" (run_id ∷ []) (λ actor. do
        result ← on_desk (force_stop w.client run_id actor authorization_event_id 30)
        give (report_stop result))

  abbrev pub backfill_route : String → Act Reply
  backfill_route since =
      if since == ""
      then give (reply 400 (error "since is required (ISO-8601)"))
      else with_owner "!opc backfill" (since ∷ [])
          (λ actor. do n ← on_poller (w.backfill_from since); give (reply 200 (enqueued n)))

  abbrev pub label_with : Option (Proc Store ℕ) → Act Reply
  label_with none = give (reply 503 (error "label backfill unavailable"))
  label_with (some label) = do n ← on_poller label; give (reply 200 (labelled n))

  unfoldable pub respond : Request → Act Reply
  respond (grant body) = grant_route body
  respond (override body) = override_route body
  respond (revoke id) = revoke_route (text_or id "")
  respond (override_revoke id) = override_revoke_route (text_or id "")
  respond (allocate core lab adaptive) = allocation_route core lab adaptive
  respond (stop run_id) = stop_route (text_or run_id "")
  respond (backfill since) = backfill_route (text_or since "")
  respond label_open = with_owner "!opc labels backfill" [] (λ actor. label_with w.label_tickets)
