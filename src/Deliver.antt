-- ===== src/Deliver.antt =====
-- patches/event-bridge/opc_bridge/deliver.py: one pass of the deliverer over the outbox. The `buzz`
-- command is outside: a call of it is answered by `Buzz` from the calls made so far, by an event
-- id, a `BuzzError`, or any other exception. `clock` is what `self._clock()` answers.
pub mod Progress
pub mod Pass
pub mod Retry
pub mod Keeps
use opc_stack.Base.{
  ℕ, ◌+◌, ◌*◌, ◌^◌, min, Bool, true, false, List, [], ◌∷◌, ◌++◌, Option, none, some, ltb, leb, ◌==◌,
  ◌&◌, if◌then◌else◌, String,
}
use opc_stack.Config.{Config, Iso}
use opc_stack.Event.{status_text, Event, Tag, or_text, text_or, is_set, event_tags}
use opc_stack.Event.Message.{render_message}
use opc_stack.Store.Row.{Store}
use opc_stack.Store.Meta.{get_meta}
use opc_stack.Policy.Json.{text}
use opc_stack.Store.Outbox.{
  ClaimedRow, claim_due, mark_sent, mark_fallback, mark_expired, mark_failed, reschedule, audit,
}

pub record Message : Type 0 where
  pub channel : String
  pub content : String
  pub reply_to : Option String
  pub tags : List Tag

pub data Reply : Type 0 where
  accepted : String → Reply
  refused : (kind message : String) → Reply
  crashed : String → Reply

abbrev pub Buzz : Type 0
Buzz = List Message → Message → Reply

-- The store, and the calls of `buzz` so far, oldest first.
pub record World : Type 0 where
  pub store : Store
  pub messages : List Message

-- A method returns, or an exception other than `BuzzError` leaves it. The world outlives both.
pub data Outcome : Type 0 where
  returned : Bool → Outcome
  raised : String → Outcome

unfoldable pub next_backoff : ℕ → ℕ
next_backoff attempts = min 300 (5 * 2 ^ attempts)

unfoldable pub destination : Config → Event → Store → Option String
destination cfg event s =
    or_text event.origin_channel_id (or_text cfg.fallback_channel (get_meta "control_channel" s))

-- A time that does not parse never expires.
unfoldable pub is_expired : Config → Iso → Event → ℕ → Bool
is_expired cfg time event now = elim (time.parse_iso event.occurred_at) [
  | none ↦ false
  | some occurred ↦ ltb (occurred + cfg.max_age_hours * 3600) now
]

abbrev pub posted : World → Message → World
posted w m = record w { messages = w.messages ++ m ∷ [] }

abbrev pub with_store : World → Store → World
with_store w s = record w { store = s }

module _ (cfg : Config) (time : Iso) (buzz : Buzz) (clock : World → ℕ) where
  unfoldable pub fail : Event → String → World → World
  fail event reason w = with_store w (
      audit "bridge" "delivery_failed" (some event.event_id) (("reason", text reason) ∷ []) none
        (mark_failed event.event_id reason (clock w) w.store))

  abbrev pub alert_message : Event → String → String → Message
  alert_message event channel kind = record {
    channel = channel;
    content =
        "⚠\u{fe0f} 事件投遞失敗 · "
        & status_text (or_text event.issue_identifier event.issue_id)
        & " · "
        & event.event_type
        & " · "
        & event.event_id
        & "\n原因: "
        & kind;
    reply_to = none;
    tags = [];
  }

  abbrev pub alert_reply : World → Reply → Outcome × World
  alert_reply w (accepted _) = (returned false, w)
  alert_reply w (refused _ _) = (returned false, w)
  alert_reply w (crashed e) = (raised e, w)

  -- Best effort: a `BuzzError` is swallowed. Every caller answers False afterwards.
  unfoldable pub alert : Event → String → World → Outcome × World
  alert event kind w =
      if is_set cfg.fallback_channel
      then (let m = alert_message event (text_or cfg.fallback_channel "") kind in
          alert_reply (posted w m) (buzz w.messages m))
      else (returned false, w)

  abbrev pub event_message : Event → String → Option String → Message
  event_message event channel reply_to = record {
    channel = channel;
    content = render_message event none none cfg.public_url;
    reply_to = reply_to;
    tags = event_tags event;
  }

  -- What `_fallback` does with the answer to its call.
  unfoldable pub fallback_reply :
      Event → (failed_channel channel : String) → ℕ → World → Reply → Outcome × World
  unfolding fail
  fallback_reply event failed_channel channel now w (accepted id) = (
    returned true,
    with_store w (
        audit "bridge" "delivery_fallback" (some event.event_id)
          (("from", text failed_channel) ∷ ("to", text channel) ∷ ("buzz_event_id", text id) ∷ [])
          none (mark_fallback event.event_id id now w.store)),
  )
  fallback_reply event failed_channel channel now w (refused kind _) =
      (returned false, fail event ("not_member + fallback failed: " & kind) w)
  fallback_reply event failed_channel channel now w (crashed e) = (raised e, w)

  unfoldable pub fallback : Event → String → ℕ → World → Outcome × World
  unfolding fallback_reply fail
  fallback event failed_channel now w =
      let channel =
        text_or (or_text cfg.fallback_channel (get_meta "control_channel" w.store)) "" in
      if channel == ""
      then (returned false, fail event "not_member: no fallback destination" w)
      else if channel == failed_channel
      then (returned false, fail event "not_member: no fallback destination" w)
      else (let m = event_message event channel none in
          fallback_reply event failed_channel channel now (posted w m) (buzz w.messages m))

  unfoldable pub handle_failure :
      ClaimedRow → String → String → String → ℕ → World → Outcome × World
  unfolding fallback fail alert
  handle_failure row channel kind message now w =
      if kind == "not_member"
      then fallback row.payload channel now w
      else if leb cfg.max_attempts (row.attempts + 1)
      then alert row.payload kind (fail row.payload (kind & ": " & message) w)
      else (
        returned false,
        with_store w (
            reschedule row.payload.event_id (now + next_backoff row.attempts)
              (kind & ": " & message) now w.store),
      )

  -- What `_deliver` does with the answer to its call.
  unfoldable pub deliver_reply : ClaimedRow → String → ℕ → World → Reply → Outcome × World
  unfolding handle_failure
  deliver_reply row channel now w (accepted id) = (
    returned true,
    with_store w (
        audit "bridge" "delivery_sent" (some row.payload.event_id)
          (("channel", text channel) ∷ ("buzz_event_id", text id) ∷ []) none
          (mark_sent row.payload.event_id id now w.store)),
  )
  deliver_reply row channel now w (refused kind message) =
      handle_failure row channel kind message now w
  deliver_reply row channel now w (crashed e) = (raised e, w)

  unfoldable pub deliver_row : ClaimedRow → ℕ → World → Outcome × World
  unfolding deliver_reply is_expired destination fail
  deliver_row row now w =
      let event = row.payload in
      if is_expired cfg time event now
      then (
        returned false,
        with_store w (
            audit "bridge" "delivery_expired" (some event.event_id)
              (("occurred_at", text event.occurred_at) ∷ []) none
              (mark_expired event.event_id now w.store)),
      )
      else (let channel = text_or (destination cfg event w.store) "" in
          if channel == ""
          then (returned false, fail event "no_destination" w)
          else (let m = event_message event channel event.origin_event_id in
              deliver_reply row channel now (posted w m) (buzz w.messages m)))

  -- The `try` of the loop: any other exception backs the row off.
  unfoldable pub settle : ClaimedRow → ℕ → Outcome × World → World × ℕ
  settle row now (returned true, w) = (w, 1)
  settle row now (returned false, w) = (w, 0)
  settle row now (raised e, w) = (
    with_store w (
        reschedule row.payload.event_id (now + next_backoff row.attempts) ("internal: " & e) now
          w.store),
    0,
  )

  unfoldable pub deliver_each : List ClaimedRow → ℕ → World → World × ℕ
  unfolding deliver_row settle
  deliver_each [] now w = (w, 0)
  deliver_each (row ∷ rows) now w =
      let (w', one) = settle row now (deliver_row row now w) in
      let (w'', more) = deliver_each rows now w' in (w'', one + more)

  unfoldable pub run_once : World → World × ℕ
  unfolding deliver_each
  run_once w =
      let now = clock w in
      let (s, rows) = claim_due now 50 w.store in deliver_each rows now (with_store w s)
