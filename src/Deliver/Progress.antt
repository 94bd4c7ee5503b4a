-- ===== src/Deliver/Progress.antt =====
-- What one pass of the deliverer does to the deliveries table.
use mathlib.Core.Option
use opc_stack.Base.{
  ℕ, ◌+◌, ◌≡◌, refl, sym, ap, ◌∙◌, true, false, Option, none, some, arith, if◌then◌else◌,
  Bool-cases, inl, inr, ◌⊎◌, ◌==◌, leb, String,
}
use opc_stack.Base.Table.{find, update, find-update, update-update, update-id}
use opc_stack.Config.{Config, Iso}
use opc_stack.Event.{Event, is_set, text_or, or_text}
use opc_stack.Store.Row.{DeliveryRow}
use opc_stack.Store.Meta.{get_meta}
use opc_stack.Store.Outbox.{
  ClaimedRow, delivery_key, is_sending, mark_sent, mark_fallback, mark_expired, mark_failed,
  reschedule, audit,
}
use opc_stack.Deliver.{
  Store, Buzz, Reply, accepted, refused, crashed, World, Outcome, returned, raised, fail, alert,
  alert_message, alert_reply, fallback, fallback_reply, event_message, posted, handle_failure,
  deliver_reply, deliver_row, settle, destination, is_expired,
}

-- `s'` is `s` with the delivery of `k` changed into one that is `P`, and with the same events.
pub record Updates (P : DeliveryRow → Type 0) (k : String) (s s' : Store) : Type 0 where
  pub change : DeliveryRow → DeliveryRow
  pub keeps : (d : DeliveryRow) → (change d).event_id ≡ d.event_id
  pub same : s'.deliveries ≡ update delivery_key k change s.deliveries
  pub frame : s'.events ≡ s.events
  pub holds : (d : DeliveryRow) → P (change d)

abbrev pub Anyhow : DeliveryRow → Type 0
Anyhow d = Unit

abbrev pub NotSending : DeliveryRow → Type 0
NotSending d = is_sending d.state ≡ false

pub Updates-none : (k : String) (s : Store) → Updates Anyhow k s s
Updates-none k s = record {
  change = λ d. d;
  keeps = λ d. refl;
  same = sym (update-id delivery_key k s.deliveries);
  frame = refl;
  holds = λ d. tt;
}

pub Updates-then :
    {P Q : DeliveryRow → Type 0} {k : String} {s s' s'' : Store}
    → Updates P k s s'
    → Updates Q k s' s''
    → Updates Q k s s''
Updates-then {k = k} {s = s} u v = record {
  change = λ d. v.change (u.change d);
  keeps = λ d. v.keeps (u.change d) ∙ u.keeps d;
  same =
      v.same
      ∙ ap (update delivery_key k v.change) u.same
      ∙ update-update delivery_key k u.change v.change s.deliveries u.keeps;
  frame = v.frame ∙ u.frame;
  holds = λ d. v.holds (u.change d);
}

Updates-forget :
    {P : DeliveryRow → Type 0} {k : String} {s s' : Store}
    → Updates P k s s'
    → Updates Anyhow k s s'
Updates-forget u = record {
  change = u.change;
  keeps = u.keeps;
  same = u.same;
  frame = u.frame;
  holds = λ d. tt;
}

-- A method that returns has settled its row; one that raises may have changed it.
abbrev Ends : String → Store → Outcome × World → Type 0
Ends k s (returned b, w) = Updates NotSending k s w.store
Ends k s (raised e, w) = Updates Anyhow k s w.store

module _ (cfg : Config) (time : Iso) (buzz : Buzz) (clock : World → ℕ) where
  fail-Updates :
      (event : Event) (reason : String) (w : World)
      → Updates NotSending event.event_id w.store (fail cfg time buzz clock event reason w).store
  unfolding fail audit mark_failed
  fail-Updates event reason w = record {
    change = _;
    keeps = λ d. refl;
    same = refl;
    frame = refl;
    holds = λ d. refl;
  }

  alert-Ends :
      (event : Event) (kind : String) (w : World) (s : Store)
      → Updates NotSending event.event_id s w.store
      → Ends event.event_id s (alert cfg time buzz clock event kind w)
  unfolding alert
  alert-Ends event kind w s u = elim (Bool-cases (is_set cfg.fallback_channel)) [
    | inr e ↦ rw e u
    | inl e ↦ rw e (
        go (
          buzz w.messages
            (alert_message cfg time buzz clock event (text_or cfg.fallback_channel "") kind)))
  ]
    where
      go :
          (r : Reply)
          → Ends event.event_id s (
              alert_reply cfg time buzz clock
                (posted w
                  (alert_message cfg time buzz clock event (text_or cfg.fallback_channel "") kind))
                r)
      go (accepted id) = u
      go (refused k m) = u
      go (crashed e) = Updates-forget u

  fallback_reply-Ends :
      (event : Event) (failed_channel channel : String) (now : ℕ) (w : World) (r : Reply)
      → Ends event.event_id w.store
          (fallback_reply cfg time buzz clock event failed_channel channel now w r)
  unfolding fallback_reply audit mark_fallback
  fallback_reply-Ends event failed_channel channel now w (accepted id) = record {
    change = _;
    keeps = λ d. refl;
    same = refl;
    frame = refl;
    holds = λ d. refl;
  }
  fallback_reply-Ends event failed_channel channel now w (refused kind m) = fail-Updates event _ w
  fallback_reply-Ends event failed_channel channel now w (crashed e) = Updates-none _ _

  fallback-Ends :
      (event : Event) (failed_channel : String) (now : ℕ) (w : World)
      → Ends event.event_id w.store (fallback cfg time buzz clock event failed_channel now w)
  unfolding fallback
  fallback-Ends event failed_channel now w =
      let channel =
        text_or (or_text cfg.fallback_channel (get_meta "control_channel" w.store)) "" in
      elim (Bool-cases (channel == "")) [
        | inl e ↦ rw e (fail-Updates event _ w)
        | inr e ↦ rw e (elim (Bool-cases (channel == failed_channel)) [
          | inl f ↦ rw f (fail-Updates event _ w)
          | inr f ↦ rw f (fallback_reply-Ends event failed_channel channel now _ _)
        ])
      ]

  handle_failure-Ends :
      (row : ClaimedRow) (channel kind message : String) (now : ℕ) (w : World)
      → Ends row.payload.event_id w.store
          (handle_failure cfg time buzz clock row channel kind message now w)
  unfolding handle_failure reschedule
  handle_failure-Ends row channel kind message now w = elim (Bool-cases (kind == "not_member")) [
    | inl e ↦ rw e (fallback-Ends row.payload channel now w)
    | inr e ↦ rw e (elim (Bool-cases (leb cfg.max_attempts (row.attempts + 1))) [
      | inl f ↦ rw f (alert-Ends row.payload kind _ w.store (fail-Updates row.payload _ w))
      | inr f ↦
          rw f
            (record { change = _; keeps = λ d. refl; same = refl; frame = refl; holds = λ d. refl })
    ])
  ]

  deliver_reply-Ends :
      (row : ClaimedRow) (channel : String) (now : ℕ) (w : World) (r : Reply)
      → Ends row.payload.event_id w.store (deliver_reply cfg time buzz clock row channel now w r)
  unfolding deliver_reply audit mark_sent
  deliver_reply-Ends row channel now w (accepted id) = record {
    change = _;
    keeps = λ d. refl;
    same = refl;
    frame = refl;
    holds = λ d. refl;
  }
  deliver_reply-Ends row channel now w (refused kind m) =
      handle_failure-Ends row channel kind m now w
  deliver_reply-Ends row channel now w (crashed e) = Updates-none _ _

  pub deliver_row-Ends :
      (row : ClaimedRow) (now : ℕ) (w : World)
      → Ends row.payload.event_id w.store (deliver_row cfg time buzz clock row now w)
  unfolding deliver_row audit mark_expired
  deliver_row-Ends row now w =
      let channel = text_or (destination cfg row.payload w.store) "" in
      let m = event_message cfg time buzz clock row.payload channel row.payload.origin_event_id in
      elim (Bool-cases (is_expired cfg time row.payload now)) [
        | inl e ↦
            rw e (record {
              change = _;
              keeps = λ d. refl;
              same = refl;
              frame = refl;
              holds = λ d. refl;
            })
        | inr e ↦ rw e (elim (Bool-cases (channel == "")) [
          | inl f ↦ rw f (fail-Updates row.payload _ w)
          | inr f ↦ rw f (deliver_reply-Ends row channel now (posted w m) (buzz w.messages m))
        ])
      ]

  pub settle-Updates :
      (row : ClaimedRow) (now : ℕ) (s : Store) (o : Outcome × World)
      → Ends row.payload.event_id s o
      → Updates NotSending row.payload.event_id s (settle cfg time buzz clock row now o).0.store
  unfolding settle reschedule
  settle-Updates row now s (returned true, w) u = u
  settle-Updates row now s (returned false, w) u = u
  settle-Updates row now s (raised e, w) u =
      Updates-then u
        (record { change = _; keeps = λ d. refl; same = refl; frame = refl; holds = λ d. refl })

  -- One round of the loop: it settles its row, and no other.
  pub round-Updates :
      (row : ClaimedRow) (now : ℕ) (w : World)
      → Updates NotSending row.payload.event_id w.store
          (settle cfg time buzz clock row now (deliver_row cfg time buzz clock row now w)).0.store
  round-Updates row now w = settle-Updates row now w.store _ (deliver_row-Ends row now w)

-- The row found under a key, if any, is not in flight.
abbrev pub Quiet : Option DeliveryRow → Type 0
Quiet none = Unit
Quiet (some d) = NotSending d

pub Updates-found :
    {P : DeliveryRow → Type 0} {k : String} {s s' : Store} (j : String) (u : Updates P k s s')
    → find delivery_key j s'.deliveries ≡ (
        if k == j
        then Option.map u.change (find delivery_key j s.deliveries)
        else find delivery_key j s.deliveries)
Updates-found {k = k} {s = s} j u =
    ap (find delivery_key j) u.same ∙ find-update delivery_key j k u.change s.deliveries u.keeps

pub Updates-Quiet :
    {k : String} {s s' : Store} (j : String)
    → Updates NotSending k s s'
    → ((k == j) ≡ true) ⊎ Quiet (find delivery_key j s.deliveries)
    → Quiet (find delivery_key j s'.deliveries)
Updates-Quiet {k = k} {s = s} j u h = rw (Updates-found j u) (elim (Bool-cases (k == j)) [
  | inl e ↦ rw e (go (find delivery_key j s.deliveries))
  | inr e ↦ rw e (elim h [ inl f ↦ ground arith | inr q ↦ q ])
])
  where
    go : (o : Option DeliveryRow) → Quiet (Option.map u.change o)
    go none = tt
    go (some d) = u.holds d
