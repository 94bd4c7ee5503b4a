-- ===== src/Deliver/Retry.antt =====
-- Back-off and the attempt cap.
use native.Mathlib.Nat.{pow-suc, pow-le-pow_right}
use opc_stack.Base.{
  ℕ, zero, suc, ◌+◌, ◌^◌, ◌≤◌, ◌≡◌, refl, subst, sym, ap, ◌∙◌, false, List, some, arith, String,
  Bool-cases, inl, inr, ◌≢◌, ◌==◌, eq_refl, leb, if◌then◌else◌,
}
use opc_stack.Base.Table.{find, update, find-update}
use opc_stack.Config.{Config, Iso}
use opc_stack.Event.{Event, is_set, text_or}
use opc_stack.Store.Row.{Store, DeliveryRow, pending, failed}
use opc_stack.Store.Outbox.{ClaimedRow, delivery_key, delivery, mark_failed, reschedule, audit}
use opc_stack.Deliver.{
  Buzz, Message, Reply, accepted, refused, crashed, World, Outcome, next_backoff, fail, alert,
  alert_reply, alert_message, handle_failure, deliver_reply, deliver_row, settle, posted,
  event_message, destination, is_expired,
}

pow_pos : (a : ℕ) → 1 ≤ 2 ^ a
pow_pos zero = omega arith
pow_pos (suc a) = omega (arith, pow-suc 2 a, pow_pos a)

pow_six : (a : ℕ) → 64 ≤ 2 ^ (a + 6)
pow_six a = pow-le-pow_right {n = 2} (omega arith) {i = 6} {j = a + 6} (omega arith)

-- The waiting time is between 5 and 300 seconds, never falls as the attempts grow, and is 300
-- seconds from the seventh attempt on.
pub next_backoff_bounds :
    (a : ℕ)
    → (5 ≤ next_backoff a)
      × (next_backoff a ≤ 300)
      × (next_backoff a ≤ next_backoff (suc a))
      × (next_backoff (a + 6) ≡ 300)
unfolding next_backoff
next_backoff_bounds a =
    (omega (arith, pow_pos a), omega arith, omega (arith, pow-suc 2 a), omega (arith, pow_six a))

found_after :
    (k : String) (s : Store) (f : DeliveryRow → DeliveryRow) (d : DeliveryRow)
    → ((r : DeliveryRow) → (f r).event_id ≡ r.event_id)
    → find delivery_key k s.deliveries ≡ some d
    → find delivery_key k (update delivery_key k f s.deliveries) ≡ some (f d)
found_after k s f d keeps found =
    rw (find-update delivery_key k k f s.deliveries keeps, eq_refl k, found)

module _ (cfg : Config) (time : Iso) (buzz : Buzz) (clock : World → ℕ) where
  -- One attempt at a claimed row: `_deliver` under the `try` of the loop.
  abbrev pub attempt : ClaimedRow → ℕ → World → World
  attempt row now w =
      (settle cfg time buzz clock row now (deliver_row cfg time buzz clock row now w)).0

  -- What the first call of an attempt is answered.
  abbrev pub answer : ClaimedRow → World → Reply
  answer row w = buzz w.messages (
      event_message cfg time buzz clock row.payload
        (text_or (destination cfg row.payload w.store) "") row.payload.origin_event_id)

  -- The row can be tried: it is not expired, and it has a destination.
  abbrev pub IsTried : ClaimedRow → ℕ → World → Type 0
  IsTried row now w =
      (is_expired cfg time row.payload now ≡ false)
      × ((text_or (destination cfg row.payload w.store) "" == "") ≡ false)

  abbrev pub Retried : ℕ → ℕ → DeliveryRow → DeliveryRow → Type 0
  Retried now attempts d d' =
      (d'.state ≡ pending)
      × (d'.attempts ≡ d.attempts + 1)
      × (d'.next_attempt_at ≡ now + next_backoff attempts)

  alert-deliveries :
      (row : ClaimedRow) (event : Event) (kind : String) (now : ℕ) (w : World)
      → ((m : Message) (h : List Message) (e : String) → buzz h m ≢ crashed e)
      → (settle cfg time buzz clock row now (alert cfg time buzz clock event kind w)).0.store
        ≡ w.store
  unfolding alert settle
  alert-deliveries row event kind now w quiet = elim (Bool-cases (is_set cfg.fallback_channel)) [
    | inr e ↦ rw e
    | inl e ↦ rw e (go (buzz w.messages m) (λ x. quiet m w.messages x))
  ]
    where
      m : Message
      m = alert_message cfg time buzz clock event (text_or cfg.fallback_channel "") kind

      go :
          (r : Reply)
          → ((e : String) → r ≢ crashed e)
          → (settle cfg time buzz clock row now
              (alert_reply cfg time buzz clock (posted w m) r)).0.store
            ≡ w.store
      go (accepted id) h = refl
      go (refused k x) h = refl
      go (crashed e) h = absurd (h e refl)

  -- What the row has become, by the outcome of its attempt.
  abbrev pub Becomes : ClaimedRow → ℕ → (DeliveryRow → Type 0) → Outcome × World → Type 0
  Becomes row now P o =
      (d' : DeliveryRow) × (find delivery_key row.payload.event_id
          (settle cfg time buzz clock row now o).0.store.deliveries
        ≡ some d')
      × P d'

  channel_of : ClaimedRow → World → String
  channel_of row w = text_or (destination cfg row.payload w.store) ""

  call : ClaimedRow → World → World
  unfolding channel_of
  call row w =
      posted w (
        event_message cfg time buzz clock row.payload (channel_of row w)
          row.payload.origin_event_id)

  tried :
      (row : ClaimedRow) (now : ℕ) (w : World) (r : Reply)
      → IsTried row now w
      → answer row w ≡ r
      → deliver_row cfg time buzz clock row now w
        ≡ deliver_reply cfg time buzz clock row (channel_of row w) now (call row w) r
  unfolding deliver_row call
  tried row now w r (fresh, there) said = rw (fresh, there, said)

  fails-Becomes :
      (row : ClaimedRow) (kind reason : String) (now : ℕ) (w : World) (d : DeliveryRow)
      → ((m : Message) (h : List Message) (e : String) → buzz h m ≢ crashed e)
      → find delivery_key row.payload.event_id w.store.deliveries ≡ some d
      → Becomes row now
          (λ d'. d'.state ≡ failed)
          (alert cfg time buzz clock row.payload kind
            (fail cfg time buzz clock row.payload reason w))
  unfolding fail mark_failed audit
  fails-Becomes row kind reason now w d quiet found = (
    _,
    ap (λ (s : Store). find delivery_key row.payload.event_id s.deliveries)
          (alert-deliveries row row.payload kind now _ quiet)
        ∙ found_after row.payload.event_id w.store _ d (λ r. refl) found,
    refl,
  )

  refusal-Becomes :
      (row : ClaimedRow) (channel kind message : String) (now : ℕ) (w : World) (d : DeliveryRow)
      → (kind == "not_member") ≡ false
      → ((m : Message) (h : List Message) (e : String) → buzz h m ≢ crashed e)
      → find delivery_key row.payload.event_id w.store.deliveries ≡ some d
      → Becomes row now
          (λ d'.
            if leb cfg.max_attempts (row.attempts + 1)
            then d'.state ≡ failed
            else Retried now row.attempts d d')
          (handle_failure cfg time buzz clock row channel kind message now w)
  unfolding handle_failure settle reschedule
  refusal-Becomes row channel kind message now w d other quiet found =
      rw other (elim (Bool-cases (leb cfg.max_attempts (row.attempts + 1))) [
        | inl full ↦ rw full (fails-Becomes row kind _ now w d quiet found)
        | inr more ↦
            rw more (
              _,
              found_after row.payload.event_id w.store _ d (λ r. refl) found,
              (refl, refl, refl),
            )
      ])

  -- Where the first call of a tried row is refused for another reason than membership, and no call of
  -- `buzz` ends by an exception other than a refusal, the row is failed after the attempt if its
  -- attempts reach the cap with it, and otherwise it is pending again, with one attempt more and the
  -- back-off time ahead of it.
  pub refused_retry :
      (row : ClaimedRow) (now : ℕ) (w : World) (kind message : String) (d : DeliveryRow)
      → IsTried row now w
      → answer row w ≡ refused kind message
      → (kind == "not_member") ≡ false
      → ((m : Message) (h : List Message) (e : String) → buzz h m ≢ crashed e)
      → delivery row.payload.event_id w.store ≡ some d
      → (d' : DeliveryRow) × (delivery row.payload.event_id (attempt row now w).store ≡ some d')
        × (if leb cfg.max_attempts (row.attempts + 1)
            then d'.state ≡ failed
            else Retried now row.attempts d d')
  unfolding deliver_reply delivery call
  refused_retry row now w kind message d (fresh, there) refusal other quiet found =
      subst
        (Becomes row now (λ d'.
          if leb cfg.max_attempts (row.attempts + 1)
          then d'.state ≡ failed
          else Retried now row.attempts d d'))
        (sym (tried row now w (refused kind message) (fresh, there) refusal))
        (refusal-Becomes row (channel_of row w) kind message now (call row w) d other quiet found)

  -- Any other exception puts a tried row back, however often it has been tried: no cap applies.
  pub crashed_retry :
      (row : ClaimedRow) (now : ℕ) (w : World) (e : String) (d : DeliveryRow)
      → IsTried row now w
      → answer row w ≡ crashed e
      → delivery row.payload.event_id w.store ≡ some d
      → (d' : DeliveryRow) × (delivery row.payload.event_id (attempt row now w).store ≡ some d')
        × Retried now row.attempts d d'
  unfolding deliver_reply delivery call settle reschedule
  crashed_retry row now w e d (fresh, there) crash found =
      subst (Becomes row now (Retried now row.attempts d))
        (sym (tried row now w (crashed e) (fresh, there) crash))
        (_, found_after row.payload.event_id w.store _ d (λ r. refl) found, (refl, refl, refl))
