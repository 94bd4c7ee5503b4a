-- ===== src/Store/Extends.antt =====
-- An outbox that only grows (store.py): what was there is there, unchanged.
use opc_stack.Base.{
  ◌++◌, map, String, ℕ, ◌≡◌, refl, ◌∙◌, ap, List, some, is_some, Bool-cases, inl, inr,
}
use opc_stack.Base.Table.{find, find-append}
use opc_stack.Event.{Event}
use opc_stack.Store.Row.{Store, EventRow, DeliveryRow}
use opc_stack.Store.Outbox.{event_key, delivery_key, find_event, delivery, enqueue_event}
use opc_stack.Store.Integrity.{IsOutbox, IsOutbox-frame, enqueue_event-IsOutbox}

-- `s` has whatever `old` has in its outbox, in an outbox that is sound.
pub record Extends (old s : Store) : Type 0 where
  pub sound : IsOutbox s
  pub events :
      (k : String) (row : EventRow) → find_event k old ≡ some row → find_event k s ≡ some row
  pub deliveries :
      (k : String) (row : DeliveryRow) → delivery k old ≡ some row → delivery k s ≡ some row

pub Extends-refl : (s : Store) → IsOutbox s → Extends s s
Extends-refl s o = record { sound = o; events = λ k row e. e; deliveries = λ k row e. e }

-- A statement on other tables.
pub Extends-frame :
    (old s s' : Store)
    → s'.events ≡ s.events
    → s'.deliveries ≡ s.deliveries
    → Extends old s
    → Extends old s'
unfolding delivery
Extends-frame old s s' e d x = record {
  sound = IsOutbox-frame s s' (ap (map delivery_key) d) e x.sound;
  events = λ k row h. ap (find event_key k) e ∙ x.events k row h;
  deliveries = λ k row h. ap (find delivery_key k) d ∙ x.deliveries k row h;
}

find-kept {ℓ} :
    {R : Type ℓ} (key : R → String) (k : String) (rows more : List R) (row : R)
    → find key k rows ≡ some row
    → find key k (rows ++ more) ≡ some row
find-kept key k rows more row h = find-append key k rows more ∙ rw h refl

pub Extends-enqueue_event :
    (old : Store) (event : Event) (now : ℕ) (s : Store)
    → Extends old s
    → Extends old (enqueue_event event now s).0
unfolding enqueue_event delivery
Extends-enqueue_event old event now s x = record {
  sound = (enqueue_event-IsOutbox event now s x.sound).0;
  events = λ k row h. elim (Bool-cases (is_some (find_event event.event_id s))) [
    | inl known ↦ rw known (x.events k row h)
    | inr fresh ↦ rw fresh (find-kept event_key k s.events _ row (x.events k row h))
  ];
  deliveries = λ k row h. elim (Bool-cases (is_some (find_event event.event_id s))) [
    | inl known ↦ rw known (x.deliveries k row h)
    | inr fresh ↦ elim (Bool-cases (is_some (delivery event.event_id s))) [
      | inl present ↦ rw (fresh, present) (x.deliveries k row h)
      | inr absent ↦
          rw (fresh, absent) (find-kept delivery_key k s.deliveries _ row (x.deliveries k row h))
    ]
  ];
}
