-- ===== src/Store/Feed.antt =====
-- The feed of recent events (`recent_events` of store.py).
use opc_stack.Base.{ℕ, List, [], ◌∷◌, ◌++◌, map, Option, none, some, leb, take, String}
use mathlib.Core.Option
use opc_stack.Base.Int.{ℤ, pos, negsuc}
use opc_stack.Base.Sort.{sort_by}
use opc_stack.Store.Row.{Store, EventRow, DeliveryRow, DeliveryState}
use opc_stack.Store.Outbox.{delivery, event_key}

pub record FeedRow : Type 0 where
  pub event : EventRow
  pub delivery_state : Option DeliveryState
  pub attempts : Option ℕ
  pub last_error : Option String

abbrev pub last_error_of : Option DeliveryRow → Option String
last_error_of none = none
last_error_of (some d) = d.last_error

-- LEFT JOIN deliveries ON event_id
abbrev pub feed_row : Store → EventRow → FeedRow
feed_row s row =
    let d = delivery (event_key row) s in
    record {
      event = row;
      delivery_state = Option.map (λ (d : DeliveryRow). d.state) d;
      attempts = Option.map (λ (d : DeliveryRow). d.attempts) d;
      last_error = last_error_of d;
    }

unfoldable pub newest_first : List EventRow → List EventRow
newest_first [] = []
newest_first (row ∷ rows) = newest_first rows ++ row ∷ []

-- LIMIT ?, where a negative number is no limit.
abbrev pub limited {ℓ} : {A : Type ℓ} → ℤ → List A → List A
limited (pos n) rows = take n rows
limited (negsuc n) rows = rows

-- ORDER BY created_at DESC, rowid DESC LIMIT ?
unfoldable pub recent_events : ℤ → Store → List FeedRow
recent_events limit s = limited limit (
    map (feed_row s)
      (sort_by (λ (a b : EventRow). leb b.created_at a.created_at) (newest_first s.events)))
