-- ===== src/Poller/Outbox.antt =====
-- The poller and the outbox: what is there stays, whatever a pass meets (poller.py and store.py).
use opc_stack.Base.{String, ℕ, refl, Option}
use opc_stack.Base.Keeps.{Keeps-state}
use opc_stack.Store.Row.{Store}
use opc_stack.Store.Meta.{set_origin, upsert_issue_state, set_meta, set_cursor}
use opc_stack.Store.Extends.{Extends, Extends-refl, Extends-frame, Extends-enqueue_event}
use opc_stack.Store.Integrity.{IsOutbox}
use opc_stack.Poller.{Setting, PollerState}
use opc_stack.Poller.Keeps.{OnStore}
use opc_stack.Poller.Entries.{
  IsKept, tick-Keeps, reconcile-Keeps, backfill-Keeps, backfill_labels-Keeps,
}
use opc_stack.Poller.Recover.{tick, reconcile, backfill, backfill_labels}

pub Extends-IsKept : (old : Store) → IsKept (Extends old)
unfolding set_origin upsert_issue_state set_meta set_cursor
Extends-IsKept old = record {
  stable = record {
    origin = λ issue_id channel anchor at s x. Extends-frame old s _ refl refl x;
    enqueued = Extends-enqueue_event old;
  };
  observed = λ issue s x. Extends-frame old s _ refl refl x;
  marked = λ value s x. Extends-frame old s _ refl refl x;
  moved = λ at start s x. Extends-frame old s _ refl refl x;
}

-- Whatever Paperclip answers, and wherever a call raises, a tick, a reconciliation, a backfill and
-- the labelling of older tickets leave a sound outbox in which every event and every delivery that
-- was there is there unchanged.
pub poller-Extends :
    (w : Setting) (since_iso : String) (now : Option ℕ) (s : PollerState)
    → IsOutbox s.store
    → Extends s.store (tick w now s).0.store
      × Extends s.store (reconcile w now s).0.store
      × Extends s.store (backfill w since_iso now s).0.store
      × Extends s.store (backfill_labels w s).0.store
poller-Extends w since_iso now s o =
    let kept = Extends-IsKept s.store in
    let P = OnStore (Extends s.store) in
    let here = Extends-refl s.store o in
    (
      Keeps-state P (tick-Keeps (Extends s.store) w kept now) s here,
      Keeps-state P (reconcile-Keeps (Extends s.store) w kept now) s here,
      Keeps-state P (backfill-Keeps (Extends s.store) w kept since_iso now) s here,
      Keeps-state P (backfill_labels-Keeps (Extends s.store) w kept) s here,
    )
