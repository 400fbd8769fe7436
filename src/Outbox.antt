-- ===== src/Outbox.antt =====
-- internal/outbox: events are written in the transaction of the change that they describe.
pub mod Publishing
pub mod Backoff
pub mod Budget
pub mod Frame
pub mod Due
pub mod Settled
pub mod Chances
pub mod Claims
pub mod Drained
pub mod Backlog
use crisis_link.Common.{ℕ, suc, none, List, ◌∷◌}
use crisis_link.Store.Rows.{AggregateType, EventType, Payload, OutboxEvent, Db}
use crisis_link.Store.Tx.{Tx, modify}

-- The row that WriteTx inserts; marshalling one of these maps cannot fail.
abbrev pub new_event : AggregateType → ℕ → EventType → Payload → ℕ → OutboxEvent
new_event aggregate aggregate_id event payload now = record {
  aggregate_type = aggregate;
  aggregate_id = aggregate_id;
  event_type = event;
  payload = payload;
  created_at = now;
  published_at = none;
  attempts = 0;
  last_error = none;
  next_attempt_at = now;
  dead_at = none;
}

unfoldable pub write_tx : AggregateType → ℕ → EventType → Payload → Tx (Unit {0})
write_tx aggregate aggregate_id event payload = modify λ db. record db {
  outbox = (db.next_event, new_event aggregate aggregate_id event payload db.now) ∷ db.outbox;
  next_event = suc db.next_event;
}
