-- ===== src/Consumers.antt =====
-- The two consumer groups of cmd/consumer/main.go with their writers: internal/notification and
-- internal/audit, over the ledger of outbox/inbox_repository.go. The envelope of an event is what the
-- broker carries under its id.
pub mod Groups
use Prim.Native.String.{String}
use text.Mathlib.Text.{◌==◌ as str_eq}
use crisis_link.Common.{
  ℕ, ◌+◌, Bool, true, false, ◌&&◌, ◌||◌, Option, none, some, List, [], ◌∷◌, ◌==◌, if◌then◌else◌,
  exists_in, keep, take, not,
}
use crisis_link.Table.{Table}
use crisis_link.Store.Rows.{EventType, AggregateType, Payload}
use crisis_link.Inbox.{Inbox, process}

pub record EventEnvelope : Type 0 where
  pub id : ℕ
  pub event_type : EventType
  pub aggregate_type : AggregateType
  pub aggregate_id : ℕ
  pub payload : Payload
  pub occurred_at : ℕ

-- A message by its template and what stands in it.
pub data Message : Type 0 where
  unit_dispatched dispatch_done victim_placed : ℕ → Message
  other : EventType → ℕ → Message

pub record Notification : Type 0 where
  pub event_id : ℕ
  pub event_type : EventType
  pub message : Message

pub record Entry : Type 0 where
  pub event_id : ℕ
  pub event_type : EventType
  pub aggregate_type : AggregateType
  pub aggregate_id : ℕ
  pub payload : Payload
  pub occurred_at : ℕ

-- Both tables, the newest row first; a BIGSERIAL only grows.
pub record Logs : Type 0 where
  pub notifications : Table Notification
  pub audit_log : Table Entry
  pub next_id : ℕ

abbrev pub notification_message : EventEnvelope → Message
notification_message e = elim e.event_type [
  | EventType.dispatch_created ↦ unit_dispatched e.aggregate_id
  | EventType.dispatch_completed ↦ dispatch_done e.aggregate_id
  | EventType.victim_assigned ↦ victim_placed e.aggregate_id
  | _ ↦ other e.event_type e.aggregate_id
]

-- NotificationWriter
unfoldable pub notification_writer : EventEnvelope → Logs → Logs
notification_writer e logs = record logs {
  notifications =
      (
        logs.next_id,
        record { event_id = e.id; event_type = e.event_type; message = notification_message e },
      )
      ∷ logs.notifications;
  next_id = logs.next_id + 1;
}

abbrev pub is_recorded : ℕ → Table Entry → Bool
is_recorded event = exists_in (λ (_, e). e.event_id == event)

-- audit.Writer: ON CONFLICT (event_id) DO NOTHING
unfoldable pub audit_writer : EventEnvelope → Logs → Logs
audit_writer e logs = if is_recorded e.id logs.audit_log then logs else record logs {
  audit_log =
      (
        logs.next_id,
        record {
          event_id = e.id;
          event_type = e.event_type;
          aggregate_type = e.aggregate_type;
          aggregate_id = e.aggregate_id;
          payload = e.payload;
          occurred_at = e.occurred_at;
        },
      )
      ∷ logs.audit_log;
  next_id = logs.next_id + 1;
}

abbrev pub notifier_group : ℕ
notifier_group = 1

abbrev pub auditor_group : ℕ
auditor_group = 2

-- A writer in the attempts that do not break.
abbrev pub effect_of :
    (EventEnvelope → Logs → Logs)
    → (ℕ → EventEnvelope)
    → (ℕ → ℕ → Bool)
    → ℕ
    → ℕ
    → Logs
    → Option Logs
effect_of writer envelope fails attempt event logs =
    if fails attempt event then none else some (writer (envelope event) logs)

-- What the broker delivers to a group, or a ledger that is reset.
pub data Arrival : Type 0 where
  to_notifier to_auditor : Option ℕ → Arrival
  ledger_lost : Arrival

module _ (envelope : ℕ → EventEnvelope) (fails : ℕ → ℕ → ℕ → Bool) where
  -- `fails` says which attempts of a group break.
  unfoldable pub arrive : Arrival → Inbox Logs → Inbox Logs
  unfolding process notification_writer audit_writer
  arrive (Arrival.to_notifier m) db =
      (process (effect_of notification_writer envelope (fails notifier_group)) notifier_group m
        db).1
  arrive (Arrival.to_auditor m) db =
      (process (effect_of audit_writer envelope (fails auditor_group)) auditor_group m db).1
  arrive Arrival.ledger_lost db = record db { ledger = [] }

  unfoldable pub run_groups : List Arrival → Inbox Logs → Inbox Logs
  unfolding arrive
  run_groups [] db = db
  run_groups (a ∷ arrivals) db = run_groups arrivals (arrive a db)

-- NotificationRepository.ListRecent
unfoldable pub list_recent : ℕ → Logs → Table Notification
list_recent limit logs = take limit logs.notifications

abbrev pub same_aggregate_type : String → AggregateType → Bool
same_aggregate_type s AggregateType.dispatch = str_eq s "dispatch"
same_aggregate_type s AggregateType.victim = str_eq s "victim"
same_aggregate_type s AggregateType.transport = str_eq s "transport"

abbrev pub any_or : Option ℕ → ℕ → Bool
any_or none id = true
any_or (some i) id = id == i

-- audit.Repository.List; the empty aggregate id is `none`.
unfoldable pub list_audit : String → Option ℕ → ℕ → Logs → Table Entry
list_audit aggregate_type aggregate_id limit logs = take limit (
    keep
      (λ (_, e).
        (str_eq aggregate_type "" || same_aggregate_type aggregate_type e.aggregate_type)
        && any_or aggregate_id e.aggregate_id)
      logs.audit_log)
