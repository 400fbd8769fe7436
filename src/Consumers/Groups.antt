-- ===== src/Consumers/Groups.antt =====
-- The two groups beside each other: each writes once, whatever the other does.
use crisis_link.Common.{
  ℕ, zero, suc, ◌+◌, ◌≤◌, ◌≡◌, refl, Bool, true, false, ltb, exists_in, none, some, List, [], ◌∷◌,
  ◌==◌, bit, arith,
}
use crisis_link.Table.{Table, count_where}
use crisis_link.Inbox.{Inbox, is_claimed, attempts, process, process_once, max_attempts}
use crisis_link.Consumers.{
  EventEnvelope, Entry, Logs, Arrival, effect_of, notification_writer, audit_writer, notifier_group,
  auditor_group, arrive, run_groups, is_recorded,
}

abbrev pub notified : ℕ → Logs → ℕ
notified event logs = count_where (λ n. n.event_id == event) logs.notifications

abbrev pub audited : ℕ → Logs → ℕ
audited event logs = count_where (λ e. e.event_id == event) logs.audit_log

-- Each event in a group's ledger has one row of the group, and no other has any.
pub record BothOnce (db : Inbox Logs) : Type 0 where
  pub notifications :
      (event : ℕ) → notified event db.tables ≡ bit (is_claimed notifier_group event db.ledger)
  pub audit_log :
      (event : ℕ) → audited event db.tables ≡ bit (is_claimed auditor_group event db.ledger)

is_recorded-counts :
    (event : ℕ) (t : Table Entry)
    → is_recorded event t ≡ ltb 0 (count_where (λ e. e.event_id == event) t)
is_recorded-counts event [] = refl
is_recorded-counts event ((i, e) ∷ t) = ground (arith, is_recorded-counts event t)

module _ (envelope : ℕ → EventEnvelope) (named : (event : ℕ) → (envelope event).id ≡ event)
    (fails : ℕ → ℕ → Bool) where
  notifier-BothOnce :
      (n attempt event : ℕ) (db : Inbox Logs)
      → BothOnce db
      → BothOnce
          (attempts
            (effect_of notification_writer envelope fails)
            n
            attempt
            notifier_group
            event
            db).1
  unfolding attempts process_once notification_writer
  notifier-BothOnce zero attempt event db w = w
  notifier-BothOnce (suc n) attempt event db w =
      let later = notifier-BothOnce n (attempt + 1) event db w in
      record {
        notifications = λ e.
            ground
              (arith, named event, w.notifications e, w.notifications event, later.notifications e);
        audit_log = λ e. ground (arith, w.audit_log e, later.audit_log e);
      }

  auditor-BothOnce :
      (n attempt event : ℕ) (db : Inbox Logs)
      → BothOnce db
      → BothOnce
          (attempts (effect_of audit_writer envelope fails) n attempt auditor_group event db).1
  unfolding attempts process_once audit_writer
  auditor-BothOnce zero attempt event db w = w
  auditor-BothOnce (suc n) attempt event db w =
      let later = auditor-BothOnce n (attempt + 1) event db w in
      record {
        notifications = λ e. ground (arith, w.notifications e, later.notifications e);
        audit_log = λ e. ground (
          arith,
          named event,
          is_recorded-counts event db.tables.audit_log,
          w.audit_log e,
          w.audit_log event,
          later.audit_log e,
        );
      }

  -- The audit log alone, whatever the ledger says.
  abbrev AuditedOnce : Logs → Type 0
  AuditedOnce logs = (event : ℕ) → audited event logs ≤ 1

  auditor-AuditedOnce :
      (n attempt event : ℕ) (db : Inbox Logs)
      → AuditedOnce db.tables
      → AuditedOnce
          (attempts
            (effect_of audit_writer envelope fails)
            n
            attempt
            auditor_group
            event
            db).1.tables
  unfolding attempts process_once audit_writer
  auditor-AuditedOnce zero attempt event db w = w
  auditor-AuditedOnce (suc n) attempt event db w = λ e. ground (
    arith,
    named event,
    is_recorded-counts event db.tables.audit_log,
    w e,
    w event,
    auditor-AuditedOnce n (attempt + 1) event db w e,
  )

  notifier-AuditedOnce :
      (n attempt event : ℕ) (db : Inbox Logs)
      → AuditedOnce db.tables
      → AuditedOnce
          (attempts
            (effect_of notification_writer envelope fails)
            n
            attempt
            notifier_group
            event
            db).1.tables
  unfolding attempts process_once notification_writer
  notifier-AuditedOnce zero attempt event db w = w
  notifier-AuditedOnce (suc n) attempt event db w =
      λ e. ground (arith, w e, notifier-AuditedOnce n (attempt + 1) event db w e)

abbrev pub is_loss : Arrival → Bool
is_loss Arrival.ledger_lost = true
is_loss _ = false

module _ (envelope : ℕ → EventEnvelope) (fails : ℕ → ℕ → ℕ → Bool) where
  -- If the envelope under an id carries that id, then after any deliveries to the two groups, in any
  -- order, as often as the broker likes and whichever attempts break, each event in a group's ledger
  -- has one row of that group and no other event has any, as it was before; the ledger is not lost.
  pub run_groups-BothOnce :
      (arrivals : List Arrival) (db : Inbox Logs)
      → ((event : ℕ) → (envelope event).id ≡ event)
      → exists_in is_loss arrivals ≡ false
      → BothOnce db
      → BothOnce (run_groups envelope fails arrivals db)
  unfolding run_groups arrive process
  run_groups-BothOnce [] db named kept w = w
  run_groups-BothOnce (Arrival.to_notifier none ∷ later) db named kept w =
      run_groups-BothOnce later db named (ground (arith, kept)) w
  run_groups-BothOnce (Arrival.to_notifier (some e) ∷ later) db named kept w =
      run_groups-BothOnce later _ named (ground (arith, kept))
        (notifier-BothOnce envelope named (fails notifier_group) max_attempts 1 e db w)
  run_groups-BothOnce (Arrival.to_auditor none ∷ later) db named kept w =
      run_groups-BothOnce later db named (ground (arith, kept)) w
  run_groups-BothOnce (Arrival.to_auditor (some e) ∷ later) db named kept w =
      run_groups-BothOnce later _ named (ground (arith, kept))
        (auditor-BothOnce envelope named (fails auditor_group) max_attempts 1 e db w)
  run_groups-BothOnce (Arrival.ledger_lost ∷ later) db named kept w = absurd (ground (arith, kept))

  -- If the envelope under an id carries that id, then the audit log holds at most one row for an
  -- event, as before, after any deliveries to the two groups, even if the ledger is lost between them
  -- any number of times.
  pub run_groups-AuditedOnce :
      (arrivals : List Arrival) (db : Inbox Logs)
      → ((event : ℕ) → (envelope event).id ≡ event)
      → ((event : ℕ) → audited event db.tables ≤ 1)
      → (event : ℕ) → audited event (run_groups envelope fails arrivals db).tables ≤ 1
  unfolding run_groups arrive process
  run_groups-AuditedOnce [] db named w = w
  run_groups-AuditedOnce (Arrival.to_notifier none ∷ later) db named w =
      run_groups-AuditedOnce later db named w
  run_groups-AuditedOnce (Arrival.to_notifier (some e) ∷ later) db named w =
      run_groups-AuditedOnce later _ named
        (notifier-AuditedOnce envelope named (fails notifier_group) max_attempts 1 e db w)
  run_groups-AuditedOnce (Arrival.to_auditor none ∷ later) db named w =
      run_groups-AuditedOnce later db named w
  run_groups-AuditedOnce (Arrival.to_auditor (some e) ∷ later) db named w =
      run_groups-AuditedOnce later _ named
        (auditor-AuditedOnce envelope named (fails auditor_group) max_attempts 1 e db w)
  run_groups-AuditedOnce (Arrival.ledger_lost ∷ later) db named w =
      run_groups-AuditedOnce later (record db { ledger = [] }) named w
