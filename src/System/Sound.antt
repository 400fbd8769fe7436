-- ===== src/System/Sound.antt =====
-- The invariant of the whole database, and the transactions of internal/dispatch under it.
use crisis_link.Common.{ℕ, ◌≡◌, refl, Bool, true, false, arith, branch, not, ◌&&◌, ◌==◌}
use crisis_link.Table.{Table, update, count_where}
use crisis_link.Table.Laws.{Unique, update-Unique, count_where-update_same}
use crisis_link.Table.Every.{Every}
use crisis_link.Store.Rows.{
  Db, UnitStatus, DispatchStatus, OutboxEvent, EventType, AggregateType, Payload,
}
use crisis_link.Store.Tx.{Commits}
use crisis_link.Units.{set_status}
use crisis_link.Outbox.{new_event}
use crisis_link.Outbox.Budget.{InBudget}
use crisis_link.Dispatches.{
  serves, set_dispatch_status, same_dispatch_status, unit_status_for_dispatch,
}
use crisis_link.Dispatches.Transactions.{reserve, advance_status}
use crisis_link.Dispatches.Reassignment.{reassign}
use crisis_link.Dispatches.Outcomes.{
  reserve-Reservation, reserved_db, advance_status-Advance, advanced_db, resolves,
}
use crisis_link.Dispatches.Replaced.{
  reassign-Replacement, replaced_db, moved_units, released_incidents, with_replacement,
}
use crisis_link.Dispatches.Preservation.{
  WellFormed, reserved_db-WellFormed, advanced_db-WellFormed, replaced_db-WellFormed,
}
use crisis_link.Transports.Seats.{Seating}
use crisis_link.Victims.Capacity.{Capacity}

-- An event that begins a dispatch.
abbrev pub begins_dispatch : EventType → Bool
begins_dispatch EventType.dispatch_created = true
begins_dispatch EventType.dispatch_rerouted = true
begins_dispatch EventType.dispatch_preempted = true
begins_dispatch _ = false

abbrev pub begins : OutboxEvent → Bool
begins e = begins_dispatch e.event_type

abbrev pub size {ℓ} : {A : Type ℓ} → Table A → ℕ
size = count_where (λ a. true)

pub record Sound (db : Db) : Type 0 where
  pub dispatching : WellFormed db
  pub seating : Seating db
  pub capacity : Capacity db
  pub budget : Every InBudget db.outbox
  pub unit_ids : Unique db.units
  pub incident_ids : Unique db.incidents
  pub recorded : count_where begins db.outbox ≡ size db.dispatches

pub WellFormed-frame :
    (db db' : Db)
    → db'.units ≡ db.units
    → db'.incidents ≡ db.incidents
    → db'.dispatches ≡ db.dispatches
    → WellFormed db
    → WellFormed db'
WellFormed-frame db db' eu ei ed w = record {
  ids = rw ed w.ids;
  one_active = rw ed w.one_active;
  held = rw (eu, ed) w.held;
  attended = rw (ei, ed) w.attended;
}

pub Seating-frame :
    (db db' : Db)
    → db'.bookings ≡ db.bookings
    → db'.transports ≡ db.transports
    → Seating db
    → Seating db'
Seating-frame db db' eb et s = record {
  ids = rw eb s.ids;
  counted = rw (eb, et) s.counted;
  within = rw et s.within;
}

pub Capacity-frame :
    (db db' : Db)
    → db'.victims ≡ db.victims
    → db'.shelters ≡ db.shelters
    → Capacity db
    → Capacity db'
Capacity-frame db db' ev es c = record {
  people = rw ev c.people;
  counted = rw (ev, es) c.counted;
  within = rw es c.within;
}

pub new_event-InBudget :
    (a : AggregateType) (k : ℕ) (t : EventType) (p : Payload) (now : ℕ)
    → InBudget (new_event a k t p now)
new_event-InBudget a k t p now = record { bounded = ground arith; dead_when_spent = refl }

pub reserve-Sound :
    (id incident_id unit_id : ℕ) (db : Db)
    → Sound db
    → Commits Sound (reserve id incident_id unit_id db)
reserve-Sound id incident_id unit_id db s d db' h =
    let (r, _, e) = reserve-Reservation id incident_id unit_id db d db' h in
    rw e (record {
      dispatching = reserved_db-WellFormed id incident_id unit_id db s.dispatching r;
      seating = Seating-frame db (reserved_db id incident_id unit_id db) refl refl s.seating;
      capacity = Capacity-frame db (reserved_db id incident_id unit_id db) refl refl s.capacity;
      budget = (new_event-InBudget _ _ _ _ _, s.budget);
      unit_ids = update-Unique unit_id (set_status UnitStatus.reserved db.now) db.units s.unit_ids;
      incident_ids = update-Unique incident_id _ db.incidents s.incident_ids;
      recorded = ground (arith, s.recorded);
    })

pub advance_status-Sound :
    (id : ℕ) (status : DispatchStatus) (db : Db)
    → Sound db
    → Commits Sound (advance_status id status db)
advance_status-Sound id status db s d db' h =
    let a = advance_status-Advance id status db d db' h in
    let after_it = advanced_db id status a.cur db in
    rw a.db_after (record {
      dispatching = advanced_db-WellFormed id status a.cur db s.dispatching a.found a.legal;
      seating = Seating-frame db after_it refl refl s.seating;
      capacity = Capacity-frame db after_it refl refl s.capacity;
      budget =
          branch (Every InBudget) (same_dispatch_status status DispatchStatus.completed) _ db.outbox
            (new_event-InBudget _ _ _ _ _, s.budget) s.budget;
      unit_ids =
          update-Unique a.cur.unit_id (set_status (unit_status_for_dispatch status) db.now) db.units
            s.unit_ids;
      incident_ids =
          branch Unique (resolves status a.cur.incident_id after_it.dispatches) _ db.incidents
            (update-Unique a.cur.incident_id _ db.incidents s.incident_ids) s.incident_ids;
      recorded = ground (
        arith,
        s.recorded,
        count_where-update_same (λ x. true) id (set_dispatch_status status db.now) db.dispatches
            (λ x. refl),
      );
    })

moved_units-Unique :
    (old_unit new_unit : ℕ) (db : Db) → Unique db.units → Unique (moved_units old_unit new_unit db)
moved_units-Unique old_unit new_unit db u = branch Unique (old_unit == new_unit) db.units _ u (
    update-Unique new_unit (set_status UnitStatus.reserved db.now)
      (update old_unit (set_status UnitStatus.available db.now) db.units)
      (update-Unique old_unit (set_status UnitStatus.available db.now) db.units u))

released-Unique :
    (old_incident new_incident : ℕ) (db : Db)
    → Unique db.incidents
    → Unique (released_incidents old_incident new_incident db)
released-Unique old_incident new_incident db u =
    branch Unique
      (not (old_incident == new_incident) && count_where (serves old_incident) db.dispatches == 0) _
      db.incidents (update-Unique old_incident _ db.incidents u) u

-- A reassignment, with an event that begins a dispatch.
pub reassign-Sound :
    (id old_id new_incident new_unit : ℕ) (event : EventType) (db : Db)
    → (begins_dispatch event ≡ true)
    → Sound db
    → Commits Sound (reassign id old_id new_incident new_unit event db)
reassign-Sound id old_id new_incident new_unit event db starts s d db' h =
    let (r, _) = reassign-Replacement id old_id new_incident new_unit event db d db' h in
    let after_it = replaced_db id old_id new_incident new_unit event r.old db in
    rw r.db_after (record {
      dispatching =
          replaced_db-WellFormed id old_id new_incident new_unit event db db' s.dispatching r;
      seating = Seating-frame db after_it refl refl s.seating;
      capacity = Capacity-frame db after_it refl refl s.capacity;
      budget = (new_event-InBudget _ _ _ _ _, s.budget);
      unit_ids = moved_units-Unique r.old.unit_id new_unit db s.unit_ids;
      incident_ids =
          released-Unique r.old.incident_id new_incident
            (with_replacement id old_id new_incident new_unit r.old db)
            (update-Unique new_incident _ db.incidents s.incident_ids);
      recorded = ground (
        arith,
        s.recorded,
        count_where-update_same (λ x. true) old_id
            (set_dispatch_status DispatchStatus.cancelled db.now) db.dispatches (λ x. refl),
      );
    })
