-- ===== src/Dispatches/Replaced.antt =====
-- A reassignment that succeeded (Reassign): what it saw, and what it left.
use crisis_link.Common.{
  ℕ, suc, ◌≡◌, ◌⊎◌, inl, inr, true, false, not, ◌&&◌, none, some, ◌∷◌, arith, ◌==◌, exists_in,
  if◌then◌else◌, Option-cases, Bool-cases,
}
use crisis_link.Table.{Table, find, update, update_where, count_where}
use crisis_link.Store.Rows.{
  Db, RescueUnit, Incident, Dispatch, DispatchStatus, UnitStatus, IncidentStatus, EventType,
  AggregateType, Payload,
}
use crisis_link.Store.Tx.{ok, err, Error, unit_not_found, unit_not_available}
use crisis_link.Units.{is_available, set_status}
use crisis_link.Incidents.{is_closed, is_undispatched, is_dispatched, set_incident_status}
use crisis_link.Outbox.{new_event}
use crisis_link.Dispatches.{
  holds_unit, new_dispatch, set_dispatch_status, is_active_dispatch, serves,
}
use crisis_link.Dispatches.Reassignment.{reassign, lock_units, move_unit, release_incident}

-- Locking fails or leaves the database alone; it saw the incoming unit, free if it is another one.
lock_units-cases :
    (old_unit new_unit : ℕ) (db : Db)
    → ((e : Error) × (lock_units old_unit new_unit db ≡ err e))
      ⊎ ((u : RescueUnit) × (find new_unit db.units ≡ some u)
          × ((old_unit == new_unit) ≡ false → is_available u.status ≡ true)
          × (lock_units old_unit new_unit db ≡ ok (tt, db)))
unfolding lock_units
lock_units-cases old_unit new_unit db = elim (Option-cases (find new_unit db.units)) [
  | inl e ↦ elim (Option-cases (find old_unit db.units)) [
    | inl f ↦ inl (unit_not_found, ground arith)
    | inr (v, f) ↦ inl (unit_not_found, ground arith)
  ]
  | inr (u, e) ↦ elim (Bool-cases (old_unit == new_unit)) [
    | inl same ↦ inr (u, e, λ h. ground arith, ground arith)
    | inr other ↦ elim (Option-cases (find old_unit db.units)) [
      | inl f ↦ inl (unit_not_found, ground arith)
      | inr (v, f) ↦ elim (Bool-cases (is_available u.status)) [
        | inl free ↦ inr (u, e, λ h. free, ground arith)
        | inr taken ↦ inl (unit_not_available, ground arith)
      ]
    ]
  ]
]

abbrev pub moved_units : ℕ → ℕ → Db → Table RescueUnit
moved_units old_unit new_unit db =
    if old_unit == new_unit
    then db.units
    else update new_unit (set_status UnitStatus.reserved db.now)
        (update old_unit (set_status UnitStatus.available db.now) db.units)

move_unit_lem :
    (old_unit new_unit : ℕ) (db : Db)
    → move_unit old_unit new_unit db
      ≡ ok (tt, record db { units = moved_units old_unit new_unit db })
unfolding move_unit
move_unit_lem old_unit new_unit db = ground arith

abbrev pub released_incidents : ℕ → ℕ → Db → Table Incident
released_incidents old_incident new_incident db =
    if not (old_incident == new_incident) && count_where (serves old_incident) db.dispatches == 0
    then update_where old_incident (λ i. is_dispatched i.status)
        (set_incident_status IncidentStatus.verified db.now) db.incidents
    else db.incidents

release_incident_lem :
    (old_incident new_incident : ℕ) (db : Db)
    → release_incident old_incident new_incident db
      ≡ ok (tt, record db { incidents = released_incidents old_incident new_incident db })
unfolding release_incident
release_incident_lem old_incident new_incident db = ground arith

-- The dispatches after the old one was cancelled, and with its replacement.
abbrev pub without_old : ℕ → Db → Table Dispatch
without_old old_id db =
    update old_id (set_dispatch_status DispatchStatus.cancelled db.now) db.dispatches

abbrev pub with_new : ℕ → ℕ → ℕ → ℕ → Db → Table Dispatch
with_new id old_id new_incident new_unit db =
    (id, new_dispatch new_incident new_unit db.now) ∷ without_old old_id db

abbrev pub promoted : ℕ → Db → Table Incident
promoted new_incident db =
    update_where new_incident (λ i. is_undispatched i.status)
      (set_incident_status IncidentStatus.dispatched db.now) db.incidents

-- After the new row is in, before the old incident is looked at.
abbrev pub with_replacement : ℕ → ℕ → ℕ → ℕ → Dispatch → Db → Db
with_replacement id old_id new_incident new_unit old db = record db {
  units = moved_units old.unit_id new_unit db;
  dispatches = with_new id old_id new_incident new_unit db;
  incidents = promoted new_incident db;
}

abbrev pub replaced_db : ℕ → ℕ → ℕ → ℕ → EventType → Dispatch → Db → Db
replaced_db id old_id new_incident new_unit event old db = record db {
  units = moved_units old.unit_id new_unit db;
  dispatches = with_new id old_id new_incident new_unit db;
  incidents =
      released_incidents old.incident_id new_incident
        (with_replacement id old_id new_incident new_unit old db);
  outbox =
      (
        db.next_event,
        new_event AggregateType.dispatch id event
            (Payload.replaced id new_incident new_unit old_id old.incident_id old.unit_id) db.now,
      )
      ∷ db.outbox;
  next_event = suc db.next_event;
}

pub record Replacement (id old_id new_incident new_unit : ℕ) (event : EventType) (db db' : Db)
    : Type 0 where
  pub old : Dispatch
  pub incident : Incident
  pub unit : RescueUnit
  pub found : find old_id db.dispatches ≡ some old
  pub active : is_active_dispatch old.status ≡ true
  pub incident_found : find new_incident db.incidents ≡ some incident
  pub incident_open : is_closed incident.status ≡ false
  pub unit_found : find new_unit db.units ≡ some unit
  pub unit_free : (old.unit_id == new_unit) ≡ false → is_available unit.status ≡ true
  pub id_fresh : find id (without_old old_id db) ≡ none
  pub unit_unheld : exists_in (λ (_, d). holds_unit new_unit d) (without_old old_id db) ≡ false
  pub db_after : db' ≡ replaced_db id old_id new_incident new_unit event old db

pub reassign-Replacement :
    (id old_id new_incident new_unit : ℕ) (event : EventType) (db : Db) (d : ℕ × Dispatch)
    (db' : Db)
    → reassign id old_id new_incident new_unit event db ≡ ok (d, db')
    → Replacement id old_id new_incident new_unit event db db'
      × (d ≡ (id, new_dispatch new_incident new_unit db.now))
unfolding reassign
reassign-Replacement id old_id new_incident new_unit event db d db' h =
    elim (Option-cases (find old_id db.dispatches)) [
      | inl e ↦ ground arith
      | inr (old, eo) ↦ elim (Option-cases (find new_incident db.incidents)) [
        | inl e ↦ ground (arith, lock_units-cases old.unit_id new_unit db)
        | inr (i, ei) ↦ elim (lock_units-cases old.unit_id new_unit db) [
          | inl e ↦ ground arith
          | inr (u, eu, free, locked) ↦ (
            record {
              old = old;
              incident = i;
              unit = u;
              found = eo;
              active = ground arith;
              incident_found = ei;
              incident_open = ground arith;
              unit_found = eu;
              unit_free = free;
              id_fresh = ground (
                arith,
                move_unit_lem old.unit_id new_unit
                    (record db { dispatches = without_old old_id db }),
              );
              unit_unheld = ground (
                arith,
                move_unit_lem old.unit_id new_unit
                    (record db { dispatches = without_old old_id db }),
              );
              db_after = ground (
                arith,
                move_unit_lem old.unit_id new_unit
                    (record db { dispatches = without_old old_id db }),
                release_incident_lem old.incident_id new_incident
                    (with_replacement id old_id new_incident new_unit old db),
              );
            },
            ground (
              arith,
              move_unit_lem old.unit_id new_unit (record db { dispatches = without_old old_id db }),
              release_incident_lem old.incident_id new_incident
                  (with_replacement id old_id new_incident new_unit old db),
            ),
          )
        ]
      ]
    ]
