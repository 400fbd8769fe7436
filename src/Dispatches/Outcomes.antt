-- ===== src/Dispatches/Outcomes.antt =====
-- What the database looked like before a transaction that succeeded, and what it is after it.
use crisis_link.Common.{
  ℕ, suc, ◌&&◌, if◌then◌else◌, ◌≡◌, inl, inr, Bool, true, false, none, some, ◌∷◌, arith, ◌==◌,
  exists_in, Option-cases,
}
use crisis_link.Table.{Table, find, update, update_where, count_where}
use crisis_link.Table.Laws.{find-update_self}
use crisis_link.Store.Rows.{
  Db, RescueUnit, Incident, Dispatch, DispatchStatus, UnitStatus, IncidentStatus, EventType,
  AggregateType, Payload,
}
use crisis_link.Store.Tx.{ok}
use crisis_link.Units.{is_available, set_status}
use crisis_link.Incidents.{is_closed, is_undispatched, is_dispatched, set_incident_status}
use crisis_link.Outbox.{new_event}
use crisis_link.Dispatches.{
  holds_unit, new_dispatch, can_transition_dispatch, set_dispatch_status, unit_status_for_dispatch,
  same_dispatch_status, serves,
}
use crisis_link.Dispatches.Transactions.{reserve, advance_status}

-- The database after a reservation.
abbrev pub reserved_db : ℕ → ℕ → ℕ → Db → Db
reserved_db id incident_id unit_id db = record db {
  units = update unit_id (set_status UnitStatus.reserved db.now) db.units;
  incidents =
      update_where incident_id (λ i. is_undispatched i.status)
        (set_incident_status IncidentStatus.dispatched db.now) db.incidents;
  dispatches = (id, new_dispatch incident_id unit_id db.now) ∷ db.dispatches;
  outbox =
      (
        db.next_event,
        new_event AggregateType.dispatch id EventType.dispatch_created
            (Payload.created id incident_id unit_id) db.now,
      )
      ∷ db.outbox;
  next_event = suc db.next_event;
}

pub record Reservation (id incident_id unit_id : ℕ) (db : Db) : Type 0 where
  pub unit : RescueUnit
  pub incident : Incident
  pub unit_found : find unit_id db.units ≡ some unit
  pub unit_free : is_available unit.status ≡ true
  pub incident_found : find incident_id db.incidents ≡ some incident
  pub incident_open : is_closed incident.status ≡ false
  pub id_fresh : find id db.dispatches ≡ none
  pub unit_unheld : exists_in (λ (_, d). holds_unit unit_id d) db.dispatches ≡ false

pub reserve-Reservation :
    (id incident_id unit_id : ℕ) (db : Db) (d : ℕ × Dispatch) (db' : Db)
    → reserve id incident_id unit_id db ≡ ok (d, db')
    → Reservation id incident_id unit_id db
      × (d ≡ (id, new_dispatch incident_id unit_id db.now))
      × (db' ≡ reserved_db id incident_id unit_id db)
unfolding reserve
reserve-Reservation id incident_id unit_id db d db' h =
    elim (Option-cases (find unit_id db.units)) [
      | inl e ↦ ground arith
      | inr (u, eu) ↦ elim (Option-cases (find incident_id db.incidents)) [
        | inl e ↦ ground arith
        | inr (i, ei) ↦ (
          record {
            unit = u;
            incident = i;
            unit_found = eu;
            unit_free = ground arith;
            incident_found = ei;
            incident_open = ground arith;
            id_fresh = ground arith;
            unit_unheld = ground arith;
          },
          ground arith,
          ground arith,
        )
      ]
    ]

-- The database after a dispatch `cur` moved to `new_status`.
abbrev pub resolves : DispatchStatus → ℕ → Table Dispatch → Bool
resolves new_status incident_id dispatches =
    same_dispatch_status new_status DispatchStatus.completed
    && count_where (serves incident_id) dispatches == 0

abbrev pub advanced_db : ℕ → DispatchStatus → Dispatch → Db → Db
advanced_db id new_status cur db =
    let dispatches' : Table Dispatch =
      update id (set_dispatch_status new_status db.now) db.dispatches in
    let done = same_dispatch_status new_status DispatchStatus.completed in
    let resolved = resolves new_status cur.incident_id dispatches' in
    record db {
      units = update cur.unit_id (set_status (unit_status_for_dispatch new_status) db.now) db.units;
      dispatches = dispatches';
      incidents =
          if resolved
          then update_where cur.incident_id (λ i. is_dispatched i.status)
              (set_incident_status IncidentStatus.resolved db.now) db.incidents
          else db.incidents;
      outbox =
          if done
          then (
            db.next_event,
            new_event AggregateType.dispatch id EventType.dispatch_completed
                (Payload.finished id cur.incident_id cur.unit_id resolved) db.now,
          )
            ∷ db.outbox
          else db.outbox;
      next_event = if done then suc db.next_event else db.next_event;
    }

pub record Advance (id : ℕ) (new_status : DispatchStatus) (db db' : Db) : Type 0 where
  pub cur : Dispatch
  pub found : find id db.dispatches ≡ some cur
  pub legal : can_transition_dispatch cur.status new_status ≡ true
  pub db_after : db' ≡ advanced_db id new_status cur db

pub advance_status-Advance :
    (id : ℕ) (new_status : DispatchStatus) (db : Db) (d : ℕ × Dispatch) (db' : Db)
    → advance_status id new_status db ≡ ok (d, db')
    → Advance id new_status db db'
unfolding advance_status
advance_status-Advance id new_status db d db' h = elim (Option-cases (find id db.dispatches)) [
  | inl e ↦ ground arith
  | inr (cur, e) ↦ record {
    cur = cur;
    found = e;
    legal = ground arith;
    db_after =
        ground
          (arith, find-update_self id (set_dispatch_status new_status db.now) db.dispatches cur);
  }
]
