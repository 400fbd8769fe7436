-- ===== src/Dispatches/Safety.antt =====
-- The invariant under Reserve, AdvanceStatus and Reassign, and when Reserve answers what.
use crisis_link.Common.{ℕ, ◌≡◌, true, false, none, some, arith, exists_in}
use crisis_link.Table.{find}
use crisis_link.Table.Laws.{exists_in-none, find-update_self}
use crisis_link.Store.Rows.{Db, RescueUnit, Incident, DispatchStatus, UnitStatus, EventType}
use crisis_link.Store.Tx.{ok, err, after, after-keeps, unit_not_available}
use crisis_link.Units.{is_available, set_status}
use crisis_link.Incidents.{is_closed}
use crisis_link.Dispatches.{holds_unit, new_dispatch}
use crisis_link.Dispatches.Transactions.{reserve, advance_status}
use crisis_link.Dispatches.Reassignment.{reassign}
use crisis_link.Dispatches.Outcomes.{reserved_db, reserve-Reservation, advance_status-Advance}
use crisis_link.Dispatches.Replaced.{reassign-Replacement}
use crisis_link.Dispatches.Preservation.{
  WellFormed, reserved_db-WellFormed, advanced_db-WellFormed, replaced_db-WellFormed,
}

-- Reserve keeps the database well formed, whether it commits or fails: ids stay unique, no unit
-- gets two active dispatches, the units of active dispatches exist and are not available, and
-- their incidents exist and are not waiting.
pub reserve-WellFormed :
    (id incident_id unit_id : ℕ) (db : Db)
    → WellFormed db
    → WellFormed (after db (reserve id incident_id unit_id db))
reserve-WellFormed id incident_id unit_id db w =
    after-keeps WellFormed (reserve id incident_id unit_id) db w (λ d db' h.
      let (r, _, e) = reserve-Reservation id incident_id unit_id db d db' h in
      rw e (reserved_db-WellFormed id incident_id unit_id db w r))

-- AdvanceStatus to any status keeps the database well formed in the same sense as Reserve, whether
-- it commits or fails.
pub advance_status-WellFormed :
    (id : ℕ) (s : DispatchStatus) (db : Db)
    → WellFormed db
    → WellFormed (after db (advance_status id s db))
advance_status-WellFormed id s db w = after-keeps WellFormed (advance_status id s) db w (λ d db' h.
    let a = advance_status-Advance id s db d db' h in
    rw a.db_after (advanced_db-WellFormed id s a.cur db w a.found a.legal))

-- Reassign keeps the database well formed, for a reroute and for a preemption, whether it commits
-- or fails: ids are unique, no unit has two active dispatches, the unit of an active dispatch is
-- not available, and no incident with an active dispatch is waiting.
pub reassign-WellFormed :
    (id old_id new_incident new_unit : ℕ) (event : EventType) (db : Db)
    → WellFormed db
    → WellFormed (after db (reassign id old_id new_incident new_unit event db))
reassign-WellFormed id old_id new_incident new_unit event db w =
    after-keeps WellFormed (reassign id old_id new_incident new_unit event) db w (λ d db' h.
      let (r, _) = reassign-Replacement id old_id new_incident new_unit event db d db' h in
      rw r.db_after (replaced_db-WellFormed id old_id new_incident new_unit event db db' w r))

-- Nobody holds a unit that is available.
available-unheld :
    (unit_id : ℕ) (db : Db) (u : RescueUnit)
    → WellFormed db
    → find unit_id db.units ≡ some u
    → is_available u.status ≡ true
    → exists_in (λ (_, d). holds_unit unit_id d) db.dispatches ≡ false
available-unheld unit_id db u w found free =
    exists_in-none (λ (_, d). holds_unit unit_id d) db.dispatches w.ids
      (λ k d f. ground (arith, w.held k d f))

-- In a well-formed database an available unit, an open incident and a fresh id are all that Reserve
-- needs: the partial unique index and the references do not refuse it.
pub reserve_succeeds :
    (id incident_id unit_id : ℕ) (db : Db) (u : RescueUnit) (i : Incident)
    → WellFormed db
    → find unit_id db.units ≡ some u
    → is_available u.status ≡ true
    → find incident_id db.incidents ≡ some i
    → is_closed i.status ≡ false
    → find id db.dispatches ≡ none
    → reserve id incident_id unit_id db
      ≡ ok ((id, new_dispatch incident_id unit_id db.now), reserved_db id incident_id unit_id db)
unfolding reserve
reserve_succeeds id incident_id unit_id db u i w fu free fi opened fresh = ground (
  arith,
  available-unheld unit_id db u w fu free,
  find-update_self unit_id (set_status UnitStatus.reserved db.now) db.units u,
)

-- A unit that is not available is refused by Reserve, whatever else holds.
pub reserve_taken :
    (id incident_id unit_id : ℕ) (db : Db) (u : RescueUnit)
    → find unit_id db.units ≡ some u
    → is_available u.status ≡ false
    → reserve id incident_id unit_id db ≡ err unit_not_available
unfolding reserve
reserve_taken id incident_id unit_id db u found taken = ground arith
