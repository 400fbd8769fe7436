-- ===== src/Dispatches/Overwrite.antt =====
-- UpdateStatus of an incident reads and writes in two statements (IncidentService.UpdateStatus in
-- internal/incident/service.go): a reservation that commits in between.
use crisis_link.Common.{ℕ, ◌≡◌, refl, subst, true, some, arith, if◌then◌else◌}
use crisis_link.Table.{find, update}
use crisis_link.Table.Laws.{find-update_self}
use crisis_link.Store.Rows.{Db, Incident, IncidentStatus, Dispatch}
use crisis_link.Store.Tx.{ok, after}
use crisis_link.Incidents.{
  update_incident_status, write_incident_status, get_incident, can_transition, incident_status_of,
  set_incident_status, is_undispatched,
}
use crisis_link.Dispatches.{new_dispatch, is_active_dispatch}
use crisis_link.Dispatches.Transactions.{reserve}
use crisis_link.Dispatches.Outcomes.{reserve-Reservation}
use crisis_link.Dispatches.Invariant.{Attended}
use crisis_link.Dispatches.Preservation.{WellFormed}
use crisis_link.Dispatches.Safety.{reserve-WellFormed}

-- From a well-formed database, if a unit is reserved for a reported incident between the read and
-- the write of an update of the incident to verified: the reservation leaves the database well
-- formed, the update succeeds, and after it the incident is verified, the dispatch that was
-- recorded for it is active as before, and so an incident with an active dispatch is waiting.
pub update_incident_status_race :
    (id incident_id unit_id : ℕ) (db between : Db) (d : ℕ × Dispatch) (i : Incident)
    → WellFormed db
    → find incident_id db.incidents ≡ some i
    → i.status ≡ IncidentStatus.reported
    → reserve id incident_id unit_id db ≡ ok (d, between)
    → let updated = update_incident_status (λ x. between) incident_id "verified" db in
      let later = after db updated in
      WellFormed between
      × (j : Incident) × (updated ≡ ok (j, later))
      × (j.status ≡ IncidentStatus.verified)
      × (find incident_id later.incidents ≡ some j)
      × (find d.0 later.dispatches ≡ some d.1)
      × (d.1.incident_id ≡ incident_id)
      × (is_active_dispatch d.1.status ≡ true)
      × ¬ Attended later.incidents later.dispatches
unfolding update_incident_status write_incident_status get_incident can_transition
    incident_status_of
update_incident_status_race id incident_id unit_id db between d i w found reported h =
    let (r, recorded, e) = reserve-Reservation id incident_id unit_id db d between h in
    let promote : Incident → Incident = λ a.
      if is_undispatched a.status
      then set_incident_status IncidentStatus.dispatched db.now a
      else a in
    let first = find-update_self incident_id promote db.incidents i found in
    let second =
      find-update_self incident_id (set_incident_status IncidentStatus.verified db.now)
        (update incident_id promote db.incidents) (promote i) first in
    (
      subst (λ s. WellFormed (after db s)) h (reserve-WellFormed id incident_id unit_id db w),
      set_incident_status IncidentStatus.verified db.now (promote i),
      ground (arith, e, first, second, found, reported),
      refl,
      ground (arith, e, first, second, found, reported),
      ground (arith, e, first, second, found, reported, recorded),
      ground (arith, recorded),
      ground (arith, recorded),
      λ attended.
          ground (arith, e, first, second, attended id (new_dispatch incident_id unit_id db.now)),
    )
