-- ===== src/System/Requests.antt =====
-- Every write of the API and of the relay as a request (the routes of internal/server/server.go), but
-- for an operator's override of a unit's status. What runs between the statements of one request,
-- where it holds no lock, is not interleaved here: it is a parameter of the operations themselves.
use Prim.Native.String.{String}
use crisis_link.Common.{ℕ, ◌+◌, Bool, Option, List, [], ◌∷◌}
use crisis_link.Common.Int.{ℤ}
use crisis_link.Store.Rows.{Db, OutboxEvent}
use crisis_link.Store.Tx.{after}
use crisis_link.Units.{CreateUnitInput, create_unit}
use crisis_link.Incidents.{CreateIncidentInput, create_incident, update_incident_status}
use crisis_link.Shelters.{CreateShelterInput, create_shelter, update_shelter_status}
use crisis_link.Victims.{CreateVictimInput, create_victim, assign}
use crisis_link.Transports.{CreateInput, create_transport, book, cancel_booking}
use crisis_link.Outbox.Publishing.{publish_batch}
use crisis_link.Dispatches.Service.{
  ReserveStrategy, service_reserve, service_advance_status, NearbyUnit, reroute, preempt,
}
use crisis_link.Dispatches.Equivalence.{quiet}

pub data Request : Type 0 where
  add_unit : ℕ → CreateUnitInput → Request
  report_incident : ℕ → CreateIncidentInput → Request
  set_incident : ℕ → String → Request
  reserve_unit : ReserveStrategy → (id incident_id unit_id : ℕ) → Request
  advance_dispatch : ℕ → String → Request
  reroute_dispatch : (id old_id : ℕ) → Request
  preempt_for : (id incident_id : ℕ) → Request
  add_shelter : ℕ → CreateShelterInput → Request
  set_shelter : ℕ → String → Request
  add_victim : ℕ → CreateVictimInput → Request
  admit_victim : (victim_id shelter_id : ℕ) → Request
  add_vehicle : ℕ → CreateInput → Request
  book_vehicle : (id transport_id incident_id : ℕ) → ℤ → Request
  release_booking : ℕ → Request
  relay_batch : (ℕ → Bool) → ℕ → Request
  wait : ℕ → Request

module _ (distance : ℤ → ℤ → ℤ → ℤ → ℕ) (nearby_live : ℤ → ℤ → ℕ → Option (List NearbyUnit))
    (publish : ℕ × OutboxEvent → Option (List ℕ)) where
  -- The database after a request, whether it was answered or refused.
  unfoldable pub handle : Request → Db → Db
  handle (add_unit id input) db = after db (create_unit id input db)
  handle (report_incident id input) db = after db (create_incident distance id input db)
  handle (set_incident id status) db = after db (update_incident_status (λ x. x) id status db)
  handle (reserve_unit strategy id incident_id unit_id) db =
      after db (service_reserve strategy quiet id incident_id unit_id db)
  handle (advance_dispatch id status) db = after db (service_advance_status id status db)
  handle (reroute_dispatch id old_id) db = after db (reroute distance nearby_live id old_id db)
  handle (preempt_for id incident_id) db = after db (preempt distance nearby_live id incident_id db)
  handle (add_shelter id input) db = after db (create_shelter id input db)
  handle (set_shelter id status) db = after db (update_shelter_status id status db)
  handle (add_victim id input) db = after db (create_victim id input db)
  handle (admit_victim victim_id shelter_id) db = after db (assign victim_id shelter_id db)
  handle (add_vehicle id input) db = after db (create_transport id input db)
  handle (book_vehicle id transport_id incident_id seats) db =
      after db (book id transport_id incident_id seats db)
  handle (release_booking id) db = after db (cancel_booking id db)
  handle (relay_batch locked limit) db = after db (publish_batch publish locked limit db)
  handle (wait seconds) db = record db { now = db.now + seconds }

  unfoldable pub serve : List Request → Db → Db
  serve [] db = db
  serve (r ∷ rs) db = serve rs (handle r db)
