-- ===== src/Api/Reads.antt =====
-- The reads behind the routes write nothing.
use Prim.Native.String.{String}
use crisis_link.Common.{ℕ, Option, List, inl, inr, arith, Option-cases}
use crisis_link.Common.Int.{ℤ}
use crisis_link.Table.{find}
use crisis_link.Store.Tx.{unit_not_found, incident_not_found, transport_not_found, victim_not_found}
use crisis_link.Geo.{validate_lat_lng}
use crisis_link.Units.{get_unit}
use crisis_link.Incidents.{get_incident}
use crisis_link.Transports.{get_transport, find_nearest}
use crisis_link.Shelters.{find_nearest_open}
use crisis_link.Victims.Register.{get_victim, list_victims, nearest_shelters}
use crisis_link.Dispatches.Service.{NearbyUnit, preemptable_for}
use crisis_link.Dispatches.Reassignment.{find_preemptable}
use crisis_link.Http.Dispatching.{get_dispatch}
use crisis_link.Registers.{
  list_units, list_shelters, list_transports, list_incidents, list_by_incident, list_bookings,
  nearby_incidents,
}
use crisis_link.Api.Frame.{Reads, gets-Reads, fetch-Reads}

pub get_unit-Reads : (id : ℕ) → Reads (get_unit id)
unfolding get_unit
get_unit-Reads id = fetch-Reads unit_not_found (λ db. find id db.units)

pub get_incident-Reads : (id : ℕ) → Reads (get_incident id)
unfolding get_incident
get_incident-Reads id = fetch-Reads incident_not_found (λ db. find id db.incidents)

pub get_transport-Reads : (id : ℕ) → Reads (get_transport id)
unfolding get_transport
get_transport-Reads id = fetch-Reads transport_not_found (λ db. find id db.transports)

pub get_victim-Reads : (id : ℕ) → Reads (get_victim id)
unfolding get_victim
get_victim-Reads id = fetch-Reads victim_not_found (λ db. find id db.victims)

pub get_dispatch-Reads : (id : ℕ) → Reads (get_dispatch id)
unfolding get_dispatch
get_dispatch-Reads id db d db' h = elim (Option-cases (find id db.dispatches)) [
  | inl e ↦ ground arith
  | inr (x, e) ↦ ground arith
]

pub list_by_incident-Reads : (id : ℕ) → Reads (list_by_incident id)
unfolding list_by_incident
list_by_incident-Reads id = gets-Reads _

pub list_bookings-Reads : (id limit : ℕ) → Reads (list_bookings id limit)
unfolding list_bookings
list_bookings-Reads id limit = gets-Reads _

pub list_incidents-Reads : (limit offset : ℕ) → Reads (list_incidents limit offset)
unfolding list_incidents
list_incidents-Reads limit offset = gets-Reads _

pub list_victims-Reads :
    (status : String) (scope : Option ℕ) (limit offset : ℕ)
    → Reads (list_victims status scope limit offset)
unfolding list_victims
list_victims-Reads status scope limit offset = gets-Reads _

module _ (collate : String → ℕ) (limit offset : ℕ) where
  pub list_units-Reads : (s t : String) → Reads (list_units collate s t limit offset)
  unfolding list_units
  list_units-Reads s t db a db' h = ground arith

  pub list_shelters-Reads : (s : String) → Reads (list_shelters collate s limit offset)
  unfolding list_shelters
  list_shelters-Reads s db a db' h = ground arith

  pub list_transports-Reads : (s t : String) → Reads (list_transports collate s t limit offset)
  unfolding list_transports
  list_transports-Reads s t db a db' h = ground arith

module _ (distance : ℤ → ℤ → ℤ → ℤ → ℕ) where
  pub nearby_incidents-Reads :
      (lat lng radius : ℤ) (limit : ℕ) → Reads (nearby_incidents distance lat lng radius limit)
  unfolding nearby_incidents validate_lat_lng
  nearby_incidents-Reads lat lng radius limit db a db' h = ground arith

  pub find_nearest-Reads :
      (lat lng seats limit : ℤ) → Reads (find_nearest distance lat lng seats limit)
  unfolding find_nearest validate_lat_lng
  find_nearest-Reads lat lng seats limit db a db' h = ground arith

  pub nearest_shelters-Reads : (id : ℕ) (limit : ℤ) → Reads (nearest_shelters distance id limit)
  unfolding nearest_shelters find_nearest_open get_victim
  nearest_shelters-Reads id limit db a db' h = elim (Option-cases (find id db.victims)) [
    | inl e ↦ ground arith
    | inr (x, e) ↦ ground arith
  ]

  pub preemptable_for-Reads :
      (nearby_live : ℤ → ℤ → ℕ → Option (List NearbyUnit)) (id : ℕ)
      → Reads (preemptable_for distance nearby_live id)
  unfolding preemptable_for find_preemptable get_incident
  preemptable_for-Reads nearby_live id db a db' h = elim (Option-cases (find id db.incidents)) [
    | inl e ↦ ground arith
    | inr (x, e) ↦ ground arith
  ]
