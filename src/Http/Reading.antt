-- ===== src/Http/Reading.antt =====
-- The handlers that only read a page or a row (unit/handler.go, incident/handler.go,
-- transport/handler.go, shelter/handler.go and dispatch/handler.go).
use Prim.Native.String.{String}
use crisis_link.Common.{ℕ, Option, none, some}
use crisis_link.Common.Int.{ℤ, pos}
use crisis_link.Table.{Table}
use crisis_link.Store.Rows.{RescueUnit, Incident, Shelter, Transport, Dispatch, Booking}
use crisis_link.Store.Tx.{
  Error, unit_not_found, invalid_unit_type, invalid_unit_status, invalid_shelter_status,
  invalid_transport_status, invalid_kind, invalid_coordinates, invalid_radius, invalid_seats,
  incident_not_found, transport_not_found,
}
use crisis_link.Units.{get_unit}
use crisis_link.Incidents.{get_incident}
use crisis_link.Transports.{get_transport, find_nearest}
use crisis_link.Registers.{
  list_units, list_shelters, list_transports, list_incidents, list_by_incident, list_bookings,
  nearby_incidents,
}
use crisis_link.Http.{Reply, Handler, bad_request, missing, internal, answer, clamp_int}
use crisis_link.Http.Registers.{any_reply}

abbrev pub list_reply {ℓ} : {A : Type ℓ} → Error → Reply A
list_reply invalid_unit_status = bad_request
list_reply invalid_unit_type = bad_request
list_reply invalid_shelter_status = bad_request
list_reply invalid_transport_status = bad_request
list_reply invalid_kind = bad_request
list_reply e = internal

abbrev pub get_unit_reply {ℓ} : {A : Type ℓ} → Error → Reply A
get_unit_reply unit_not_found = missing
get_unit_reply e = internal

abbrev pub get_incident_reply {ℓ} : {A : Type ℓ} → Error → Reply A
get_incident_reply incident_not_found = missing
get_incident_reply e = internal

abbrev pub get_transport_reply {ℓ} : {A : Type ℓ} → Error → Reply A
get_transport_reply transport_not_found = missing
get_transport_reply e = internal

abbrev pub nearby_reply {ℓ} : {A : Type ℓ} → Error → Reply A
nearby_reply invalid_coordinates = bad_request
nearby_reply invalid_radius = bad_request
nearby_reply e = internal

abbrev pub nearest_reply {ℓ} : {A : Type ℓ} → Error → Reply A
nearest_reply invalid_coordinates = bad_request
nearest_reply invalid_seats = bad_request
nearest_reply e = internal

-- GET /units/:id, GET /incidents/:id and GET /transports/:id
unfoldable pub read_unit : ℕ → Handler RescueUnit
unfolding get_unit
read_unit id = answer 200 get_unit_reply (get_unit id)

unfoldable pub read_incident : ℕ → Handler Incident
unfolding get_incident
read_incident id = answer 200 get_incident_reply (get_incident id)

unfoldable pub read_transport : ℕ → Handler Transport
unfolding get_transport
read_transport id = answer 200 get_transport_reply (get_transport id)

-- GET /incidents/:id/dispatches
unfoldable pub read_dispatches : ℕ → Handler (Table Dispatch)
unfolding list_by_incident
read_dispatches incident_id = answer 200 any_reply (list_by_incident incident_id)

-- GET /incidents/:id/transport-bookings
unfoldable pub read_bookings : ℕ → Option ℤ → Handler (Table Booking)
unfolding list_bookings
read_bookings incident_id limit =
    answer 200 any_reply (list_bookings incident_id (clamp_int limit 20 1 100))

-- GET /incidents
unfoldable pub read_incidents : (limit offset : Option ℤ) → Handler (Table Incident)
unfolding list_incidents
read_incidents limit offset =
    answer 200 any_reply (list_incidents (clamp_int limit 20 1 100) (clamp_int offset 0 0 1000000))

module _ (collate : String → ℕ) where
  -- GET /units
  unfoldable pub read_units :
      (status unit_type : String) → (limit offset : Option ℤ) → Handler (Table RescueUnit)
  unfolding list_units
  read_units status unit_type limit offset = answer 200 list_reply (
      list_units collate status unit_type (clamp_int limit 50 1 200) (clamp_int offset 0 0 1000000))

  -- GET /shelters
  unfoldable pub read_shelters : String → (limit offset : Option ℤ) → Handler (Table Shelter)
  unfolding list_shelters
  read_shelters status limit offset =
      answer 200 list_reply
        (list_shelters collate status (clamp_int limit 50 1 200) (clamp_int offset 0 0 1000000))

  -- GET /transports
  unfoldable pub read_transports :
      (status kind : String) → (limit offset : Option ℤ) → Handler (Table Transport)
  unfolding list_transports
  read_transports status kind limit offset =
      answer 200 list_reply (
        list_transports collate status kind (clamp_int limit 20 1 100)
          (clamp_int offset 0 0 100000))

abbrev pub radius_or : Option ℤ → ℤ
radius_or none = pos 5000
radius_or (some r) = r

module _ (distance : ℤ → ℤ → ℤ → ℤ → ℕ) where
  -- A point in a query, where `none` is a text that is empty or no number.
  abbrev pub located_by {ℓ} : {A : Type ℓ} → Option ℤ → Option ℤ → (ℤ → ℤ → Handler A) → Handler A
  located_by (some lat) (some lng) h db = h lat lng db
  located_by _ _ h db = (bad_request, db)

  -- GET /incidents/nearby
  unfoldable pub read_nearby : (lat lng radius : Option ℤ) → Handler (Table Incident)
  unfolding nearby_incidents
  read_nearby lat lng radius =
      located_by lat lng
        λ x y. answer 200 nearby_reply (nearby_incidents distance x y (radius_or radius) 100)

  -- GET /transports/nearest
  unfoldable pub read_nearest :
      (lat lng : Option ℤ) → (seats limit : Option ℤ) → Handler (Table Transport)
  unfolding find_nearest
  read_nearest lat lng seats limit = located_by lat lng λ x y.
      answer 200 nearest_reply
        (find_nearest distance x y (pos (clamp_int seats 1 1 500)) (pos (clamp_int limit 5 1 50)))
