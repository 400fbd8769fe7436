-- ===== src/Registers.antt =====
-- The reads that page through a table: List of internal/unit, incident, shelter and transport, Nearby
-- of incident, ListByIncident of dispatch and ListBookings of transport. What a text column sorts by
-- is the database's collation, here a number for every text.
pub mod Pages
use Prim.Native.String.{String}
use text.Mathlib.Text.{◌==◌ as str_eq}
use crisis_link.Common.{
  ℕ, ◌-◌, Bool, true, ◌||◌, ◌&&◌, ◌==◌, Option, not, is_some, leb, keep, take, ltb, if◌then◌else◌,
}
use crisis_link.Common.Int.{ℤ, pos, leb_ℤ, ltb_ℤ, pos_part}
use crisis_link.Common.Sort.{sort_by}
use crisis_link.Table.{Table}
use crisis_link.Store.Rows.{
  RescueUnit, UnitStatus, UnitType, Incident, Shelter, ShelterStatus, Transport, TransportStatus,
  VehicleKind, Dispatch, Booking,
}
use crisis_link.Store.Tx.{
  Tx, gets, guard, ◌>>◌, invalid_unit_status, invalid_unit_type, invalid_shelter_status,
  invalid_transport_status, invalid_kind, invalid_radius,
}
use crisis_link.Geo.{validate_lat_lng}
use crisis_link.Units.{unit_status_of, unit_type_of}
use crisis_link.Shelters.{shelter_status_of}
use crisis_link.Transports.{kind_of}
use crisis_link.Victims.Register.{drop}

-- LIMIT … OFFSET … of the rows that pass a test, in the order of a key.
abbrev pub page_of {ℓ} :
    {A : Type ℓ} → (ℕ × A → ℕ) → (ℕ × A → Bool) → (limit offset : ℕ) → Table A → Table A
page_of key p limit offset t = take limit (drop offset (sort_by key (keep p t)))

abbrev pub unit_status_text : UnitStatus → String
unit_status_text UnitStatus.available = "available"
unit_status_text UnitStatus.reserved = "reserved"
unit_status_text UnitStatus.en_route = "en_route"
unit_status_text UnitStatus.on_scene = "on_scene"
unit_status_text UnitStatus.out_of_service = "out_of_service"

abbrev pub unit_type_text : UnitType → String
unit_type_text UnitType.ambulance = "ambulance"
unit_type_text UnitType.fire = "fire"
unit_type_text UnitType.rescue = "rescue"
unit_type_text UnitType.police = "police"

abbrev pub shelter_status_text : ShelterStatus → String
shelter_status_text ShelterStatus.open_for_intake = "open"
shelter_status_text ShelterStatus.closed = "closed"

abbrev pub transport_status_text : TransportStatus → String
transport_status_text TransportStatus.available = "available"
transport_status_text TransportStatus.in_service = "in_service"
transport_status_text TransportStatus.out_of_service = "out_of_service"

abbrev pub kind_text : VehicleKind → String
kind_text VehicleKind.bus = "bus"
kind_text VehicleKind.boat = "boat"
kind_text VehicleKind.helicopter = "helicopter"
kind_text VehicleKind.truck = "truck"

-- The test `$1 = '' OR column = $1`.
abbrev pub matches : String → String → Bool
matches filter column = str_eq filter "" || str_eq column filter

-- `filter != "" && !valid[filter]`, turned round.
abbrev pub is_filter {ℓ} : {A : Type ℓ} → (String → Option A) → String → Bool
is_filter parse filter = str_eq filter "" || is_some (parse filter)

-- validStatuses of transport/service.go
abbrev pub is_transport_status : String → Bool
is_transport_status s = str_eq s "available" || (str_eq s "in_service" || str_eq s "out_of_service")

-- ListIncidentDispatches: no row is younger than the transaction's time.
unfoldable pub list_by_incident : ℕ → Tx (Table Dispatch)
list_by_incident incident_id = gets λ db.
    sort_by (λ (_, d). db.now - d.created_at)
      (keep (λ (_, d). d.incident_id == incident_id) db.dispatches)

unfoldable pub list_bookings : ℕ → ℕ → Tx (Table Booking)
list_bookings incident_id limit = gets λ db. take limit (
    sort_by (λ (_, b). db.now - b.created_at)
      (keep (λ (_, b). b.incident_id == incident_id) db.bookings))

unfoldable pub list_incidents : (limit offset : ℕ) → Tx (Table Incident)
list_incidents limit offset =
    gets λ db. page_of (λ (_, i). db.now - i.created_at) (λ (_, i). true) limit offset db.incidents

module _ (collate : String → ℕ) where
  unfoldable pub list_units :
      (status unit_type : String) → (limit offset : ℕ) → Tx (Table RescueUnit)
  unfolding unit_status_of unit_type_of
  list_units status unit_type limit offset =
      guard (is_filter unit_status_of status) invalid_unit_status
      >> guard (is_filter unit_type_of unit_type) invalid_unit_type
      >> gets λ db.
        page_of (λ (_, u). collate u.call_sign)
          (λ (_, u).
            matches status (unit_status_text u.status) && matches unit_type (unit_type_text u.type))
          limit offset db.units

  unfoldable pub list_shelters : String → (limit offset : ℕ) → Tx (Table Shelter)
  unfolding shelter_status_of
  list_shelters status limit offset =
      guard (is_filter shelter_status_of status) invalid_shelter_status
      >> gets λ db.
        page_of (λ (_, s). collate s.name) (λ (_, s). matches status (shelter_status_text s.status))
          limit offset db.shelters

  unfoldable pub list_transports :
      (status kind : String) → (limit offset : ℕ) → Tx (Table Transport)
  unfolding kind_of
  list_transports status kind limit offset =
      guard (str_eq status "" || is_transport_status status) invalid_transport_status
      >> guard (is_filter kind_of kind) invalid_kind
      >> gets λ db.
        page_of (λ (_, t). collate t.call_sign)
          (λ (_, t).
            matches status (transport_status_text t.status) && matches kind (kind_text t.kind))
          limit offset db.transports

-- IncidentService.Nearby over FindWithinRadius, in whole metres; the handler's limit is 100.
unfoldable pub nearby_incidents : (ℤ → ℤ → ℤ → ℤ → ℕ) → ℤ → ℤ → ℤ → ℕ → Tx (Table Incident)
unfolding validate_lat_lng
nearby_incidents distance lat lng radius limit =
    validate_lat_lng lat lng
    >> guard (not (leb_ℤ radius (pos 0) || ltb_ℤ (pos 100000) radius)) invalid_radius
    >> gets λ db. take (if limit == 0 || ltb 500 limit then 100 else limit) (
        sort_by (λ (_, i). distance lat lng i.latitude i.longitude)
          (keep (λ (_, i). leb (distance lat lng i.latitude i.longitude) (pos_part radius))
            db.incidents))
