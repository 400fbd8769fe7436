-- ===== src/Store/Rows.antt =====
-- The rows of the tables (the model.go files, and platform/database/migrations). An id is a UUID
-- that the code only compares: a number here, which is the row's key in its table. Times are
-- seconds, coordinates are millionths of a degree.
use Prim.Native.String.{String}
use crisis_link.Common.{ℕ, Bool, Option, List}
use crisis_link.Common.Int.{ℤ}
use crisis_link.Table.{Table}

-- internal/unit/model.go
pub data UnitType : Type 0 where
  ambulance fire rescue police : UnitType

pub data UnitStatus : Type 0 where
  available reserved en_route on_scene out_of_service : UnitStatus

pub record RescueUnit : Type 0 where
  pub call_sign : String
  pub type : UnitType
  pub status : UnitStatus
  pub latitude : ℤ
  pub longitude : ℤ
  pub version : ℕ
  pub created_at : ℕ
  pub updated_at : ℕ

-- internal/incident/model.go
pub data Severity : Type 0 where
  low medium high critical : Severity

pub data IncidentStatus : Type 0 where
  reported verified dispatched resolved cancelled : IncidentStatus

pub record Incident : Type 0 where
  pub reporter_id : ℕ
  pub title : String
  pub description : String
  pub severity : Severity
  pub status : IncidentStatus
  pub report_count : ℕ
  pub latitude : ℤ
  pub longitude : ℤ
  pub created_at : ℕ
  pub updated_at : ℕ

-- internal/dispatch/model.go
pub data DispatchStatus : Type 0 where
  reserved en_route on_scene completed cancelled : DispatchStatus

pub record Dispatch : Type 0 where
  pub incident_id : ℕ
  pub unit_id : ℕ
  pub status : DispatchStatus
  pub created_at : ℕ
  pub updated_at : ℕ

-- internal/shelter/model.go
pub data ShelterStatus : Type 0 where
  open_for_intake closed : ShelterStatus

pub record Shelter : Type 0 where
  pub name : String
  pub capacity : ℕ
  pub occupancy : ℕ
  pub status : ShelterStatus
  pub latitude : ℤ
  pub longitude : ℤ
  pub created_at : ℕ
  pub updated_at : ℕ

-- internal/victim/model.go
pub data VictimStatus : Type 0 where
  registered sheltered discharged : VictimStatus

pub record Victim : Type 0 where
  pub name : String
  pub status : VictimStatus
  pub notes : String
  pub shelter_id : Option ℕ
  pub latitude : ℤ
  pub longitude : ℤ
  pub created_at : ℕ
  pub updated_at : ℕ

-- internal/transport/model.go
pub data VehicleKind : Type 0 where
  bus boat helicopter truck : VehicleKind

pub data TransportStatus : Type 0 where
  available in_service out_of_service : TransportStatus

pub record Transport : Type 0 where
  pub call_sign : String
  pub kind : VehicleKind
  pub capacity : ℕ
  pub seats_taken : ℕ
  pub status : TransportStatus
  pub latitude : ℤ
  pub longitude : ℤ
  pub version : ℕ
  pub created_at : ℕ
  pub updated_at : ℕ

pub data BookingStatus : Type 0 where
  booked completed cancelled : BookingStatus

pub record Booking : Type 0 where
  pub transport_id : ℕ
  pub incident_id : ℕ
  pub seats : ℕ
  pub status : BookingStatus
  pub created_at : ℕ
  pub updated_at : ℕ

-- internal/outbox/model.go
pub data AggregateType : Type 0 where
  dispatch victim transport : AggregateType

pub data EventType : Type 0 where
  dispatch_created dispatch_completed victim_assigned transport_booked transport_released :
      EventType
  dispatch_rerouted dispatch_preempted : EventType

-- The maps that the callers of WriteTx marshal.
pub data Payload : Type 0 where
  created : (dispatch_id incident_id unit_id : ℕ) → Payload
  finished : (dispatch_id incident_id unit_id : ℕ) (incident_resolved : Bool) → Payload
  replaced :
      (dispatch_id incident_id unit_id replaced_dispatch previous_incident previous_unit : ℕ)
      → Payload
  assigned : (victim_id shelter_id shelter_occupancy : ℕ) → Payload
  seats_booked : (booking_id transport_id incident_id seats seats_taken : ℕ) → Payload
  seats_released : (booking_id transport_id seats seats_taken : ℕ) → Payload

-- `last_error` is a text by its bytes.
pub record OutboxEvent : Type 0 where
  pub aggregate_type : AggregateType
  pub aggregate_id : ℕ
  pub event_type : EventType
  pub payload : Payload
  pub created_at : ℕ
  pub published_at : Option ℕ
  pub attempts : ℕ
  pub last_error : Option (List ℕ)
  pub next_attempt_at : ℕ
  pub dead_at : Option ℕ

-- The tables, the sequence of the outbox ids, and the time of the transaction.
pub record Db : Type 0 where
  pub units : Table RescueUnit
  pub incidents : Table Incident
  pub dispatches : Table Dispatch
  pub shelters : Table Shelter
  pub victims : Table Victim
  pub transports : Table Transport
  pub bookings : Table Booking
  pub outbox : Table OutboxEvent
  pub next_event : ℕ
  pub now : ℕ
