-- ===== src/Tests/Sample.antt =====
-- One small database for every component: an ambulance that is free, a fire engine on its way, a
-- free rescue team; a new critical incident and a served minor one; a shelter and a bus with people.
use Prim.Native.String.{String}
use crisis_link.Common.{ℕ, refl, Option, none, some, [], ◌∷◌, arith}
use crisis_link.Common.Int.{pos}
use crisis_link.Store.Rows.{
  Db, RescueUnit, UnitType, UnitStatus, Incident, IncidentStatus, Severity, Dispatch,
  DispatchStatus, Shelter, ShelterStatus, Victim, VictimStatus, Transport, TransportStatus,
  VehicleKind, Booking, BookingStatus,
}
use crisis_link.Dispatches.Preservation.{WellFormed}
use crisis_link.Dispatches.Mirror.{IsMirrored}
use crisis_link.Victims.Capacity.{Capacity}
use crisis_link.Transports.Seats.{Seating}

abbrev unit_row : String → UnitType → UnitStatus → ℕ → RescueUnit
unit_row name type status version = record {
  call_sign = name;
  type = type;
  status = status;
  latitude = pos 12000000;
  longitude = pos 77000000;
  version = version;
  created_at = 1;
  updated_at = 1;
}

abbrev pub ambulance_1 : RescueUnit
ambulance_1 = unit_row "A-1" UnitType.ambulance UnitStatus.available 1

abbrev pub engine_2 : RescueUnit
engine_2 = unit_row "F-2" UnitType.fire UnitStatus.en_route 3

abbrev incident_row : Severity → IncidentStatus → Incident
incident_row severity status = record {
  reporter_id = 7;
  title = "Flood";
  description = "";
  severity = severity;
  status = status;
  report_count = 1;
  latitude = pos 12500000;
  longitude = pos 77500000;
  created_at = 1;
  updated_at = 1;
}

abbrev pub flood_10 : Incident
flood_10 = incident_row Severity.critical IncidentStatus.reported

abbrev pub flood_11 : Incident
flood_11 = incident_row Severity.low IncidentStatus.dispatched

abbrev pub dispatch_20 : Dispatch
dispatch_20 = record {
  incident_id = 11;
  unit_id = 2;
  status = DispatchStatus.en_route;
  created_at = 5;
  updated_at = 6;
}

abbrev shelter_30 : Shelter
shelter_30 = record {
  name = "School";
  capacity = 2;
  occupancy = 1;
  status = ShelterStatus.open_for_intake;
  latitude = pos 12500000;
  longitude = pos 77500000;
  created_at = 1;
  updated_at = 1;
}

abbrev pub victim_row : VictimStatus → Option ℕ → Victim
victim_row status shelter_id = record {
  name = "N";
  status = status;
  notes = "";
  shelter_id = shelter_id;
  latitude = pos 12500000;
  longitude = pos 77500000;
  created_at = 1;
  updated_at = 1;
}

abbrev pub bus_50 : Transport
bus_50 = record {
  call_sign = "B-1";
  kind = VehicleKind.bus;
  capacity = 4;
  seats_taken = 2;
  status = TransportStatus.available;
  latitude = pos 12500000;
  longitude = pos 77500000;
  version = 2;
  created_at = 1;
  updated_at = 1;
}

abbrev pub booking_60 : Booking
booking_60 = record {
  transport_id = 50;
  incident_id = 11;
  seats = 2;
  status = BookingStatus.booked;
  created_at = 3;
  updated_at = 3;
}

abbrev pub sample : Db
sample = record {
  units =
      (1, ambulance_1)
      ∷ (2, engine_2)
      ∷ (3, unit_row "R-3" UnitType.rescue UnitStatus.available 1)
      ∷ [];
  incidents = (10, flood_10) ∷ (11, flood_11) ∷ [];
  dispatches = (20, dispatch_20) ∷ [];
  shelters = (30, shelter_30) ∷ [];
  victims =
      (40, victim_row VictimStatus.registered none)
      ∷ (41, victim_row VictimStatus.sheltered (some 30))
      ∷ [];
  transports = (50, bus_50) ∷ [];
  bookings = (60, booking_60) ∷ [];
  outbox = [];
  next_event = 1;
  now = 1000;
}

pub sample-WellFormed : WellFormed sample
sample-WellFormed = record {
  ids = (refl, tt);
  one_active = λ i j d e fi fj ai aj same. ground arith;
  held = λ i d f a. ground arith;
  attended = λ i d f a. ground arith;
}

pub sample-IsMirrored : IsMirrored sample
sample-IsMirrored i d f a = ground arith

pub sample-Capacity : Capacity sample
sample-Capacity = record {
  people = (refl, (refl, tt));
  counted = λ id. ground arith;
  within = λ id s f. ground arith;
}

pub sample-Seating : Seating sample
sample-Seating = record {
  ids = (refl, tt);
  counted = λ id. ground arith;
  within = λ id t f. ground arith;
}
