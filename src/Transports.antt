-- ===== src/Transports.antt =====
-- internal/transport: evacuation vehicles, and the seats booked on them.
pub mod Seats
pub mod Cancellation
use Prim.Native.String.{String}
use text.Mathlib.Text.{◌==◌ as str_eq}
use crisis_link.Common.{
  ℕ, ◌+◌, ◌-◌, Bool, true, false, not, ◌&&◌, ◌||◌, Option, none, some, ◌∷◌, leb, if◌then◌else◌,
  exists_in, keep, take, is_some,
}
use crisis_link.Common.Int.{ℤ, pos, leb_ℤ, ltb_ℤ, pos_part}
use crisis_link.Common.Sort.{sort_by}
use crisis_link.Table.{Table, find, update, update_where, affects}
use crisis_link.Store.Rows.{
  Db, Transport, TransportStatus, VehicleKind, Booking, BookingStatus, AggregateType, EventType,
  Payload,
}
use crisis_link.Store.Tx.{
  Tx, Error, ok, err, pure, raise, gets, modify, guard, row_or, duplicate_as, ◌>>=◌, ◌>>◌, no_rows,
  transport_not_found, transport_unavailable, insufficient_seats, booking_not_found,
  booking_not_active, transport_incident_not_found, invalid_kind, invalid_seats,
  invalid_transport_capacity, duplicate_transport_call_sign, unique_violation,
}
use crisis_link.Geo.{validate_lat_lng}
use crisis_link.Outbox.{write_tx}

abbrev pub is_available_transport : TransportStatus → Bool
is_available_transport TransportStatus.available = true
is_available_transport _ = false

-- The guard of BookSeats, and the filter of FindNearestAvailable.
abbrev pub can_seat : ℕ → Transport → Bool
can_seat seats t = is_available_transport t.status && leb (t.seats_taken + seats) t.capacity

abbrev pub seat : ℕ → ℕ → Transport → Transport
seat seats now t = record t {
  seats_taken = t.seats_taken + seats;
  version = t.version + 1;
  updated_at = now;
}

-- GREATEST(seats_taken - n, 0): the subtraction on ℕ stops at 0.
abbrev pub unseat : ℕ → ℕ → Transport → Transport
unseat seats now t = record t {
  seats_taken = t.seats_taken - seats;
  version = t.version + 1;
  updated_at = now;
}

-- The re-read after zero rows.
abbrev pub seat_refusal : Option Transport → Error
seat_refusal none = transport_not_found
seat_refusal (some t) =
    if is_available_transport t.status then insufficient_seats else transport_unavailable

-- Step 2 of BookSeats
unfoldable pub claim_seats : ℕ → ℕ → Tx (Unit {0})
claim_seats id seats db =
    if affects id (can_seat seats) db.transports
    then ok (
      tt,
      record db { transports = update_where id (can_seat seats) (seat seats db.now) db.transports },
    )
    else err (seat_refusal (find id db.transports))

abbrev pub new_booking : ℕ → ℕ → ℕ → ℕ → Booking
new_booking transport_id incident_id seats now = record {
  transport_id = transport_id;
  incident_id = incident_id;
  seats = seats;
  status = BookingStatus.booked;
  created_at = now;
  updated_at = now;
}

-- INSERT INTO transport_bookings: the fresh id is an argument; BookSeats has found both rows that the
-- new one refers to.
unfoldable pub insert_booking : ℕ → ℕ → ℕ → ℕ → Tx Booking
insert_booking id transport_id incident_id seats db =
    let row : Booking = new_booking transport_id incident_id seats db.now in
    if is_some (find id db.bookings)
    then err unique_violation
    else ok (row, record db { bookings = (id, row) ∷ db.bookings })

-- TransportRepository.BookSeats
unfoldable pub book_seats : ℕ → ℕ → ℕ → ℕ → Tx ((ℕ × Booking) × (ℕ × Transport))
unfolding write_tx
book_seats id transport_id incident_id seats = do
  incident ← gets (λ db. find incident_id db.incidents)
  guard (is_some incident) transport_incident_not_found
  claim_seats transport_id seats
  b ← insert_booking id transport_id incident_id seats
  t ← row_or no_rows (← gets (λ db. find transport_id db.transports))
  write_tx AggregateType.transport id EventType.transport_booked
      (Payload.seats_booked id b.transport_id b.incident_id b.seats t.seats_taken)
  pure ((id, b), (transport_id, t))

abbrev pub is_booked : BookingStatus → Bool
is_booked BookingStatus.booked = true
is_booked _ = false

abbrev pub cancel : ℕ → Booking → Booking
cancel now b = record b { status = BookingStatus.cancelled; updated_at = now }

-- The first statement of CancelBooking, with the test that tells its two failures apart.
abbrev pub cancellable : Option Booking → Tx Booking
cancellable none = raise booking_not_found
cancellable (some b) = if is_booked b.status then pure b else raise booking_not_active

-- TransportRepository.CancelBooking
unfoldable pub cancel_booking : ℕ → Tx ((ℕ × Booking) × (ℕ × Transport))
unfolding write_tx
cancel_booking id = do
  b ← cancellable (← gets (λ db. find id db.bookings))
  modify λ db. record db {
    bookings = update_where id (λ r. is_booked r.status) (cancel db.now) db.bookings;
  }
  modify
      λ db. record db { transports = update b.transport_id (unseat b.seats db.now) db.transports }
  t ← row_or no_rows (← gets (λ db. find b.transport_id db.transports))
  write_tx AggregateType.transport id EventType.transport_released
      (Payload.seats_released id b.transport_id b.seats t.seats_taken)
  now ← gets (λ db. db.now)
  pure ((id, cancel now b), (b.transport_id, t))

-- TransportService.Book, whose seats are a Go int.
unfoldable pub book : ℕ → ℕ → ℕ → ℤ → Tx ((ℕ × Booking) × (ℕ × Transport))
book id transport_id incident_id seats =
    if leb_ℤ seats (pos 0)
    then raise invalid_seats
    else book_seats id transport_id incident_id (pos_part seats)

unfoldable pub kind_of : String → Option VehicleKind
kind_of s =
    if str_eq s "bus"
    then some VehicleKind.bus
    else if str_eq s "boat"
    then some VehicleKind.boat
    else if str_eq s "helicopter"
    then some VehicleKind.helicopter
    else if str_eq s "truck"
    then some VehicleKind.truck
    else none

pub record CreateInput : Type 0 where
  pub call_sign : String
  pub kind : String
  pub capacity : ℤ
  pub latitude : ℤ
  pub longitude : ℤ

-- INSERT INTO transports: the fresh id is an argument; call_sign is UNIQUE.
unfoldable pub insert_transport : ℕ → String → VehicleKind → ℕ → ℤ → ℤ → Tx (ℕ × Transport)
insert_transport id call_sign kind capacity lat lng db =
    let row : Transport = record {
      call_sign = call_sign;
      kind = kind;
      capacity = capacity;
      seats_taken = 0;
      status = TransportStatus.available;
      latitude = lat;
      longitude = lng;
      version = 1;
      created_at = db.now;
      updated_at = db.now;
    } in
    if is_some (find id db.transports)
      || exists_in (λ (_, t). str_eq t.call_sign call_sign) db.transports
    then err unique_violation
    else ok ((id, row), record db { transports = (id, row) ∷ db.transports })

-- TransportService.Create
unfoldable pub create_transport : ℕ → CreateInput → Tx (ℕ × Transport)
unfolding insert_transport
create_transport id input = do
  kind ← row_or invalid_kind (kind_of input.kind)
  guard (not (leb_ℤ input.capacity (pos 0))) invalid_transport_capacity
  validate_lat_lng input.latitude input.longitude
  duplicate_as duplicate_transport_call_sign (
      insert_transport id input.call_sign kind (pos_part input.capacity) input.latitude
        input.longitude)

unfoldable pub get_transport : ℕ → Tx Transport
get_transport id = do t ← gets (λ db. find id db.transports); row_or transport_not_found t

-- A limit of 0 or less, or above 50, is 5.
abbrev pub page_limit : ℤ → ℕ
page_limit limit = if leb_ℤ limit (pos 0) || ltb_ℤ (pos 50) limit then 5 else pos_part limit

-- The distance in metres is PostGIS's.
module _ (distance : ℤ → ℤ → ℤ → ℤ → ℕ) where
  abbrev nearest_that_seat : ℤ → ℤ → ℕ → ℕ → Tx (Table Transport)
  nearest_that_seat lat lng seats limit = gets λ db. take limit (
      sort_by (λ (_, t). distance lat lng t.latitude t.longitude)
        (keep (λ (_, t). can_seat seats t) db.transports))

  -- TransportService.FindNearest over TransportRepository.FindNearestAvailable
  unfoldable pub find_nearest : ℤ → ℤ → ℤ → ℤ → Tx (Table Transport)
  find_nearest lat lng seats limit = do
    guard (not (leb_ℤ seats (pos 0))) invalid_seats
    validate_lat_lng lat lng
    nearest_that_seat lat lng (pos_part seats) (page_limit limit)
