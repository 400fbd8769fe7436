-- ===== src/Transports/Cancellation.antt =====
-- CancelBooking in internal/transport/repository.go, alone and after BookSeats.
use crisis_link.Common.{
  suc, ◌-◌, ◌∷◌, ℕ, ◌≡◌, inl, inr, true, some, arith, if◌then◌else◌, Option-cases, Bool-cases,
}
use crisis_link.Table.{find, update, update_where}
use crisis_link.Table.Laws.{update-Unique, find-update, find-update_self, sum_by-update}
use crisis_link.Store.Rows.{Db, Transport, Booking, AggregateType, EventType, Payload}
use crisis_link.Outbox.{new_event}
use crisis_link.Store.Tx.{ok, err, after, after-keeps, booking_not_active}
use crisis_link.Transports.{
  seat, unseat, is_booked, cancel, cancel_booking, book_seats, can_seat, new_booking,
}
use crisis_link.Transports.Seats.{Seating, seats_on, taken_of, book_seats-Booked}

-- The database after a cancellation, with the seats taken that its event tells.
abbrev pub cancelled_db : ℕ → Booking → ℕ → Db → Db
cancelled_db id b taken db = record db {
  transports = update b.transport_id (unseat b.seats db.now) db.transports;
  bookings = update_where id (λ r. is_booked r.status) (cancel db.now) db.bookings;
  outbox =
      (
        db.next_event,
        new_event AggregateType.transport id EventType.transport_released
            (Payload.seats_released id b.transport_id b.seats taken) db.now,
      )
      ∷ db.outbox;
  next_event = suc db.next_event;
}

pub record Cancelled (id : ℕ) (db db' : Db) : Type 0 where
  pub booking : Booking
  pub transport : Transport
  pub found : find id db.bookings ≡ some booking
  pub booked : is_booked booking.status ≡ true
  pub transport_found : find booking.transport_id db.transports ≡ some transport
  pub bookings_after :
      db'.bookings ≡ update_where id (λ r. is_booked r.status) (cancel db.now) db.bookings
  pub transports_after :
      db'.transports ≡ update booking.transport_id (unseat booking.seats db.now) db.transports
  pub db_after : db' ≡ cancelled_db id booking (transport.seats_taken - booking.seats) db

pub cancel_booking-Cancelled :
    (id : ℕ) (db : Db) (r : (ℕ × Booking) × (ℕ × Transport)) (db' : Db)
    → cancel_booking id db ≡ ok (r, db')
    → Cancelled id db db'
unfolding cancel_booking
cancel_booking-Cancelled id db r db' h = elim (Option-cases (find id db.bookings)) [
  | inl e ↦ ground arith
  | inr (b, eb) ↦ elim (Bool-cases (is_booked b.status)) [
    | inr ended ↦ ground arith
    | inl live ↦ elim (Option-cases (find b.transport_id db.transports)) [
      | inl e ↦
          ground
            (arith, find-update b.transport_id b.transport_id (unseat b.seats db.now) db.transports)
      | inr (t, et) ↦
          let facts = find-update_self b.transport_id (unseat b.seats db.now) db.transports t in
          record {
            booking = b;
            transport = t;
            found = eb;
            booked = live;
            transport_found = et;
            bookings_after = ground (arith, facts);
            transports_after = ground (arith, facts);
            db_after = ground (arith, facts);
          }
    ]
  ]
]

-- CancelBooking, whether it commits or fails, keeps the seats taken of every vehicle equal to the
-- sum of its live bookings and within its capacity, and the ids of bookings unique.
pub cancel_booking-Seating :
    (id : ℕ) (db : Db) → Seating db → Seating (after db (cancel_booking id db))
cancel_booking-Seating id db s = after-keeps Seating (cancel_booking id) db s (λ r db' h.
    let c = cancel_booking-Cancelled id db r db' h in
    let g : Booking → Booking = λ r. if is_booked r.status then cancel db.now r else r in
    record {
      ids = rw c.bookings_after (update-Unique id g db.bookings s.ids);
      counted = λ k.
          rw (c.bookings_after, c.transports_after)
            (ground (
              arith,
              s.counted k,
              sum_by-update (seats_on k) id g db.bookings c.booking s.ids c.found,
              find-update k c.booking.transport_id (unseat c.booking.seats db.now) db.transports,
            ));
      within = λ k t e. ground (
        arith,
        c.transports_after,
        s.within k t,
        s.within k c.transport,
        find-update k c.booking.transport_id (unseat c.booking.seats db.now) db.transports,
      );
    })

-- A booking whose cancellation has committed is refused as not active when it is cancelled again.
pub cancel_booking_twice :
    (id : ℕ) (db db' : Db) (r : (ℕ × Booking) × (ℕ × Transport))
    → cancel_booking id db ≡ ok (r, db')
    → cancel_booking id db' ≡ err booking_not_active
unfolding cancel_booking
cancel_booking_twice id db db' r h =
    let c = cancel_booking-Cancelled id db r db' h in
    let g : Booking → Booking = λ r. if is_booked r.status then cancel db.now r else r in
    ground (arith, c.bookings_after, c.found, c.booked, find-update_self id g db.bookings c.booking)

-- A booking that commits, followed by its cancellation, leaves every vehicle with the number of
-- seats taken that it had before.
pub cancel-book :
    (id transport_id incident_id seats : ℕ) (db db' db'' : Db)
    (r r' : (ℕ × Booking) × (ℕ × Transport)) (k : ℕ)
    → book_seats id transport_id incident_id seats db ≡ ok (r, db')
    → cancel_booking id db' ≡ ok (r', db'')
    → taken_of (find k db''.transports) ≡ taken_of (find k db.transports)
cancel-book id transport_id incident_id seats db db' db'' r r' k h h' =
    let b = book_seats-Booked id transport_id incident_id seats db r db' h in
    let c = cancel_booking-Cancelled id db' r' db'' h' in
    let f : Transport → Transport = λ x. if can_seat seats x then seat seats db.now x else x in
    let same : c.booking ≡ new_booking transport_id incident_id seats db.now =
      ground (arith, b.bookings_after, c.found) in
    rw (c.transports_after, b.transports_after, same)
      (ground (
        arith,
        b.fits,
        b.transport_found,
        find-update k transport_id f db.transports,
        find-update k transport_id (unseat seats db'.now) (update transport_id f db.transports),
      ))
