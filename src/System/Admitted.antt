-- ===== src/System/Admitted.antt =====
-- Admissions and bookings under the invariant of the database.
use crisis_link.Common.{ℕ, refl, ◌+◌, ◌-◌, arith, subst}
use crisis_link.Store.Rows.{Db}
use crisis_link.Store.Tx.{Commits, after-ok}
use crisis_link.Victims.{assign}
use crisis_link.Victims.Capacity.{Capacity, assign-Assignment, assign-Capacity, assigned_db}
use crisis_link.Transports.{book_seats, cancel_booking}
use crisis_link.Transports.Seats.{Seating, book_seats-Booked, book_seats-Seating, booked_db}
use crisis_link.Transports.Cancellation.{
  cancel_booking-Cancelled, cancel_booking-Seating, cancelled_db,
}
use crisis_link.System.Sound.{
  Sound, WellFormed-frame, Seating-frame, Capacity-frame, new_event-InBudget,
}

pub assign-Sound :
    (victim_id shelter_id : ℕ) (db : Db) → Sound db → Commits Sound (assign victim_id shelter_id db)
assign-Sound victim_id shelter_id db s r db' h =
    let a = assign-Assignment victim_id shelter_id db r db' h in
    let kept =
      after-ok Capacity db db' (assign victim_id shelter_id db) r h
        (assign-Capacity victim_id shelter_id db s.capacity) in
    let after_it : Db = assigned_db victim_id shelter_id a.shelter db in
    let moved : Capacity after_it = subst Capacity a.db_after kept in
    rw a.db_after (record {
      dispatching = WellFormed-frame db after_it refl refl refl s.dispatching;
      seating = Seating-frame db after_it refl refl s.seating;
      capacity = moved;
      budget = (new_event-InBudget _ _ _ _ _, s.budget);
      unit_ids = s.unit_ids;
      incident_ids = s.incident_ids;
      recorded = ground (arith, s.recorded);
    })

pub book_seats-Sound :
    (id transport_id incident_id seats : ℕ) (db : Db)
    → Sound db
    → Commits Sound (book_seats id transport_id incident_id seats db)
book_seats-Sound id transport_id incident_id seats db s r db' h =
    let b = book_seats-Booked id transport_id incident_id seats db r db' h in
    let after_it : Db =
      booked_db id transport_id incident_id seats (b.transport.seats_taken + seats) db in
    let kept =
      after-ok Seating db db' (book_seats id transport_id incident_id seats db) r h
        (book_seats-Seating id transport_id incident_id seats db s.seating) in
    let moved : Seating after_it = subst Seating b.db_after kept in
    rw b.db_after (record {
      dispatching = WellFormed-frame db after_it refl refl refl s.dispatching;
      seating = moved;
      capacity = Capacity-frame db after_it refl refl s.capacity;
      budget = (new_event-InBudget _ _ _ _ _, s.budget);
      unit_ids = s.unit_ids;
      incident_ids = s.incident_ids;
      recorded = ground (arith, s.recorded);
    })

pub cancel_booking-Sound : (id : ℕ) (db : Db) → Sound db → Commits Sound (cancel_booking id db)
cancel_booking-Sound id db s r db' h =
    let c = cancel_booking-Cancelled id db r db' h in
    let after_it : Db = cancelled_db id c.booking (c.transport.seats_taken - c.booking.seats) db in
    let kept =
      after-ok Seating db db' (cancel_booking id db) r h (cancel_booking-Seating id db s.seating) in
    let moved : Seating after_it = subst Seating c.db_after kept in
    rw c.db_after (record {
      dispatching = WellFormed-frame db after_it refl refl refl s.dispatching;
      seating = moved;
      capacity = Capacity-frame db after_it refl refl s.capacity;
      budget = (new_event-InBudget _ _ _ _ _, s.budget);
      unit_ids = s.unit_ids;
      incident_ids = s.incident_ids;
      recorded = ground (arith, s.recorded);
    })
