-- ===== src/Transports/Seats.antt =====
-- The seats of vehicles and their bookings (BookSeats in internal/transport/repository.go).
use crisis_link.Common.{
  suc, ◌+◌, ℕ, ◌≡◌, ◌≤◌, ◌⊎◌, inl, inr, true, ◌&&◌, Option, none, some, ◌∷◌, arith, ◌==◌,
  if◌then◌else◌, Option-cases, Bool-cases,
}
use crisis_link.Table.{find, update_where, sum_by, passes}
use crisis_link.Table.Laws.{Unique, find-update, find-update_self}
use crisis_link.Store.Rows.{Db, Transport, Booking, AggregateType, EventType, Payload}
use crisis_link.Outbox.{new_event}
use crisis_link.Store.Tx.{ok, err, Error, after, after-keeps, transport_not_found, unique_violation}
use crisis_link.Transports.{
  can_seat, seat, seat_refusal, claim_seats, new_booking, insert_booking, book_seats, is_booked,
}

-- The seats that a booking holds on a vehicle.
abbrev pub seats_on : ℕ → Booking → ℕ
seats_on id b = if b.transport_id == id && is_booked b.status then b.seats else 0

abbrev pub taken_of : Option Transport → ℕ
taken_of none = 0
taken_of (some t) = t.seats_taken

pub record Seating (db : Db) : Type 0 where
  pub ids : Unique db.bookings
  pub counted : (id : ℕ) → sum_by (seats_on id) db.bookings ≡ taken_of (find id db.transports)
  pub within :
      (id : ℕ) (t : Transport) → find id db.transports ≡ some t → t.seats_taken ≤ t.capacity

-- Seats are claimed on an available vehicle that fits the whole group, and on no other.
claim_seats-cases :
    (id seats : ℕ) (db : Db)
    → ((e : Error) × (claim_seats id seats db ≡ err e))
      ⊎ ((t : Transport) × (find id db.transports ≡ some t)
          × (can_seat seats t ≡ true)
          × (claim_seats id seats db
              ≡ ok (
                tt,
                record db {
                  transports = update_where id (can_seat seats) (seat seats db.now) db.transports;
                },
              )))
unfolding claim_seats
claim_seats-cases id seats db = elim (Option-cases (find id db.transports)) [
  | inl e ↦ inl (transport_not_found, rw (e, passes))
  | inr (t, e) ↦ elim (Bool-cases (can_seat seats t)) [
    | inl fits ↦ inr (t, e, fits, rw (e, passes) (rw fits))
    | inr full ↦ inl (seat_refusal (some t), rw (e, passes) (rw full))
  ]
]

insert_booking-cases :
    (id transport_id incident_id seats : ℕ) (db : Db)
    → ((e : Error) × (insert_booking id transport_id incident_id seats db ≡ err e))
      ⊎ ((find id db.bookings ≡ none)
          × (insert_booking id transport_id incident_id seats db
              ≡ ok (
                new_booking transport_id incident_id seats db.now,
                record db {
                  bookings = (id, new_booking transport_id incident_id seats db.now) ∷ db.bookings;
                },
              )))
unfolding insert_booking
insert_booking-cases id transport_id incident_id seats db =
    elim (Option-cases (find id db.bookings)) [
      | inl e ↦ inr (e, rw e)
      | inr (b, e) ↦ inl (unique_violation, rw e)
    ]

-- The database after a booking, with the seats taken that its event tells.
abbrev pub booked_db : ℕ → ℕ → ℕ → ℕ → ℕ → Db → Db
booked_db id transport_id incident_id seats taken db = record db {
  transports = update_where transport_id (can_seat seats) (seat seats db.now) db.transports;
  bookings = (id, new_booking transport_id incident_id seats db.now) ∷ db.bookings;
  outbox =
      (
        db.next_event,
        new_event AggregateType.transport id EventType.transport_booked
            (Payload.seats_booked id transport_id incident_id seats taken) db.now,
      )
      ∷ db.outbox;
  next_event = suc db.next_event;
}

pub record Booked (id transport_id incident_id seats : ℕ) (db db' : Db) : Type 0 where
  pub transport : Transport
  pub transport_found : find transport_id db.transports ≡ some transport
  pub fits : can_seat seats transport ≡ true
  pub id_fresh : find id db.bookings ≡ none
  pub bookings_after :
      db'.bookings ≡ (id, new_booking transport_id incident_id seats db.now) ∷ db.bookings
  pub transports_after :
      db'.transports ≡ update_where transport_id (can_seat seats) (seat seats db.now) db.transports
  pub db_after :
      db' ≡ booked_db id transport_id incident_id seats (transport.seats_taken + seats) db

pub book_seats-Booked :
    (id transport_id incident_id seats : ℕ) (db : Db) (r : (ℕ × Booking) × (ℕ × Transport))
    (db' : Db)
    → book_seats id transport_id incident_id seats db ≡ ok (r, db')
    → Booked id transport_id incident_id seats db db'
unfolding book_seats
book_seats-Booked id transport_id incident_id seats db r db' h =
    elim (claim_seats-cases transport_id seats db) [
      | inl (e, refused) ↦ ground (arith, refused)
      | inr (t, found, fits, claimed) ↦
          elim (insert_booking-cases id transport_id incident_id seats (record db {
            transports =
                update_where transport_id (can_seat seats) (seat seats db.now) db.transports;
          })) [
            | inl (e, taken) ↦ ground (arith, claimed, taken)
            | inr (fresh, inserted) ↦
                let facts =
                  find-update_self transport_id
                    (λ x. if can_seat seats x then seat seats db.now x else x) db.transports t in
                record {
                  transport = t;
                  transport_found = found;
                  fits = fits;
                  id_fresh = fresh;
                  bookings_after = ground (arith, claimed, inserted, facts);
                  transports_after = ground (arith, claimed, inserted, facts);
                  db_after = ground (arith, claimed, inserted, facts);
                }
          ]
    ]

-- BookSeats, whether it commits or fails, keeps the seats taken of every vehicle equal to the sum
-- of its live bookings and within its capacity, and the ids of bookings unique.
pub book_seats-Seating :
    (id transport_id incident_id seats : ℕ) (db : Db)
    → Seating db
    → Seating (after db (book_seats id transport_id incident_id seats db))
book_seats-Seating id transport_id incident_id seats db s =
    after-keeps Seating (book_seats id transport_id incident_id seats) db s (λ r db' h.
      let b = book_seats-Booked id transport_id incident_id seats db r db' h in
      let f : Transport → Transport = λ x. if can_seat seats x then seat seats db.now x else x in
      record {
        ids = rw b.bookings_after (b.id_fresh, s.ids);
        counted = λ k.
            rw (b.bookings_after, b.transports_after)
              (ground (arith, s.counted k, find-update k transport_id f db.transports));
        within = λ k t e. ground (
          arith,
          b.transports_after,
          s.within k t,
          s.within k b.transport,
          find-update k transport_id f db.transports,
        );
      })
