-- ===== src/Tests/Capacities.antt =====
-- Shelters and vehicles of the sample database.
use crisis_link.Common.{◌≡◌, refl}
use crisis_link.Table.{find}
use crisis_link.Store.Rows.{Db, Transport}
use crisis_link.Store.Tx.{ok, after}
use crisis_link.Victims.{assign}
use crisis_link.Victims.Capacity.{Capacity, assign-Capacity}
use crisis_link.Transports.{
  book_seats, cancel_booking, cancel, seat, unseat, new_booking, claim_seats, insert_booking,
}
use crisis_link.Transports.Seats.{Seating, book_seats-Seating, taken_of}
use crisis_link.Transports.Cancellation.{cancel-book}
use crisis_link.Tests.Sample.{sample, sample-Capacity, sample-Seating, bus_50}

assign-Capacity_example : Capacity (after sample (assign 40 30 sample))
assign-Capacity_example = assign-Capacity 40 30 sample sample-Capacity

book_seats-Seating_example : Seating (after sample (book_seats 61 50 11 2 sample))
book_seats-Seating_example = book_seats-Seating 61 50 11 2 sample sample-Seating

booked_61 : Db
booked_61 = after sample (book_seats 61 50 11 2 sample)

cancelled_61 : Db
cancelled_61 = after booked_61 (cancel_booking 61 booked_61)

abbrev full_bus : Transport
full_bus = seat 2 1000 bus_50

booking_61 :
    (book_seats 61 50 11 2 sample
      ≡ ok (((61, new_booking 50 11 2 1000), (50, full_bus)), booked_61))
    × (cancel_booking 61 booked_61
        ≡ ok (
          ((61, cancel 1000 (new_booking 50 11 2 1000)), (50, unseat 2 1000 full_bus)),
          cancelled_61,
        ))
unfolding booked_61 cancelled_61 book_seats cancel_booking claim_seats insert_booking
booking_61 = (refl, refl)

cancel-book_example :
    taken_of (find 50 cancelled_61.transports) ≡ taken_of (find 50 sample.transports)
cancel-book_example =
    cancel-book 61 50 11 2 sample booked_61 cancelled_61
      ((61, new_booking 50 11 2 1000), (50, full_bus))
      ((61, cancel 1000 (new_booking 50 11 2 1000)), (50, unseat 2 1000 full_bus)) 50 booking_61.0
      booking_61.1
