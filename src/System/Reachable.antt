-- ===== src/System/Reachable.antt =====
-- What holds after any requests (System.Requests), in any order.
use Prim.Native.String.{String}
use crisis_link.Common.{
  ℕ, ◌+◌, refl, inl, inr, Option, List, [], ◌∷◌, arith, Option-cases, Bool-cases,
}
use crisis_link.Common.Int.{ℤ, pos, pos_part, leb_ℤ}
use crisis_link.Store.Rows.{Db, OutboxEvent, EventType}
use crisis_link.Store.Tx.{after-keeps, Commits}
use crisis_link.Transports.{book}
use crisis_link.Dispatches.{dispatch_status_of}
use crisis_link.Dispatches.Service.{
  ReserveStrategy, optimistic, pessimistic, service_reserve, service_advance_status, NearbyUnit,
  reroute, preempt,
}
use crisis_link.Dispatches.Equivalence.{quiet, reserve_optimistic-reserve}
use crisis_link.Dispatches.Rerouting.{reroute-Commits, preempt-Commits}
use crisis_link.System.Sound.{
  Sound, WellFormed-frame, Seating-frame, Capacity-frame, reserve-Sound, advance_status-Sound,
  reassign-Sound,
}
use crisis_link.System.Registered.{
  create_unit-Sound, create_shelter-Sound, update_shelter_status-Sound, create_victim-Sound,
  create_transport-Sound,
}
use crisis_link.System.Admitted.{assign-Sound, book_seats-Sound, cancel_booking-Sound}
use crisis_link.System.Filed.{
  create_incident-Sound, update_incident_status-Sound, publish_batch-Sound,
}
use crisis_link.Units.{create_unit}
use crisis_link.Incidents.{create_incident, update_incident_status}
use crisis_link.Shelters.{create_shelter, update_shelter_status}
use crisis_link.Victims.{create_victim, assign}
use crisis_link.Transports.{create_transport, cancel_booking}
use crisis_link.Outbox.Publishing.{publish_batch}
use crisis_link.System.Requests.{
  Request, handle, serve, add_unit, report_incident, set_incident, reserve_unit, advance_dispatch,
  reroute_dispatch, preempt_for, add_shelter, set_shelter, add_victim, admit_victim, add_vehicle,
  book_vehicle, release_booking, relay_batch, wait,
}

service_reserve-Sound :
    (strategy : ReserveStrategy) (id incident_id unit_id : ℕ) (db : Db)
    → Sound db
    → Commits Sound (service_reserve strategy quiet id incident_id unit_id db)
unfolding service_reserve
service_reserve-Sound pessimistic id incident_id unit_id db s d db' h =
    reserve-Sound id incident_id unit_id db s d db' (ground arith)
service_reserve-Sound optimistic id incident_id unit_id db s d db' h =
    reserve-Sound id incident_id unit_id db s d db'
      (ground (arith, reserve_optimistic-reserve id incident_id unit_id db s.unit_ids))

service_advance_status-Sound :
    (id : ℕ) (status : String) (db : Db)
    → Sound db
    → Commits Sound (service_advance_status id status db)
unfolding service_advance_status
service_advance_status-Sound id status db s d db' h =
    elim (Option-cases (dispatch_status_of status)) [
      | inl e ↦ ground arith
      | inr (x, e) ↦ advance_status-Sound id x db s d db' (ground arith)
    ]

book-Sound :
    (id transport_id incident_id : ℕ) (seats : ℤ) (db : Db)
    → Sound db
    → Commits Sound (book id transport_id incident_id seats db)
unfolding book
book-Sound id transport_id incident_id seats db s r db' h =
    elim (Bool-cases (leb_ℤ seats (pos 0))) [
      | inl none_asked ↦ ground arith
      | inr some_asked ↦
          book_seats-Sound id transport_id incident_id (pos_part seats) db s r db' (ground arith)
    ]

-- The database of a new installation.
abbrev pub new_db : ℕ → Db
new_db now = record {
  units = [];
  incidents = [];
  dispatches = [];
  shelters = [];
  victims = [];
  transports = [];
  bookings = [];
  outbox = [];
  next_event = 1;
  now = now;
}

pub new_db-Sound : (now : ℕ) → Sound (new_db now)
new_db-Sound now = record {
  dispatching = record {
    ids = tt;
    one_active = λ i j d e f g a b same. ground arith;
    held = λ i d f a. ground arith;
    attended = λ i d f a. ground arith;
  };
  seating = record { ids = tt; counted = λ k. refl; within = λ k t f. ground arith };
  capacity = record { people = tt; counted = λ k. refl; within = λ k t f. ground arith };
  budget = tt;
  unit_ids = tt;
  incident_ids = tt;
  recorded = refl;
}

module _ (distance : ℤ → ℤ → ℤ → ℤ → ℕ) (nearby_live : ℤ → ℤ → ℕ → Option (List NearbyUnit))
    (publish : ℕ × OutboxEvent → Option (List ℕ)) where
  pub handle-Sound :
      (r : Request) (db : Db) → Sound db → Sound (handle distance nearby_live publish r db)
  unfolding handle
  handle-Sound (add_unit id input) db s =
      after-keeps Sound (create_unit id input) db s (create_unit-Sound id input db s)
  handle-Sound (report_incident id input) db s =
      after-keeps Sound (create_incident distance id input) db s
        (create_incident-Sound distance id input db s)
  handle-Sound (set_incident id status) db s =
      after-keeps Sound (update_incident_status (λ x. x) id status) db s
        (update_incident_status-Sound id status db s)
  handle-Sound (reserve_unit strategy id incident_id unit_id) db s =
      after-keeps Sound (service_reserve strategy quiet id incident_id unit_id) db s
        (service_reserve-Sound strategy id incident_id unit_id db s)
  handle-Sound (advance_dispatch id status) db s =
      after-keeps Sound (service_advance_status id status) db s
        (service_advance_status-Sound id status db s)
  handle-Sound (reroute_dispatch id old_id) db s =
      after-keeps Sound (reroute distance nearby_live id old_id) db s (
        reroute-Commits distance nearby_live Sound id old_id db
          (λ i o inc u x. reassign-Sound i o inc u EventType.dispatch_rerouted x refl) s)
  handle-Sound (preempt_for id incident_id) db s =
      after-keeps Sound (preempt distance nearby_live id incident_id) db s (
        preempt-Commits distance nearby_live Sound id incident_id db
          (λ i o inc u x. reassign-Sound i o inc u EventType.dispatch_preempted x refl) s)
  handle-Sound (add_shelter id input) db s =
      after-keeps Sound (create_shelter id input) db s (create_shelter-Sound id input db s)
  handle-Sound (set_shelter id status) db s =
      after-keeps Sound (update_shelter_status id status) db s
        (update_shelter_status-Sound id status db s)
  handle-Sound (add_victim id input) db s =
      after-keeps Sound (create_victim id input) db s (create_victim-Sound id input db s)
  handle-Sound (admit_victim victim_id shelter_id) db s =
      after-keeps Sound (assign victim_id shelter_id) db s (assign-Sound victim_id shelter_id db s)
  handle-Sound (add_vehicle id input) db s =
      after-keeps Sound (create_transport id input) db s (create_transport-Sound id input db s)
  handle-Sound (book_vehicle id transport_id incident_id seats) db s =
      after-keeps Sound (book id transport_id incident_id seats) db s
        (book-Sound id transport_id incident_id seats db s)
  handle-Sound (release_booking id) db s =
      after-keeps Sound (cancel_booking id) db s (cancel_booking-Sound id db s)
  handle-Sound (relay_batch locked limit) db s =
      after-keeps Sound (publish_batch publish locked limit) db s
        (publish_batch-Sound publish locked limit db s)
  handle-Sound (wait seconds) db s =
      let after_it : Db = record db { now = db.now + seconds } in
      record {
        dispatching = WellFormed-frame db after_it refl refl refl s.dispatching;
        seating = Seating-frame db after_it refl refl s.seating;
        capacity = Capacity-frame db after_it refl refl s.capacity;
        budget = s.budget;
        unit_ids = s.unit_ids;
        incident_ids = s.incident_ids;
        recorded = s.recorded;
      }

  pub serve_from-Sound :
      (rs : List Request) (db : Db) → Sound db → Sound (serve distance nearby_live publish rs db)
  unfolding serve
  serve_from-Sound [] db s = s
  serve_from-Sound (r ∷ rs) db s =
      serve_from-Sound rs (handle distance nearby_live publish r db) (handle-Sound r db s)

  -- After any requests of System.Requests to a new installation, in any order and with any
  -- answers, the database is sound: ids are unique, no unit has two active dispatches, the units
  -- of active dispatches are not available, no incident with one is waiting, no vehicle is
  -- overbooked and no shelter overfull, both count the people that they hold, no event exceeds its
  -- retry budget, and there are as many dispatches as events that begin one.
  pub serve-Sound :
      (rs : List Request) (now : ℕ) → Sound (serve distance nearby_live publish rs (new_db now))
  serve-Sound rs now = serve_from-Sound rs (new_db now) (new_db-Sound now)
