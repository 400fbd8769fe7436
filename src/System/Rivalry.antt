-- ===== src/System/Rivalry.antt =====
-- Rivals of an optimistic reservation that are runs of requests (System.Requests).
use crisis_link.Common.{
  ℕ, ◌≡◌, ◌∙◌, ap, inl, inr, true, Option, some, List, [], ◌∷◌, arith, Bool-cases,
}
use crisis_link.Common.Int.{ℤ, pos, pos_part, leb_ℤ}
use crisis_link.Table.{find}
use crisis_link.Store.Rows.{Db, OutboxEvent, EventType, RescueUnit, Dispatch}
use crisis_link.Store.Tx.{Tx, ok, after, after-keeps}
use crisis_link.Units.{create_unit, is_available}
use crisis_link.Units.Versions.{Versioned, Versioned-refl, Versioned-trans, Versioned-insert}
use crisis_link.Incidents.{CreateIncidentInput, create_incident, update_incident_status}
use crisis_link.Incidents.Committed.{create_incident-Filed, update_incident_status-ok}
use crisis_link.Shelters.{create_shelter, update_shelter_status}
use crisis_link.Victims.{create_victim, assign}
use crisis_link.Victims.Capacity.{assign-Assignment}
use crisis_link.Transports.{create_transport, book, cancel_booking}
use crisis_link.Transports.Seats.{book_seats-Booked}
use crisis_link.Transports.Cancellation.{cancel_booking-Cancelled}
use crisis_link.Outbox.Publishing.{publish_batch}
use crisis_link.Outbox.Frame.{publish_batch-OutboxOnly}
use crisis_link.Dispatches.Transactions.{Rivals, try_reserve_optimistic, reserve_optimistic}
use crisis_link.Dispatches.Optimistic.{seen_by_swap, try_reserve_optimistic-Claim}
use crisis_link.Dispatches.Service.{
  service_reserve, service_advance_status, NearbyUnit, reroute, preempt,
}
use crisis_link.Dispatches.Equivalence.{quiet}
use crisis_link.Dispatches.Rerouting.{reroute-Commits, preempt-Commits}
use crisis_link.System.Inserted.{
  create_unit-Fresh, create_shelter-Fresh, create_transport-Fresh, create_victim-Fresh,
  update_shelter_status-ok,
}
use crisis_link.System.Sound.{Sound, begins}
use crisis_link.System.Filed.{begins-Lasting}
use crisis_link.System.Requests.{
  Request, handle, serve, add_unit, report_incident, set_incident, reserve_unit, advance_dispatch,
  reroute_dispatch, preempt_for, add_shelter, set_shelter, add_victim, admit_victim, add_vehicle,
  book_vehicle, release_booking, relay_batch, wait,
}
use crisis_link.System.Reachable.{handle-Sound, serve_from-Sound}
use crisis_link.System.Race.{
  VersionedBy, same_units-Versioned, reassign-Versioned, service_reserve-Versioned,
  service_advance_status-Versioned, reserve_attempts-Sound,
}

book-Versioned :
    (id transport_id incident_id : ℕ) (seats : ℤ) (db : Db)
    → VersionedBy db (book id transport_id incident_id seats db)
unfolding book
book-Versioned id transport_id incident_id seats db r db' h =
    elim (Bool-cases (leb_ℤ seats (pos 0))) [
      | inl none_asked ↦ ground arith
      | inr some_asked ↦
          let b =
            book_seats-Booked id transport_id incident_id (pos_part seats) db r db'
              (ground arith) in
          same_units-Versioned db db' (ap (λ x. x.units) b.db_after)
    ]

module _ (distance : ℤ → ℤ → ℤ → ℤ → ℕ) (nearby_live : ℤ → ℤ → ℕ → Option (List NearbyUnit))
    (publish : ℕ × OutboxEvent → Option (List ℕ)) where
  create_incident-Versioned :
      (id : ℕ) (input : CreateIncidentInput) (db : Db)
      → VersionedBy db (create_incident distance id input db)
  create_incident-Versioned id input db r db' h =
      elim (create_incident-Filed distance id input db db' r h) [
        | inl (k, e) ↦ same_units-Versioned db db' (ap (λ x. x.units) e)
        | inr (i, fresh, e) ↦ same_units-Versioned db db' (ap (λ x. x.units) e)
      ]

  -- A call whose committed outcomes are Versioned, committed or not.
  versioned {ℓ} :
      {A : Type ℓ} (m : Tx A) (db : Db)
      → VersionedBy db (m db)
      → Versioned db.units (after db (m db)).units
  versioned m db keep =
      after-keeps (λ x. Versioned db.units x.units) m db (Versioned-refl db.units) keep

  handle-Versioned :
      (r : Request) (db : Db)
      → Sound db
      → Versioned db.units (handle distance nearby_live publish r db).units
  unfolding handle
  handle-Versioned (add_unit id input) db s = versioned (create_unit id input) db (λ r db' h.
      let (u, _, fresh, e) = create_unit-Fresh id input db db' r h in
      rw e (Versioned-insert id u db.units fresh))
  handle-Versioned (report_incident id input) db s =
      versioned (create_incident distance id input) db (create_incident-Versioned id input db)
  handle-Versioned (set_incident id status) db s =
      versioned (update_incident_status (λ x. x) id status) db (λ r db' h.
        let (_, _, _, _, e) = update_incident_status-ok id status db db' r h in
        same_units-Versioned db db' (ap (λ x. x.units) e))
  handle-Versioned (reserve_unit strategy id incident_id unit_id) db s =
      versioned (service_reserve strategy quiet id incident_id unit_id) db
        (service_reserve-Versioned strategy id incident_id unit_id db s.unit_ids)
  handle-Versioned (advance_dispatch id status) db s =
      versioned (service_advance_status id status) db
        (service_advance_status-Versioned id status db)
  handle-Versioned (reroute_dispatch id old_id) db s =
      versioned (reroute distance nearby_live id old_id) db (
        reroute-Commits distance nearby_live (λ x. Versioned db.units x.units) id old_id db
          (reassign-Versioned EventType.dispatch_rerouted db) (Versioned-refl db.units))
  handle-Versioned (preempt_for id incident_id) db s =
      versioned (preempt distance nearby_live id incident_id) db (
        preempt-Commits distance nearby_live (λ x. Versioned db.units x.units) id incident_id db
          (reassign-Versioned EventType.dispatch_preempted db) (Versioned-refl db.units))
  handle-Versioned (add_shelter id input) db s = versioned (create_shelter id input) db (λ r db' h.
      let (_, _, _, e) = create_shelter-Fresh id input db db' r h in
      same_units-Versioned db db' (ap (λ x. x.units) e))
  handle-Versioned (set_shelter id status) db s =
      versioned (update_shelter_status id status) db (λ r db' h.
        let (_, e) = update_shelter_status-ok id status db db' r h in
        same_units-Versioned db db' (ap (λ x. x.units) e))
  handle-Versioned (add_victim id input) db s = versioned (create_victim id input) db (λ r db' h.
      let (_, _, _, e) = create_victim-Fresh id input db db' r h in
      same_units-Versioned db db' (ap (λ x. x.units) e))
  handle-Versioned (admit_victim victim_id shelter_id) db s =
      versioned (assign victim_id shelter_id) db (λ r db' h.
        let a = assign-Assignment victim_id shelter_id db r db' h in
        same_units-Versioned db db' (ap (λ x. x.units) a.db_after))
  handle-Versioned (add_vehicle id input) db s =
      versioned (create_transport id input) db (λ r db' h.
        let (_, _, _, e) = create_transport-Fresh id input db db' r h in
        same_units-Versioned db db' (ap (λ x. x.units) e))
  handle-Versioned (book_vehicle id transport_id incident_id seats) db s =
      versioned (book id transport_id incident_id seats) db
        (book-Versioned id transport_id incident_id seats db)
  handle-Versioned (release_booking id) db s = versioned (cancel_booking id) db (λ r db' h.
      let c = cancel_booking-Cancelled id db r db' h in
      same_units-Versioned db db' (ap (λ x. x.units) c.db_after))
  handle-Versioned (relay_batch locked limit) db s =
      versioned (publish_batch publish locked limit) db (λ r db' h.
        let o = publish_batch-OutboxOnly begins begins-Lasting publish locked limit db r db' h in
        same_units-Versioned db db' (ap (λ x. x.units) o.others))
  handle-Versioned (wait seconds) db s = Versioned-refl db.units

  serve-Versioned :
      (rs : List Request) (db : Db)
      → Sound db
      → Versioned db.units (serve distance nearby_live publish rs db).units
  unfolding serve
  serve-Versioned [] db s = Versioned-refl db.units
  serve-Versioned (r ∷ rs) db s =
      let next = handle distance nearby_live publish r db in
      Versioned-trans db.units next.units _ (handle-Versioned r db s)
        (serve-Versioned rs next (handle-Sound distance nearby_live publish r db s))

  -- In each attempt, others make these requests before the incident is read and before the swap.
  abbrev pub amid : (ℕ → List Request × List Request) → ℕ → Rivals
  amid requests n = record {
    before_incident = serve distance nearby_live publish (requests n).0;
    before_swap = serve distance nearby_live publish (requests n).1;
  }

  -- From a sound database, and whatever requests others complete in each attempt up to its
  -- compare-and-swap, a reservation by the optimistic path that commits leaves the database sound,
  -- if from the swap that succeeds to the COMMIT no other transaction runs.
  pub reserve_optimistic-Sound :
      (requests : ℕ → List Request × List Request) (id incident_id unit_id : ℕ) (db db' : Db)
      (d : ℕ × Dispatch)
      → Sound db
      → reserve_optimistic (amid requests) id incident_id unit_id db ≡ ok (d, db')
      → Sound db'
  unfolding reserve_optimistic
  reserve_optimistic-Sound requests id incident_id unit_id db db' d s h =
      reserve_attempts-Sound 3 (amid requests) id incident_id unit_id db
        (λ n x sx. (
          serve_from-Sound distance nearby_live publish (requests n).0 x sx,
          serve_from-Sound distance nearby_live publish (requests n).1 x sx,
        ))
        s d db' h

  -- The unit was available when the attempt read it and is the same row, version and all, when the
  -- attempt swaps it.
  pub record Untouched (unit_id : ℕ) (db seen : Db) : Type 0 where
    pub unit : RescueUnit
    pub read : find unit_id db.units ≡ some unit
    pub free : is_available unit.status ≡ true
    pub swapped : find unit_id seen.units ≡ some unit

  -- From a sound database, and whatever requests others make meanwhile, an optimistic attempt
  -- commits only if its unit was available when it was read and is the very same row when it is
  -- swapped.
  pub try_reserve_optimistic-Untouched :
      (requests : ℕ → List Request × List Request) (n id incident_id unit_id : ℕ) (db db' : Db)
      (d : ℕ × Dispatch)
      → Sound db
      → try_reserve_optimistic (amid requests n) id incident_id unit_id db ≡ ok (some d, db')
      → Untouched unit_id db (seen_by_swap (amid requests n) db)
  try_reserve_optimistic-Untouched requests n id incident_id unit_id db db' d s h =
      let rivals = amid requests n in
      let (c, _, _) = try_reserve_optimistic-Claim rivals id incident_id unit_id db d db' h in
      let middle = rivals.before_incident db in
      let grown =
        Versioned-trans db.units middle.units (rivals.before_swap middle).units
          (serve-Versioned (requests n).0 db s)
          (serve-Versioned (requests n).1 middle
            (serve_from-Sound distance nearby_live publish (requests n).0 db s)) in
      let (v, fv, le, same) = grown unit_id c.unit c.unit_found in
      let e : v ≡ c.unit_then = ground (arith, fv, c.unit_seen) in
      record {
        unit = c.unit;
        read = c.unit_found;
        free = c.unit_free;
        swapped = fv ∙ ap some (same (ground (arith, e, c.same_version)));
      }
