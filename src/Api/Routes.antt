-- ===== src/Api/Routes.antt =====
-- The routes: every request to it is one of System.Requests or changes nothing, but for an
-- operator's override of a unit's status.
use Prim.Native.String.{String}
use text.Mathlib.Text.{◌==◌ as str_eq}
use crisis_link.Common.{
  ℕ, ◌≡◌, refl, subst, inl, inr, Bool, true, false, not, ◌||◌, Option, none, some, List, [], ◌∷◌,
  arith, Option-cases, Bool-cases,
}
use crisis_link.Common.Int.{ℤ, pos, leb_ℤ}
use crisis_link.Table.{find}
use crisis_link.Store.Rows.{Db, OutboxEvent}
use crisis_link.Store.Tx.{Tx, Error}
use crisis_link.Roles.{Actor, owns_shelter, holds_role, operator, admin}
use crisis_link.Units.{get_unit as unit_row, unit_type_of, create_unit}
use crisis_link.Incidents.{get_incident as incident_row, update_incident_status}
use crisis_link.Dispatches.Rerouting.{candidates-reads}
use crisis_link.Http.{Reply, answer, when_valid, when_allowed}
use crisis_link.Http.Dispatching.{
  get_reply, reassign_reply, candidates_reply, get, reroute_dispatch, preempt_for as preempt_route,
  preemptable, list_candidates, get_dispatch,
}
use crisis_link.Http.{clamp_int}
use crisis_link.Http.Registers.{
  any_reply, victim_reply, keepers, scope_of, assign_reply, shelter_reply, booking_reply,
  cancel_reply, incident_reply, is_incident_status, list, get_by_id, list_nearest_shelters,
  assign_victim, set_shelter_status, book_transport, cancel_transport, set_incident_status,
}
use crisis_link.Http.Creation.{
  post_unit, post_shelter, post_transport, post_victim, unit_reply, shelter_create_reply,
  transport_create_reply, victim_create_reply, is_unit_body, is_shelter_body, is_transport_body,
  is_victim_body,
}
use crisis_link.Http.Reading.{
  list_reply, get_unit_reply, get_incident_reply, get_transport_reply, nearby_reply, nearest_reply,
  radius_or, read_unit, read_incident, read_transport, read_dispatches, read_bookings,
  read_incidents, read_units, read_shelters, read_transports, read_nearby, read_nearest,
}
use crisis_link.System.Requests.{
  handle, add_unit, set_incident, reroute_dispatch as rerouting, preempt_for, add_shelter,
  set_shelter, add_victim, admit_victim, add_vehicle, book_vehicle, release_booking,
}
use crisis_link.Api.{World, Route, status_of, routed}
use crisis_link.Api.Served.{
  Served, Served-none, read-Served, checked, gated, guarded, dispatch-Served, advance-Served,
  post_incident-Served,
}
use crisis_link.Api.Reads.{
  get_unit-Reads, get_incident-Reads, get_transport-Reads, get_dispatch-Reads,
  list_by_incident-Reads, list_bookings-Reads, list_incidents-Reads, list_victims-Reads,
  list_units-Reads, list_shelters-Reads, list_transports-Reads, nearby_incidents-Reads,
  find_nearest-Reads, nearest_shelters-Reads, preemptable_for-Reads,
}
use crisis_link.Api.Frame.{Reads, status_of-keeps, when_valid-keeps, when_allowed-keeps}
use crisis_link.Shelters.{create_shelter, update_shelter_status}
use crisis_link.Victims.{create_victim, assign}
use crisis_link.Victims.Register.{get_victim as victim_row, list_victims, nearest_shelters}
use crisis_link.Transports.{
  get_transport as transport_row, create_transport, book, cancel_booking, find_nearest,
}
use crisis_link.Registers.{
  list_units, list_shelters, list_transports, list_incidents, list_by_incident, list_bookings,
  nearby_incidents,
}
use crisis_link.Dispatches.Service.{reroute, preempt, preemptable_for}

abbrev pub is_override : Option Route → Bool
is_override (some (Route.patch_unit_status id status)) = true
is_override _ = false

module _ (w : World) (publish : ℕ × OutboxEvent → Option (List ℕ)) (a : Actor) where
  route_read :
      {A : Type 0} (table : Error → Reply A) (m : Tx A) (db : Db)
      → Reads m
      → Served w publish a db (status_of (answer 200 table m db)).1
  route_read table m db r =
      status_of-keeps (Served w publish a db) (answer 200 table m db)
        (read-Served w publish a 200 table m db r)

  gated_read :
      {A : Type 0} (allowed : Bool) (table : Error → Reply A) (m : Tx A) (db : Db)
      → Reads m
      → Served w publish a db (status_of (when_allowed allowed (answer 200 table m) db)).1
  gated_read allowed table m db r =
      status_of-keeps (Served w publish a db) (when_allowed allowed (answer 200 table m) db) (
        when_allowed-keeps (Served w publish a db) allowed (answer 200 table m) db
          (Served-none w publish a db) λ h. read-Served w publish a 200 table m db r)

  candidates-Served :
      (id : ℕ) (kind : String) (limit : Option ℤ) (db : Db)
      → Served w publish a db (list_candidates w.distance w.nearby_live id kind limit db).1
  unfolding list_candidates
  candidates-Served id kind limit db = elim (Bool-cases (str_eq kind "")) [
    | inl any ↦ rw any (
        read-Served w publish a 200 candidates_reply _ db
          (λ x. candidates-reads w.distance w.nearby_live id none (pos (clamp_int limit 5 1 50)) x))
    | inr named ↦ elim (Option-cases (unit_type_of kind)) [
      | inl e ↦ rw (named, e) (Served-none w publish a db)
      | inr (t, e) ↦
          rw (named, e)
            (read-Served w publish a 200 candidates_reply _ db (λ x.
              candidates-reads w.distance w.nearby_live id (some t) (pos (clamp_int limit 5 1 50))
                x))
    ]
  ]

  get_by_id-Served : (id : ℕ) (db : Db) → Served w publish a db (get_by_id a id db).1
  unfolding get_by_id victim_row
  get_by_id-Served id db =
      subst (Served w publish a db)
        (elim (Option-cases (find id db.victims)) [
          | inl e ↦ ground (arith, e)
          | inr (v, e) ↦ ground (arith, e)
        ])
        (Served-none w publish a db)

  -- The routes that write.
  pub routed-Served :
      (r : Route) (db : Db)
      → is_override (some r) ≡ false
      → Served w publish a db (routed w a r db).1
  unfolding routed handle post_unit post_shelter post_transport post_victim set_incident_status
      reroute_dispatch preempt_route set_shelter_status book_transport cancel_transport
      assign_victim preemptable get list list_nearest_shelters read_unit read_incident
      read_transport read_dispatches read_bookings read_incidents read_units read_shelters
      read_transports read_nearby read_nearest
  routed-Served (Route.post_incidents id body) db plain =
      status_of-keeps (Served w publish a db) _ (post_incident-Served w publish a id body db)
  routed-Served (Route.post_dispatch strategy id incident_id unit_id) db plain =
      status_of-keeps (Served w publish a db) _
        (dispatch-Served w publish a strategy id incident_id unit_id db)
  routed-Served (Route.patch_incident_status id status) db plain =
      status_of-keeps (Served w publish a db) _ (
        guarded w publish a 200 incident_reply (update_incident_status (λ x. x) id status)
          (set_incident id status) db refl (holds_role a (operator ∷ admin ∷ []))
          (is_incident_status status) (λ h. h))
  routed-Served (Route.post_reroute id old_id) db plain =
      status_of-keeps (Served w publish a db) _ (
        gated w publish a 201 reassign_reply (reroute w.distance w.nearby_live id old_id)
          (rerouting id old_id) db refl (holds_role a (operator ∷ admin ∷ [])) (λ h. h))
  routed-Served (Route.post_preempt id incident_id) db plain =
      status_of-keeps (Served w publish a db) _ (
        gated w publish a 201 reassign_reply (preempt w.distance w.nearby_live id incident_id)
          (preempt_for id incident_id) db refl (holds_role a (operator ∷ admin ∷ [])) (λ h. h))
  routed-Served (Route.patch_dispatch_status id status) db plain =
      status_of-keeps (Served w publish a db) _ (advance-Served w publish a id status db)
  routed-Served (Route.post_units id body) db plain = status_of-keeps (Served w publish a db) _ (
      guarded w publish a 201 unit_reply (create_unit id body) (add_unit id body) db refl
        (holds_role a (admin ∷ [])) (is_unit_body w.runes body) (λ h. h))
  routed-Served (Route.patch_unit_status id status) db plain = absurd (ground (arith, plain))
  routed-Served (Route.post_shelters id body) db plain = status_of-keeps (Served w publish a db) _ (
      guarded w publish a 201 shelter_create_reply (create_shelter id body) (add_shelter id body) db
        refl (holds_role a (admin ∷ [])) (is_shelter_body w.runes body) (λ h. h))
  routed-Served (Route.patch_shelter_status id status) db plain =
      status_of-keeps (Served w publish a db) _ (
        when_allowed-keeps (Served w publish a db) (holds_role a keepers)
          (when_valid (str_eq status "open" || str_eq status "closed") (
            when_allowed (owns_shelter a (some id))
              (answer 200 shelter_reply (update_shelter_status id status))))
          db (Served-none w publish a db)
          (λ keeper.
            when_valid-keeps (Served w publish a db)
              (str_eq status "open" || str_eq status "closed")
              (when_allowed (owns_shelter a (some id))
                (answer 200 shelter_reply (update_shelter_status id status)))
              db (Served-none w publish a db)
              (gated w publish a 200 shelter_reply (update_shelter_status id status)
                (set_shelter id status) db refl (owns_shelter a (some id)) (λ h. keeper))))
  routed-Served (Route.post_transports id body) db plain =
      status_of-keeps (Served w publish a db) _ (
        guarded w publish a 201 transport_create_reply (create_transport id body)
          (add_vehicle id body) db refl (holds_role a (admin ∷ [])) (is_transport_body w.runes body)
          (λ h. h))
  routed-Served (Route.post_bookings id transport_id incident_id seats) db plain =
      status_of-keeps (Served w publish a db) _ (
        guarded w publish a 201 booking_reply (book id transport_id incident_id seats)
          (book_vehicle id transport_id incident_id seats) db refl
          (holds_role a (operator ∷ admin ∷ [])) (not (leb_ℤ seats (pos 0))) (λ h. h))
  routed-Served (Route.patch_booking_cancel id) db plain =
      status_of-keeps (Served w publish a db) _ (
        gated w publish a 200 cancel_reply (cancel_booking id) (release_booking id) db refl
          (holds_role a (operator ∷ admin ∷ [])) (λ h. h))
  routed-Served (Route.post_victims id body) db plain = status_of-keeps (Served w publish a db) _ (
      checked w publish a 201 victim_create_reply (create_victim id body) (add_victim id body) db
        refl (is_victim_body w.runes body) refl)
  routed-Served (Route.post_assign victim_id shelter_id) db plain =
      status_of-keeps (Served w publish a db) _ (
        gated w publish a 200 assign_reply (assign victim_id shelter_id)
          (admit_victim victim_id shelter_id) db refl (holds_role a keepers) (λ h. h))
  routed-Served (Route.get_incidents limit offset) db plain =
      route_read any_reply
        (list_incidents (clamp_int limit 20 1 100) (clamp_int offset 0 0 1000000)) db
        (list_incidents-Reads (clamp_int limit 20 1 100) (clamp_int offset 0 0 1000000))
  routed-Served (Route.get_incidents_nearby (some lat) (some lng) radius) db plain =
      route_read nearby_reply (nearby_incidents w.distance lat lng (radius_or radius) 100) db
        (nearby_incidents-Reads w.distance lat lng (radius_or radius) 100)
  routed-Served (Route.get_incidents_nearby none lng radius) db plain = Served-none w publish a db
  routed-Served (Route.get_incidents_nearby (some lat) none radius) db plain =
      Served-none w publish a db
  routed-Served (Route.get_incident id) db plain =
      route_read get_incident_reply (incident_row id) db (get_incident-Reads id)
  routed-Served (Route.get_incident_dispatches id) db plain =
      route_read any_reply (list_by_incident id) db (list_by_incident-Reads id)
  routed-Served (Route.get_preemptable id) db plain =
      gated_read (holds_role a (operator ∷ admin ∷ [])) reassign_reply
        (preemptable_for w.distance w.nearby_live id) db
        (preemptable_for-Reads w.distance w.nearby_live id)
  routed-Served (Route.get_candidates id kind limit) db plain =
      status_of-keeps (Served w publish a db) _ (candidates-Served id kind limit db)
  routed-Served (Route.get_dispatch id) db plain =
      route_read get_reply (get_dispatch id) db (get_dispatch-Reads id)
  routed-Served (Route.get_units s t limit offset) db plain =
      route_read list_reply
        (list_units w.collate s t (clamp_int limit 50 1 200) (clamp_int offset 0 0 1000000)) db
        (list_units-Reads w.collate (clamp_int limit 50 1 200) (clamp_int offset 0 0 1000000) s t)
  routed-Served (Route.get_unit id) db plain =
      route_read get_unit_reply (unit_row id) db (get_unit-Reads id)
  routed-Served (Route.get_shelters s limit offset) db plain =
      route_read list_reply
        (list_shelters w.collate s (clamp_int limit 50 1 200) (clamp_int offset 0 0 1000000)) db
        (list_shelters-Reads w.collate (clamp_int limit 50 1 200) (clamp_int offset 0 0 1000000) s)
  routed-Served (Route.get_transports_nearest (some lat) (some lng) seats limit) db plain =
      route_read nearest_reply
        (find_nearest w.distance lat lng (pos (clamp_int seats 1 1 500))
          (pos (clamp_int limit 5 1 50)))
        db
        (find_nearest-Reads w.distance lat lng (pos (clamp_int seats 1 1 500))
          (pos (clamp_int limit 5 1 50)))
  routed-Served (Route.get_transports_nearest none lng seats limit) db plain =
      Served-none w publish a db
  routed-Served (Route.get_transports_nearest (some lat) none seats limit) db plain =
      Served-none w publish a db
  routed-Served (Route.get_transports s t limit offset) db plain =
      route_read list_reply
        (list_transports w.collate s t (clamp_int limit 20 1 100) (clamp_int offset 0 0 100000)) db
        (list_transports-Reads w.collate (clamp_int limit 20 1 100) (clamp_int offset 0 0 100000) s
          t)
  routed-Served (Route.get_transport id) db plain =
      route_read get_transport_reply (transport_row id) db (get_transport-Reads id)
  routed-Served (Route.get_bookings id limit) db plain =
      route_read any_reply (list_bookings id (clamp_int limit 20 1 100)) db
        (list_bookings-Reads id (clamp_int limit 20 1 100))
  routed-Served (Route.get_victims status limit offset) db plain =
      gated_read (holds_role a keepers) any_reply
        (list_victims status (scope_of a) (clamp_int limit 50 1 200) (clamp_int offset 0 0 1000000))
        db
        (list_victims-Reads status (scope_of a) (clamp_int limit 50 1 200)
          (clamp_int offset 0 0 1000000))
  routed-Served (Route.get_victim id) db plain =
      status_of-keeps (Served w publish a db) _ (get_by_id-Served id db)
  routed-Served (Route.get_victim_shelters id limit) db plain =
      gated_read (holds_role a keepers) victim_reply
        (nearest_shelters w.distance id (pos (clamp_int limit 5 1 50))) db
        (nearest_shelters-Reads w.distance id (pos (clamp_int limit 5 1 50)))
