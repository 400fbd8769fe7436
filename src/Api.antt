-- ===== src/Api.antt =====
-- The protected routes of internal/server/server.go on the database: AuthRequired, then the check of
-- the :id, then the roles and the handler. The routes of accounts stand in Auth and those of
-- heartbeats in Presence, GET /shelters/:id in Cache and the pages of the outbox in Outbox.Backlog;
-- requests run one after the other.
pub mod Frame
pub mod Reads
pub mod Served
pub mod Routes
pub mod Runs
pub mod Access
pub mod Override
use Prim.Native.String.{String}
use crisis_link.Common.{ℕ, ◌+◌, Option, none, some, List, [], ◌∷◌, Bool}
use crisis_link.Common.Int.{ℤ}
use crisis_link.Store.Rows.{Db}
use crisis_link.Auth.{Crypto, authenticate, actor_from}
use crisis_link.Roles.{Actor}
use crisis_link.Units.{CreateUnitInput}
use crisis_link.Incidents.{CreateIncidentInput}
use crisis_link.Shelters.{CreateShelterInput}
use crisis_link.Victims.{CreateVictimInput}
use crisis_link.Transports.{CreateInput}
use crisis_link.Dispatches.Service.{NearbyUnit}
use crisis_link.Dispatches.Equivalence.{quiet}
use crisis_link.Http.{Reply, success, failure}
use crisis_link.Http.Dispatching.{
  dispatch, advance, get, reroute_dispatch, preempt_for, preemptable, list_candidates,
}
use crisis_link.Http.Registers.{
  list, get_by_id, list_nearest_shelters, assign_victim, set_shelter_status, book_transport,
  cancel_transport, set_incident_status,
}
use crisis_link.Http.Creation.{
  set_unit_override, post_unit, post_shelter, post_transport, post_victim, post_incident,
}
use crisis_link.Http.Reading.{
  read_unit, read_incident, read_transport, read_dispatches, read_bookings, read_incidents,
  read_units, read_shelters, read_transports, read_nearby, read_nearest,
}

-- A route with what its path, query and body carry. A first number under POST is the id that the
-- database draws.
pub data Route : Type 0 where
  post_incidents : ℕ → CreateIncidentInput → Route
  get_incidents : (limit offset : Option ℤ) → Route
  get_incidents_nearby : (lat lng radius : Option ℤ) → Route
  get_incident get_incident_dispatches get_preemptable : ℕ → Route
  get_candidates : ℕ → String → Option ℤ → Route
  post_dispatch : (strategy : String) → (id incident_id : ℕ) → (unit_id : Option ℕ) → Route
  patch_incident_status : ℕ → String → Route
  get_dispatch : ℕ → Route
  post_reroute : (id old_id : ℕ) → Route
  post_preempt : (id incident_id : ℕ) → Route
  patch_dispatch_status : ℕ → String → Route
  get_units : (status unit_type : String) → (limit offset : Option ℤ) → Route
  get_unit : ℕ → Route
  post_units : ℕ → CreateUnitInput → Route
  patch_unit_status : ℕ → String → Route
  get_shelters : String → (limit offset : Option ℤ) → Route
  post_shelters : ℕ → CreateShelterInput → Route
  patch_shelter_status : ℕ → String → Route
  get_transports_nearest : (lat lng seats limit : Option ℤ) → Route
  get_transports : (status kind : String) → (limit offset : Option ℤ) → Route
  get_transport : ℕ → Route
  post_transports : ℕ → CreateInput → Route
  post_bookings : (id transport_id incident_id : ℕ) → ℤ → Route
  get_bookings : ℕ → Option ℤ → Route
  patch_booking_cancel : ℕ → Route
  post_victims : ℕ → CreateVictimInput → Route
  get_victims : String → (limit offset : Option ℤ) → Route
  get_victim : ℕ → Route
  get_victim_shelters : ℕ → Option ℤ → Route
  post_assign : (victim_id shelter_id : ℕ) → Route

abbrev pub status_of {ℓ} : {A : Type ℓ} → Reply A × Db → ℕ × Db
status_of (success n a, db) = (n, db)
status_of (failure n c, db) = (n, db)

-- What the routes use of the world: PostGIS's distances, the validator's measure of a text, the
-- collation, and Redis's search for live units.
pub record World : Type 0 where
  pub distance : ℤ → ℤ → ℤ → ℤ → ℕ
  pub runes : String → ℕ
  pub collate : String → ℕ
  pub nearby_live : ℤ → ℤ → ℕ → Option (List NearbyUnit)

-- A request with the seconds that pass before it.
pub record Call : Type 0 where
  pub pause : ℕ
  pub header : Option (List ℕ)
  pub route : Option Route

module _ (w : World) where
  -- The answer's status, and the database after it.
  unfoldable pub routed : Actor → Route → Db → ℕ × Db
  routed a (post_incidents id body) db = status_of (post_incident w.runes w.distance a id body db)
  routed a (get_incidents limit offset) db = status_of (read_incidents limit offset db)
  routed a (get_incidents_nearby lat lng radius) db =
      status_of (read_nearby w.distance lat lng radius db)
  routed a (get_incident id) db = status_of (read_incident id db)
  routed a (get_incident_dispatches id) db = status_of (read_dispatches id db)
  routed a (get_preemptable id) db = status_of (preemptable w.distance w.nearby_live a id db)
  routed a (get_candidates id kind limit) db =
      status_of (list_candidates w.distance w.nearby_live id kind limit db)
  routed a (post_dispatch strategy id incident_id unit_id) db =
      status_of (dispatch a quiet strategy id incident_id unit_id db)
  routed a (patch_incident_status id status) db =
      status_of (set_incident_status a (λ x. x) id status db)
  routed a (get_dispatch id) db = status_of (get id db)
  routed a (post_reroute id old_id) db =
      status_of (reroute_dispatch w.distance w.nearby_live a id old_id db)
  routed a (post_preempt id incident_id) db =
      status_of (preempt_for w.distance w.nearby_live a id incident_id db)
  routed a (patch_dispatch_status id status) db = status_of (advance a id status db)
  routed a (get_units status kind limit offset) db =
      status_of (read_units w.collate status kind limit offset db)
  routed a (get_unit id) db = status_of (read_unit id db)
  routed a (post_units id body) db = status_of (post_unit w.runes a id body db)
  routed a (patch_unit_status id status) db = status_of (set_unit_override a id status db)
  routed a (get_shelters status limit offset) db =
      status_of (read_shelters w.collate status limit offset db)
  routed a (post_shelters id body) db = status_of (post_shelter w.runes a id body db)
  routed a (patch_shelter_status id status) db = status_of (set_shelter_status a id status db)
  routed a (get_transports_nearest lat lng seats limit) db =
      status_of (read_nearest w.distance lat lng seats limit db)
  routed a (get_transports status kind limit offset) db =
      status_of (read_transports w.collate status kind limit offset db)
  routed a (get_transport id) db = status_of (read_transport id db)
  routed a (post_transports id body) db = status_of (post_transport w.runes a id body db)
  routed a (post_bookings id transport_id incident_id seats) db =
      status_of (book_transport a id transport_id incident_id seats db)
  routed a (get_bookings id limit) db = status_of (read_bookings id limit db)
  routed a (patch_booking_cancel id) db = status_of (cancel_transport a id db)
  routed a (post_victims id body) db = status_of (post_victim w.runes id body db)
  routed a (get_victims status limit offset) db = status_of (list a status limit offset db)
  routed a (get_victim id) db = status_of (get_by_id a id db)
  routed a (get_victim_shelters id limit) db =
      status_of (list_nearest_shelters w.distance a id limit db)
  routed a (post_assign victim_id shelter_id) db =
      status_of (assign_victim a victim_id shelter_id db)

  -- AuthRequired and ValidateUUIDParam: `none` is a route whose :id is no UUID.
  unfoldable pub respond : Crypto → Option (List ℕ) → Option Route → Db → ℕ × Db
  unfolding routed authenticate
  respond k header route db = elim (authenticate k db.now header) [
    | none ↦ (401, db)
    | some claims ↦ elim route [ none ↦ (404, db) | some r ↦ routed (actor_from claims) r db ]
  ]

  unfoldable pub respond_all : Crypto → List Call → Db → Db
  unfolding respond
  respond_all k [] db = db
  respond_all k (c ∷ calls) db =
      respond_all k calls (respond k c.header c.route (record db { now = db.now + c.pause })).1
