-- ===== src/Http/Registers.antt =====
-- The handlers of the victims, the shelters, the vehicles, the incidents and the heartbeats
-- (victim/handler.go, shelter/handler.go, transport/handler.go, incident/handler.go and
-- presence/handler.go), behind the roles that internal/server/server.go asks for.
use Prim.Native.String.{String}
use text.Mathlib.Text.{◌==◌ as str_eq}
use crisis_link.Common.{
  ℕ, Bool, false, not, ◌||◌, Option, none, some, List, [], ◌∷◌, ◌==◌, if◌then◌else◌,
}
use crisis_link.Common.Int.{ℤ, pos, leb_ℤ}
use crisis_link.Table.{Table}
use crisis_link.Store.Rows.{Db, Victim, Shelter, Booking, Transport, Incident}
use crisis_link.Store.Tx.{
  Error, ok, err, victim_not_found, victim_already_assigned, shelter_not_found, shelter_closed,
  shelter_full, invalid_shelter_status, transport_not_found, transport_incident_not_found,
  transport_unavailable, insufficient_seats, invalid_seats, booking_not_found, booking_not_active,
  incident_not_found, illegal_transition, invalid_status,
}
use crisis_link.Roles.{
  Role, Actor, responder, shelter_manager, operator, admin, owns_unit, owns_shelter, holds_role,
}
use crisis_link.Victims.{assign}
use crisis_link.Victims.Register.{get_victim, list_victims, nearest_shelters, ScoredShelter}
use crisis_link.Shelters.{update_shelter_status}
use crisis_link.Transports.{book, cancel_booking}
use crisis_link.Incidents.{update_incident_status}
use crisis_link.Presence.{Redis, out_of_range, unindexed, recorded, heartbeat}
use crisis_link.Http.{
  Reply, success, failure, Handler, Code, bad_request, missing, conflicting, internal, refused,
  answer, when_valid, when_allowed, with_roles, clamp_int,
}

abbrev pub keepers : List Role
keepers = shelter_manager ∷ operator ∷ admin ∷ []

-- The scope of GET /victims: the manager's shelter, and no restriction for the others.
unfoldable pub scope_of : Actor → Option ℕ
unfolding holds_role
scope_of actor = if holds_role actor (shelter_manager ∷ []) then actor.shelter_id else none

abbrev pub any_reply {ℓ} : {A : Type ℓ} → Error → Reply A
any_reply e = internal

-- GET /victims
unfoldable pub list : Actor → String → (limit offset : Option ℤ) → Handler (Table Victim)
unfolding list_victims scope_of holds_role
list actor status limit offset = with_roles keepers actor (
    answer 200 any_reply (
      list_victims status (scope_of actor) (clamp_int limit 50 1 200)
        (clamp_int offset 0 0 1000000)))

-- `v.ShelterID == nil || *v.ShelterID != actor.ShelterID`, where an actor without a shelter has the
-- empty id, which no shelter has.
abbrev pub is_housed_by : Actor → Victim → Bool
is_housed_by actor v = elim v.shelter_id [
  | none ↦ false
  | some i ↦ elim actor.shelter_id [ none ↦ false | some s ↦ i == s ]
]

abbrev pub victim_reply {ℓ} : {A : Type ℓ} → Error → Reply A
victim_reply victim_not_found = missing
victim_reply e = internal

-- GET /victims/:id
unfoldable pub get_by_id : Actor → ℕ → Handler Victim
unfolding get_victim holds_role
get_by_id actor id = with_roles keepers actor λ db. elim (get_victim id db) [
  | err e ↦ (victim_reply e, db)
  | ok (v, db') ↦
      if holds_role actor (shelter_manager ∷ [])
      then if is_housed_by actor v then (success 200 v, db') else (missing, db')
      else (success 200 v, db')
]

-- GET /victims/:id/shelters
unfoldable pub list_nearest_shelters :
    (ℤ → ℤ → ℤ → ℤ → ℕ) → Actor → ℕ → Option ℤ → Handler (Victim × List ScoredShelter)
unfolding nearest_shelters holds_role
list_nearest_shelters distance actor id limit =
    with_roles keepers actor
      (answer 200 victim_reply (nearest_shelters distance id (pos (clamp_int limit 5 1 50))))

abbrev pub assign_reply {ℓ} : {A : Type ℓ} → Error → Reply A
assign_reply victim_not_found = missing
assign_reply shelter_not_found = missing
assign_reply victim_already_assigned = conflicting
assign_reply shelter_closed = conflicting
assign_reply shelter_full = conflicting
assign_reply e = internal

-- POST /victims/:id/assign
unfoldable pub assign_victim :
    Actor → (victim_id shelter_id : ℕ) → Handler ((ℕ × Victim) × (ℕ × Shelter))
unfolding assign holds_role
assign_victim actor victim_id shelter_id =
    with_roles keepers actor (answer 200 assign_reply (assign victim_id shelter_id))

abbrev pub shelter_reply {ℓ} : {A : Type ℓ} → Error → Reply A
shelter_reply shelter_not_found = missing
shelter_reply invalid_shelter_status = bad_request
shelter_reply e = internal

-- PATCH /shelters/:id/status
unfoldable pub set_shelter_status : Actor → ℕ → String → Handler Shelter
unfolding update_shelter_status owns_shelter holds_role
set_shelter_status actor id status = with_roles keepers actor (
    when_valid (str_eq status "open" || str_eq status "closed") (
      when_allowed (owns_shelter actor (some id))
        (answer 200 shelter_reply (update_shelter_status id status))))

abbrev pub booking_reply {ℓ} : {A : Type ℓ} → Error → Reply A
booking_reply transport_not_found = missing
booking_reply transport_incident_not_found = missing
booking_reply transport_unavailable = conflicting
booking_reply insufficient_seats = conflicting
booking_reply invalid_seats = bad_request
booking_reply e = internal

-- POST /incidents/:id/transport-bookings; `min=1` on the seats.
unfoldable pub book_transport :
    Actor → (id transport_id incident_id : ℕ) → ℤ → Handler ((ℕ × Booking) × (ℕ × Transport))
unfolding book holds_role
book_transport actor id transport_id incident_id seats = with_roles (operator ∷ admin ∷ []) actor (
    when_valid (not (leb_ℤ seats (pos 0)))
      (answer 201 booking_reply (book id transport_id incident_id seats)))

abbrev pub cancel_reply {ℓ} : {A : Type ℓ} → Error → Reply A
cancel_reply booking_not_found = missing
cancel_reply booking_not_active = conflicting
cancel_reply e = internal

-- PATCH /transport-bookings/:id/cancel
unfoldable pub cancel_transport : Actor → ℕ → Handler ((ℕ × Booking) × (ℕ × Transport))
unfolding cancel_booking holds_role
cancel_transport actor id =
    with_roles (operator ∷ admin ∷ []) actor (answer 200 cancel_reply (cancel_booking id))

abbrev pub incident_reply {ℓ} : {A : Type ℓ} → Error → Reply A
incident_reply incident_not_found = missing
incident_reply illegal_transition = failure 409 Code.illegal_transition
incident_reply invalid_status = bad_request
incident_reply e = internal

-- binding:"oneof=…"
abbrev pub is_incident_status : String → Bool
is_incident_status s =
    str_eq s "reported"
    || (str_eq s "verified"
        || (str_eq s "dispatched" || (str_eq s "resolved" || str_eq s "cancelled")))

-- PATCH /incidents/:id/status, with what other requests commit between its read and its write.
unfoldable pub set_incident_status : Actor → (Db → Db) → ℕ → String → Handler Incident
unfolding update_incident_status holds_role
set_incident_status actor between id status = with_roles (operator ∷ admin ∷ []) actor (
    when_valid (is_incident_status status)
      (answer 200 incident_reply (update_incident_status between id status)))

-- POST /units/:id/heartbeat, where Redis answers.
unfoldable pub report_position :
    Actor
    → (indexable : ℤ → ℤ → Bool) → (now id : ℕ) → (lat lng : ℤ) → Redis
    → Reply (Unit {0}) × Redis
unfolding heartbeat owns_unit holds_role
report_position actor indexable now id lat lng r =
    if not (holds_role actor (responder ∷ operator ∷ admin ∷ []))
    then (refused, r)
    else if not (owns_unit actor (some id))
    then (refused, r)
    else elim (heartbeat indexable now id lat lng r) [
      | out_of_range ↦ (bad_request, r)
      | unindexed r' ↦ (failure 503 Code.presence_unavailable, r')
      | recorded r' ↦ (success 200 tt, r')
    ]
