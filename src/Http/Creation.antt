-- ===== src/Http/Creation.antt =====
-- The handlers that create rows, with the bounds of their bodies, and the operator's override of a
-- unit's status (Create of unit/handler.go, shelter/handler.go, transport/handler.go,
-- incident/handler.go and victim/handler.go, and UpdateStatus of unit/handler.go). `runes` is the
-- number of characters by which the validator measures a text.
use Prim.Native.String.{String}
use crisis_link.Common.{ℕ, Bool, not, if◌then◌else◌, ◌&&◌, [], ◌∷◌, is_some, leb}
use crisis_link.Common.Int.{pos, leb_ℤ}
use crisis_link.Store.Rows.{RescueUnit, Incident, Shelter, Victim, Transport}
use crisis_link.Store.Tx.{
  Error, ok, err, unit_not_found, invalid_coordinates, invalid_unit_type, invalid_unit_status,
  duplicate_call_sign, duplicate_shelter_name, invalid_capacity, invalid_kind,
  invalid_transport_capacity, duplicate_transport_call_sign, invalid_severity,
}
use crisis_link.Common.Int.{ℤ}
use crisis_link.Geo.{is_on_earth}
use crisis_link.Roles.{Actor, operator, admin, holds_role}
use crisis_link.Units.{
  CreateUnitInput, create_unit, update_unit_status, unit_type_of, unit_status_of,
}
use crisis_link.Shelters.{CreateShelterInput, create_shelter}
use crisis_link.Transports.{CreateInput, create_transport, kind_of}
use crisis_link.Incidents.{CreateIncidentInput, create_incident, severity_of}
use crisis_link.Victims.{CreateVictimInput, create_victim}
use crisis_link.Http.{
  Reply, success, failure, Handler, Code, bad_request, missing, conflicting, internal, answer,
  when_valid, with_roles,
}

abbrev pub unit_reply {ℓ} : {A : Type ℓ} → Error → Reply A
unit_reply duplicate_call_sign = failure 409 Code.duplicate_call_sign
unit_reply invalid_unit_type = bad_request
unit_reply invalid_coordinates = bad_request
unit_reply e = internal

abbrev pub unit_status_reply {ℓ} : {A : Type ℓ} → Error → Reply A
unit_status_reply unit_not_found = missing
unit_status_reply invalid_unit_status = bad_request
unit_status_reply e = internal

abbrev pub shelter_create_reply {ℓ} : {A : Type ℓ} → Error → Reply A
shelter_create_reply duplicate_shelter_name = failure 409 Code.duplicate_name
shelter_create_reply invalid_capacity = bad_request
shelter_create_reply invalid_coordinates = bad_request
shelter_create_reply e = internal

abbrev pub transport_create_reply {ℓ} : {A : Type ℓ} → Error → Reply A
transport_create_reply invalid_kind = bad_request
transport_create_reply invalid_transport_capacity = bad_request
transport_create_reply invalid_coordinates = bad_request
transport_create_reply duplicate_transport_call_sign = conflicting
transport_create_reply e = internal

abbrev pub incident_create_reply {ℓ} : {A : Type ℓ} → Error → Reply A
incident_create_reply invalid_severity = bad_request
incident_create_reply invalid_coordinates = bad_request
incident_create_reply e = internal

abbrev pub victim_create_reply {ℓ} : {A : Type ℓ} → Error → Reply A
victim_create_reply invalid_coordinates = bad_request
victim_create_reply e = internal

-- PATCH /units/:id/status
unfoldable pub set_unit_override : Actor → ℕ → String → Handler RescueUnit
unfolding update_unit_status unit_status_of holds_role
set_unit_override actor id status = with_roles (operator ∷ admin ∷ []) actor (
    when_valid (is_some (unit_status_of status))
      (answer 200 unit_status_reply (update_unit_status id status)))

-- The reporter is the caller, whatever the body says.
abbrev pub reported_by : Actor → CreateIncidentInput → CreateIncidentInput
reported_by actor body = record body { reporter_id = actor.user_id }

-- 200 for a report that was merged, 201 for a new incident.
abbrev pub report_status : Bool → ℕ
report_status merged = if merged then 200 else 201

module _ (runes : String → ℕ) where
  abbrev pub has_runes : (lo hi : ℕ) → String → Bool
  has_runes lo hi s = leb lo (runes s) && leb (runes s) hi

  abbrev pub is_unit_body : CreateUnitInput → Bool
  is_unit_body b =
      has_runes 2 50 b.call_sign
      && (is_some (unit_type_of b.type) && is_on_earth b.latitude b.longitude)

  -- POST /units
  unfoldable pub post_unit : Actor → ℕ → CreateUnitInput → Handler (ℕ × RescueUnit)
  unfolding create_unit unit_type_of holds_role
  post_unit actor id body =
      with_roles (admin ∷ []) actor
        (when_valid (is_unit_body body) (answer 201 unit_reply (create_unit id body)))

  abbrev pub is_shelter_body : CreateShelterInput → Bool
  is_shelter_body b =
      has_runes 2 100 b.name
      && (not (leb_ℤ b.capacity (pos 0)) && is_on_earth b.latitude b.longitude)

  -- POST /shelters
  unfoldable pub post_shelter : Actor → ℕ → CreateShelterInput → Handler (ℕ × Shelter)
  unfolding create_shelter holds_role
  post_shelter actor id body =
      with_roles (admin ∷ []) actor (
        when_valid (is_shelter_body body)
          (answer 201 shelter_create_reply (create_shelter id body)))

  -- The body does not bound the coordinates.
  abbrev pub is_transport_body : CreateInput → Bool
  is_transport_body b =
      has_runes 2 32 b.call_sign && (is_some (kind_of b.kind) && not (leb_ℤ b.capacity (pos 0)))

  -- POST /transports
  unfoldable pub post_transport : Actor → ℕ → CreateInput → Handler (ℕ × Transport)
  unfolding create_transport kind_of holds_role
  post_transport actor id body = with_roles (admin ∷ []) actor (
      when_valid (is_transport_body body)
        (answer 201 transport_create_reply (create_transport id body)))

  abbrev pub is_victim_body : CreateVictimInput → Bool
  is_victim_body b =
      has_runes 1 100 b.name && (leb (runes b.notes) 2000 && is_on_earth b.latitude b.longitude)

  -- POST /victims
  unfoldable pub post_victim : ℕ → CreateVictimInput → Handler (ℕ × Victim)
  unfolding create_victim
  post_victim id body =
      when_valid (is_victim_body body) (answer 201 victim_create_reply (create_victim id body))

  abbrev pub is_report : CreateIncidentInput → Bool
  is_report b =
      has_runes 3 200 b.title
      && (leb (runes b.description) 2000
          && (is_some (severity_of b.severity) && is_on_earth b.latitude b.longitude))

  -- POST /incidents
  unfoldable pub post_incident :
      (ℤ → ℤ → ℤ → ℤ → ℕ) → Actor → ℕ → CreateIncidentInput → Handler (ℕ × Incident)
  unfolding create_incident severity_of
  post_incident distance actor id body = when_valid (is_report body) λ db.
      elim (create_incident distance id (reported_by actor body) db) [
        | ok ((row, merged), db') ↦ (success (report_status merged) row, db')
        | err e ↦ (incident_create_reply e, db)
      ]
