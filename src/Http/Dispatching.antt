-- ===== src/Http/Dispatching.antt =====
-- internal/dispatch/handler.go and reassign_handler.go, behind the roles that the routes of
-- internal/server/server.go ask for.
use Prim.Native.String.{String}
use text.Mathlib.Text.{◌==◌ as str_eq}
use crisis_link.Common.{ℕ, Bool, ◌||◌, Option, none, some, List, [], ◌∷◌, if◌then◌else◌}
use crisis_link.Common.Int.{ℤ, pos}
use crisis_link.Table.{find}
use crisis_link.Store.Rows.{Dispatch, Incident}
use crisis_link.Store.Tx.{
  Tx, Error, ok, err, gets, row_or, ◌>>=◌, incident_not_found, unit_not_found, unit_unavailable,
  incident_not_dispatchable, reservation_conflict, dispatch_not_found, illegal_dispatch_transition,
  invalid_dispatch_status, no_reassign_candidate,
}
use crisis_link.Roles.{Actor, responder, operator, admin, owns_unit, holds_role}
use crisis_link.Units.{unit_type_of}
use crisis_link.Dispatches.Transactions.{Rivals}
use crisis_link.Dispatches.Reassignment.{Preemptable}
use crisis_link.Dispatches.Service.{
  ReserveStrategy, pessimistic, optimistic, service_reserve, service_advance_status, NearbyUnit,
  ScoredUnit, PositionSource, candidates, reroute, preempt, preemptable_for,
}
use crisis_link.Http.{
  Reply, Handler, bad_request, missing, conflicting, internal, answer, when_valid, when_allowed,
  with_roles, clamp_int,
}

-- DispatchService.GetDispatch
unfoldable pub get_dispatch : ℕ → Tx (ℕ × Dispatch)
get_dispatch id = do
  d ← row_or dispatch_not_found (← gets (λ db. find id db.dispatches))
  gets (λ db. (id, d))

abbrev pub get_reply {ℓ} : {A : Type ℓ} → Error → Reply A
get_reply dispatch_not_found = missing
get_reply e = internal

-- The switch of Dispatch on the service's errors.
abbrev pub dispatch_reply : Error → Reply (ℕ × Dispatch)
dispatch_reply incident_not_found = missing
dispatch_reply unit_not_found = missing
dispatch_reply unit_unavailable = conflicting
dispatch_reply incident_not_dispatchable = conflicting
dispatch_reply reservation_conflict = conflicting
dispatch_reply e = internal

-- ?strategy=
unfoldable pub strategy_of : String → Option ReserveStrategy
strategy_of s =
    if str_eq s "" || str_eq s "pessimistic"
    then some pessimistic
    else if str_eq s "optimistic"
    then some optimistic
    else none

-- POST /incidents/:id/dispatch. The unit's id comes from the body and is only required: `none` is a
-- text that is no UUID, which the first statement of either path casts and Postgres refuses.
unfoldable pub dispatch :
    Actor → (ℕ → Rivals) → String → (id incident_id : ℕ) → Option ℕ → Handler (ℕ × Dispatch)
unfolding strategy_of service_reserve holds_role
dispatch actor rivals strategy id incident_id unit_id =
    with_roles (operator ∷ admin ∷ []) actor (λ db. elim (strategy_of strategy) [
      | none ↦ (bad_request, db)
      | some s ↦ elim unit_id [
        | none ↦ (internal, db)
        | some u ↦ answer 201 dispatch_reply (service_reserve s rivals id incident_id u) db
      ]
    ])

abbrev pub advance_reply : Error → Reply (ℕ × Dispatch)
advance_reply dispatch_not_found = missing
advance_reply illegal_dispatch_transition = conflicting
advance_reply invalid_dispatch_status = bad_request
advance_reply e = internal

-- binding:"oneof=…"
abbrev pub is_advance_target : String → Bool
is_advance_target s =
    str_eq s "en_route" || (str_eq s "on_scene" || (str_eq s "completed" || str_eq s "cancelled"))

-- PATCH /dispatches/:id/status: the dispatch is looked up for its unit first.
unfoldable pub advance : Actor → ℕ → String → Handler (ℕ × Dispatch)
unfolding get_dispatch service_advance_status owns_unit holds_role
advance actor id status = with_roles (responder ∷ operator ∷ admin ∷ []) actor (
    when_valid (is_advance_target status) λ db. elim (get_dispatch id db) [
      | err e ↦ (get_reply e, db)
      | ok ((_, existing), db') ↦
          when_allowed (owns_unit actor (some existing.unit_id))
            (answer 200 advance_reply (service_advance_status id status)) db'
    ])

-- GET /dispatches/:id
unfoldable pub get : ℕ → Handler (ℕ × Dispatch)
unfolding get_dispatch
get id = answer 200 get_reply (get_dispatch id)

-- reassignError
abbrev pub reassign_reply {ℓ} : {A : Type ℓ} → Error → Reply A
reassign_reply dispatch_not_found = missing
reassign_reply incident_not_found = missing
reassign_reply illegal_dispatch_transition = conflicting
reassign_reply incident_not_dispatchable = conflicting
reassign_reply no_reassign_candidate = conflicting
reassign_reply e = internal

abbrev pub candidates_reply {ℓ} : {A : Type ℓ} → Error → Reply A
candidates_reply incident_not_found = missing
candidates_reply e = internal

module _ (distance : ℤ → ℤ → ℤ → ℤ → ℕ) (nearby_live : ℤ → ℤ → ℕ → Option (List NearbyUnit)) where
  -- POST /dispatches/:id/reroute
  unfoldable pub reroute_dispatch : Actor → (id old_id : ℕ) → Handler (ℕ × Dispatch)
  unfolding reroute holds_role
  reroute_dispatch actor id old_id =
      with_roles (operator ∷ admin ∷ []) actor
        (answer 201 reassign_reply (reroute distance nearby_live id old_id))

  -- POST /incidents/:id/preempt
  unfoldable pub preempt_for : Actor → (id incident_id : ℕ) → Handler (ℕ × Dispatch)
  unfolding preempt holds_role
  preempt_for actor id incident_id =
      with_roles (operator ∷ admin ∷ []) actor
        (answer 201 reassign_reply (preempt distance nearby_live id incident_id))

  -- GET /incidents/:id/preemptable
  unfoldable pub preemptable : Actor → ℕ → Handler (Incident × List Preemptable)
  unfolding preemptable_for holds_role
  preemptable actor incident_id =
      with_roles (operator ∷ admin ∷ []) actor
        (answer 200 reassign_reply (preemptable_for distance nearby_live incident_id))

  -- GET /incidents/:id/candidates
  unfoldable pub list_candidates :
      ℕ → String → Option ℤ → Handler (Incident × List ScoredUnit × PositionSource)
  unfolding candidates
  list_candidates incident_id preferred raw =
      let limit = pos (clamp_int raw 5 1 50) in
      if str_eq preferred ""
      then answer 200 candidates_reply (candidates distance nearby_live incident_id none limit)
      else λ db. elim (unit_type_of preferred) [
        | none ↦ (bad_request, db)
        | some t ↦
            answer 200 candidates_reply (candidates distance nearby_live incident_id (some t) limit)
              db
      ]
