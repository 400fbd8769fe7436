-- ===== src/Dispatches/Reassignment.antt =====
-- internal/dispatch/reassign.go: one transaction that ends a dispatch and begins another.
use Prim.Native.String.{String}
use crisis_link.Common.{
  ℕ, not, ◌&&◌, Option, none, some, List, [], ◌∷◌, ◌==◌, ltb, if◌then◌else◌, take,
}
use crisis_link.Common.Int.{ℤ}
use crisis_link.Common.Sort.{sort_by}
use crisis_link.Table.{Table, find}
use crisis_link.Store.Rows.{
  Db, Dispatch, DispatchStatus, UnitStatus, EventType, AggregateType, Payload, Severity, Incident,
  RescueUnit,
}
use crisis_link.Store.Tx.{
  Tx, pure, gets, guard, when, row_or, duplicate_as, ◌>>=◌, ◌>>◌, unit_not_available,
  incident_not_dispatchable, dispatch_not_found, illegal_dispatch_transition,
}
use crisis_link.Units.{is_available, lock_for_reserve, mark_reserved, set_unit_status}
use crisis_link.Incidents.{is_closed, status_tx, mark_dispatched, revert_to_verified}
use crisis_link.Outbox.{write_tx}
use crisis_link.Dispatches.{
  is_active_dispatch, insert_dispatch, write_dispatch_status, count_active,
}

-- Step 2: the unit rows are locked in the order of their ids, and the incoming one is read again.
unfoldable pub lock_units : ℕ → ℕ → Tx (Unit {0})
unfolding lock_for_reserve
lock_units old_unit new_unit =
    if old_unit == new_unit then (do lock_for_reserve old_unit; pure tt) else (do
      lock_for_reserve (if ltb new_unit old_unit then new_unit else old_unit)
      lock_for_reserve (if ltb new_unit old_unit then old_unit else new_unit)
      new_status ← lock_for_reserve new_unit
      guard (is_available new_status) unit_not_available)

-- Step 5
unfoldable pub move_unit : ℕ → ℕ → Tx (Unit {0})
unfolding set_unit_status mark_reserved
move_unit old_unit new_unit =
    when (not (old_unit == new_unit))
      (do set_unit_status old_unit UnitStatus.available; mark_reserved new_unit)

-- Step 7
unfoldable pub release_incident : ℕ → ℕ → Tx (Unit {0})
unfolding count_active revert_to_verified
release_incident old_incident new_incident = when (not (old_incident == new_incident)) (do
  still_active ← count_active old_incident
  when (still_active == 0) (revert_to_verified old_incident))

-- DispatchRepository.Reassign: `id` is the id of the new row.
unfoldable pub reassign : ℕ → ℕ → ℕ → ℕ → EventType → Tx (ℕ × Dispatch)
unfolding status_tx write_dispatch_status insert_dispatch mark_dispatched write_tx
reassign id old_id new_incident new_unit event = do
  old ← row_or dispatch_not_found (← gets (λ db. find old_id db.dispatches))
  guard (is_active_dispatch old.status) illegal_dispatch_transition
  lock_units old.unit_id new_unit
  incident_status ← status_tx new_incident
  guard (not (is_closed incident_status)) incident_not_dispatchable
  write_dispatch_status old_id DispatchStatus.cancelled
  move_unit old.unit_id new_unit
  (nd_id, nd) ← duplicate_as unit_not_available (insert_dispatch id new_incident new_unit)
  mark_dispatched new_incident
  release_incident old.incident_id new_incident
  write_tx AggregateType.dispatch nd_id event
      (Payload.replaced nd_id nd.incident_id nd.unit_id old_id old.incident_id old.unit_id)
  pure (nd_id, nd)

-- The CASE of the query.
abbrev pub severity_rank : Severity → ℕ
severity_rank Severity.critical = 4
severity_rank Severity.high = 3
severity_rank Severity.medium = 2
severity_rank Severity.low = 1

pub record Preemptable : Type 0 where
  pub dispatch_id : ℕ
  pub unit_id : ℕ
  pub incident_id : ℕ
  pub severity : Severity
  pub call_sign : String
  pub distance_meters : ℕ

-- The distance in metres is PostGIS's.
module _ (distance : ℤ → ℤ → ℤ → ℤ → ℕ) where
  abbrev pub joined :
      ℤ → ℤ → ℕ → Dispatch → Option Incident → Option RescueUnit → Option Preemptable
  joined lat lng id d (some i) (some u) = some (record {
    dispatch_id = id;
    unit_id = d.unit_id;
    incident_id = d.incident_id;
    severity = i.severity;
    call_sign = u.call_sign;
    distance_meters = distance lat lng u.latitude u.longitude;
  })
  joined lat lng id d _ _ = none

  -- The rows of the join that pass the WHERE clause.
  abbrev pub preemptable_rows : Severity → ℤ → ℤ → Db → Table Dispatch → List Preemptable
  preemptable_rows severity lat lng db [] = []
  preemptable_rows severity lat lng db ((id, d) ∷ rest) =
      let others = preemptable_rows severity lat lng db rest in
      elim (joined lat lng id d (find d.incident_id db.incidents) (find d.unit_id db.units)) [
        | none ↦ others
        | some p ↦
            if is_active_dispatch d.status
              && ltb (severity_rank p.severity) (severity_rank severity)
            then p ∷ others
            else others
      ]

  unfoldable pub find_preemptable : Severity → ℤ → ℤ → ℕ → Tx (List Preemptable)
  find_preemptable severity lat lng limit = gets λ db.
      take limit
        (sort_by (λ p. p.distance_meters) (preemptable_rows severity lat lng db db.dispatches))
