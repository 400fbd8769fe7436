-- ===== src/Dispatches/Transactions.antt =====
-- The transactions of internal/dispatch/repository.go.
use crisis_link.Common.{ℕ, Bool, true, false, not, Option, none, some, ◌==◌, zero, suc}
use crisis_link.Table.{find}
use crisis_link.Store.Rows.{Db, Dispatch, DispatchStatus, EventType, AggregateType, Payload}
use crisis_link.Store.Tx.{
  Tx, pure, raise, gets, modify, guard, when, row_or, duplicate_as, ◌>>=◌, ◌>>◌, unit_not_available,
  incident_not_dispatchable, dispatch_not_found, illegal_dispatch_transition, reservation_conflict,
  no_rows,
}
use crisis_link.Units.{
  is_available, lock_for_reserve, read_version, mark_reserved, mark_reserved_cas, set_unit_status,
}
use crisis_link.Incidents.{is_closed, status_tx, mark_dispatched, resolve_if_dispatched}
use crisis_link.Outbox.{write_tx}
use crisis_link.Dispatches.{
  can_transition_dispatch, unit_status_for_dispatch, insert_dispatch, write_dispatch_status,
  count_active, same_dispatch_status,
}

-- The end that both reservation paths share: the row, the incident, the event.
record_dispatch : ℕ → ℕ → ℕ → Tx (ℕ × Dispatch)
unfolding insert_dispatch mark_dispatched write_tx
record_dispatch id incident_id unit_id = do
  (d_id, d) ← duplicate_as unit_not_available (insert_dispatch id incident_id unit_id)
  mark_dispatched incident_id
  write_tx AggregateType.dispatch d_id EventType.dispatch_created
      (Payload.created d_id d.incident_id d.unit_id)
  pure (d_id, d)

-- DispatchRepository.Reserve: `id` is the id of the new row.
unfoldable pub reserve : ℕ → ℕ → ℕ → Tx (ℕ × Dispatch)
unfolding record_dispatch lock_for_reserve status_tx mark_reserved
reserve id incident_id unit_id = do
  unit_status ← lock_for_reserve unit_id
  guard (is_available unit_status) unit_not_available
  incident_status ← status_tx incident_id
  guard (not (is_closed incident_status)) incident_not_dispatchable
  mark_reserved unit_id
  record_dispatch id incident_id unit_id

-- What other transactions commit during one optimistic attempt while it holds no lock: before it
-- reads the incident, and before its compare-and-swap. From the swap on it runs alone here, though
-- in PostgreSQL only the rows that it has written are locked.
pub record Rivals : Type 0 where
  pub before_incident : Db → Db
  pub before_swap : Db → Db

abbrev claim : Bool → Tx (ℕ × Dispatch) → Tx (Option (ℕ × Dispatch))
claim true record_it = do d ← record_it; pure (some d)
claim false record_it = pure none

-- tryReserveOptimistic; `none` is its request to retry.
unfoldable pub try_reserve_optimistic : Rivals → ℕ → ℕ → ℕ → Tx (Option (ℕ × Dispatch))
unfolding record_dispatch read_version status_tx mark_reserved_cas
try_reserve_optimistic rivals id incident_id unit_id = do
  (status, version) ← read_version unit_id
  guard (is_available status) unit_not_available
  modify rivals.before_incident
  incident_status ← status_tx incident_id
  guard (not (is_closed incident_status)) incident_not_dispatchable
  modify rivals.before_swap
  won ← mark_reserved_cas unit_id version
  claim won (record_dispatch id incident_id unit_id)

abbrev pub max_optimistic_retries : ℕ
max_optimistic_retries = 3

abbrev or_retry : Option (ℕ × Dispatch) → Tx (ℕ × Dispatch) → Tx (ℕ × Dispatch)
or_retry (some d) again = pure d
or_retry none again = again

-- The loop, by the attempts left.
unfoldable pub reserve_attempts : ℕ → (ℕ → Rivals) → ℕ → ℕ → ℕ → Tx (ℕ × Dispatch)
reserve_attempts zero rivals id incident_id unit_id = raise reservation_conflict
reserve_attempts (suc n) rivals id incident_id unit_id = do
  d ← try_reserve_optimistic (rivals n) id incident_id unit_id
  or_retry d (reserve_attempts n rivals id incident_id unit_id)

unfoldable pub reserve_optimistic : (ℕ → Rivals) → ℕ → ℕ → ℕ → Tx (ℕ × Dispatch)
unfolding reserve_attempts
reserve_optimistic = reserve_attempts max_optimistic_retries

-- The branch of AdvanceStatus for `newStatus == DispatchCompleted`.
complete_dispatch : ℕ → Dispatch → Tx (Unit {0})
unfolding count_active resolve_if_dispatched write_tx
complete_dispatch id d = do
  active ← count_active d.incident_id
  when (active == 0) (resolve_if_dispatched d.incident_id)
  write_tx AggregateType.dispatch id EventType.dispatch_completed
      (Payload.finished id d.incident_id d.unit_id (active == 0))

-- DispatchRepository.AdvanceStatus
unfoldable pub advance_status : ℕ → DispatchStatus → Tx (ℕ × Dispatch)
unfolding complete_dispatch write_dispatch_status set_unit_status can_transition_dispatch
advance_status id new_status = do
  cur ← row_or dispatch_not_found (← gets (λ db. find id db.dispatches))
  guard (can_transition_dispatch cur.status new_status) illegal_dispatch_transition
  write_dispatch_status id new_status
  d ← row_or no_rows (← gets (λ db. find id db.dispatches))
  set_unit_status cur.unit_id (unit_status_for_dispatch new_status)
  when (same_dispatch_status new_status DispatchStatus.completed) (complete_dispatch id d)
  pure (id, d)
