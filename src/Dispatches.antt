-- ===== src/Dispatches.antt =====
-- internal/dispatch: the assignment of units to incidents. This file is model.go and the statements;
-- the children are the transactions, and what is proved of them.
pub mod Transactions
pub mod Reassignment
pub mod Outcomes
pub mod Optimistic
pub mod Replaced
pub mod Invariant
pub mod Preservation
pub mod Safety
pub mod Contention
pub mod Rely
pub mod Mirror
pub mod Lifecycle
pub mod Equivalence
pub mod Service
pub mod Rerouting
pub mod Triage
pub mod Ranking
pub mod Overwrite
pub mod Refusals
use Prim.Native.String.{String}
use text.Mathlib.Text.{◌==◌ as str_eq}
use crisis_link.Common.{
  ℕ, Bool, true, false, ◌&&◌, ◌||◌, not, Option, none, some, List, [], ◌∷◌, ◌==◌, if◌then◌else◌,
  exists_in, is_some,
}
use crisis_link.Table.{Table, find, update, count_where}
use crisis_link.Store.Rows.{Db, Dispatch, DispatchStatus, UnitStatus}
use crisis_link.Store.Tx.{
  Tx, Result, ok, err, unique_violation, foreign_key_violation, gets, modify,
}

-- IsValidDispatchStatus, with the constant that the text names.
unfoldable pub dispatch_status_of : String → Option DispatchStatus
dispatch_status_of s =
    if str_eq s "reserved"
    then some DispatchStatus.reserved
    else if str_eq s "en_route"
    then some DispatchStatus.en_route
    else if str_eq s "on_scene"
    then some DispatchStatus.on_scene
    else if str_eq s "completed"
    then some DispatchStatus.completed
    else if str_eq s "cancelled"
    then some DispatchStatus.cancelled
    else none

abbrev pub allowed_dispatch_transitions : DispatchStatus → List DispatchStatus
allowed_dispatch_transitions DispatchStatus.reserved =
    DispatchStatus.en_route ∷ DispatchStatus.cancelled ∷ []
allowed_dispatch_transitions DispatchStatus.en_route =
    DispatchStatus.on_scene ∷ DispatchStatus.cancelled ∷ []
allowed_dispatch_transitions DispatchStatus.on_scene =
    DispatchStatus.completed ∷ DispatchStatus.cancelled ∷ []
allowed_dispatch_transitions DispatchStatus.completed = []
allowed_dispatch_transitions DispatchStatus.cancelled = []

abbrev pub same_dispatch_status : DispatchStatus → DispatchStatus → Bool
same_dispatch_status DispatchStatus.reserved DispatchStatus.reserved = true
same_dispatch_status DispatchStatus.en_route DispatchStatus.en_route = true
same_dispatch_status DispatchStatus.on_scene DispatchStatus.on_scene = true
same_dispatch_status DispatchStatus.completed DispatchStatus.completed = true
same_dispatch_status DispatchStatus.cancelled DispatchStatus.cancelled = true
same_dispatch_status _ _ = false

unfoldable pub can_transition_dispatch : DispatchStatus → DispatchStatus → Bool
can_transition_dispatch from to =
    exists_in (λ s. same_dispatch_status s to) (allowed_dispatch_transitions from)

abbrev pub is_active_dispatch : DispatchStatus → Bool
is_active_dispatch s =
    same_dispatch_status s DispatchStatus.reserved
    || same_dispatch_status s DispatchStatus.en_route
    || same_dispatch_status s DispatchStatus.on_scene

abbrev pub unit_status_for_dispatch : DispatchStatus → UnitStatus
unit_status_for_dispatch DispatchStatus.reserved = UnitStatus.reserved
unit_status_for_dispatch DispatchStatus.en_route = UnitStatus.en_route
unit_status_for_dispatch DispatchStatus.on_scene = UnitStatus.on_scene
unit_status_for_dispatch _ = UnitStatus.available

abbrev pub new_dispatch : ℕ → ℕ → ℕ → Dispatch
new_dispatch incident_id unit_id now = record {
  incident_id = incident_id;
  unit_id = unit_id;
  status = DispatchStatus.reserved;
  created_at = now;
  updated_at = now;
}

-- A row of the partial unique index on unit_id.
abbrev pub holds_unit : ℕ → Dispatch → Bool
holds_unit unit_id d = d.unit_id == unit_id && is_active_dispatch d.status

-- INSERT INTO dispatches, with the primary key, the partial unique index and the references of
-- its table; the generated id is an argument.
unfoldable pub insert_dispatch : ℕ → ℕ → ℕ → Tx (ℕ × Dispatch)
insert_dispatch id incident_id unit_id db =
    if is_some (find id db.dispatches) || exists_in (λ (_, d). holds_unit unit_id d) db.dispatches
    then err unique_violation
    else if is_some (find incident_id db.incidents) && is_some (find unit_id db.units)
    then ok (
      (id, new_dispatch incident_id unit_id db.now),
      record db { dispatches = (id, new_dispatch incident_id unit_id db.now) ∷ db.dispatches },
    )
    else err foreign_key_violation

abbrev pub set_dispatch_status : DispatchStatus → ℕ → Dispatch → Dispatch
set_dispatch_status s now d = record d { status = s; updated_at = now }

unfoldable pub write_dispatch_status : ℕ → DispatchStatus → Tx (Unit {0})
write_dispatch_status id s =
    modify λ db. record db { dispatches = update id (set_dispatch_status s db.now) db.dispatches }

-- An active dispatch of the incident.
abbrev pub serves : ℕ → Dispatch → Bool
serves incident_id d = d.incident_id == incident_id && is_active_dispatch d.status

-- SELECT count(*) of the active dispatches of an incident.
unfoldable pub count_active : ℕ → Tx ℕ
count_active incident_id = gets λ db. count_where (serves incident_id) db.dispatches
