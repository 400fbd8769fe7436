-- ===== src/Dispatches/Invariant.antt =====
-- The invariants of the units, incidents and dispatches, stated of the tables.
use crisis_link.Common.{
  ℕ, ◌≡◌, Bool, true, false, not, Option, none, some, ◌∷◌, arith, exists_in, if◌then◌else◌,
}
use crisis_link.Table.{Table, find, update, update_where}
use crisis_link.Table.Laws.{find-update, exists_in-find}
use crisis_link.Store.Rows.{
  RescueUnit, Incident, Dispatch, DispatchStatus, UnitStatus, IncidentStatus,
}
use crisis_link.Units.{is_available, set_status}
use crisis_link.Incidents.{is_undispatched, set_incident_status}
use crisis_link.Dispatches.{holds_unit, new_dispatch, set_dispatch_status, is_active_dispatch}

-- What the partial unique index says: no two active dispatches hold one unit.
abbrev pub OneActive : Table Dispatch → Type 0
OneActive ds =
    (i j : ℕ) (d e : Dispatch)
    → find i ds ≡ some d
    → find j ds ≡ some e
    → is_active_dispatch d.status ≡ true
    → is_active_dispatch e.status ≡ true
    → d.unit_id ≡ e.unit_id
    → i ≡ j

abbrev pub is_held : Option RescueUnit → Bool
is_held none = false
is_held (some u) = not (is_available u.status)

-- The unit of an active dispatch exists and is not available.
abbrev pub Held : Table RescueUnit → Table Dispatch → Type 0
Held us ds =
    (i : ℕ) (d : Dispatch)
    → find i ds ≡ some d
    → is_active_dispatch d.status ≡ true
    → is_held (find d.unit_id us) ≡ true

abbrev pub is_attended : Option Incident → Bool
is_attended none = false
is_attended (some i) = not (is_undispatched i.status)

-- The incident of an active dispatch exists, and is not waiting as reported or verified.
abbrev pub Attended : Table Incident → Table Dispatch → Type 0
Attended is ds =
    (i : ℕ) (d : Dispatch)
    → find i ds ≡ some d
    → is_active_dispatch d.status ≡ true
    → is_attended (find d.incident_id is) ≡ true

pub OneActive-insert :
    (id incident_id unit_id now : ℕ) (ds : Table Dispatch)
    → OneActive ds
    → exists_in (λ (_, d). holds_unit unit_id d) ds ≡ false
    → OneActive ((id, new_dispatch incident_id unit_id now) ∷ ds)
OneActive-insert id incident_id unit_id now ds one free i j d e fi fj ai aj same = ground (
  arith,
  one i j d e,
  exists_in-find (λ (_, d). holds_unit unit_id d) ds i d free,
  exists_in-find (λ (_, d). holds_unit unit_id d) ds j e free,
)

pub OneActive-set :
    (id now : ℕ) (s : DispatchStatus) (cur : Dispatch) (ds : Table Dispatch)
    → OneActive ds
    → find id ds ≡ some cur
    → is_active_dispatch cur.status ≡ true
    → OneActive (update id (set_dispatch_status s now) ds)
OneActive-set id now s cur ds one found act i j d e fi fj ai aj same = ground (
  arith,
  find-update i id (set_dispatch_status s now) ds,
  find-update j id (set_dispatch_status s now) ds,
  one i j d e,
  one id j cur e,
  one i id d cur,
)

-- A unit that leaves `available`, and one that nobody holds, may change their status.
pub Held-set_unit :
    (unit_id now : ℕ) (s : UnitStatus) (us : Table RescueUnit) (ds : Table Dispatch)
    → Held us ds
    → ((i : ℕ) (d : Dispatch)
        → find i ds ≡ some d
        → holds_unit unit_id d ≡ true
        → is_available s ≡ false)
    → Held (update unit_id (set_status s now) us) ds
Held-set_unit unit_id now s us ds held free i d found act =
    ground (arith, held i d, free i d, find-update d.unit_id unit_id (set_status s now) us)

-- The same for a write under a guard.
pub Held-set_where :
    (unit_id now : ℕ) (p : RescueUnit → Bool) (us : Table RescueUnit) (ds : Table Dispatch)
    → Held us ds
    → Held (update_where unit_id p (set_status UnitStatus.reserved now) us) ds
Held-set_where unit_id now p us ds held i d found act = ground (
  arith,
  held i d,
  find-update d.unit_id unit_id (λ u. if p u then set_status UnitStatus.reserved now u else u) us,
)

pub Held-insert :
    (id incident_id unit_id now : ℕ) (us : Table RescueUnit) (ds : Table Dispatch)
    → Held us ds
    → is_held (find unit_id us) ≡ true
    → Held us ((id, new_dispatch incident_id unit_id now) ∷ ds)
Held-insert id incident_id unit_id now us ds held h i d found act = ground (arith, held i d)

pub Held-set :
    (id now : ℕ) (s : DispatchStatus) (cur : Dispatch) (us : Table RescueUnit) (ds : Table Dispatch)
    → Held us ds
    → find id ds ≡ some cur
    → is_active_dispatch cur.status ≡ true
    → Held us (update id (set_dispatch_status s now) ds)
Held-set id now s cur us ds held found act i d fi ai =
    ground (arith, held i d, held id cur, find-update i id (set_dispatch_status s now) ds)

pub Attended-insert :
    (id incident_id unit_id now : ℕ) (is : Table Incident) (ds : Table Dispatch)
    → Attended is ds
    → is_attended (find incident_id is) ≡ true
    → Attended is ((id, new_dispatch incident_id unit_id now) ∷ ds)
Attended-insert id incident_id unit_id now is ds att h i d found act = ground (arith, att i d)

pub Attended-set :
    (id now : ℕ) (s : DispatchStatus) (cur : Dispatch) (is : Table Incident) (ds : Table Dispatch)
    → Attended is ds
    → find id ds ≡ some cur
    → is_active_dispatch cur.status ≡ true
    → Attended is (update id (set_dispatch_status s now) ds)
Attended-set id now s cur is ds att found act i d fi ai =
    ground (arith, att i d, att id cur, find-update i id (set_dispatch_status s now) ds)

-- A guarded move of an incident, to a status that waits only if no active dispatch serves it.
pub Attended-move :
    (incident_id now : ℕ) (p : Incident → Bool) (s : IncidentStatus) (is : Table Incident)
    (ds : Table Dispatch)
    → Attended is ds
    → ((i : ℕ) (d : Dispatch)
        → find i ds ≡ some d
        → is_active_dispatch d.status ≡ true
        → d.incident_id ≡ incident_id
        → is_undispatched s ≡ false)
    → Attended (update_where incident_id p (set_incident_status s now) is) ds
Attended-move incident_id now p s is ds att served i d found act = ground (
  arith,
  att i d,
  served i d,
  find-update d.incident_id incident_id (λ a. if p a then set_incident_status s now a else a) is,
)
