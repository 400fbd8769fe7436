-- ===== src/Dispatches/Mirror.antt =====
-- Does the status of a unit mirror its active dispatch? (UnitStatusForDispatch, and the step of
-- Reassign that moves the unit.)
use mathlib.Core.Option
use crisis_link.Common.{ℕ, ◌≡◌, ◌≢◌, true, Option, some, arith}
use crisis_link.Table.{Table, find, update}
use crisis_link.Table.Laws.{find-update, find-update_self, exists_in-find}
use crisis_link.Store.Rows.{Db, RescueUnit, Dispatch, DispatchStatus, UnitStatus, EventType}
use crisis_link.Store.Tx.{ok, after, after-keeps}
use crisis_link.Units.{set_status}
use crisis_link.Dispatches.{
  holds_unit, new_dispatch, set_dispatch_status, is_active_dispatch, unit_status_for_dispatch,
}
use crisis_link.Dispatches.Transactions.{reserve, advance_status}
use crisis_link.Dispatches.Reassignment.{reassign}
use crisis_link.Dispatches.Outcomes.{reserve-Reservation, advance_status-Advance}
use crisis_link.Dispatches.Replaced.{reassign-Replacement, without_old}
use crisis_link.Dispatches.Preservation.{WellFormed, legal-active}

abbrev pub status_of : Option RescueUnit → Option UnitStatus
status_of = Option.map (λ u. u.status)

-- The unit of each active dispatch has the status that the dispatch implies.
abbrev pub Mirrored : Table RescueUnit → Table Dispatch → Type 0
Mirrored us ds =
    (i : ℕ) (d : Dispatch)
    → find i ds ≡ some d
    → is_active_dispatch d.status ≡ true
    → status_of (find d.unit_id us) ≡ some (unit_status_for_dispatch d.status)

abbrev pub IsMirrored : Db → Type 0
IsMirrored db = Mirrored db.units db.dispatches

-- If the unit of each active dispatch has the status that the dispatch implies, then so it is
-- after Reserve, whether it commits or fails.
pub reserve-IsMirrored :
    (id incident_id unit_id : ℕ) (db : Db)
    → IsMirrored db
    → IsMirrored (after db (reserve id incident_id unit_id db))
reserve-IsMirrored id incident_id unit_id db m =
    after-keeps IsMirrored (reserve id incident_id unit_id) db m (λ d db' h.
      let (r, _, e) = reserve-Reservation id incident_id unit_id db d db' h in
      rw e (λ i x f a. ground (
        arith,
        m i x,
        find-update x.unit_id unit_id (set_status UnitStatus.reserved db.now) db.units,
        find-update_self unit_id (set_status UnitStatus.reserved db.now) db.units r.unit,
        exists_in-find (λ (_, y). holds_unit unit_id y) db.dispatches i x r.unit_unheld,
      )))

-- In a well-formed database where the unit of each active dispatch has the status that the
-- dispatch implies, so it is after AdvanceStatus, whether it commits or fails.
pub advance_status-IsMirrored :
    (id : ℕ) (s : DispatchStatus) (db : Db)
    → WellFormed db
    → IsMirrored db
    → IsMirrored (after db (advance_status id s db))
advance_status-IsMirrored id s db w m =
    after-keeps IsMirrored (advance_status id s) db m (λ d db' h.
      let r = advance_status-Advance id s db d db' h in
      let act = legal-active r.cur.status s r.legal in
      rw r.db_after (λ i x f a. ground (
        arith,
        m i x,
        m id r.cur,
        w.one_active i id x r.cur,
        find-update i id (set_dispatch_status s db.now) db.dispatches,
        find-update x.unit_id r.cur.unit_id (set_status (unit_status_for_dispatch s) db.now)
            db.units,
      )))

-- In a well-formed database where the unit of each active dispatch has the status that the
-- dispatch implies, so it is after a Reassign to another unit, whether it commits or fails.
pub reroute-IsMirrored :
    (id old_id new_incident new_unit : ℕ) (event : EventType) (old : Dispatch) (db : Db)
    → WellFormed db
    → IsMirrored db
    → find old_id db.dispatches ≡ some old
    → old.unit_id ≢ new_unit
    → IsMirrored (after db (reassign id old_id new_incident new_unit event db))
reroute-IsMirrored id old_id new_incident new_unit event old db w m fo other =
    after-keeps IsMirrored (reassign id old_id new_incident new_unit event) db m (λ d db' h.
      let (r, _) = reassign-Replacement id old_id new_incident new_unit event db d db' h in
      let us : Table RescueUnit =
        update old.unit_id (set_status UnitStatus.available db.now) db.units in
      let same : r.old ≡ old = ground arith in
      rw r.db_after (
        rw same (λ i x f a. ground (
          arith,
          m i x,
          w.one_active i old_id x old,
          find-update i old_id (set_dispatch_status DispatchStatus.cancelled db.now) db.dispatches,
          find-update x.unit_id new_unit (set_status UnitStatus.reserved db.now) us,
          find-update x.unit_id old.unit_id (set_status UnitStatus.available db.now) db.units,
          find-update new_unit old.unit_id (set_status UnitStatus.available db.now) db.units,
          exists_in-find (λ (_, y). holds_unit new_unit y) (without_old old_id db) i x
              r.unit_unheld,
        ))))

-- If the unit of each active dispatch has the status that the dispatch implies, a preemption that
-- commits, of a dispatch that had left `reserved`, ends that: some unit's status no longer mirrors
-- its dispatch.
pub preempt-unmirrored :
    (id old_id new_incident : ℕ) (event : EventType) (old : Dispatch) (db db' : Db)
    (d : ℕ × Dispatch)
    → IsMirrored db
    → find old_id db.dispatches ≡ some old
    → old.status ≢ DispatchStatus.reserved
    → reassign id old_id new_incident old.unit_id event db ≡ ok (d, db')
    → ¬ IsMirrored db'
preempt-unmirrored id old_id new_incident event old db db' d m fo moving h after_it =
    let (r, _) = reassign-Replacement id old_id new_incident old.unit_id event db d db' h in
    let same : r.old ≡ old = ground arith in
    ground (
      arith,
      same,
      r.db_after,
      m old_id old,
      after_it id (new_dispatch new_incident old.unit_id db.now),
    )
