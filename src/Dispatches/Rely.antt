-- ===== src/Dispatches/Rely.antt =====
-- The optimistic path among rivals (tryReserveOptimistic): what it relies on, and who may be a rival.
use crisis_link.Common.{ℕ, ◌≡◌, ◌∙◌, ap, inl, inr, true, some, arith, ◌==◌, Bool-cases}
use crisis_link.Table.{Table, find, update}
use crisis_link.Store.Rows.{Db, RescueUnit, UnitStatus, Dispatch, DispatchStatus, EventType}
use crisis_link.Store.Tx.{ok, after, after-keeps}
use crisis_link.Units.{is_available, set_status}
use crisis_link.Units.Versions.{Versioned, Versioned-refl, Versioned-trans, Versioned-set}
use crisis_link.Dispatches.{unit_status_for_dispatch}
use crisis_link.Dispatches.Transactions.{Rivals, reserve, try_reserve_optimistic, advance_status}
use crisis_link.Dispatches.Reassignment.{reassign}
use crisis_link.Dispatches.Outcomes.{reserve-Reservation, advance_status-Advance}
use crisis_link.Dispatches.Replaced.{reassign-Replacement, moved_units}
use crisis_link.Dispatches.Optimistic.{Claim, seen_by_swap, try_reserve_optimistic-Claim}
use crisis_link.Dispatches.Preservation.{WellFormed, swapped_db-WellFormed}
use crisis_link.Dispatches.Safety.{
  reserve-WellFormed, advance_status-WellFormed, reassign-WellFormed,
}

-- What is relied on: others keep the database well formed, and count a version up with each write
-- of its unit.
pub record Rely (f : Db → Db) : Type 0 where
  pub keeps : (db : Db) → WellFormed db → WellFormed (f db)
  pub versions : (db : Db) → Versioned db.units (f db).units

pub record RivalsRely (rivals : Rivals) : Type 0 where
  pub first : Rely rivals.before_incident
  pub second : Rely rivals.before_swap

seen-Versioned :
    (rivals : Rivals) (db : Db)
    → RivalsRely rivals
    → Versioned db.units (seen_by_swap rivals db).units
seen-Versioned rivals db r =
    Versioned-trans db.units (rivals.before_incident db).units (seen_by_swap rivals db).units
      (r.first.versions db) (r.second.versions (rivals.before_incident db))

-- A swap that meets the version that was read meets the row that was read.
claimed-free :
    (rivals : Rivals) (id incident_id unit_id : ℕ) (db : Db)
    → RivalsRely rivals
    → (c : Claim id incident_id unit_id db (seen_by_swap rivals db))
    → find unit_id (seen_by_swap rivals db).units ≡ some c.unit
claimed-free rivals id incident_id unit_id db r c =
    let (v, fv, le, same) = seen-Versioned rivals db r unit_id c.unit c.unit_found in
    let e : v ≡ c.unit_then = ground arith in fv ∙ ap some (same (ground arith))

-- A won attempt: between the reads and the swap nobody took the unit, it was available when it was
-- swapped, and the database that is committed is well formed.
pub record Won (unit_id : ℕ) (db seen db' : Db) : Type 0 where
  pub unit : RescueUnit
  pub read : find unit_id db.units ≡ some unit
  pub untouched : find unit_id seen.units ≡ some unit
  pub free : is_available unit.status ≡ true
  pub kept : WellFormed db'

-- In a well-formed database, and among rivals that keep it so and count versions up, an optimistic
-- attempt that wins its swap takes a unit that is still the available row that it read, and leaves
-- a well-formed database.
pub try_reserve_optimistic-Won :
    (rivals : Rivals) (id incident_id unit_id : ℕ) (db db' : Db) (d : ℕ × Dispatch)
    → RivalsRely rivals
    → WellFormed db
    → try_reserve_optimistic rivals id incident_id unit_id db ≡ ok (some d, db')
    → Won unit_id db (seen_by_swap rivals db) db'
try_reserve_optimistic-Won rivals id incident_id unit_id db db' d r w h =
    let (c, _, e) = try_reserve_optimistic-Claim rivals id incident_id unit_id db d db' h in
    record {
      unit = c.unit;
      read = c.unit_found;
      untouched = claimed-free rivals id incident_id unit_id db r c;
      free = c.unit_free;
      kept = rw e (
          swapped_db-WellFormed id incident_id unit_id db (seen_by_swap rivals db)
            (r.second.keeps (rivals.before_incident db) (r.first.keeps db w)) c);
    }

-- Reserve keeps every well-formed database well formed, and never lets a unit's version fall nor
-- changes a unit without counting its version up.
pub reserve-Rely :
    (id incident_id unit_id : ℕ) → Rely (λ db. after db (reserve id incident_id unit_id db))
reserve-Rely id incident_id unit_id = record {
  keeps = λ db w. reserve-WellFormed id incident_id unit_id db w;
  versions = λ db.
      after-keeps (λ x. Versioned db.units x.units) (reserve id incident_id unit_id) db
        (Versioned-refl db.units)
        (λ d db' h.
          let (r, _, e) = reserve-Reservation id incident_id unit_id db d db' h in
          rw e (Versioned-set unit_id db.now UnitStatus.reserved db.units));
}

-- AdvanceStatus keeps every well-formed database well formed, and never lets a unit's version fall
-- nor changes a unit without counting its version up.
pub advance_status-Rely :
    (id : ℕ) (s : DispatchStatus) → Rely (λ db. after db (advance_status id s db))
advance_status-Rely id s = record {
  keeps = λ db w. advance_status-WellFormed id s db w;
  versions = λ db.
      after-keeps (λ x. Versioned db.units x.units) (advance_status id s) db
        (Versioned-refl db.units)
        (λ d db' h.
          let a = advance_status-Advance id s db d db' h in
          rw a.db_after (Versioned-set a.cur.unit_id db.now (unit_status_for_dispatch s) db.units));
}

moved-Versioned :
    (old_unit new_unit : ℕ) (db : Db) → Versioned db.units (moved_units old_unit new_unit db)
moved-Versioned old_unit new_unit db = elim (Bool-cases (old_unit == new_unit)) [
  | inl same ↦ rw same (Versioned-refl db.units)
  | inr other ↦
      let us : Table RescueUnit =
        update old_unit (set_status UnitStatus.available db.now) db.units in
      rw other (
        Versioned-trans db.units us _ (Versioned-set old_unit db.now UnitStatus.available db.units)
          (Versioned-set new_unit db.now UnitStatus.reserved us))
]

-- Reassign, whichever event it writes, keeps every well-formed database well formed, and never
-- lets a unit's version fall nor changes a unit without counting its version up.
pub reassign-Rely :
    (id old_id new_incident new_unit : ℕ) (event : EventType)
    → Rely (λ db. after db (reassign id old_id new_incident new_unit event db))
reassign-Rely id old_id new_incident new_unit event = record {
  keeps = λ db w. reassign-WellFormed id old_id new_incident new_unit event db w;
  versions = λ db.
      after-keeps (λ x. Versioned db.units x.units) (reassign id old_id new_incident new_unit event)
        db (Versioned-refl db.units)
        (λ d db' h.
          let (r, _) = reassign-Replacement id old_id new_incident new_unit event db d db' h in
          rw r.db_after (moved-Versioned r.old.unit_id new_unit db));
}
