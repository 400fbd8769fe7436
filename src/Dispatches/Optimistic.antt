-- ===== src/Dispatches/Optimistic.antt =====
-- A won attempt of the optimistic path (tryReserveOptimistic), with other transactions in between.
use crisis_link.Common.{
  ℕ, ◌≡◌, inl, inr, true, false, none, some, arith, ◌==◌, exists_in, Option-cases,
}
use crisis_link.Table.{find, update_where}
use crisis_link.Store.Rows.{Db, RescueUnit, Incident, Dispatch, UnitStatus}
use crisis_link.Store.Tx.{ok}
use crisis_link.Units.{is_available, set_status}
use crisis_link.Dispatches.{holds_unit, new_dispatch}
use crisis_link.Dispatches.Transactions.{Rivals, try_reserve_optimistic}
use crisis_link.Dispatches.Outcomes.{reserved_db}

-- The database that the compare-and-swap meets.
abbrev pub seen_by_swap : Rivals → Db → Db
seen_by_swap rivals db = rivals.before_swap (rivals.before_incident db)

-- The reads of the unit saw `db`, the swap saw `seen`.
pub record Claim (id incident_id unit_id : ℕ) (db seen : Db) : Type 0 where
  pub unit : RescueUnit
  pub unit_then : RescueUnit
  pub incident : Incident
  pub unit_found : find unit_id db.units ≡ some unit
  pub unit_free : is_available unit.status ≡ true
  pub unit_seen : find unit_id seen.units ≡ some unit_then
  pub same_version : unit_then.version ≡ unit.version
  pub incident_found : find incident_id seen.incidents ≡ some incident
  pub id_fresh : find id seen.dispatches ≡ none
  pub unit_unheld : exists_in (λ (_, d). holds_unit unit_id d) seen.dispatches ≡ false

-- After a swap that changed its row, whose version was `version`.
abbrev pub swapped_db : ℕ → ℕ → ℕ → ℕ → Db → Db
swapped_db version id incident_id unit_id db = record (reserved_db id incident_id unit_id db) {
  units =
      update_where unit_id (λ u. u.version == version) (set_status UnitStatus.reserved db.now)
        db.units;
}

pub try_reserve_optimistic-Claim :
    (rivals : Rivals) (id incident_id unit_id : ℕ) (db : Db) (d : ℕ × Dispatch) (db' : Db)
    → try_reserve_optimistic rivals id incident_id unit_id db ≡ ok (some d, db')
    → let seen = seen_by_swap rivals db in
      (c : Claim id incident_id unit_id db seen) × (d
        ≡ (id, new_dispatch incident_id unit_id seen.now))
      × (db' ≡ swapped_db c.unit.version id incident_id unit_id seen)
unfolding try_reserve_optimistic
try_reserve_optimistic-Claim rivals id incident_id unit_id db d db' h =
    elim (Option-cases (find unit_id db.units)) [
      | inl e ↦ ground arith
      | inr (u, eu) ↦ elim (Option-cases (find unit_id (seen_by_swap rivals db).units)) [
        | inl e ↦ ground arith
        | inr (v, ev) ↦ elim (Option-cases (find incident_id (seen_by_swap rivals db).incidents)) [
          | inl e ↦ ground arith
          | inr (i, ei) ↦ (
            record {
              unit = u;
              unit_then = v;
              incident = i;
              unit_found = eu;
              unit_free = ground arith;
              unit_seen = ev;
              same_version = ground arith;
              incident_found = ei;
              id_fresh = ground arith;
              unit_unheld = ground arith;
            },
            ground arith,
            ground arith,
          )
        ]
      ]
    ]
