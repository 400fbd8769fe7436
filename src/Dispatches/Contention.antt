-- ===== src/Dispatches/Contention.antt =====
-- Many dispatchers ask for one unit: Reserve under contention.
use crisis_link.Common.{
  ℕ, ◌≡◌, ◌≤◌, ◌+◌, refl, inl, inr, true, false, none, some, List, [], ◌∷◌, arith,
}
use crisis_link.Table.{find}
use crisis_link.Table.Laws.{find-update_self}
use crisis_link.Store.Rows.{Db, RescueUnit, Incident, UnitStatus}
use crisis_link.Store.Tx.{after, Result-cases, committed}
use crisis_link.Units.{is_available, set_status}
use crisis_link.Incidents.{is_closed}
use crisis_link.Dispatches.Transactions.{reserve}
use crisis_link.Dispatches.Outcomes.{Reservation, reserved_db, reserve-Reservation}
use crisis_link.Dispatches.Preservation.{WellFormed}
use crisis_link.Dispatches.Safety.{reserve_succeeds, reserve_taken}

-- The requests for one unit, each with its fresh id and its incident, in the order in which they
-- get the row lock; the answers that commit are counted.
pub contend : ℕ → List (ℕ × ℕ) → Db → ℕ × Db
contend unit_id [] db = (0, db)
contend unit_id ((id, incident_id) ∷ rest) db =
    let answer = reserve id incident_id unit_id db in
    let later = contend unit_id rest (after db answer) in (committed answer + later.0, later.1)

-- After a reservation every later request for the unit is refused.
contend_taken :
    (unit_id : ℕ) (requests : List (ℕ × ℕ)) (db : Db) (u : RescueUnit)
    → find unit_id db.units ≡ some u
    → is_available u.status ≡ false
    → contend unit_id requests db ≡ (0, db)
unfolding contend
contend_taken unit_id [] db u found taken = refl
contend_taken unit_id ((id, incident_id) ∷ rest) db u found taken =
    rw (reserve_taken id incident_id unit_id db u found taken)
      (rw (contend_taken unit_id rest db u found taken))

reserved_db-taken :
    (id incident_id unit_id : ℕ) (db : Db) (r : Reservation id incident_id unit_id db)
    → find unit_id (reserved_db id incident_id unit_id db).units
      ≡ some (set_status UnitStatus.reserved db.now r.unit)
reserved_db-taken id incident_id unit_id db r =
    find-update_self unit_id (set_status UnitStatus.reserved db.now) db.units r.unit r.unit_found

-- However many requests for one unit Reserve gets, for whatever incidents and in whatever order,
-- at most one of them commits.
pub contend-le-one :
    (unit_id : ℕ) (requests : List (ℕ × ℕ)) (db : Db) → (contend unit_id requests db).0 ≤ 1
unfolding contend
contend-le-one unit_id [] db = omega arith
contend-le-one unit_id ((id, incident_id) ∷ rest) db =
    elim (Result-cases (reserve id incident_id unit_id db)) [
      | inl (e, refused) ↦ rw refused (omega (arith, contend-le-one unit_id rest db))
      | inr ((d, db'), won) ↦
          let (r, _, same) = reserve-Reservation id incident_id unit_id db d db' won in
          rw won (
            rw same (
              rw
                (contend_taken unit_id rest (reserved_db id incident_id unit_id db) _
                  (reserved_db-taken id incident_id unit_id db r) refl)
                (omega arith)))
    ]

-- In a well-formed database, of any requests for one available unit of which the first names an
-- open incident and a fresh id, exactly that first one commits, and the database is then the one
-- that it leaves.
pub contend-eq-one :
    (id incident_id unit_id : ℕ) (rest : List (ℕ × ℕ)) (db : Db) (u : RescueUnit) (i : Incident)
    → WellFormed db
    → find unit_id db.units ≡ some u
    → is_available u.status ≡ true
    → find incident_id db.incidents ≡ some i
    → is_closed i.status ≡ false
    → find id db.dispatches ≡ none
    → contend unit_id ((id, incident_id) ∷ rest) db ≡ (1, reserved_db id incident_id unit_id db)
unfolding contend
contend-eq-one id incident_id unit_id rest db u i w fu free fi opened fresh =
    rw (reserve_succeeds id incident_id unit_id db u i w fu free fi opened fresh) (
      rw (
        contend_taken unit_id rest (reserved_db id incident_id unit_id db)
          (set_status UnitStatus.reserved db.now u)
          (find-update_self unit_id (set_status UnitStatus.reserved db.now) db.units u fu) refl))
