-- ===== src/Dispatches/Equivalence.antt =====
-- The two ways of internal/dispatch/repository.go to reserve a unit, without contention.
use crisis_link.Common.{
  ℕ, ◌≡◌, inl, inr, some, arith, ◌==◌, if◌then◌else◌, test_self, Option-cases, Bool-cases,
}
use crisis_link.Table.{find, update, update_where}
use crisis_link.Table.Laws.{Unique, update_same}
use crisis_link.Store.Rows.{Db, RescueUnit, UnitStatus}
use crisis_link.Units.{set_status, is_available}
use crisis_link.Incidents.{is_closed}
use crisis_link.Dispatches.Transactions.{
  Rivals, reserve, reserve_optimistic, try_reserve_optimistic, reserve_attempts,
}

-- Nobody interferes.
abbrev pub quiet : ℕ → Rivals
quiet n = record { before_incident = λ db. db; before_swap = λ db. db }

swap-reserve :
    (unit_id : ℕ) (u : RescueUnit) (db : Db)
    → Unique db.units
    → find unit_id db.units ≡ some u
    → update_where unit_id
        (λ v. v.version == u.version)
        (set_status UnitStatus.reserved db.now)
        db.units
      ≡ update unit_id (set_status UnitStatus.reserved db.now) db.units
swap-reserve unit_id u db ids found =
    update_same unit_id
      (λ v. if v.version == u.version then set_status UnitStatus.reserved db.now v else v)
      (set_status UnitStatus.reserved db.now) db.units u ids found (rw (test_self u.version))

-- Without rivals, and if no id of a unit occurs twice, the optimistic path and the pessimistic one
-- answer alike and leave the same database, in every case, the errors included.
pub reserve_optimistic-reserve :
    (id incident_id unit_id : ℕ) (db : Db)
    → Unique db.units
    → reserve_optimistic quiet id incident_id unit_id db ≡ reserve id incident_id unit_id db
unfolding reserve_optimistic reserve_attempts reserve try_reserve_optimistic
reserve_optimistic-reserve id incident_id unit_id db ids =
    elim (Option-cases (find unit_id db.units)) [
      | inl e ↦ ground arith
      | inr (u, e) ↦ elim (Bool-cases (is_available u.status)) [
        | inr taken ↦ ground arith
        | inl free ↦ elim (Option-cases (find incident_id db.incidents)) [
          | inl f ↦ ground arith
          | inr (i, f) ↦ elim (Bool-cases (is_closed i.status)) [
            | inl shut ↦ ground arith
            | inr opened ↦ ground (arith, swap-reserve unit_id u db ids e)
          ]
        ]
      ]
    ]
