-- ===== src/System/Race.antt =====
-- The optimistic path among requests that others make meanwhile (ReserveOptimistic in
-- internal/dispatch/repository.go), whose bet is on the version column.
use Prim.Native.String.{String}
use crisis_link.Common.{
  ℕ, zero, suc, ◌≡◌, refl, inl, inr, Bool, false, none, some, arith, subst, ◌==◌, Option-cases,
}
use crisis_link.Table.{find, passes}
use crisis_link.Table.Laws.{Unique, update-Unique, update_where_lost}
use crisis_link.Store.Rows.{Db, EventType, RescueUnit, UnitStatus}
use crisis_link.Store.Tx.{Tx, Result, ok, after, Commits, Result-cases}
use crisis_link.Units.{set_status}
use crisis_link.Units.Versions.{Versioned, Versioned-refl, Versioned-trans}
use crisis_link.Dispatches.{dispatch_status_of}
use crisis_link.Dispatches.Transactions.{
  Rivals, reserve, try_reserve_optimistic, reserve_attempts, advance_status,
}
use crisis_link.Dispatches.Reassignment.{reassign}
use crisis_link.Dispatches.Optimistic.{
  Claim, swapped_db, seen_by_swap, try_reserve_optimistic-Claim,
}
use crisis_link.Dispatches.Preservation.{swapped_db-WellFormed}
use crisis_link.Dispatches.Service.{
  ReserveStrategy, pessimistic, optimistic, service_reserve, service_advance_status,
}
use crisis_link.Dispatches.Equivalence.{quiet, reserve_optimistic-reserve}
use crisis_link.Dispatches.Rely.{Rely, reserve-Rely, advance_status-Rely, reassign-Rely}
use crisis_link.System.Sound.{Sound, Seating-frame, Capacity-frame, new_event-InBudget}

-- A swap that meets the version that was read leaves a sound database.
swapped_db-Sound :
    (id incident_id unit_id : ℕ) (db seen : Db)
    → Sound seen
    → (c : Claim id incident_id unit_id db seen)
    → Sound (swapped_db c.unit.version id incident_id unit_id seen)
swapped_db-Sound id incident_id unit_id db seen s c =
    let after_it = swapped_db c.unit.version id incident_id unit_id seen in
    record {
      dispatching = swapped_db-WellFormed id incident_id unit_id db seen s.dispatching c;
      seating = Seating-frame seen after_it refl refl s.seating;
      capacity = Capacity-frame seen after_it refl refl s.capacity;
      budget = (new_event-InBudget _ _ _ _ _, s.budget);
      unit_ids = update-Unique unit_id _ seen.units s.unit_ids;
      incident_ids = update-Unique incident_id _ seen.incidents s.incident_ids;
      recorded = ground (arith, s.recorded);
    }

-- A lost swap changed nothing: the transaction committed no write of its own.
try_reserve_optimistic-lost :
    (rivals : Rivals) (id incident_id unit_id : ℕ) (db db' : Db)
    → Unique (seen_by_swap rivals db).units
    → try_reserve_optimistic rivals id incident_id unit_id db ≡ ok (none, db')
    → db' ≡ seen_by_swap rivals db
unfolding try_reserve_optimistic
try_reserve_optimistic-lost rivals id incident_id unit_id db db' u h =
    elim (Option-cases (find unit_id db.units)) [
      | inl e ↦ ground arith
      | inr (v, e) ↦
          let same_version : RescueUnit → Bool = λ x. x.version == v.version in
          let seen = seen_by_swap rivals db in
          let lost : passes same_version (find unit_id seen.units) ≡ false = ground arith in
          let unchanged =
            update_where_lost unit_id same_version (set_status UnitStatus.reserved seen.now)
              seen.units u lost in
          ground (arith, unchanged)
    ]

-- Rivals that keep the database sound.
abbrev Sounding : (ℕ → Rivals) → Type 0
Sounding rivals =
    (n : ℕ) (db : Db)
    → Sound db
    → Sound ((rivals n).before_incident db) × Sound ((rivals n).before_swap db)

seen-Sound :
    (rivals : ℕ → Rivals) (n : ℕ) (db : Db)
    → Sounding rivals
    → Sound db
    → Sound (seen_by_swap (rivals n) db)
seen-Sound rivals n db keeps s = (keeps n ((rivals n).before_incident db) (keeps n db s).0).1

pub reserve_attempts-Sound :
    (n : ℕ) (rivals : ℕ → Rivals) (id incident_id unit_id : ℕ) (db : Db)
    → Sounding rivals
    → Sound db
    → Commits Sound (reserve_attempts n rivals id incident_id unit_id db)
unfolding reserve_attempts
reserve_attempts-Sound zero rivals id incident_id unit_id db keeps s d db' h = ground arith
reserve_attempts-Sound (suc n) rivals id incident_id unit_id db keeps s d db' h =
    let seen = seen_by_swap (rivals n) db in
    let seen_sound = seen-Sound rivals n db keeps s in
    elim (Result-cases (try_reserve_optimistic (rivals n) id incident_id unit_id db)) [
      | inl (e, f) ↦ ground (arith, f)
      | inr ((none, db1), f) ↦
          let same : db1 ≡ seen =
            try_reserve_optimistic-lost (rivals n) id incident_id unit_id db db1 seen_sound.unit_ids
              f in
          reserve_attempts-Sound n rivals id incident_id unit_id db1 keeps (rw same seen_sound) d
            db' (ground (arith, f))
      | inr ((some x, db1), f) ↦
          let (c, _, e) =
            try_reserve_optimistic-Claim (rivals n) id incident_id unit_id db x db1 f in
          let same : db' ≡ db1 = ground (arith, f) in
          rw same (rw e (swapped_db-Sound id incident_id unit_id db seen seen_sound c))
    ]

-- The versions after a call that committed.
abbrev pub VersionedBy {ℓ} : {A : Type ℓ} → Db → Result (A × Db) → Type ℓ
VersionedBy db r = Commits (λ x. Versioned db.units x.units) r

-- A call that leaves the units alone.
pub same_units-Versioned : (db db' : Db) → db'.units ≡ db.units → Versioned db.units db'.units
same_units-Versioned db db' e = rw e (Versioned-refl db.units)

Rely-Versioned {ℓ} :
    {A : Type ℓ} (m : Tx A) (db : Db) → Rely (λ x. after x (m x)) → VersionedBy db (m db)
Rely-Versioned m db r a db' h = subst (λ x. Versioned db.units (after db x).units) h (r.versions db)

pub reassign-Versioned :
    (event : EventType) (db : Db) (id old_id new_incident new_unit : ℕ) (x : Db)
    → Versioned db.units x.units
    → Commits (λ y. Versioned db.units y.units) (reassign id old_id new_incident new_unit event x)
reassign-Versioned event db id old_id new_incident new_unit x v d y h =
    Versioned-trans db.units x.units y.units v (
      Rely-Versioned (reassign id old_id new_incident new_unit event) x
        (reassign-Rely id old_id new_incident new_unit event) d y h)

pub service_reserve-Versioned :
    (strategy : ReserveStrategy) (id incident_id unit_id : ℕ) (db : Db)
    → Unique db.units
    → VersionedBy db (service_reserve strategy quiet id incident_id unit_id db)
unfolding service_reserve
service_reserve-Versioned pessimistic id incident_id unit_id db u d db' h =
    Rely-Versioned (reserve id incident_id unit_id) db (reserve-Rely id incident_id unit_id) d db'
      (ground arith)
service_reserve-Versioned optimistic id incident_id unit_id db u d db' h =
    Rely-Versioned (reserve id incident_id unit_id) db (reserve-Rely id incident_id unit_id) d db'
      (ground (arith, reserve_optimistic-reserve id incident_id unit_id db u))

pub service_advance_status-Versioned :
    (id : ℕ) (status : String) (db : Db) → VersionedBy db (service_advance_status id status db)
unfolding service_advance_status
service_advance_status-Versioned id status db d db' h =
    elim (Option-cases (dispatch_status_of status)) [
      | inl e ↦ ground arith
      | inr (x, e) ↦
          Rely-Versioned (advance_status id x) db (advance_status-Rely id x) d db' (ground arith)
    ]
