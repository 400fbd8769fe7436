-- ===== src/System/Registered.antt =====
-- The registries of units, shelters, people and vehicles under the invariant of the database.
use Prim.Native.String.{String}
use crisis_link.Common.{ℕ, refl, inl, inr, ◌∷◌, arith, Option-cases}
use crisis_link.Table.{find, update}
use crisis_link.Table.Laws.{find-update}
use crisis_link.Store.Rows.{Db, Shelter}
use crisis_link.Store.Tx.{Commits}
use crisis_link.Units.{CreateUnitInput, create_unit}
use crisis_link.Shelters.{CreateShelterInput, create_shelter, update_shelter_status}
use crisis_link.Victims.{CreateVictimInput, create_victim}
use crisis_link.Transports.{CreateInput, create_transport}
use crisis_link.System.Inserted.{
  create_unit-Fresh, create_shelter-Fresh, create_transport-Fresh, create_victim-Fresh,
  update_shelter_status-ok,
}
use crisis_link.System.Sound.{Sound, WellFormed-frame, Seating-frame, Capacity-frame}

pub create_unit-Sound :
    (id : ℕ) (input : CreateUnitInput) (db : Db)
    → Sound db
    → Commits Sound (create_unit id input db)
create_unit-Sound id input db s r db' h =
    let (u, _, fresh, e) = create_unit-Fresh id input db db' r h in
    let after_it : Db = record db { units = (id, u) ∷ db.units } in
    let w = s.dispatching in
    rw e (record {
      dispatching = record {
        ids = w.ids;
        one_active = w.one_active;
        held = λ i d f a. ground (arith, w.held i d f a);
        attended = w.attended;
      };
      seating = Seating-frame db after_it refl refl s.seating;
      capacity = Capacity-frame db after_it refl refl s.capacity;
      budget = s.budget;
      unit_ids = (fresh, s.unit_ids);
      incident_ids = s.incident_ids;
      recorded = s.recorded;
    })

pub create_shelter-Sound :
    (id : ℕ) (input : CreateShelterInput) (db : Db)
    → Sound db
    → Commits Sound (create_shelter id input db)
create_shelter-Sound id input db s r db' h =
    let (x, empty, fresh, e) = create_shelter-Fresh id input db db' r h in
    let after_it : Db = record db { shelters = (id, x) ∷ db.shelters } in
    rw e (record {
      dispatching = WellFormed-frame db after_it refl refl refl s.dispatching;
      seating = Seating-frame db after_it refl refl s.seating;
      capacity = record {
        people = s.capacity.people;
        counted = λ k. ground (arith, s.capacity.counted k, s.capacity.counted id);
        within = λ k y f. ground (arith, s.capacity.within k y);
      };
      budget = s.budget;
      unit_ids = s.unit_ids;
      incident_ids = s.incident_ids;
      recorded = s.recorded;
    })

pub update_shelter_status-Sound :
    (id : ℕ) (status : String) (db : Db)
    → Sound db
    → Commits Sound (update_shelter_status id status db)
update_shelter_status-Sound id status db s r db' h =
    let (x, e) = update_shelter_status-ok id status db db' r h in
    let f : Shelter → Shelter = λ r. record r { status = x; updated_at = db.now } in
    let after_it : Db = record db { shelters = update id f db.shelters } in
    rw e (record {
      dispatching = WellFormed-frame db after_it refl refl refl s.dispatching;
      seating = Seating-frame db after_it refl refl s.seating;
      capacity = record {
        people = s.capacity.people;
        counted = λ k. ground (arith, s.capacity.counted k, find-update k id f db.shelters);
        within = λ k y g. elim (Option-cases (find k db.shelters)) [
          | inl none_there ↦ ground (arith, find-update k id f db.shelters)
          | inr (z, there) ↦
              ground (arith, s.capacity.within k z there, find-update k id f db.shelters)
        ];
      };
      budget = s.budget;
      unit_ids = s.unit_ids;
      incident_ids = s.incident_ids;
      recorded = s.recorded;
    })

pub create_victim-Sound :
    (id : ℕ) (input : CreateVictimInput) (db : Db)
    → Sound db
    → Commits Sound (create_victim id input db)
create_victim-Sound id input db s r db' h =
    let (v, registered, fresh, e) = create_victim-Fresh id input db db' r h in
    let after_it : Db = record db { victims = (id, v) ∷ db.victims } in
    rw e (record {
      dispatching = WellFormed-frame db after_it refl refl refl s.dispatching;
      seating = Seating-frame db after_it refl refl s.seating;
      capacity = record {
        people = (fresh, s.capacity.people);
        counted = λ k. ground (arith, s.capacity.counted k, registered);
        within = s.capacity.within;
      };
      budget = s.budget;
      unit_ids = s.unit_ids;
      incident_ids = s.incident_ids;
      recorded = s.recorded;
    })

pub create_transport-Sound :
    (id : ℕ) (input : CreateInput) (db : Db)
    → Sound db
    → Commits Sound (create_transport id input db)
create_transport-Sound id input db s r db' h =
    let (t, empty, fresh, e) = create_transport-Fresh id input db db' r h in
    let after_it : Db = record db { transports = (id, t) ∷ db.transports } in
    rw e (record {
      dispatching = WellFormed-frame db after_it refl refl refl s.dispatching;
      seating = record {
        ids = s.seating.ids;
        counted = λ k. ground (arith, s.seating.counted k, s.seating.counted id);
        within = λ k y f. ground (arith, s.seating.within k y);
      };
      capacity = Capacity-frame db after_it refl refl s.capacity;
      budget = s.budget;
      unit_ids = s.unit_ids;
      incident_ids = s.incident_ids;
      recorded = s.recorded;
    })
