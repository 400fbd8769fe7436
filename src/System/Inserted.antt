-- ===== src/System/Inserted.antt =====
-- What the registries' writes did to the database when they committed.
use Prim.Native.String.{String}
use text.Mathlib.Text.{◌==◌ as str_eq}
use crisis_link.Common.{
  ℕ, ◌≡◌, inl, inr, true, none, ◌∷◌, arith, exists_in, Option-cases, Bool-cases,
}
use crisis_link.Common.Int.{ℤ, pos_part}
use crisis_link.Table.{Table, find, update}
use crisis_link.Table.Laws.{find-update_self}
use crisis_link.Store.Rows.{
  Db, RescueUnit, UnitType, Shelter, ShelterStatus, Victim, Transport, VehicleKind,
}
use crisis_link.Store.Tx.{
  ok, Error, duplicate_call_sign, duplicate_shelter_name, duplicate_transport_call_sign,
  Result-cases, duplicate_as, Tx,
}
use crisis_link.Geo.{validate_lat_lng}
use crisis_link.Units.{create_unit, insert_unit, CreateUnitInput, unit_type_of}
use crisis_link.Shelters.{
  create_shelter, insert_shelter, CreateShelterInput, update_shelter_status, shelter_status_of,
  get_shelter,
}
use crisis_link.Victims.{create_victim, insert_victim, is_registered, CreateVictimInput}
use crisis_link.Transports.{create_transport, insert_transport, CreateInput, kind_of}

pub validate_lat_lng-reads :
    (lat lng : ℤ) (db db' : Db) (u : Unit {0})
    → validate_lat_lng lat lng db ≡ ok (u, db')
    → db' ≡ db
unfolding validate_lat_lng
validate_lat_lng-reads lat lng db db' u h = ground arith

pub duplicate_as-ok {ℓ} :
    {A : Type ℓ} (e : Error) (m : Tx A) (db db' : Db) (a : A)
    → duplicate_as e m db ≡ ok (a, db')
    → m db ≡ ok (a, db')
duplicate_as-ok e m db db' a h = elim (Result-cases (m db)) [
  | inl (x, f) ↦ ground (arith, f)
  | inr (r, f) ↦ ground (arith, f)
]

module _ {ℓ} {A : Type ℓ} where
  -- A fresh row `a` of which `P` holds, under `id`.
  abbrev pub Fresh : (A → Type 0) → ℕ → Table A → (Table A → Db) → Db → Type ℓ
  Fresh P id t with_rows db' = (a : A) × P a × (find id t ≡ none) × (db' ≡ with_rows ((id, a) ∷ t))

insert_unit-Fresh :
    (id : ℕ) (call_sign : String) (kind : UnitType) (lat lng : ℤ) (db db' : Db) (r : ℕ × RescueUnit)
    → insert_unit id call_sign kind lat lng db ≡ ok (r, db')
    → Fresh (λ u. Unit) id db.units (λ rows. record db { units = rows }) db'
unfolding insert_unit
insert_unit-Fresh id call_sign kind lat lng db db' r h = elim (Option-cases (find id db.units)) [
  | inr (u, e) ↦ ground arith
  | inl e ↦ elim (Bool-cases (exists_in (λ (j, u). str_eq u.call_sign call_sign) db.units)) [
    | inl taken ↦ ground arith
    | inr free ↦ (r.1, tt, e, ground arith)
  ]
]

pub create_unit-Fresh :
    (id : ℕ) (input : CreateUnitInput) (db db' : Db) (r : ℕ × RescueUnit)
    → create_unit id input db ≡ ok (r, db')
    → Fresh (λ u. Unit) id db.units (λ rows. record db { units = rows }) db'
unfolding create_unit
create_unit-Fresh id input db db' r h = elim (Option-cases (unit_type_of input.type)) [
  | inl e ↦ ground arith
  | inr (t, e) ↦ elim (Result-cases (validate_lat_lng input.latitude input.longitude db)) [
    | inl (x, f) ↦ ground (arith, f)
    | inr ((u, db1), f) ↦
        let same = validate_lat_lng-reads input.latitude input.longitude db db1 u f in
        let insert = insert_unit id input.call_sign t input.latitude input.longitude in
        insert_unit-Fresh id input.call_sign t input.latitude input.longitude db db' r
          (duplicate_as-ok duplicate_call_sign insert db db' r (ground (arith, f, same)))
  ]
]

insert_shelter-Fresh :
    (id : ℕ) (name : String) (capacity : ℕ) (lat lng : ℤ) (db db' : Db) (r : ℕ × Shelter)
    → insert_shelter id name capacity lat lng db ≡ ok (r, db')
    → Fresh (λ s. s.occupancy ≡ 0) id db.shelters (λ rows. record db { shelters = rows }) db'
unfolding insert_shelter
insert_shelter-Fresh id name capacity lat lng db db' r h =
    elim (Option-cases (find id db.shelters)) [
      | inr (u, e) ↦ ground arith
      | inl e ↦ elim (Bool-cases (exists_in (λ (j, s). str_eq s.name name) db.shelters)) [
        | inl taken ↦ ground arith
        | inr free ↦ (r.1, ground arith, e, ground arith)
      ]
    ]

pub create_shelter-Fresh :
    (id : ℕ) (input : CreateShelterInput) (db db' : Db) (r : ℕ × Shelter)
    → create_shelter id input db ≡ ok (r, db')
    → Fresh (λ s. s.occupancy ≡ 0) id db.shelters (λ rows. record db { shelters = rows }) db'
unfolding create_shelter
create_shelter-Fresh id input db db' r h =
    elim (Result-cases (validate_lat_lng input.latitude input.longitude db)) [
      | inl (x, f) ↦ ground (arith, f)
      | inr ((u, db1), f) ↦
          let same = validate_lat_lng-reads input.latitude input.longitude db db1 u f in
          let insert =
            insert_shelter id input.name (pos_part input.capacity) input.latitude input.longitude in
          insert_shelter-Fresh id input.name (pos_part input.capacity) input.latitude
            input.longitude db db' r
            (duplicate_as-ok duplicate_shelter_name insert db db' r (ground (arith, f, same)))
    ]

insert_transport-Fresh :
    (id : ℕ) (call_sign : String) (kind : VehicleKind) (capacity : ℕ) (lat lng : ℤ) (db db' : Db)
    (r : ℕ × Transport)
    → insert_transport id call_sign kind capacity lat lng db ≡ ok (r, db')
    → Fresh (λ t. t.seats_taken ≡ 0) id db.transports (λ rows. record db { transports = rows }) db'
unfolding insert_transport
insert_transport-Fresh id call_sign kind capacity lat lng db db' r h =
    elim (Option-cases (find id db.transports)) [
      | inr (u, e) ↦ ground arith
      | inl e ↦
          elim (Bool-cases (exists_in (λ (j, t). str_eq t.call_sign call_sign) db.transports)) [
            | inl taken ↦ ground arith
            | inr free ↦ (r.1, ground arith, e, ground arith)
          ]
    ]

pub create_transport-Fresh :
    (id : ℕ) (input : CreateInput) (db db' : Db) (r : ℕ × Transport)
    → create_transport id input db ≡ ok (r, db')
    → Fresh (λ t. t.seats_taken ≡ 0) id db.transports (λ rows. record db { transports = rows }) db'
unfolding create_transport
create_transport-Fresh id input db db' r h = elim (Option-cases (kind_of input.kind)) [
  | inl e ↦ ground arith
  | inr (k, e) ↦ elim (Result-cases (validate_lat_lng input.latitude input.longitude db)) [
    | inl (x, f) ↦ ground (arith, f)
    | inr ((u, db1), f) ↦
        let same = validate_lat_lng-reads input.latitude input.longitude db db1 u f in
        let insert =
          insert_transport id input.call_sign k (pos_part input.capacity) input.latitude
            input.longitude in
        insert_transport-Fresh id input.call_sign k (pos_part input.capacity) input.latitude
          input.longitude db db' r
          (duplicate_as-ok duplicate_transport_call_sign insert db db' r (ground (arith, f, same)))
  ]
]

insert_victim-Fresh :
    (id : ℕ) (input : CreateVictimInput) (db db' : Db) (r : ℕ × Victim)
    → insert_victim id input db ≡ ok (r, db')
    → Fresh
        (λ v. is_registered v.status ≡ true)
        id
        db.victims
        (λ rows. record db { victims = rows })
        db'
unfolding insert_victim
insert_victim-Fresh id input db db' r h = elim (Option-cases (find id db.victims)) [
  | inr (u, e) ↦ ground arith
  | inl e ↦ (r.1, ground arith, e, ground arith)
]

pub create_victim-Fresh :
    (id : ℕ) (input : CreateVictimInput) (db db' : Db) (r : ℕ × Victim)
    → create_victim id input db ≡ ok (r, db')
    → Fresh
        (λ v. is_registered v.status ≡ true)
        id
        db.victims
        (λ rows. record db { victims = rows })
        db'
unfolding create_victim
create_victim-Fresh id input db db' r h =
    elim (Result-cases (validate_lat_lng input.latitude input.longitude db)) [
      | inl (x, f) ↦ ground (arith, f)
      | inr ((u, db1), f) ↦
          let same = validate_lat_lng-reads input.latitude input.longitude db db1 u f in
          insert_victim-Fresh id input db db' r (ground (arith, f, same))
    ]

pub update_shelter_status-ok :
    (id : ℕ) (status : String) (db db' : Db) (r : Shelter)
    → update_shelter_status id status db ≡ ok (r, db')
    → (s : ShelterStatus) × (db' ≡ record db {
      shelters = update id (λ r. record r { status = s; updated_at = db.now }) db.shelters;
    })
unfolding update_shelter_status get_shelter
update_shelter_status-ok id status db db' r h = elim (Option-cases (shelter_status_of status)) [
  | inl e ↦ ground arith
  | inr (s, e) ↦ elim (Option-cases (find id db.shelters)) [
    | inl f ↦ ground arith
    | inr (x, f) ↦ (
      s,
      ground (
        arith,
        find-update_self id (λ r. record r { status = s; updated_at = db.now }) db.shelters x,
      ),
    )
  ]
]
