-- ===== src/Shelters.antt =====
-- internal/shelter: the registry and the admission of one person. The Redis cache is not modelled.
use Prim.Native.String.{String}
use text.Mathlib.Text.{◌==◌ as str_eq}
use crisis_link.Common.{
  ℕ, ◌+◌, Bool, true, false, not, ◌&&◌, ◌||◌, Option, none, some, ◌∷◌, ltb, if◌then◌else◌,
  exists_in, keep, take, is_some,
}
use crisis_link.Common.Int.{ℤ, pos, leb_ℤ, pos_part}
use crisis_link.Common.Sort.{sort_by}
use crisis_link.Table.{Table, find, update, update_where, affects}
use crisis_link.Store.Rows.{Shelter, ShelterStatus}
use crisis_link.Store.Tx.{
  Tx, Error, ok, err, gets, modify, guard, row_or, duplicate_as, ◌>>=◌, ◌>>◌, shelter_not_found,
  shelter_closed, shelter_full, invalid_capacity, invalid_shelter_status, duplicate_shelter_name,
  unique_violation,
}
use crisis_link.Geo.{validate_lat_lng}

abbrev pub is_open_shelter : ShelterStatus → Bool
is_open_shelter ShelterStatus.open_for_intake = true
is_open_shelter ShelterStatus.closed = false

-- The guard of AdmitTx, and the filter of FindNearestOpen.
abbrev pub has_room : Shelter → Bool
has_room s = is_open_shelter s.status && ltb s.occupancy s.capacity

abbrev pub admit : ℕ → Shelter → Shelter
admit now s = record s { occupancy = s.occupancy + 1; updated_at = now }

-- The re-read after zero rows.
abbrev pub refusal : Option Shelter → Error
refusal none = shelter_not_found
refusal (some s) = if is_open_shelter s.status then shelter_full else shelter_closed

unfoldable pub admit_tx : ℕ → Tx (Unit {0})
admit_tx id db =
    if affects id has_room db.shelters
    then ok (tt, record db { shelters = update_where id has_room (admit db.now) db.shelters })
    else err (refusal (find id db.shelters))

-- GetByIDTx; the service turns pgx.ErrNoRows into ErrShelterNotFound.
unfoldable pub get_shelter : ℕ → Tx Shelter
get_shelter id = do s ← gets (λ db. find id db.shelters); row_or shelter_not_found s

unfoldable pub shelter_status_of : String → Option ShelterStatus
shelter_status_of s =
    if str_eq s "open"
    then some ShelterStatus.open_for_intake
    else if str_eq s "closed"
    then some ShelterStatus.closed
    else none

pub record CreateShelterInput : Type 0 where
  pub name : String
  pub capacity : ℤ
  pub latitude : ℤ
  pub longitude : ℤ

-- INSERT INTO shelters: the fresh id is an argument; name is UNIQUE.
unfoldable pub insert_shelter : ℕ → String → ℕ → ℤ → ℤ → Tx (ℕ × Shelter)
insert_shelter id name capacity lat lng db =
    let row : Shelter = record {
      name = name;
      capacity = capacity;
      occupancy = 0;
      status = ShelterStatus.open_for_intake;
      latitude = lat;
      longitude = lng;
      created_at = db.now;
      updated_at = db.now;
    } in
    if is_some (find id db.shelters) || exists_in (λ (_, s). str_eq s.name name) db.shelters
    then err unique_violation
    else ok ((id, row), record db { shelters = (id, row) ∷ db.shelters })

-- ShelterService.Create
unfoldable pub create_shelter : ℕ → CreateShelterInput → Tx (ℕ × Shelter)
unfolding insert_shelter
create_shelter id input = do
  guard (not (leb_ℤ input.capacity (pos 0))) invalid_capacity
  validate_lat_lng input.latitude input.longitude
  duplicate_as duplicate_shelter_name
      (insert_shelter id input.name (pos_part input.capacity) input.latitude input.longitude)

-- ShelterService.UpdateStatus
unfoldable pub update_shelter_status : ℕ → String → Tx Shelter
unfolding get_shelter
update_shelter_status id status = do
  s ← row_or invalid_shelter_status (shelter_status_of status)
  get_shelter id
  modify λ db. record db {
    shelters = update id (λ r. record r { status = s; updated_at = db.now }) db.shelters;
  }
  get_shelter id

-- The distance in metres is PostGIS's.
module _ (distance : ℤ → ℤ → ℤ → ℤ → ℕ) where
  unfoldable pub find_nearest_open : ℤ → ℤ → ℕ → Tx (Table Shelter)
  find_nearest_open lat lng limit = gets λ db. take limit (
      sort_by (λ (_, s). distance lat lng s.latitude s.longitude)
        (keep (λ (_, s). has_room s) db.shelters))
