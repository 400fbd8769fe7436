-- ===== src/Units.antt =====
-- internal/unit: the fleet. The row lock of LockForReserveTx has no effect on a transaction that
-- runs alone; what runs between the read and the compare-and-swap of the optimistic path is a
-- parameter of Dispatches.Optimistic.
pub mod Versions
use Prim.Native.String.{String}
use text.Mathlib.Text.{◌==◌ as str_eq}
use crisis_link.Common.{
  ℕ, ◌+◌, Bool, true, false, ◌&&◌, ◌||◌, Option, none, some, List, ◌==◌, if◌then◌else◌, exists_in,
  keep, take, map, is_some, ◌∷◌,
}
use crisis_link.Common.Int.{ℤ}
use crisis_link.Common.Sort.{sort_by}
use crisis_link.Table.{Table, find, update, update_where, affects}
use crisis_link.Store.Rows.{Db, RescueUnit, UnitStatus, UnitType}
use crisis_link.Store.Tx.{
  Tx, Result, ok, err, pure, raise, gets, modify, guard, row_or, ◌>>=◌, ◌>>◌, duplicate_as,
  unit_not_found, unique_violation, duplicate_call_sign, invalid_unit_type, invalid_unit_status,
}
use crisis_link.Geo.{validate_lat_lng}

abbrev pub is_available : UnitStatus → Bool
is_available UnitStatus.available = true
is_available _ = false

abbrev pub set_status : UnitStatus → ℕ → RescueUnit → RescueUnit
set_status s now u = record u { status = s; version = u.version + 1; updated_at = now }

-- SELECT status … FOR UPDATE
unfoldable pub lock_for_reserve : ℕ → Tx UnitStatus
lock_for_reserve id = do u ← row_or unit_not_found (← gets (λ db. find id db.units)); pure u.status

unfoldable pub read_version : ℕ → Tx (UnitStatus × ℕ)
read_version id = do
  u ← row_or unit_not_found (← gets (λ db. find id db.units))
  pure (u.status, u.version)

unfoldable pub mark_reserved : ℕ → Tx (Unit {0})
mark_reserved id =
    modify λ db. record db { units = update id (set_status UnitStatus.reserved db.now) db.units }

-- UPDATE … WHERE id AND version; true if it changed the row.
unfoldable pub mark_reserved_cas : ℕ → ℕ → Tx Bool
mark_reserved_cas id version db =
    let same_version : RescueUnit → Bool = λ u. u.version == version in
    ok (
      affects id same_version db.units,
      record db {
        units = update_where id same_version (set_status UnitStatus.reserved db.now) db.units;
      },
    )

unfoldable pub set_unit_status : ℕ → UnitStatus → Tx (Unit {0})
set_unit_status id s = modify λ db. record db { units = update id (set_status s db.now) db.units }

-- A text filter that is empty passes every row.
abbrev passes_type : Option UnitType → UnitType → Bool
passes_type none t = true
passes_type (some UnitType.ambulance) UnitType.ambulance = true
passes_type (some UnitType.fire) UnitType.fire = true
passes_type (some UnitType.rescue) UnitType.rescue = true
passes_type (some UnitType.police) UnitType.police = true
passes_type (some _) _ = false

unfoldable pub find_available_by_ids : List ℕ → Tx (Table RescueUnit)
find_available_by_ids ids =
    gets λ db. keep (λ (id, u). exists_in (λ i. i == id) ids && is_available u.status) db.units

-- The distance is PostGIS's; ORDER BY … <-> sorts by it, and rows at one distance may come in any
-- order, here that of the table.
module _ (distance : ℤ → ℤ → ℤ → ℤ → ℕ) where
  unfoldable pub find_nearest_available : ℤ → ℤ → Option UnitType → ℕ → Tx (Table RescueUnit)
  find_nearest_available lat lng unit_type limit = gets λ db. take limit (
      sort_by (λ (id, u). distance lat lng u.latitude u.longitude)
        (keep (λ (id, u). is_available u.status && passes_type unit_type u.type) db.units))

pub record CreateUnitInput : Type 0 where
  pub call_sign : String
  pub type : String
  pub latitude : ℤ
  pub longitude : ℤ

-- validUnitTypes and validUnitStatuses, with the constant that a text names.
unfoldable pub unit_type_of : String → Option UnitType
unit_type_of s =
    if str_eq s "ambulance"
    then some UnitType.ambulance
    else if str_eq s "fire"
    then some UnitType.fire
    else if str_eq s "rescue"
    then some UnitType.rescue
    else if str_eq s "police"
    then some UnitType.police
    else none

unfoldable pub unit_status_of : String → Option UnitStatus
unit_status_of s =
    if str_eq s "available"
    then some UnitStatus.available
    else if str_eq s "reserved"
    then some UnitStatus.reserved
    else if str_eq s "en_route"
    then some UnitStatus.en_route
    else if str_eq s "on_scene"
    then some UnitStatus.on_scene
    else if str_eq s "out_of_service"
    then some UnitStatus.out_of_service
    else none

-- INSERT INTO units: the fresh id is an argument; call_sign is UNIQUE.
unfoldable pub insert_unit : ℕ → String → UnitType → ℤ → ℤ → Tx (ℕ × RescueUnit)
insert_unit id call_sign unit_type lat lng db =
    let row : RescueUnit = record {
      call_sign = call_sign;
      type = unit_type;
      status = UnitStatus.available;
      latitude = lat;
      longitude = lng;
      version = 1;
      created_at = db.now;
      updated_at = db.now;
    } in
    if is_some (find id db.units) || exists_in (λ (j, u). str_eq u.call_sign call_sign) db.units
    then err unique_violation
    else ok ((id, row), record db { units = (id, row) ∷ db.units })

-- UnitService.Create
unfoldable pub create_unit : ℕ → CreateUnitInput → Tx (ℕ × RescueUnit)
create_unit id input = do
  unit_type ← row_or invalid_unit_type (unit_type_of input.type)
  validate_lat_lng input.latitude input.longitude
  duplicate_as duplicate_call_sign
      (insert_unit id input.call_sign unit_type input.latitude input.longitude)

unfoldable pub get_unit : ℕ → Tx RescueUnit
get_unit id = do u ← gets (λ db. find id db.units); row_or unit_not_found u

-- UnitService.UpdateStatus: an administrator sets any status.
unfoldable pub update_unit_status : ℕ → String → Tx RescueUnit
update_unit_status id status = do
  s ← row_or invalid_unit_status (unit_status_of status)
  get_unit id
  set_unit_status id s
  get_unit id
