-- ===== src/Geo.antt =====
-- internal/platform/geo/coords.go. Coordinates are millionths of a degree.
use crisis_link.Common.{Bool, not, ◌||◌, ◌≡◌, ◌↔◌, arith}
use crisis_link.Common.Int.{ℤ, pos, negsuc, ◌≤ℤ◌, ltb_ℤ}
use crisis_link.Store.Tx.{guard, Tx, ok, invalid_coordinates}
use crisis_link.Store.Rows.{Db}

abbrev pub max_latitude : ℤ
max_latitude = pos 90000000

abbrev pub min_latitude : ℤ
min_latitude = negsuc 89999999

abbrev pub max_longitude : ℤ
max_longitude = pos 180000000

abbrev pub min_longitude : ℤ
min_longitude = negsuc 179999999

abbrev pub is_on_earth : ℤ → ℤ → Bool
is_on_earth lat lng = not (
    ltb_ℤ lat min_latitude
    || ltb_ℤ max_latitude lat
    || (ltb_ℤ lng min_longitude || ltb_ℤ max_longitude lng))

unfoldable pub validate_lat_lng : ℤ → ℤ → Tx (Unit {0})
validate_lat_lng lat lng = guard (is_on_earth lat lng) invalid_coordinates

-- The check passes exactly the points within ±90 degrees of latitude and ±180 of longitude, and
-- changes nothing.
pub validate_lat_lng_bounds :
    (lat lng : ℤ) (db : Db)
    → (validate_lat_lng lat lng db ≡ ok (tt, db)) ↔ (
        (min_latitude ≤ℤ lat)
        × (lat ≤ℤ max_latitude)
        × (min_longitude ≤ℤ lng)
        × (lng ≤ℤ max_longitude))
unfolding validate_lat_lng
validate_lat_lng_bounds lat lng db = (λ h. ground arith, λ h. ground arith)
