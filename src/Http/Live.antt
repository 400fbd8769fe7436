-- ===== src/Http/Live.antt =====
-- The reads of internal/presence/handler.go, where Redis answers the search and the key; the second
-- is that of the request.
use crisis_link.Common.{ℕ, Option, none, some, List, length}
use crisis_link.Common.Int.{ℤ, pos}
use crisis_link.Dispatches.Service.{NearbyUnit}
use crisis_link.Presence.{Redis, Presence, Up, Meanwhile, get, nearby_live}
use crisis_link.Http.{Reply, success, failure, Code, bad_request, clamp_int}

abbrev presence_reply : Option Presence → Reply Presence
presence_reply none = failure 404 Code.not_present
presence_reply (some p) = success 200 p

-- GET /units/:id/presence
unfoldable pub read_presence : (now : ℕ) → Redis → ℕ → Reply Presence
unfolding get
read_presence now r id = presence_reply (get now r id)

pub record LivePage : Type 0 where
  pub count : ℕ
  pub units : List NearbyUnit

abbrev live_page : Option (List NearbyUnit × Redis) → Redis → Reply LivePage × Redis
live_page none r = (bad_request, r)
live_page (some (units, r')) r = (success 200 (record { count = length units; units = units }), r')

-- GET /units/nearby
module _ (distance : ℤ → ℤ → ℤ → ℤ → ℕ) where
  unfoldable pub read_nearby_live :
      Up distance
      → Meanwhile distance
      → (now : ℕ) → (lat lng radius limit : Option ℤ) → Redis
      → Reply LivePage × Redis
  unfolding nearby_live
  read_nearby_live up others now (some lat) (some lng) radius limit r =
      live_page
        (nearby_live distance up others now lat lng (clamp_int radius 5000 1 100000)
          (pos (clamp_int limit 5 1 50)) r)
        r
  read_nearby_live up others now _ _ radius limit r = (bad_request, r)
