-- ===== src/Presence.antt =====
-- internal/presence: which units are alive and where, in Redis. A key with an expiry is there until
-- that second; the members of the geo index never expire. What Redis may fail at is
-- a parameter, and one clock serves Redis and the service.
pub mod Liveness
use crisis_link.Common.{
  ℕ, ◌+◌, ◌-◌, ◌*◌, Bool, true, false, not, Option, none, some, List, ◌∷◌, ◌==◌, ltb, leb,
  if◌then◌else◌, exists_in, keep, take, map,
}
use crisis_link.Common.Int.{ℤ, pos, leb_ℤ, pos_part}
use crisis_link.Common.Sort.{sort_by}
use crisis_link.Table.{Table, find}
use crisis_link.Geo.{is_on_earth}
use crisis_link.Dispatches.Service.{NearbyUnit}

abbrev pub heartbeat_interval : ℕ
heartbeat_interval = 10

abbrev pub ttl : ℕ
ttl = 3 * heartbeat_interval

pub record Stored : Type 0 where
  pub lat : ℤ
  pub lng : ℤ
  pub ts : ℕ

pub record Key : Type 0 where
  pub value : Stored
  pub expires_at : ℕ

pub record Position : Type 0 where
  pub latitude : ℤ
  pub longitude : ℤ

pub record Redis : Type 0 where
  pub keys : Table Key
  pub index : Table Position

abbrev pub remove {ℓ} : {A : Type ℓ} → ℕ → Table A → Table A
remove k = keep (λ (j, a). not (j == k))

-- SET and GEOADD replace what was there.
abbrev pub put {ℓ} : {A : Type ℓ} → ℕ → A → Table A → Table A
put k a t = (k, a) ∷ remove k t

abbrev pub is_alive : ℕ → Option Key → Bool
is_alive now none = false
is_alive now (some k) = ltb now k.expires_at

-- EXISTS
unfoldable pub exists_key : ℕ → Redis → ℕ → Bool
exists_key now r id = is_alive now (find id r.keys)

-- Coordinates that are refused; a pipeline whose GEOADD failed after its SET; one that succeeded.
pub data Beat : Type 0 where
  out_of_range : Beat
  unindexed recorded : Redis → Beat

abbrev pub with_key : ℕ → ℕ → ℤ → ℤ → Redis → Redis
with_key now id lat lng r = record r {
  keys =
      put id (record { value = record { lat = lat; lng = lng; ts = now }; expires_at = now + ttl })
        r.keys;
}

-- Heartbeat. The index takes fewer latitudes than ValidateLatLng: `indexable` is what GEOADD accepts.
unfoldable pub heartbeat : (indexable : ℤ → ℤ → Bool) → ℕ → ℕ → ℤ → ℤ → Redis → Beat
heartbeat indexable now id lat lng r =
    if not (is_on_earth lat lng)
    then out_of_range
    else if indexable lat lng
    then recorded (record (with_key now id lat lng r) {
      index = put id (record { latitude = lat; longitude = lng }) r.index;
    })
    else unindexed (with_key now id lat lng r)

-- Is Redis reachable when it is asked: an unreachable one is answered for by `true`.
unfoldable pub is_present : (up : Bool) → ℕ → Redis → ℕ → Bool
is_present up now r id = if up then exists_key now r id else true

-- The pipeline of FilterPresent fails as a whole.
unfoldable pub filter_present : (up : Bool) → ℕ → Redis → List ℕ → Table Bool
unfolding exists_key
filter_present up now r ids = map (λ id. (id, if up then exists_key now r id else true)) ids

-- A missing entry of the map is false.
abbrev pub says_live : Table Bool → ℕ → Bool
says_live live id = elim (find id live) [ none ↦ false | some b ↦ b ]

-- Get: `none` has gone dark.
pub record Presence : Type 0 where
  pub unit_id : ℕ
  pub latitude : ℤ
  pub longitude : ℤ
  pub last_seen : ℕ
  pub age_seconds : ℕ

abbrev pub seen_as : ℕ → ℕ → Option Key → Option Presence
seen_as now id none = none
seen_as now id (some k) =
    if ltb now k.expires_at
    then some (record {
      unit_id = id;
      latitude = k.value.lat;
      longitude = k.value.lng;
      last_seen = k.value.ts;
      age_seconds = now - k.value.ts;
    })
    else none

unfoldable pub get : ℕ → Redis → ℕ → Option Presence
get now r id = seen_as now id (find id r.keys)

-- Redis's own distance in metres.
module _ (distance : ℤ → ℤ → ℤ → ℤ → ℕ) where
  abbrev pub located : ℤ → ℤ → ℕ × Position → NearbyUnit
  located lat lng (id, p) = record {
    unit_id = id;
    latitude = p.latitude;
    longitude = p.longitude;
    distance_meters = distance lat lng p.latitude p.longitude;
  }

  -- GEOSEARCH … ASC COUNT
  unfoldable pub geo_search : ℤ → ℤ → ℕ → ℕ → Redis → List NearbyUnit
  geo_search lat lng radius count r = take count (
      sort_by (λ n. n.distance_meters)
        (keep (λ n. leb n.distance_meters radius) (map (located lat lng) r.index)))

  -- The loop of NearbyLive: `room` is what the limit leaves.
  abbrev pub live_hits : (ℕ → Bool) → ℕ → List NearbyUnit → List NearbyUnit
  live_hits live room hits = take room (keep (λ n. live n.unit_id) hits)

  abbrev pub stale_hits : (ℕ → Bool) → List NearbyUnit → List ℕ
  stale_hits live hits = map (λ n. n.unit_id) (keep (λ n. not (live n.unit_id)) hits)

  -- ZREM
  abbrev pub evict : List ℕ → Redis → Redis
  evict stale r = record r {
    index = keep (λ (id, p). not (exists_in (λ s. s == id) stale)) r.index;
  }

  abbrev pub page : ℤ → ℕ
  page limit = if leb_ℤ limit (pos 0) then 5 else pos_part limit

  -- What is up: the check of the keys, and the eviction.
  pub record Up : Type 0 where
    pub checks : Bool
    pub evictions : Bool

  -- What others do to Redis between the round trips: after the search, and after the check.
  pub record Meanwhile : Type 0 where
    pub before_check : Redis → Redis
    pub before_eviction : Redis → Redis

  abbrev pub nearby_of : Up → Meanwhile → ℕ → ℕ → List NearbyUnit → Redis → List NearbyUnit × Redis
  nearby_of up others now limit hits r =
      let checked = others.before_check r in
      let live = says_live (filter_present up.checks now checked (map (λ n. n.unit_id) hits)) in
      let latest = others.before_eviction checked in
      (
        live_hits live limit hits,
        if up.evictions then evict (stale_hits live hits) latest else latest,
      )

  -- NearbyLive, where the search is answered, in three round trips; `now` is the second of the check,
  -- and `none` is a refused point.
  unfoldable pub nearby_live :
      Up → Meanwhile → ℕ → ℤ → ℤ → ℕ → ℤ → Redis → Option (List NearbyUnit × Redis)
  unfolding geo_search filter_present
  nearby_live up others now lat lng radius limit r =
      if is_on_earth lat lng
      then some
          (nearby_of up others now (page limit) (geo_search lat lng radius (page limit * 2) r) r)
      else none
