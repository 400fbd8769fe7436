-- ===== src/Tests/Edges.antt =====
-- Presence, the rate limiter, the accounts and the handlers at small examples.
use crisis_link.Common.{
  ℕ, ◌+◌, ◌-◌, ◌*◌, ◌≤◌, ◌≡◌, refl, true, none, some, List, [], ◌∷◌, arith, length,
}
use crisis_link.Common.Int.{ℤ, pos}
use crisis_link.Common.Sort.{Ascending}
use crisis_link.Table.{find}
use crisis_link.Table.Every.{All}
use crisis_link.Dispatches.Service.{NearbyUnit}
use crisis_link.Presence.{Redis, Key, Meanwhile, exists_key, nearby_live, page}
use crisis_link.Presence.Liveness.{nearby_live_lem}
use crisis_link.RateLimit.{second, Bucket, allowed_count}
use crisis_link.RateLimit.Bound.{allowed_count-le, last_of}
use crisis_link.RateLimit.Skew.{alternating, alternating-all}

-- The distance is that of the longitudes.
abbrev line : ℤ → ℤ → ℤ → ℤ → ℕ
line lat (pos lng) lat' (pos lng') = (lng - lng') + (lng' - lng)
line lat lng lat' lng' = 0

abbrev seen_1 : Key
seen_1 = record { value = record { lat = pos 5; lng = pos 9; ts = 100 }; expires_at = 130 }

-- Unit 1 is alive until 130, unit 2 has left no key.
abbrev fleet : Redis
fleet = record {
  keys = (1, seen_1) ∷ [];
  index =
      (2, record { latitude = pos 5; longitude = pos 8 })
      ∷ (1, record { latitude = pos 5; longitude = pos 9 })
      ∷ [];
}

abbrev hit_1 : List NearbyUnit
hit_1 = record { unit_id = 1; latitude = pos 5; longitude = pos 9; distance_meters = 2 } ∷ []

-- Unit 3 reports its position between the check and the eviction.
abbrev joined : Redis
joined = record fleet {
  keys = (3, seen_1) ∷ fleet.keys;
  index = (3, record { latitude = pos 5; longitude = pos 6 }) ∷ fleet.index;
}

abbrev others : Meanwhile line
others = record { before_check = λ r. r; before_eviction = λ r. joined }

abbrev swept : Redis
swept = record joined {
  index =
      (3, record { latitude = pos 5; longitude = pos 6 })
      ∷ (1, record { latitude = pos 5; longitude = pos 9 })
      ∷ [];
}

sweep :
    nearby_live line
      (record { checks = true; evictions = true })
      others
      120
      (pos 5)
      (pos 7)
      50
      (pos 3)
      fleet
    ≡ some (hit_1, swept)
unfolding nearby_live
sweep = refl

nearby_live_lem_example :
    All (λ n. (exists_key 120 fleet n.unit_id ≡ true) × (n.distance_meters ≤ 50)) hit_1
    × Ascending (λ n. n.distance_meters) hit_1
    × (length hit_1 ≤ page line (pos 3))
    × ((id : ℕ) → exists_key 120 fleet id ≡ true → find id swept.index ≡ find id joined.index)
    × (swept.keys ≡ joined.keys)
nearby_live_lem_example =
    nearby_live_lem line true others 120 50 (pos 5) (pos 7) (pos 3) fleet swept hit_1 sweep

-- Ten requests a second and a burst of 20, in nanoseconds.
abbrev burst : List ℕ
burst = 1000 ∷ 50000000 ∷ 200000000 ∷ []

allowed_count-le_example :
    allowed_count 10 20 none (1000 ∷ burst) * second
    ≤ 20 * second + (last_of 1000 burst - 1000) * 10
allowed_count-le_example =
    allowed_count-le 10 20 none 1000 burst (omega arith)
      (omega arith, (omega arith, (omega arith, tt)))

abbrev drained : Bucket
drained = record { tokens = 0; ts = 1000; expires_at = 3000001000 }

alternating-all_example : alternating 10 20 5000 5000 200000000 50 drained ≡ 2 * 50
alternating-all_example =
    alternating-all 10 20 5000 5000 200000000 50 drained (omega arith) (omega arith) (omega arith)
