-- ===== src/Presence/Liveness.antt =====
-- Heartbeats, their expiry, and the search for live units (Heartbeat, FilterPresent and NearbyLive).
use crisis_link.Common.{
  ℕ, ◌+◌, ◌*◌, ◌≡◌, ◌≤◌, refl, sym, subst, inl, inr, Bool, true, false, not, none, some, List, [],
  ◌∷◌, ◌==◌, ltb, leb, if◌then◌else◌, arith, exists_in, keep, map, Bool-cases, length,
  length-take-le, eq_of_test, leb→le, branch, ◌∙◌,
}
use crisis_link.Common.Int.{ℤ}
use crisis_link.Common.Sort.{sort_by, Ascending, take-Ascending, keep-Ascending, sort_by-Ascending}
use crisis_link.Table.{Table, find}
use crisis_link.Table.Every.{All, All-map, All-any, All-both, All-keep, All-sort_by, All-take}
use crisis_link.Dispatches.Service.{NearbyUnit}
use crisis_link.Geo.{is_on_earth}
use crisis_link.Presence.{
  Redis, Position, remove, exists_key, heartbeat, filter_present, says_live, located, geo_search,
  live_hits, stale_hits, evict, page, nearby_of, nearby_live, Meanwhile, recorded,
}

find-remove {ℓ} :
    {A : Type ℓ} (j k : ℕ) (t : Table A) → find j (remove k t) ≡ (if j == k then none else find j t)
find-remove j k [] = ground arith
find-remove j k ((i, a) ∷ t) = ground (arith, find-remove j k t)

-- After a recorded heartbeat at `now` its unit is alive until 30 seconds have passed, and of
-- every other unit Redis says what it said before, at every time.
pub heartbeat_lives :
    (indexable : ℤ → ℤ → Bool) (now id : ℕ) (lat lng : ℤ) (r r' : Redis) (later other : ℕ)
    → heartbeat indexable now id lat lng r ≡ recorded r'
    → exists_key later r' other
      ≡ (if other == id then ltb later (now + 30) else exists_key later r other)
unfolding heartbeat exists_key
heartbeat_lives indexable now id lat lng r r' later other h =
    ground (arith, find-remove other id r.keys)

module _ (f : ℕ → Bool) where
  asked : List ℕ → Table Bool
  asked ids = map (λ id. (id, f id)) ids

  says_live-live : (ids : List ℕ) (id : ℕ) → says_live (asked ids) id ≡ true → f id ≡ true
  unfolding asked
  says_live-live [] id h = cc
  says_live-live (i ∷ ids) id h = ground (arith, says_live-live ids id)

  -- Every unit that is taken for dark is dark.
  stale-dark :
      (live : ℕ → Bool) (hits : List NearbyUnit)
      → All (λ n. live n.unit_id ≡ f n.unit_id) hits
      → (id : ℕ) → f id ≡ true
      → exists_in (λ s. s == id) (map (λ n. n.unit_id) (keep (λ n. not (live n.unit_id)) hits))
        ≡ false
  stale-dark live [] e id h = refl
  stale-dark live (n ∷ hits) e id h = ground (arith, stale-dark live hits e.1 id h, e.0)

  says_live-asked :
      (hits : List NearbyUnit)
      → All (λ n. says_live (asked (map (λ n. n.unit_id) hits)) n.unit_id ≡ f n.unit_id) hits
  unfolding asked
  says_live-asked [] = tt
  says_live-asked (n ∷ hits) = (
    ground arith,
    All-map (λ m. says_live (asked (map (λ n. n.unit_id) hits)) m.unit_id ≡ f m.unit_id)
        (λ m. says_live (asked (map (λ n. n.unit_id) (n ∷ hits))) m.unit_id ≡ f m.unit_id) hits
        (λ m e. ground (arith, e)) (says_live-asked hits),
  )

some_of_if {ℓ} : {A : Type ℓ} (b : Bool) (x y : A) → (if b then some x else none) ≡ some y → x ≡ y
some_of_if b x y h = ground arith

find-evict :
    (id : ℕ) (stale : List ℕ) (t : Table Position)
    → exists_in (λ s. s == id) stale ≡ false
    → find id (keep (λ (id, p). not (exists_in (λ s. s == id) stale)) t) ≡ find id t
find-evict id stale [] h = refl
find-evict id stale ((j, p) ∷ t) h = elim (Bool-cases (j == id)) [
  | inl same ↦ rw (sym (eq_of_test j id same)) (
      ground
        (arith, subst (λ i. exists_in (λ s. s == i) stale ≡ false) (sym (eq_of_test j id same)) h))
  | inr other ↦ ground (arith, find-evict id stale t h, other)
]

module _ (distance : ℤ → ℤ → ℤ → ℤ → ℕ) where
  abbrev Near : ℕ → ℕ → Redis → NearbyUnit → Type 0
  Near now radius r n = (exists_key now r n.unit_id ≡ true) × (n.distance_meters ≤ radius)

  -- What is found, by what Redis held at the check and before the eviction.
  abbrev FoundIn : ℕ → ℕ → ℕ → (checked latest : Redis) → List NearbyUnit × Redis → Type 0
  FoundIn now radius limit checked latest (found, r') =
      All (Near now radius checked) found
      × Ascending (λ n. n.distance_meters) found
      × (length found ≤ limit)
      × ((id : ℕ) → exists_key now checked id ≡ true → find id r'.index ≡ find id latest.index)
      × (r'.keys ≡ latest.keys)

  geo_search-within :
      (lat lng : ℤ) (radius count : ℕ) (r : Redis)
      → All (λ n. n.distance_meters ≤ radius) (geo_search distance lat lng radius count r)
  unfolding geo_search
  geo_search-within lat lng radius count r =
      let hits = map (located distance lat lng) r.index in
      let within = keep (λ (n : NearbyUnit). leb n.distance_meters radius) hits in
      All-take (λ n. n.distance_meters ≤ radius) count (sort_by (λ n. n.distance_meters) within)
        (All-sort_by (λ n. n.distance_meters ≤ radius) (λ n. n.distance_meters) within
          (All-keep (λ n. Unit {0}) (λ n. n.distance_meters ≤ radius)
            (λ n. leb n.distance_meters radius) hits (λ n u. leb→le n.distance_meters radius)
            (All-any hits)))

  geo_search-Ascending :
      (lat lng : ℤ) (radius count : ℕ) (r : Redis)
      → Ascending (λ n. n.distance_meters) (geo_search distance lat lng radius count r)
  unfolding geo_search
  geo_search-Ascending lat lng radius count r =
      let within =
        keep (λ (n : NearbyUnit). leb n.distance_meters radius)
          (map (located distance lat lng) r.index) in
      take-Ascending (λ n. n.distance_meters) count (sort_by (λ n. n.distance_meters) within)
        (sort_by-Ascending (λ n. n.distance_meters) within)

  -- Whatever the search found, where the map of live units agrees with the keys.
  hits-FoundIn :
      (evictions : Bool) (now limit radius : ℕ) (hits : List NearbyUnit) (live : ℕ → Bool)
      (r latest : Redis)
      → All (λ n. n.distance_meters ≤ radius) hits
      → Ascending (λ n. n.distance_meters) hits
      → All (λ n. live n.unit_id ≡ exists_key now r n.unit_id) hits
      → FoundIn now radius limit r latest (
        live_hits distance live limit hits,
        if evictions then evict distance (stale_hits distance live hits) latest else latest,
      )
  hits-FoundIn evictions now limit radius hits live r latest near asc agrees = (
    All-take (Near now radius r) limit (keep (λ n. live n.unit_id) hits) (
        All-keep (λ n. (n.distance_meters ≤ radius) × (live n.unit_id ≡ exists_key now r n.unit_id))
          (Near now radius r) (λ n. live n.unit_id) hits
          (λ n both pass. (sym both.1 ∙ pass, both.0))
          (All-both (λ n. n.distance_meters ≤ radius)
            (λ n. live n.unit_id ≡ exists_key now r n.unit_id) hits near agrees)),
    take-Ascending (λ n. n.distance_meters) limit (keep (λ n. live n.unit_id) hits)
        (keep-Ascending (λ n. n.distance_meters) (λ n. live n.unit_id) hits asc),
    length-take-le limit (keep (λ n. live n.unit_id) hits),
    λ id alive.
        branch (λ (s : Redis). find id s.index ≡ find id latest.index) evictions
          (evict distance (stale_hits distance live hits) latest) latest
          (find-evict id (stale_hits distance live hits) latest.index
            (stale-dark (exists_key now r) live hits agrees id alive))
          refl,
    branch (λ (s : Redis). s.keys ≡ latest.keys) evictions
        (evict distance (stale_hits distance live hits) latest) latest refl refl,
  )

  nearby_of-FoundIn :
      (evictions : Bool) (others : Meanwhile distance) (now limit radius count : ℕ) (lat lng : ℤ)
      (r : Redis)
      → FoundIn now radius limit
          (others.before_check r)
          (others.before_eviction (others.before_check r))
          (nearby_of distance
            (record { checks = true; evictions = evictions })
            others
            now
            limit
            (geo_search distance lat lng radius count r)
            r)
  unfolding filter_present asked
  nearby_of-FoundIn evictions others now limit radius count lat lng r =
      let hits = geo_search distance lat lng radius count r in
      let checked = others.before_check r in
      hits-FoundIn evictions now limit radius hits
        (says_live (filter_present true now checked (map (λ n. n.unit_id) hits))) checked
        (others.before_eviction checked) (geo_search-within lat lng radius count r)
        (geo_search-Ascending lat lng radius count r)
        (says_live-asked (exists_key now checked) hits)

  -- Where Redis answers the check of the keys, and whatever others do to it between the search, the
  -- check and the eviction: all that NearbyLive returns are units alive at the check and, by the
  -- search, within the radius, nearest first, and as many as were asked for at most (5 where the
  -- limit is not positive). It removes no heartbeat, and no position of a unit that was alive at the
  -- check.
  pub nearby_live_lem :
      (evictions : Bool) (others : Meanwhile distance) (now radius : ℕ) (lat lng limit : ℤ)
      (r r' : Redis) (found : List NearbyUnit)
      → nearby_live distance
          (record { checks = true; evictions = evictions })
          others
          now
          lat
          lng
          radius
          limit
          r
        ≡ some (found, r')
      → let checked = others.before_check r in
        let latest = others.before_eviction checked in
        All (λ n. (exists_key now checked n.unit_id ≡ true) × (n.distance_meters ≤ radius)) found
        × Ascending (λ n. n.distance_meters) found
        × (length found ≤ page distance limit)
        × ((id : ℕ) → exists_key now checked id ≡ true → find id r'.index ≡ find id latest.index)
        × (r'.keys ≡ latest.keys)
  unfolding nearby_live
  nearby_live_lem evictions others now radius lat lng limit r r' found h =
      let search = geo_search distance lat lng radius (page distance limit * 2) r in
      let checked = others.before_check r in
      subst (FoundIn now radius (page distance limit) checked (others.before_eviction checked))
        (some_of_if (is_on_earth lat lng)
          (nearby_of distance (record { checks = true; evictions = evictions }) others now
            (page distance limit) search r)
          (found, r') h)
        (nearby_of-FoundIn evictions others now (page distance limit) radius
          (page distance limit * 2) lat lng r)
