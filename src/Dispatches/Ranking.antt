-- ===== src/Dispatches/Ranking.antt =====
-- Which units Candidates of internal/dispatch/service.go offers, and in which order.
use crisis_link.Common.{
  ℕ, suc, ◌≤◌, ◌≡◌, ◌-◌, ◌*◌, refl, subst, sym, inl, inr, Bool, true, ◌&&◌, ◌==◌, exists_in, Option,
  none, some, List, [], ◌∷◌, arith, Option-cases, take, keep, map, length, length-take-le,
}
use crisis_link.Common.Int.{ℤ}
use crisis_link.Common.Sort.{sort_by, place, Ascending, sort_by-Ascending}
use crisis_link.Table.{Table, find}
use crisis_link.Table.Laws.{Unique}
use crisis_link.Table.Every.{All, All-keep, All-sort_by, All-take, All-StandsIn, StandsIn}
use crisis_link.Store.Rows.{Db, Incident, RescueUnit, UnitType}
use crisis_link.Store.Tx.{ok, Result-cases}
use crisis_link.Units.{is_available, find_available_by_ids, find_nearest_available}
use crisis_link.Incidents.{get_incident}
use crisis_link.Dispatches.Rerouting.{hydrate_live-reads}
use crisis_link.Scoring.{score_scale, score_unit_bounds, Need}
use crisis_link.Dispatches.Service.{
  NearbyUnit, Candidate, ScoredUnit, PositionSource, scored, ranked, at_live_position, hydrated,
  hydrate_live, candidates, candidate_units, candidate_limit, from_registry, from_nearby,
}

-- The candidate is a unit of the registry that is available.
abbrev pub Available : Db → Candidate → Type 0
Available db c = (u : RescueUnit) × (find c.id db.units ≡ some u) × (is_available u.status ≡ true)

find-keep :
    (p : ℕ × RescueUnit → Bool) (k : ℕ) (u : RescueUnit) (t : Table RescueUnit)
    → Unique t
    → find k (keep p t) ≡ some u
    → (find k t ≡ some u) × (p (k, u) ≡ true)
find-keep p k u [] unique h = absurd (ground (arith, h))
find-keep p k u ((i, v) ∷ t) unique h = ground (arith, find-keep p k u t unique.1)

length-place {ℓ} :
    {A : Type ℓ} (key : A → ℕ) (a : A) (xs : List A) → length (place key a xs) ≡ suc (length xs)
length-place key a [] = refl
length-place key a (b ∷ xs) = ground (arith, length-place key a xs)

length-sort_by {ℓ} : {A : Type ℓ} (key : A → ℕ) (xs : List A) → length (sort_by key xs) ≡ length xs
length-sort_by key [] = refl
length-sort_by key (a ∷ xs) =
    omega (arith, length-place key a (sort_by key xs), length-sort_by key xs)

length-map {ℓ κ} :
    {A : Type ℓ} {B : Type κ} (f : A → B) (xs : List A) → length (map f xs) ≡ length xs
length-map f [] = refl
length-map f (a ∷ xs) = omega (arith, length-map f xs)

hydrated-Available :
    (db : Db) (nearby : List NearbyUnit) (rows : Table RescueUnit)
    → ((k : ℕ) (u : RescueUnit)
        → find k rows ≡ some u
        → (find k db.units ≡ some u) × (is_available u.status ≡ true))
    → All (Available db) (hydrated nearby rows)
hydrated-Available db [] rows known = tt
hydrated-Available db (n ∷ ns) rows known =
    let rest = hydrated-Available db ns rows known in
    elim (Option-cases (find n.unit_id rows)) [
      | inl e ↦
          let same : hydrated (n ∷ ns) rows ≡ hydrated ns rows = ground (arith, e) in
          subst (All (Available db)) (sym same) rest
      | inr (u, e) ↦
          let same : hydrated (n ∷ ns) rows ≡ at_live_position n u ∷ hydrated ns rows =
            ground (arith, e) in
          subst (All (Available db)) (sym same)
            ((u, (known n.unit_id u e).0, (known n.unit_id u e).1), rest)
    ]

-- What Candidates answers: units that are available, as many as were asked for at most, and the
-- best score first.
pub record Shortlist (db : Db) (limit : ℕ) (units : List ScoredUnit) : Type 0 where
  pub available : All (λ s. Available db s.candidate) units
  pub bounded : length units ≤ limit
  pub scores : All (λ s. s.score ≤ score_scale) units
  pub best_first : Ascending (λ s. score_scale - s.score) units

All-scored :
    (db : Db) (need : Need) (cs : List Candidate)
    → All (Available db) cs
    → All (λ s. Available db s.candidate) (map (scored need) cs)
All-scored db need [] all = tt
All-scored db need (c ∷ cs) all = (all.0, All-scored db need cs all.1)

scored-le :
    (need : Need) (cs : List Candidate) → All (λ s. s.score ≤ score_scale) (map (scored need) cs)
scored-le need [] = tt
scored-le need (c ∷ cs) = (score_unit_bounds c.distance_meters c.unit.type need, scored-le need cs)

ranked-Shortlist :
    (db : Db) (need : Need) (limit : ℕ) (cs : List Candidate)
    → All (Available db) cs
    → length cs ≤ limit
    → Shortlist db limit (ranked (map (scored need) cs))
ranked-Shortlist db need limit cs all few =
    let key : ScoredUnit → ℕ = λ s. score_scale - s.score in
    record {
      available =
          All-sort_by (λ s. Available db s.candidate) key (map (scored need) cs)
            (All-scored db need cs all);
      bounded =
          omega
            (arith, length-sort_by key (map (scored need) cs), length-map (scored need) cs, few);
      scores =
          All-sort_by (λ s. s.score ≤ score_scale) key (map (scored need) cs) (scored-le need cs);
      best_first = sort_by-Ascending key (map (scored need) cs);
    }

-- Units that may be ranked.
abbrev Offered : Db → ℕ → List Candidate → Type 0
Offered db limit cs = All (Available db) cs × (length cs ≤ limit)

hydrate_live-Offered :
    (nearby : List NearbyUnit) (limit : ℕ) (db db' : Db) (cs : List Candidate)
    → Unique db.units
    → hydrate_live nearby limit db ≡ ok (cs, db')
    → Offered db limit cs
unfolding hydrate_live find_available_by_ids
hydrate_live-Offered nearby limit db db' cs unique h =
    let ids = map (λ n. n.unit_id) nearby in
    let rows = keep (λ (id, u). exists_in (λ i. i == id) ids && is_available u.status) db.units in
    let same : take limit (hydrated nearby rows) ≡ cs = ground (arith, h) in
    let known : (k : ℕ) (u : RescueUnit)
        → find k rows ≡ some u
        → (find k db.units ≡ some u) × (is_available u.status ≡ true) =
      λ k u f. ground (
        arith,
        find-keep (λ (id, u). exists_in (λ i. i == id) ids && is_available u.status) k u db.units
            unique f,
      ) in
    subst (Offered db limit) same (
      All-take (Available db) limit (hydrated nearby rows)
          (hydrated-Available db nearby rows known),
      length-take-le limit (hydrated nearby rows),
    )

module _ (distance : ℤ → ℤ → ℤ → ℤ → ℕ) (nearby_live : ℤ → ℤ → ℕ → Option (List NearbyUnit)) where
  abbrev at_registered : Incident → ℕ × RescueUnit → Candidate
  at_registered inc (id, u) = record {
    id = id;
    unit = u;
    distance_meters = distance inc.latitude inc.longitude u.latitude u.longitude;
  }

  registered-Available :
      (inc : Incident) (db : Db) (rows : Table RescueUnit)
      → All (λ (id, u). (find id db.units ≡ some u) × (is_available u.status ≡ true)) rows
      → All (Available db) (map (at_registered inc) rows)
  registered-Available inc db [] all = tt
  registered-Available inc db ((id, u) ∷ rows) all =
      ((u, all.0.0, all.0.1), registered-Available inc db rows all.1)

  from_registry-Offered :
      (inc : Incident) (limit : ℕ) (db db' : Db) (cs : List Candidate) (source : PositionSource)
      → Unique db.units
      → from_registry distance nearby_live inc limit db ≡ ok ((cs, source), db')
      → Offered db limit cs
  unfolding find_nearest_available
  from_registry-Offered inc limit db db' cs source unique h =
      let P : ℕ × RescueUnit → Type 0 =
        λ (id, u). (find id db.units ≡ some u) × (is_available u.status ≡ true) in
      let key : ℕ × RescueUnit → ℕ =
        λ (id, u). distance inc.latitude inc.longitude u.latitude u.longitude in
      let free = keep (λ (id, u). is_available u.status && true) db.units in
      let rows = take limit (sort_by key free) in
      let all : All P rows = All-take P limit (sort_by key free) (
        All-sort_by P key free (
          All-keep (StandsIn db.units) P (λ (id, u). is_available u.status && true) db.units
            (λ (id, u) stands pass. (stands, ground (arith, pass)))
            (All-StandsIn db.units unique))) in
      let same : map (at_registered inc) rows ≡ cs = ground (arith, h) in
      subst (Offered db limit) same (
        registered-Available inc db rows all,
        omega (arith, length-map (at_registered inc) rows, length-take-le limit (sort_by key free)),
      )

  from_nearby-Offered :
      (inc : Incident) (limit : ℕ) (hits : Option (List NearbyUnit)) (db db' : Db)
      (cs : List Candidate) (source : PositionSource)
      → Unique db.units
      → from_nearby distance nearby_live inc limit hits db ≡ ok ((cs, source), db')
      → Offered db limit cs
  from_nearby-Offered inc limit none db db' cs source unique h =
      from_registry-Offered inc limit db db' cs source unique h
  from_nearby-Offered inc limit (some []) db db' cs source unique h =
      from_registry-Offered inc limit db db' cs source unique h
  from_nearby-Offered inc limit (some (n ∷ ns)) db db' cs source unique h =
      elim (Result-cases (hydrate_live (n ∷ ns) limit db)) [
        | inl (e, f) ↦ absurd (ground (arith, h, f))
        | inr (([], db1), f) ↦
            let same : db1 ≡ db =
              hydrate_live-reads distance nearby_live (n ∷ ns) limit db [] db1 f in
            from_registry-Offered inc limit db db' cs source unique (ground (arith, h, f, same))
        | inr ((c ∷ us, db1), f) ↦
            let same : c ∷ us ≡ cs = ground (arith, h, f) in
            subst (Offered db limit) same
              (hydrate_live-Offered (n ∷ ns) limit db db1 (c ∷ us) unique f)
      ]

  -- Where no id of a unit occurs twice: what Candidates answers for an incident are units that are
  -- available, as many as were asked for at most (5 where the limit is not within 1 and 50), and in
  -- the order of their scores, the best first; live positions or the registry, wherever it found
  -- them.
  pub candidates-Shortlist :
      (incident_id : ℕ) (preferred : Option UnitType) (limit : ℤ) (db db' : Db) (inc : Incident)
      (units : List ScoredUnit) (source : PositionSource)
      → Unique db.units
      → candidates distance nearby_live incident_id preferred limit db
        ≡ ok ((inc, units, source), db')
      → Shortlist db (candidate_limit limit) units
  unfolding candidates candidate_units get_incident
  candidates-Shortlist incident_id preferred limit db db' inc units source unique h =
      elim (Option-cases (find incident_id db.incidents)) [
        | inl e ↦ absurd (ground (arith, h, e))
        | inr (i, e) ↦
            let n = candidate_limit limit in
            let hits = nearby_live i.latitude i.longitude (n * 3) in
            let need : Need = record { severity = i.severity; required_type = preferred } in
            elim (Result-cases (from_nearby distance nearby_live i n hits db)) [
              | inl (x, f) ↦ absurd (ground (arith, h, e, f))
              | inr (((cs, s), db1), f) ↦
                  let same : ranked (map (scored need) cs) ≡ units = ground (arith, h, e, f) in
                  let (all, few) = from_nearby-Offered i n hits db db1 cs s unique f in
                  subst (Shortlist db n) same (ranked-Shortlist db need n cs all few)
            ]
      ]
