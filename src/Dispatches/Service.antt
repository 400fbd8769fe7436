-- ===== src/Dispatches/Service.antt =====
-- internal/dispatch/service.go and reassign_service.go. Reads that come before a transaction, and
-- the transactions that are tried in turn, run one after another here.
use Prim.Native.String.{String}
use crisis_link.Common.{
  Bool, true, false, ℕ, not, ◌||◌, ◌-◌, ◌*◌, Option, none, some, List, [], ◌∷◌, ◌==◌, if◌then◌else◌,
  map, take,
}
use crisis_link.Common.Int.{ℤ, pos, leb_ℤ, ltb_ℤ, pos_part}
use crisis_link.Common.Sort.{sort_by}
use crisis_link.Table.{Table, find}
use crisis_link.Store.Rows.{RescueUnit, Incident, Dispatch, EventType, UnitType}
use crisis_link.Store.Tx.{
  Tx, Error, Result, ok, err, pure, gets, guard, row_or, ◌>>=◌, ◌>>◌, unit_not_available,
  unit_unavailable, unit_not_found, dispatch_unit_not_found, dispatch_incident_not_found,
  incident_not_found, illegal_dispatch_transition, invalid_dispatch_status, no_reassign_candidate,
  dispatch_not_found, incident_not_dispatchable,
}
use crisis_link.Units.{find_available_by_ids, find_nearest_available}
use crisis_link.Incidents.{get_incident, is_closed}
use crisis_link.Scoring.{score_unit, score_scale, Breakdown, Need}
use crisis_link.Dispatches.{dispatch_status_of, is_active_dispatch}
use crisis_link.Dispatches.Transactions.{Rivals, reserve, reserve_optimistic, advance_status}
use crisis_link.Dispatches.Reassignment.{reassign, find_preemptable, Preemptable}

pub data ReserveStrategy : Type 0 where
  pessimistic optimistic : ReserveStrategy

-- The switch of DispatchService.Reserve on the repository's errors.
abbrev pub reserve_error : Error → Error
reserve_error dispatch_unit_not_found = unit_not_found
reserve_error unit_not_available = unit_unavailable
reserve_error dispatch_incident_not_found = incident_not_found
reserve_error e = e

abbrev by_strategy : ReserveStrategy → (ℕ → Rivals) → ℕ → ℕ → ℕ → Tx (ℕ × Dispatch)
by_strategy optimistic rivals = reserve_optimistic rivals
by_strategy pessimistic rivals = reserve

-- DispatchService.Reserve; the rivals are those of the optimistic path.
unfoldable pub service_reserve : ReserveStrategy → (ℕ → Rivals) → ℕ → ℕ → ℕ → Tx (ℕ × Dispatch)
service_reserve strategy rivals id incident_id unit_id db =
    elim (by_strategy strategy rivals id incident_id unit_id db) [
      | ok r ↦ ok r
      | err e ↦ err (reserve_error e)
    ]

-- DispatchService.AdvanceStatus; its switch passes every error on.
unfoldable pub service_advance_status : ℕ → String → Tx (ℕ × Dispatch)
service_advance_status id status = do
  s ← row_or invalid_dispatch_status (dispatch_status_of status)
  advance_status id s

-- A hit of the live locator, presence.NearbyUnit.
pub record NearbyUnit : Type 0 where
  pub unit_id : ℕ
  pub latitude : ℤ
  pub longitude : ℤ
  pub distance_meters : ℕ

-- A unit with the distance that was measured for it.
pub record Candidate : Type 0 where
  pub id : ℕ
  pub unit : RescueUnit
  pub distance_meters : ℕ

pub data PositionSource : Type 0 where
  live registry : PositionSource

abbrev pub at_live_position : NearbyUnit → RescueUnit → Candidate
at_live_position n u = record {
  id = n.unit_id;
  unit = record u { latitude = n.latitude; longitude = n.longitude };
  distance_meters = n.distance_meters;
}

-- The walk over `nearby`, over the available rows.
abbrev pub hydrated : List NearbyUnit → Table RescueUnit → List Candidate
hydrated [] rows = []
hydrated (n ∷ ns) rows = with_row n (find n.unit_id rows) (hydrated ns rows)
  where
    with_row : NearbyUnit → Option RescueUnit → List Candidate → List Candidate
    with_row n none rest = rest
    with_row n (some u) rest = at_live_position n u ∷ rest

-- hydrateLive; an empty list is its `false`. The limit is at least 1.
unfoldable pub hydrate_live : List NearbyUnit → ℕ → Tx (List Candidate)
hydrate_live nearby limit = do
  rows ← find_available_by_ids (map (λ n. n.unit_id) nearby)
  pure (take limit (hydrated nearby rows))

pub record ScoredUnit : Type 0 where
  pub candidate : Candidate
  pub score : ℕ
  pub breakdown : Breakdown

abbrev pub scored : Need → Candidate → ScoredUnit
scored need c =
    let (score, breakdown) = score_unit c.distance_meters c.unit.type need in
    record { candidate = c; score = score; breakdown = breakdown }

-- sort.SliceStable by score, the highest first: no score is above `score_scale`.
abbrev pub ranked : List ScoredUnit → List ScoredUnit
ranked = sort_by (λ s. score_scale - s.score)

abbrev pub candidate_limit : ℤ → ℕ
candidate_limit limit = if leb_ℤ limit (pos 0) || ltb_ℤ (pos 50) limit then 5 else pos_part limit

abbrev pub reassign_candidate_limit : ℕ
reassign_candidate_limit = 5

-- The errors after which Reroute, and Preempt, go on with the next of their list.
abbrev pub is_unit_taken : Error → Bool
is_unit_taken unit_not_available = true
is_unit_taken _ = false

abbrev pub is_victim_gone : Error → Bool
is_victim_gone unit_not_available = true
is_victim_gone illegal_dispatch_transition = true
is_victim_gone _ = false

-- The body of the two loops: an answer, the rest of the loop, or an error that ends it.
abbrev pub or_next {ℓ} : {A : Type ℓ} → (Error → Bool) → Result A → Result A → Result A
or_next retries (ok r) later = ok r
or_next retries (err e) later = if retries e then later else err e

-- The distance is PostGIS's. The locator answers with the units near a position, the nearest first;
-- `none` is a service without a locator, or a lookup that failed.
module _ (distance : ℤ → ℤ → ℤ → ℤ → ℕ) (nearby_live : ℤ → ℤ → ℕ → Option (List NearbyUnit)) where
  abbrev pub from_registry : Incident → ℕ → Tx (List Candidate × PositionSource)
  from_registry inc limit = do
    units ← find_nearest_available distance inc.latitude inc.longitude none limit
    pure (
      map
          (λ (id, u). record {
            id = id;
            unit = u;
            distance_meters = distance inc.latitude inc.longitude u.latitude u.longitude;
          })
          units,
      registry,
    )

  abbrev pub or_registry : Incident → ℕ → List Candidate → Tx (List Candidate × PositionSource)
  or_registry inc limit [] = from_registry inc limit
  or_registry inc limit (c ∷ cs) = pure (c ∷ cs, live)

  abbrev pub from_nearby :
      Incident → ℕ → Option (List NearbyUnit) → Tx (List Candidate × PositionSource)
  from_nearby inc limit none = from_registry inc limit
  from_nearby inc limit (some []) = from_registry inc limit
  from_nearby inc limit (some (n ∷ ns)) = do
    units ← hydrate_live (n ∷ ns) limit
    or_registry inc limit units

  -- candidateUnits
  unfoldable pub candidate_units : Incident → ℕ → Tx (List Candidate × PositionSource)
  candidate_units inc limit =
      from_nearby inc limit (nearby_live inc.latitude inc.longitude (limit * 3))

  -- DispatchService.Candidates
  unfoldable pub candidates :
      ℕ → Option UnitType → ℤ → Tx (Incident × List ScoredUnit × PositionSource)
  unfolding candidate_units get_incident
  candidates incident_id preferred limit = do
    inc ← get_incident incident_id
    (units, source) ← candidate_units inc (candidate_limit limit)
    let need : Need = record { severity = inc.severity; required_type = preferred }
    pure (inc, ranked (map (scored need) units), source)

  -- The loop of Reroute: each attempt is a transaction of its own.
  unfoldable pub try_units : ℕ → ℕ → Dispatch → List ScoredUnit → Tx (ℕ × Dispatch)
  try_units id old_id old [] db = err no_reassign_candidate
  try_units id old_id old (s ∷ rest) db =
      let later = try_units id old_id old rest db in
      if s.candidate.id == old.unit_id
      then later
      else or_next is_unit_taken
          (reassign id old_id old.incident_id s.candidate.id EventType.dispatch_rerouted db) later

  -- DispatchService.Reroute
  unfoldable pub reroute : ℕ → ℕ → Tx (ℕ × Dispatch)
  unfolding candidates try_units
  reroute id old_id = do
    old ← row_or dispatch_not_found (← gets (λ db. find old_id db.dispatches))
    guard (is_active_dispatch old.status) illegal_dispatch_transition
    (inc, units, source) ← candidates old.incident_id none (pos reassign_candidate_limit)
    try_units id old_id old units

  -- The loop of Preempt.
  unfoldable pub try_victims : ℕ → ℕ → List Preemptable → Tx (ℕ × Dispatch)
  try_victims id incident_id [] db = err no_reassign_candidate
  try_victims id incident_id (v ∷ rest) db =
      or_next is_victim_gone
        (reassign id v.dispatch_id incident_id v.unit_id EventType.dispatch_preempted db)
        (try_victims id incident_id rest db)

  -- DispatchService.Preempt
  unfoldable pub preempt : ℕ → ℕ → Tx (ℕ × Dispatch)
  unfolding get_incident find_preemptable try_victims
  preempt id incident_id = do
    inc ← get_incident incident_id
    guard (not (is_closed inc.status)) incident_not_dispatchable
    victims ←
        find_preemptable distance inc.severity inc.latitude inc.longitude reassign_candidate_limit
    try_victims id incident_id victims

  -- DispatchService.PreemptableFor
  unfoldable pub preemptable_for : ℕ → Tx (Incident × List Preemptable)
  unfolding get_incident find_preemptable
  preemptable_for incident_id = do
    inc ← get_incident incident_id
    victims ←
        find_preemptable distance inc.severity inc.latitude inc.longitude reassign_candidate_limit
    pure (inc, victims)
