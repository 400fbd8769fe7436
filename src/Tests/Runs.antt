-- ===== src/Tests/Runs.antt =====
-- Runs of requests, and of transactions among others, at small examples.
use crisis_link.Common.{ℕ, ◌≡◌, refl, true, false, Option, none, some, List, [], ◌∷◌, arith}
use crisis_link.Common.Int.{ℤ, pos}
use crisis_link.Store.Rows.{Db, OutboxEvent, Incident, IncidentStatus}
use crisis_link.Table.{find}
use crisis_link.Store.Tx.{Result, ok, after}
use crisis_link.Shelters.{update_shelter_status, shelter_status_of}
use crisis_link.Units.{CreateUnitInput}
use crisis_link.Incidents.{CreateIncidentInput, update_incident_status}
use crisis_link.Dispatches.{new_dispatch, is_active_dispatch}
use crisis_link.Dispatches.Invariant.{Attended}
use crisis_link.Dispatches.Preservation.{WellFormed}
use crisis_link.Dispatches.Transactions.{reserve, reserve_optimistic, try_reserve_optimistic}
use crisis_link.Dispatches.Optimistic.{seen_by_swap}
use crisis_link.Dispatches.Overwrite.{update_incident_status_race}
use crisis_link.Dispatches.Service.{pessimistic, NearbyUnit}
use crisis_link.System.Sound.{Sound}
use crisis_link.System.Requests.{
  Request, handle, serve, add_unit, report_incident, reserve_unit, advance_dispatch, relay_batch,
  wait, set_shelter,
}
use crisis_link.System.Reachable.{new_db, serve-Sound}
use crisis_link.System.Rivalry.{
  amid, reserve_optimistic-Sound, Untouched, try_reserve_optimistic-Untouched,
}
use crisis_link.Tests.Sample.{sample, flood_10, sample-WellFormed, sample-Capacity, sample-Seating}

-- All distances are equal, no unit reports its position, and the broker takes every event.
abbrev plane : ℤ → ℤ → ℤ → ℤ → ℕ
plane lat lng lat' lng' = 700

abbrev nobody : ℤ → ℤ → ℕ → Option (List NearbyUnit)
nobody lat lng limit = none

abbrev willing : ℕ × OutboxEvent → Option (List ℕ)
willing e = none

abbrev medic : CreateUnitInput
medic = record {
  call_sign = "M-1";
  type = "ambulance";
  latitude = pos 12000000;
  longitude = pos 77000000;
}

abbrev fire_report : CreateIncidentInput
fire_report = record {
  reporter_id = 7;
  title = "Fire";
  description = "";
  severity = "high";
  latitude = pos 12100000;
  longitude = pos 77100000;
}

abbrev shift : List Request
shift =
    add_unit 1 medic
    ∷ report_incident 10 fire_report
    ∷ reserve_unit pessimistic 20 10 1
    ∷ wait 60
    ∷ advance_dispatch 20 "en_route"
    ∷ relay_batch (λ i. false) 10
    ∷ []

serve-Sound_example : Sound (serve plane nobody willing shift (new_db 100))
serve-Sound_example = serve-Sound plane nobody willing shift 100

-- The sample without its dispatch.
abbrev idle : Db
idle = record sample { dispatches = [] }

idle-Sound : Sound idle
idle-Sound = record {
  dispatching = record {
    ids = tt;
    one_active = λ i j d e fi fj ai aj same. ground arith;
    held = λ i d f a. ground arith;
    attended = λ i d f a. ground arith;
  };
  seating = record {
    ids = sample-Seating.ids;
    counted = sample-Seating.counted;
    within = sample-Seating.within;
  };
  capacity = record {
    people = sample-Capacity.people;
    counted = sample-Capacity.counted;
    within = sample-Capacity.within;
  };
  budget = tt;
  unit_ids = (refl, (refl, (refl, tt)));
  incident_ids = (refl, (refl, tt));
  recorded = refl;
}

-- Time passes before the incident is read, and a shelter closes before the swap.
abbrev bustle : ℕ → List Request × List Request
bustle n = (wait 5 ∷ [], set_shelter 30 "closed" ∷ [])

raced_reserve_optimistic :
    reserve_optimistic (amid plane nobody willing bustle) 21 10 1 idle
    ≡ ok (
      (21, new_dispatch 10 1 1005),
      after idle (reserve_optimistic (amid plane nobody willing bustle) 21 10 1 idle),
    )
unfolding reserve_optimistic handle serve try_reserve_optimistic update_shelter_status
    shelter_status_of
raced_reserve_optimistic = refl

reserve_optimistic-Sound_example :
    Sound (after idle (reserve_optimistic (amid plane nobody willing bustle) 21 10 1 idle))
reserve_optimistic-Sound_example =
    reserve_optimistic-Sound plane nobody willing bustle 21 10 1 idle
      (after idle (reserve_optimistic (amid plane nobody willing bustle) 21 10 1 idle))
      (21, new_dispatch 10 1 1005) idle-Sound raced_reserve_optimistic

first_attempt :
    try_reserve_optimistic (amid plane nobody willing bustle 2) 21 10 1 idle
    ≡ ok (
      some (21, new_dispatch 10 1 1005),
      after idle (try_reserve_optimistic (amid plane nobody willing bustle 2) 21 10 1 idle),
    )
unfolding try_reserve_optimistic handle serve update_shelter_status shelter_status_of
first_attempt = refl

try_reserve_optimistic-Untouched_example :
    Untouched plane nobody willing 1 idle (seen_by_swap (amid plane nobody willing bustle 2) idle)
try_reserve_optimistic-Untouched_example =
    try_reserve_optimistic-Untouched plane nobody willing bustle 2 21 10 1 idle
      (after idle (try_reserve_optimistic (amid plane nobody willing bustle 2) 21 10 1 idle))
      (21, new_dispatch 10 1 1005) idle-Sound first_attempt

abbrev between : Db
between = after sample (reserve 21 10 1 sample)

reserved_meanwhile : reserve 21 10 1 sample ≡ ok ((21, new_dispatch 10 1 1000), between)
unfolding reserve
reserved_meanwhile = refl

abbrev overwritten : Result (Incident × Db)
overwritten = update_incident_status (λ x. between) 10 "verified" sample

update_incident_status_race_example :
    WellFormed between
    × (j : Incident) × (overwritten ≡ ok (j, after sample overwritten))
    × (j.status ≡ IncidentStatus.verified)
    × (find 10 (after sample overwritten).incidents ≡ some j)
    × (find 21 (after sample overwritten).dispatches ≡ some (new_dispatch 10 1 1000))
    × ((new_dispatch 10 1 1000).incident_id ≡ 10)
    × (is_active_dispatch (new_dispatch 10 1 1000).status ≡ true)
    × ¬ Attended (after sample overwritten).incidents (after sample overwritten).dispatches
update_incident_status_race_example =
    update_incident_status_race 21 10 1 sample between (21, new_dispatch 10 1 1000) flood_10
      sample-WellFormed refl refl reserved_meanwhile
