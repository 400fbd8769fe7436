-- ===== src/Tests/Events.antt =====
-- The outbox, the consumers, the roles, the scores and the coordinates at small examples.
use crisis_link.Common.{
  ℕ, ◌≡◌, ◌↔◌, refl, Bool, true, false, Option, none, some, List, [], ◌∷◌, arith, ◌==◌,
}
use crisis_link.Common.Int.{pos, ◌≤ℤ◌}
use crisis_link.Store.Rows.{Db, OutboxEvent, AggregateType, EventType, Payload}
use crisis_link.Store.Tx.{ok, after}
use crisis_link.Outbox.{new_event}
use crisis_link.Outbox.Publishing.{publish_batch}
use crisis_link.Outbox.Budget.{InBudget, publish_batch-InBudget}
use crisis_link.Table.Every.{Every}
use crisis_link.Roles.{admin, Actor, owns_unit, owns_shelter}
use crisis_link.Geo.{
  validate_lat_lng, validate_lat_lng_bounds, min_latitude, max_latitude, min_longitude,
  max_longitude,
}
use crisis_link.Tests.Sample.{sample}

abbrev event_row : ℕ → OutboxEvent
event_row attempts =
    record (new_event AggregateType.dispatch 20 EventType.dispatch_created (Payload.created 20 11 2)
      900) { attempts = attempts }

-- One event is new, one has a single attempt left.
abbrev pending : Db
pending = record sample { outbox = (2, event_row 0) ∷ (1, event_row 4) ∷ []; next_event = 3 }

-- A broker that takes the second event and refuses the first.
abbrev broker : ℕ × OutboxEvent → Option (List ℕ)
broker (id, e) = if_first (id == 1)
  where
    if_first : Bool → Option (List ℕ)
    if_first true = some (101 ∷ [])
    if_first false = none

publish_batch-InBudget_example :
    Every InBudget (after pending (publish_batch broker (λ id. false) 10 pending)).outbox
publish_batch-InBudget_example =
    publish_batch-InBudget broker (λ id. false) 10 pending
      (
        record { bounded = ground arith; dead_when_spent = refl },
        (record { bounded = ground arith; dead_when_spent = refl }, tt),
      )

abbrev chief : Actor
chief = record { user_id = 6; role = admin; unit_id = none; shelter_id = none }

chief_owns : (owns_unit chief (some 2) ≡ true) × (owns_shelter chief (some 30) ≡ true)
unfolding owns_unit owns_shelter
chief_owns = (refl, refl)

validate_lat_lng_bounds_example :
    (validate_lat_lng (pos 12500000) (pos 77500000) sample ≡ ok (tt, sample)) ↔ (
      (min_latitude ≤ℤ pos 12500000)
      × (pos 12500000 ≤ℤ max_latitude)
      × (min_longitude ≤ℤ pos 77500000)
      × (pos 77500000 ≤ℤ max_longitude))
validate_lat_lng_bounds_example = validate_lat_lng_bounds (pos 12500000) (pos 77500000) sample
