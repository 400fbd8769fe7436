-- ===== src/Tests/Reservations.antt =====
-- The dispatch transactions on the sample database.
use crisis_link.Common.{ℕ, ◌≡◌, ◌≤◌, refl, List, [], ◌∷◌}
use crisis_link.Store.Tx.{ok, after}
use crisis_link.Dispatches.{new_dispatch}
use crisis_link.Dispatches.Transactions.{Rivals, reserve}
use crisis_link.Dispatches.Outcomes.{reserved_db}
use crisis_link.Dispatches.Safety.{reserve_succeeds}
use crisis_link.Dispatches.Contention.{contend, contend-le-one, contend-eq-one}
use crisis_link.Dispatches.Transactions.{reserve_optimistic}
use crisis_link.Dispatches.Equivalence.{quiet, reserve_optimistic-reserve}
use crisis_link.Tests.Sample.{sample, sample-WellFormed, ambulance_1, flood_10}

abbrev three_requests : List (ℕ × ℕ)
three_requests = (21, 10) ∷ (22, 11) ∷ (23, 10) ∷ []

contend-le-one_example : (contend 1 three_requests sample).0 ≤ 1
contend-le-one_example = contend-le-one 1 three_requests sample

contend-eq-one_example : contend 1 three_requests sample ≡ (1, reserved_db 21 10 1 sample)
contend-eq-one_example =
    contend-eq-one 21 10 1 ((22, 11) ∷ (23, 10) ∷ []) sample ambulance_1 flood_10 sample-WellFormed
      refl refl refl refl refl

reserve_succeeds_example :
    reserve 21 10 1 sample ≡ ok ((21, new_dispatch 10 1 1000), reserved_db 21 10 1 sample)
reserve_succeeds_example =
    reserve_succeeds 21 10 1 sample ambulance_1 flood_10 sample-WellFormed refl refl refl refl refl

-- Between the reads and the swap another dispatcher reserves the rescue team.
abbrev busy : Rivals
busy = record { before_incident = λ db. db; before_swap = λ db. after db (reserve 22 11 3 db) }

reserve_optimistic-reserve_example :
    reserve_optimistic quiet 21 10 1 sample ≡ reserve 21 10 1 sample
reserve_optimistic-reserve_example =
    reserve_optimistic-reserve 21 10 1 sample (refl, (refl, (refl, tt)))
