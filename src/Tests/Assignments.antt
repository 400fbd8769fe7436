-- ===== src/Tests/Assignments.antt =====
-- The lifecycle of a dispatch on the sample database.
use crisis_link.Common.{ℕ, ◌≡◌, refl, Option, none, some, List, [], ◌∷◌, arith}
use crisis_link.Common.Int.{ℤ, pos}
use crisis_link.Table.{find, count_where}
use crisis_link.Store.Rows.{Db, Dispatch, DispatchStatus, EventType, Severity}
use crisis_link.Units.{find_available_by_ids}
use crisis_link.Incidents.{get_incident}
use crisis_link.Store.Tx.{ok, after}
use crisis_link.Dispatches.{new_dispatch, serves, set_dispatch_status}
use crisis_link.Dispatches.Transactions.{advance_status}
use crisis_link.Dispatches.Reassignment.{
  reassign, lock_units, move_unit, release_incident, find_preemptable,
}
use crisis_link.Dispatches.Service.{
  NearbyUnit, ScoredUnit, scored, at_live_position, live, hydrate_live, candidates, candidate_units,
  preempt, try_victims,
}
use crisis_link.Dispatches.Ranking.{Shortlist, candidates-Shortlist}
use crisis_link.Dispatches.Triage.{Triaged, preempt-Triaged}
use crisis_link.Dispatches.Mirror.{IsMirrored, preempt-unmirrored}
use crisis_link.Dispatches.Lifecycle.{
  advance_status_incident, cancel_strands_incident, IncidentFollows,
}
use crisis_link.Tests.Sample.{
  sample, sample-IsMirrored, dispatch_20, flood_10, flood_11, ambulance_1,
}

preempted : Db
preempted = after sample (reassign 21 20 10 2 EventType.dispatch_preempted sample)

preemption_21 :
    reassign 21 20 10 2 EventType.dispatch_preempted sample
    ≡ ok ((21, new_dispatch 10 2 1000), preempted)
unfolding preempted reassign lock_units move_unit release_incident
preemption_21 = refl

preempt-unmirrored_example : ¬ IsMirrored preempted
preempt-unmirrored_example =
    preempt-unmirrored 21 20 10 EventType.dispatch_preempted dispatch_20 sample preempted
      (21, new_dispatch 10 2 1000) sample-IsMirrored refl (λ e. ground arith) preemption_21

-- The fire engine turns back.
turned_back : Db
turned_back = after sample (advance_status 20 DispatchStatus.cancelled sample)

cancellation_20 :
    advance_status 20 DispatchStatus.cancelled sample
    ≡ ok ((20, set_dispatch_status DispatchStatus.cancelled 1000 dispatch_20), turned_back)
unfolding turned_back advance_status
cancellation_20 = refl

cancel_strands_incident_example :
    (count_where (serves 11) turned_back.dispatches ≡ 0)
    × (find 11 turned_back.incidents ≡ some flood_11)
cancel_strands_incident_example =
    cancel_strands_incident 20 sample turned_back
      (20, set_dispatch_status DispatchStatus.cancelled 1000 dispatch_20) dispatch_20 flood_11 refl
      refl refl refl (refl, tt) cancellation_20

-- The engine was on the scene and is done.
on_scene : Db
on_scene = after sample (advance_status 20 DispatchStatus.on_scene sample)

done : Db
done = after on_scene (advance_status 20 DispatchStatus.completed on_scene)

abbrev on_scene_20 : Dispatch
on_scene_20 = set_dispatch_status DispatchStatus.on_scene 1000 dispatch_20

completion_20 :
    (find 20 on_scene.dispatches ≡ some on_scene_20)
    × (find 11 on_scene.incidents ≡ some flood_11)
    × (advance_status 20 DispatchStatus.completed on_scene
        ≡ ok ((20, set_dispatch_status DispatchStatus.completed 1000 on_scene_20), done))
unfolding done on_scene advance_status
completion_20 = (refl, refl, refl)

advance_status_incident_example :
    IncidentFollows DispatchStatus.completed on_scene done on_scene_20 flood_11
advance_status_incident_example =
    advance_status_incident 20 DispatchStatus.completed on_scene done
      (20, set_dispatch_status DispatchStatus.completed 1000 on_scene_20) on_scene_20 flood_11
      completion_20.0 completion_20.1 completion_20.2

abbrev plane : ℤ → ℤ → ℤ → ℤ → ℕ
plane lat lng lat' lng' = 700

-- The locator knows the ambulance and the fire engine.
abbrev locator : ℤ → ℤ → ℕ → Option (List NearbyUnit)
locator lat lng limit = some (
    record { unit_id = 2; latitude = pos 5; longitude = pos 8; distance_meters = 300 }
    ∷ record { unit_id = 1; latitude = pos 5; longitude = pos 9; distance_meters = 400 }
    ∷ [])

abbrev best : List ScoredUnit
best =
    scored (record { severity = Severity.critical; required_type = none })
      (at_live_position
        (record { unit_id = 1; latitude = pos 5; longitude = pos 9; distance_meters = 400 })
        ambulance_1)
    ∷ []

ranking : candidates plane locator 10 none (pos 5) sample ≡ ok ((flood_10, best, live), sample)
unfolding candidates candidate_units hydrate_live find_available_by_ids get_incident
ranking = refl

candidates-Shortlist_example : Shortlist sample 5 best
candidates-Shortlist_example =
    candidates-Shortlist plane locator 10 none (pos 5) sample sample flood_10 best live
      (refl, (refl, (refl, tt))) ranking

seized : Db
seized = after sample (preempt plane locator 21 10 sample)

seizure : preempt plane locator 21 10 sample ≡ ok ((21, new_dispatch 10 2 1000), seized)
unfolding seized preempt get_incident find_preemptable try_victims reassign lock_units move_unit
    release_incident
seizure = refl

preempt-Triaged_example : Triaged 21 10 flood_10 sample seized
preempt-Triaged_example =
    preempt-Triaged plane locator 21 10 flood_10 sample ((21, new_dispatch 10 2 1000), seized)
      (refl, tt) refl seizure
