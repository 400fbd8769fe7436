-- ===== src/Dispatches/Refusals.antt =====
-- The errors that the transactions of internal/dispatch/repository.go can end with.
use crisis_link.Common.{
  ℕ, zero, suc, ◌≡◌, inl, inr, ◌⊎◌, Bool, true, false, none, some, arith, Option-cases, ◌==◌,
  if◌then◌else◌,
}
use crisis_link.Table.{find}
use crisis_link.Table.Laws.{find-update_self, find-update}
use crisis_link.Store.Rows.{Db, DispatchStatus, RescueUnit, UnitStatus}
use crisis_link.Store.Tx.{
  Error, err, Result-cases, dispatch_not_found, illegal_dispatch_transition, unit_not_found,
  unit_not_available, incident_not_found, incident_not_dispatchable, reservation_conflict,
}
use crisis_link.Units.{set_status}
use crisis_link.Dispatches.{set_dispatch_status}
use crisis_link.Dispatches.Transactions.{
  Rivals, advance_status, reserve, try_reserve_optimistic, reserve_attempts,
}

pub advance_status-raises :
    (id : ℕ) (s : DispatchStatus) (db : Db) (e : Error)
    → advance_status id s db ≡ err e
    → (e ≡ dispatch_not_found) ⊎ (e ≡ illegal_dispatch_transition)
unfolding advance_status
advance_status-raises id s db e h = elim (Option-cases (find id db.dispatches)) [
  | inl f ↦ ground arith
  | inr (cur, f) ↦
      ground (arith, find-update_self id (set_dispatch_status s db.now) db.dispatches cur)
]

abbrev pub is_reserve_refusal : Error → Bool
is_reserve_refusal unit_not_found = true
is_reserve_refusal unit_not_available = true
is_reserve_refusal incident_not_found = true
is_reserve_refusal incident_not_dispatchable = true
is_reserve_refusal reservation_conflict = true
is_reserve_refusal e = false

pub reserve-raises :
    (id incident_id unit_id : ℕ) (db : Db) (e : Error)
    → reserve id incident_id unit_id db ≡ err e
    → is_reserve_refusal e ≡ true
unfolding reserve
reserve-raises id incident_id unit_id db e h = elim (Option-cases (find unit_id db.units)) [
  | inl f ↦ ground arith
  | inr (u, f) ↦ elim (Option-cases (find incident_id db.incidents)) [
    | inl g ↦ ground arith
    | inr (i, g) ↦
        ground (
          arith,
          f,
          g,
          find-update unit_id unit_id (set_status UnitStatus.reserved db.now) db.units,
        )
  ]
]

-- The rivals delete no incident, as no statement of the program does.
abbrev pub Keeping : Rivals → Type 0
Keeping rivals =
    (db : Db) (i : ℕ) → find i (rivals.before_swap db).incidents ≡ none → find i db.incidents ≡ none

try_reserve_optimistic-raises :
    (rivals : Rivals) (id incident_id unit_id : ℕ) (db : Db) (e : Error)
    → Keeping rivals
    → try_reserve_optimistic rivals id incident_id unit_id db ≡ err e
    → is_reserve_refusal e ≡ true
unfolding try_reserve_optimistic
try_reserve_optimistic-raises rivals id incident_id unit_id db e keep h =
    elim (Option-cases (find unit_id db.units)) [
      | inl f ↦ ground arith
      | inr (u, f) ↦ elim (Option-cases (find incident_id (rivals.before_incident db).incidents)) [
        | inl g ↦ ground arith
        | inr (i, g) ↦
            let seen = rivals.before_incident db in
            let swapped = rivals.before_swap seen in
            ground (
              arith,
              f,
              g,
              keep seen incident_id,
              find-update unit_id unit_id
                  (λ (r : RescueUnit).
                    if r.version == u.version
                    then set_status UnitStatus.reserved swapped.now r
                    else r)
                  swapped.units,
            )
      ]
    ]

pub reserve_attempts-raises :
    (n : ℕ) (rivals : ℕ → Rivals) (id incident_id unit_id : ℕ) (db : Db) (e : Error)
    → ((m : ℕ) → Keeping (rivals m))
    → reserve_attempts n rivals id incident_id unit_id db ≡ err e
    → is_reserve_refusal e ≡ true
unfolding reserve_attempts
reserve_attempts-raises zero rivals id incident_id unit_id db e keep h = ground arith
reserve_attempts-raises (suc n) rivals id incident_id unit_id db e keep h =
    elim (Result-cases (try_reserve_optimistic (rivals n) id incident_id unit_id db)) [
      | inl (x, f) ↦ ground (
        arith,
        f,
        try_reserve_optimistic-raises (rivals n) id incident_id unit_id db x (keep n) f,
      )
      | inr ((none, db1), f) ↦
          ground (arith, f, reserve_attempts-raises n rivals id incident_id unit_id db1 e keep)
      | inr ((some d, db1), f) ↦ ground (arith, f)
    ]
