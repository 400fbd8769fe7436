-- ===== src/Api/Override.antt =====
-- What an operator's override of a unit's status can and cannot break (UpdateStatus of
-- unit/handler.go, which asks nothing of the unit's dispatches).
use Prim.Native.String.{String}
use crisis_link.Common.{
  ℕ, ◌≡◌, ◌≢◌, refl, ap, subst, true, false, some, [], ◌∷◌, is_some, exists_in, arith, inl, inr,
  Option-cases,
}
use crisis_link.Table.{find, update}
use crisis_link.Table.Laws.{exists_in-find, find-update_self}
use crisis_link.Store.Rows.{Db, Dispatch, RescueUnit, UnitStatus}
use crisis_link.Store.Tx.{ok, after-keeps}
use crisis_link.Roles.{Actor, operator, admin, holds_role}
use crisis_link.Units.{
  update_unit_status, unit_status_of, get_unit, set_unit_status, set_status, is_available,
}
use crisis_link.Dispatches.{holds_unit}
use crisis_link.Dispatches.Transactions.{reserve}
use crisis_link.Dispatches.Outcomes.{reserve-Reservation}
use crisis_link.Http.{answer, when_valid}
use crisis_link.Http.Creation.{set_unit_override, unit_status_reply}
use crisis_link.Api.Frame.{answer-keeps, when_valid-keeps, when_allowed-keeps}

update_unit_status-ok :
    (id : ℕ) (status : String) (db db' : Db) (r : RescueUnit)
    → update_unit_status id status db ≡ ok (r, db')
    → (s : UnitStatus) × (db' ≡ record db { units = update id (set_status s db.now) db.units })
unfolding update_unit_status get_unit set_unit_status
update_unit_status-ok id status db db' r h = elim (Option-cases (unit_status_of status)) [
  | inl e ↦ ground (arith, h, e)
  | inr (s, e) ↦ elim (Option-cases (find id db.units)) [
    | inl f ↦ ground (arith, h, e, f)
    | inr (u, f) ↦
        (s, ground (arith, h, e, f, find-update_self id (set_status s db.now) db.units u))
  ]
]

override_dispatches :
    (actor : Actor) (unit_id : ℕ) (status : String) (db : Db)
    → (set_unit_override actor unit_id status db).1.dispatches ≡ db.dispatches
unfolding set_unit_override update_unit_status get_unit set_unit_status
override_dispatches actor unit_id status db =
    let Q : Db → Type 0 = λ x. x.dispatches ≡ db.dispatches in
    when_allowed-keeps Q (holds_role actor (operator ∷ admin ∷ []))
      (when_valid (is_some (unit_status_of status))
        (answer 200 unit_status_reply (update_unit_status unit_id status)))
      db refl
      λ h.
        when_valid-keeps Q (is_some (unit_status_of status))
          (answer 200 unit_status_reply (update_unit_status unit_id status)) db refl
          (answer-keeps Q 200 unit_status_reply (update_unit_status unit_id status) db (
            after-keeps Q (update_unit_status unit_id status) db refl λ r db' e.
              ap (λ x. x.dispatches) (update_unit_status-ok unit_id status db db' r e).1))

overridden :
    (actor : Actor) (unit_id : ℕ) (u : RescueUnit) (db : Db)
    → actor.role ≡ operator
    → find unit_id db.units ≡ some u
    → (u' : RescueUnit) × (find unit_id (set_unit_override actor unit_id "available" db).1.units
        ≡ some u')
      × (is_available u'.status ≡ true)
unfolding set_unit_override update_unit_status get_unit set_unit_status unit_status_of holds_role
overridden actor unit_id u db o found = (
  set_status UnitStatus.available db.now u,
  ground (
    arith,
    o,
    found,
    find-update_self unit_id (set_status UnitStatus.available db.now) db.units u,
  ),
  refl,
)

-- An operator may set a unit that an active dispatch holds to available; Reserve refuses it even
-- then, whatever the incident.
pub override_available :
    (actor : Actor) (id incident_id unit_id k : ℕ) (u : RescueUnit) (d : Dispatch) (db : Db)
    (r : (ℕ × Dispatch) × Db)
    → actor.role ≡ operator
    → find unit_id db.units ≡ some u
    → find k db.dispatches ≡ some d
    → holds_unit unit_id d ≡ true
    → ((u' : RescueUnit) × (find unit_id (set_unit_override actor unit_id "available" db).1.units
          ≡ some u')
        × (is_available u'.status ≡ true))
      × (reserve id incident_id unit_id (set_unit_override actor unit_id "available" db).1 ≢ ok r)
override_available actor id incident_id unit_id k u d db r o found there holds = (
  overridden actor unit_id u db o found,
  λ h.
      let (booked, _, _) =
        reserve-Reservation id incident_id unit_id
          (set_unit_override actor unit_id "available" db).1 r.0 r.1 h in
      let unheld : exists_in (λ (_, x). holds_unit unit_id x) db.dispatches ≡ false =
        subst (λ t. exists_in (λ (_, x). holds_unit unit_id x) t ≡ false)
          (override_dispatches actor unit_id "available" db) booked.unit_unheld in
      ground (
        arith,
        holds,
        exists_in-find (λ (_, x). holds_unit unit_id x) db.dispatches k d unheld there,
      ),
)
