-- ===== src/Http/Access.antt =====
-- Who may change what through the dispatch handlers, and which failures they answer
-- (internal/dispatch/handler.go, with RequireRole and Actor.OwnsUnit).
use Prim.Native.String.{String}
use crisis_link.Common.{ℕ, ◌≡◌, ◌≢◌, inl, inr, ◌⊎◌, some, arith, Bool-cases, Option-cases}
use crisis_link.Table.{find}
use crisis_link.Store.Rows.{Db, Dispatch}
use crisis_link.Store.Tx.{Result-cases}
use crisis_link.Roles.{Actor, responder, operator, admin, owns_unit, owns_unit_iff}
use crisis_link.Dispatches.Transactions.{advance_status}
use crisis_link.Dispatches.Refusals.{advance_status-raises}
use crisis_link.Dispatches.{dispatch_status_of}
use crisis_link.Dispatches.Service.{service_advance_status}
use crisis_link.Http.{internal}
use crisis_link.Http.Dispatching.{advance, get_dispatch}

-- A dispatch changes through the handler only for an operator or an administrator, or for the
-- responder of the unit that it is assigned to.
pub advance_owner :
    (actor : Actor) (id : ℕ) (status : String) (db : Db)
    → (advance actor id status db).1 ≢ db
    → (d : Dispatch) × (find id db.dispatches ≡ some d)
      × ((actor.role ≡ operator)
          ⊎ (actor.role ≡ admin)
          ⊎ ((actor.role ≡ responder) × (actor.unit_id ≡ some d.unit_id)))
unfolding advance get_dispatch
advance_owner actor id status db changed = elim (Option-cases (find id db.dispatches)) [
  | inl e ↦ ground (arith, e)
  | inr (d, e) ↦ elim (Bool-cases (owns_unit actor (some d.unit_id))) [
    | inl own ↦ (d, e, (owns_unit_iff actor d.unit_id).0 own)
    | inr other ↦ ground (arith, e, other)
  ]
]

-- Moving a dispatch is never answered by a 500, whoever asks for whatever status of whatever dispatch.
pub advance_never_internal :
    (actor : Actor) (id : ℕ) (status : String) (db : Db) → (advance actor id status db).0 ≢ internal
unfolding advance service_advance_status get_dispatch
advance_never_internal actor id status db h = elim (Option-cases (find id db.dispatches)) [
  | inl f ↦ ground (arith, f)
  | inr (d, f) ↦ elim (Option-cases (dispatch_status_of status)) [
    | inl g ↦ ground (arith, f, g)
    | inr (s, g) ↦ elim (Result-cases (advance_status id s db)) [
      | inl (e, r) ↦ ground (arith, f, g, r, advance_status-raises id s db e r)
      | inr (a, r) ↦ ground (arith, f, g, r)
    ]
  ]
]
