-- ===== src/Api/Served.antt =====
-- The routes as requests of System.Requests: what the API does to the database, but for an operator's
-- override of a unit's status.
use Prim.Native.String.{String}
use crisis_link.Common.{
  ℕ, ◌≡◌, refl, sym, subst, ◌∙◌, ◌⊎◌, inl, inr, Bool, Option, none, some, List, [], ◌∷◌, arith,
  Option-cases, Bool-cases, true, false, ◌==◌,
}
use crisis_link.Table.{find}
use crisis_link.Store.Rows.{Db, OutboxEvent}
use crisis_link.Store.Tx.{Tx, Error, ok, err, after, Result-cases}
use crisis_link.Roles.{Role, Actor, responder, shelter_manager, operator, admin, holds_role}
use crisis_link.Incidents.{CreateIncidentInput, create_incident}
use crisis_link.Dispatches.Equivalence.{quiet}
use crisis_link.Dispatches.Service.{service_advance_status, service_reserve}
use crisis_link.Http.{Reply, success, answer, when_valid, when_allowed}
use crisis_link.Http.Dispatching.{dispatch, advance, strategy_of, get_dispatch}
use crisis_link.Http.Creation.{
  post_incident, reported_by, incident_create_reply, is_report, report_status,
}
use crisis_link.System.Requests.{Request, handle}
use crisis_link.Api.{World}
use crisis_link.Api.Frame.{
  Reads, Reads-after, answer-keeps, answer-after, when_valid-keeps, when_allowed-keeps,
}

abbrev pub keepers_only : List Role
keepers_only = shelter_manager ∷ operator ∷ admin ∷ []

abbrev pub operators_only : List Role
operators_only = operator ∷ admin ∷ []

-- What a caller may ask for, by the roles of the routes: the relay's batches and the time are not
-- asked for.
abbrev pub permits : Actor → Request → Bool
permits a (Request.add_unit id body) = holds_role a (admin ∷ [])
permits a (Request.report_incident id body) = body.reporter_id == a.user_id
permits a (Request.set_incident id status) = holds_role a operators_only
permits a (Request.reserve_unit s id incident_id unit_id) = holds_role a operators_only
permits a (Request.advance_dispatch id status) = holds_role a (responder ∷ operator ∷ admin ∷ [])
permits a (Request.reroute_dispatch id old_id) = holds_role a operators_only
permits a (Request.preempt_for id incident_id) = holds_role a operators_only
permits a (Request.add_shelter id body) = holds_role a (admin ∷ [])
permits a (Request.set_shelter id status) = holds_role a keepers_only
permits a (Request.add_victim id body) = true
permits a (Request.admit_victim victim_id shelter_id) = holds_role a keepers_only
permits a (Request.add_vehicle id body) = holds_role a (admin ∷ [])
permits a (Request.book_vehicle id transport_id incident_id seats) = holds_role a operators_only
permits a (Request.release_booking id) = holds_role a operators_only
permits a (Request.relay_batch locked limit) = false
permits a (Request.wait seconds) = false

module _ (w : World) (publish : ℕ × OutboxEvent → Option (List ℕ)) (a : Actor) where
  -- The database as it was, or after a request that the caller may make.
  abbrev pub Served : Db → Db → Type 0
  Served db db' =
      (db' ≡ db)
      ⊎ ((r : Request) × (permits a r ≡ true)
          × (db' ≡ handle w.distance w.nearby_live publish r db))

  pub Served-none : (db : Db) → Served db db
  Served-none db = inl refl

  -- A read behind a route.
  pub read-Served :
      {A : Type 0} (n : ℕ) (table : Error → Reply A) (m : Tx A) (db : Db)
      → Reads m
      → Served db (answer n table m db).1
  read-Served n table m db r =
      answer-keeps (Served db) n table m db
        (subst (Served db) (sym (Reads-after m db r)) (Served-none db))

  -- A handler that leaves the database alone or does what a request does.
  Served-or :
      (r : Request) (db db' : Db)
      → permits a r ≡ true
      → (db' ≡ db) ⊎ (db' ≡ handle w.distance w.nearby_live publish r db)
      → Served db db'
  Served-or r db db' may (inl e) = inl e
  Served-or r db db' may (inr e) = inr (r, may, e)

  module _ {A : Type 0} (n : ℕ) (table : Error → Reply A) (m : Tx A) (r : Request) (db : Db)
      (same : after db (m db) ≡ handle w.distance w.nearby_live publish r db) where
    answered : permits a r ≡ true → Served db (answer n table m db).1
    answered may = inr (r, may, answer-after n table m db ∙ same)

    pub checked :
        (valid : Bool) → permits a r ≡ true → Served db (when_valid valid (answer n table m) db).1
    checked valid may =
        when_valid-keeps (Served db) valid (answer n table m) db (Served-none db) (answered may)

    pub gated :
        (allowed : Bool)
        → (allowed ≡ true → permits a r ≡ true)
        → Served db (when_allowed allowed (answer n table m) db).1
    gated allowed may =
        when_allowed-keeps (Served db) allowed (answer n table m) db (Served-none db)
          λ holds. answered (may holds)

    pub guarded :
        (allowed valid : Bool)
        → (allowed ≡ true → permits a r ≡ true)
        → Served db (when_allowed allowed (when_valid valid (answer n table m)) db).1
    guarded allowed valid may =
        when_allowed-keeps (Served db) allowed (when_valid valid (answer n table m)) db
          (Served-none db) λ holds. checked valid (may holds)

  pub dispatch-Served :
      (strategy : String) (id incident_id : ℕ) (unit_id : Option ℕ) (db : Db)
      → Served db (dispatch a quiet strategy id incident_id unit_id db).1
  unfolding dispatch handle
  dispatch-Served strategy id incident_id none db = elim (Option-cases (strategy_of strategy)) [
    | inl e ↦ inl (ground (arith, e))
    | inr (s, e) ↦ inl (ground (arith, e))
  ]
  dispatch-Served strategy id incident_id (some unit_id) db =
      elim (Bool-cases (holds_role a operators_only)) [
        | inr lacks ↦ inl (ground (arith, lacks))
        | inl holds ↦ elim (Option-cases (strategy_of strategy)) [
          | inl e ↦ inl (ground (arith, e))
          | inr (s, e) ↦
              Served-or (Request.reserve_unit s id incident_id unit_id) db _ holds
                (elim (Result-cases (service_reserve s quiet id incident_id unit_id db)) [
                  | inl (x, f) ↦ inl (ground (arith, e, f))
                  | inr (r, f) ↦ ground (arith, e, f)
                ])
        ]
      ]

  advance-cases :
      (id : ℕ) (status : String) (db : Db)
      → ((advance a id status db).1 ≡ db)
        ⊎ ((advance a id status db).1
            ≡ handle w.distance w.nearby_live publish (Request.advance_dispatch id status) db)
  unfolding advance handle get_dispatch
  advance-cases id status db = elim (Option-cases (find id db.dispatches)) [
    | inl e ↦ inl (ground (arith, e))
    | inr (d, e) ↦ elim (Result-cases (service_advance_status id status db)) [
      | inl (x, f) ↦ inl (ground (arith, e, f))
      | inr (r, f) ↦ ground (arith, e, f)
    ]
  ]

  pub advance-Served : (id : ℕ) (status : String) (db : Db) → Served db (advance a id status db).1
  unfolding advance
  advance-Served id status db =
      elim (Bool-cases (holds_role a (responder ∷ operator ∷ admin ∷ []))) [
        | inr lacks ↦ inl (ground (arith, lacks))
        | inl holds ↦
            Served-or (Request.advance_dispatch id status) db _ holds (advance-cases id status db)
      ]

  pub post_incident-Served :
      (id : ℕ) (body : CreateIncidentInput) (db : Db)
      → Served db (post_incident w.runes w.distance a id body db).1
  unfolding post_incident handle
  post_incident-Served id body db =
      when_valid-keeps (Served db) (is_report w.runes body)
        (λ x. elim (create_incident w.distance id (reported_by a body) x) [
          | ok ((row, merged), db') ↦ (success (report_status merged) row, db')
          | err e ↦ (incident_create_reply e, x)
        ])
        db (Served-none db)
        (Served-or (Request.report_incident id (reported_by a body)) db _ (ground arith)
          (elim (Result-cases (create_incident w.distance id (reported_by a body) db)) [
            | inl (e, f) ↦ inl (rw f refl)
            | inr (((r, merged), db'), f) ↦ inr (rw f refl)
          ]))
