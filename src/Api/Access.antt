-- ===== src/Api/Access.antt =====
-- What a caller without a privileged role can change through the API (the role gates of
-- internal/server/server.go).
use crisis_link.Common.{ℕ, ◌≡◌, refl, subst, sym, inl, inr, true, Option, none, some, List, arith}
use crisis_link.Store.Rows.{Db, OutboxEvent}
use crisis_link.Store.Tx.{after-keeps}
use crisis_link.Roles.{Actor, citizen, holds_role}
use crisis_link.Auth.{Crypto, Claims, authenticate, actor_from}
use crisis_link.Incidents.{create_incident}
use crisis_link.Incidents.Committed.{create_incident-Filed}
use crisis_link.Victims.{create_victim}
use crisis_link.System.Inserted.{create_victim-Fresh}
use crisis_link.System.Requests.{Request, handle}
use crisis_link.Http.Creation.{set_unit_override}
use crisis_link.Api.{World, Route, routed, respond}
use crisis_link.Api.Served.{permits}
use crisis_link.Api.Routes.{routed-Served}

-- At most the incidents and the victims are other than before.
abbrev pub ReportsOnly : Db → Db → Type 0
ReportsOnly db db' = db' ≡ record db { incidents = db'.incidents; victims = db'.victims }

module _ (w : World) (publish : ℕ × OutboxEvent → Option (List ℕ)) where
  handle-ReportsOnly :
      (a : Actor) (r : Request) (db : Db)
      → a.role ≡ citizen
      → permits a r ≡ true
      → ReportsOnly db (handle w.distance w.nearby_live publish r db)
  unfolding handle holds_role
  handle-ReportsOnly a (Request.report_incident id body) db c may =
      after-keeps (ReportsOnly db) (create_incident w.distance id body) db refl λ r db' h.
        elim (create_incident-Filed w.distance id body db db' r h) [
          | inl (k, e) ↦ rw e refl
          | inr (i, fresh, e) ↦ rw e refl
        ]
  handle-ReportsOnly a (Request.add_victim id body) db c may =
      after-keeps (ReportsOnly db) (create_victim id body) db refl
        λ r db' h. rw (create_victim-Fresh id body db db' r h).3 refl
  handle-ReportsOnly a r db c may = absurd (ground (arith, c, may))

  routed-ReportsOnly :
      (a : Actor) (r : Route) (db : Db) → a.role ≡ citizen → ReportsOnly db (routed w a r db).1
  routed-ReportsOnly a (Route.patch_unit_status id status) db c =
      unfold routed set_unit_override holds_role in
      (let same : (routed w a (Route.patch_unit_status id status) db).1 ≡ db = ground (arith, c) in
        rw same refl)
  routed-ReportsOnly a r db c = elim (routed-Served w publish a r db refl) [
    | inl same ↦ subst (ReportsOnly db) (sym same) refl
    | inr (q, may, step) ↦ subst (ReportsOnly db) (sym step) (handle-ReportsOnly a q db c may)
  ]

  -- A call that a citizen makes changes incidents and victims at most: no unit, dispatch, shelter,
  -- vehicle, booking or event, whatever the call asks for.
  pub citizen-ReportsOnly :
      (k : Crypto) (header : Option (List ℕ)) (route : Option Route) (db : Db) (claims : Claims)
      → authenticate k db.now header ≡ some claims
      → claims.role ≡ citizen
      → ReportsOnly db (respond w k header route db).1
  unfolding respond
  citizen-ReportsOnly k header none db claims e c = rw (respond, e) refl
  citizen-ReportsOnly k header (some r) db claims e c =
      rw (respond, e) (routed-ReportsOnly (actor_from claims) r db c)
