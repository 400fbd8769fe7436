-- ===== src/Api/Runs.antt =====
-- Runs of the API: every call to it is a request of System.Requests or changes nothing, but for an
-- operator's override of a unit's status.
use crisis_link.Common.{
  ℕ, ◌+◌, ◌≡◌, ◌≢◌, refl, subst, ◌⊎◌, inl, inr, Bool, true, false, Option, none, some, List, [],
  ◌∷◌, exists_in, arith, Option-cases,
}
use crisis_link.Store.Rows.{Db, OutboxEvent}
use crisis_link.Auth.{Crypto, Claims, authenticate, actor_from}
use crisis_link.System.Requests.{Request, handle, serve, wait}
use crisis_link.System.Sound.{Sound}
use crisis_link.System.Reachable.{new_db, serve-Sound}
use crisis_link.Api.{World, Route, Call, respond, respond_all}
use crisis_link.Api.Served.{permits}
use crisis_link.Api.Routes.{is_override, routed-Served}

module _ (w : World) (publish : ℕ × OutboxEvent → Option (List ℕ)) where
  -- What a call does where it does anything: its caller, and the request.
  abbrev pub Permitted : Crypto → Option (List ℕ) → Db → Db → Type 0
  Permitted k header db db' =
      (claims : Claims) × (r : Request) × (authenticate k db.now header ≡ some claims)
      × (permits (actor_from claims) r ≡ true)
      × (db' ≡ handle w.distance w.nearby_live publish r db)

  respond-cases :
      (k : Crypto) (header : Option (List ℕ)) (route : Option Route) (db : Db)
      → is_override route ≡ false
      → ((respond w k header route db).1 ≡ db)
        ⊎ Permitted k header db (respond w k header route db).1
  unfolding respond
  respond-cases k header none db plain = elim (Option-cases (authenticate k db.now header)) [
    | inl e ↦ inl (rw (respond, e) refl)
    | inr (claims, e) ↦ inl (rw (respond, e) refl)
  ]
  respond-cases k header (some r) db plain = elim (Option-cases (authenticate k db.now header)) [
    | inl e ↦ inl (rw (respond, e) refl)
    | inr (claims, e) ↦ elim (routed-Served w publish (actor_from claims) r db plain) [
      | inl same ↦ inl (rw (respond, e) same)
      | inr (q, may, step) ↦ inr (claims, q, e, may, rw (respond, e) step)
    ]
  ]

  -- A call changes the database only for a caller with a valid token, and then as one request of
  -- System.Requests that the roles of the routes permit this caller; an incident is reported in the
  -- caller's own name. An override of a unit's status is left out.
  pub respond-Permitted :
      (k : Crypto) (header : Option (List ℕ)) (route : Option Route) (db : Db)
      → is_override route ≡ false
      → (respond w k header route db).1 ≢ db
      → Permitted k header db (respond w k header route db).1
  respond-Permitted k header route db plain changed = elim (respond-cases k header route db plain) [
    | inl same ↦ absurd (changed same)
    | inr p ↦ p
  ]

  abbrev pub overrides : List Call → Bool
  overrides = exists_in (λ c. is_override c.route)

  -- What any calls of the API do to the database, some requests of System.Requests do, as long as
  -- no call overrides a unit's status.
  pub respond_all-serve :
      (k : Crypto) (calls : List Call) (db : Db)
      → overrides calls ≡ false
      → (rs : List Request) × (respond_all w k calls db
          ≡ serve w.distance w.nearby_live publish rs db)
  unfolding respond_all serve handle
  respond_all-serve k [] db plain = ([], refl)
  respond_all-serve k (c ∷ calls) db plain =
      let later : Db = record db { now = db.now + c.pause } in
      let db1 : Db = (respond w k c.header c.route later).1 in
      let (rs, rest) = respond_all-serve k calls db1 (ground (arith, plain)) in
      elim (respond-cases k c.header c.route later (ground (arith, plain))) [
        | inl same ↦ (
          wait c.pause ∷ rs,
          subst (λ x. respond_all w k calls db1 ≡ serve w.distance w.nearby_live publish rs x) same
              rest,
        )
        | inr (claims, q, token, may, step) ↦ (
          wait c.pause ∷ q ∷ rs,
          subst (λ x. respond_all w k calls db1 ≡ serve w.distance w.nearby_live publish rs x) step
              rest,
        )
      ]

  -- A new installation that answers any calls of the API in any order, none of which overrides a
  -- unit's status, has a sound database after them.
  pub respond_all-Sound :
      (k : Crypto) (calls : List Call) (now : ℕ)
      → overrides calls ≡ false
      → Sound (respond_all w k calls (new_db now))
  respond_all-Sound k calls now plain =
      let (rs, e) = respond_all-serve k calls (new_db now) plain in
      rw e (serve-Sound w.distance w.nearby_live publish rs now)
