-- ===== src/Tests/Gate.antt =====
-- Calls of the API and requests at the gateway, at small examples.
use crisis_link.Common.{
  ℕ, ◌+◌, ◌%◌, ◌≤◌, ◌≡◌, ◌≢◌, ◌⊎◌, refl, ap, true, false, Option, none, some, List, [], ◌∷◌, ◌++◌,
  ◌==◌, if◌then◌else◌, arith,
}
use crisis_link.Common.Int.{pos}
use crisis_link.Table.{find}
use crisis_link.Store.Rows.{Db, RescueUnit, OutboxEvent}
use crisis_link.Store.Tx.{ok}
use crisis_link.Roles.{Role, citizen, operator, Actor}
use crisis_link.Auth.{Crypto, Claims, authenticate, bearer}
use crisis_link.Units.{is_available}
use crisis_link.Dispatches.Transactions.{reserve}
use crisis_link.Incidents.{CreateIncidentInput}
use crisis_link.System.Requests.{Request, serve}
use crisis_link.Http.Creation.{set_unit_override}
use crisis_link.Api.{World, Route, Call, routed, respond, respond_all}
use crisis_link.Http.Registers.{cancel_transport}
use crisis_link.Transports.{cancel_booking}
use crisis_link.Api.Runs.{Permitted, respond-Permitted, respond_all-serve}
use crisis_link.Api.Access.{ReportsOnly, citizen-ReportsOnly}
use crisis_link.Api.Override.{override_available}
use crisis_link.RateLimit.{passes_on}
use crisis_link.Gateway.{
  is_public, edge_auth, next, Inbound, Outcome, handle_edge, request_id, picks,
}
use crisis_link.Gateway.Turns.{sent_to, sent_to-bounds}
use crisis_link.Gateway.Edge.{forwarded_lem}
use crisis_link.Tests.Sample.{sample, engine_2, dispatch_20}

abbrev world : World
world = record {
  distance = λ a b c d. 100;
  runes = λ s. 5;
  collate = λ s. 1;
  nearby_live = λ a b r. none;
}

abbrev taker : ℕ × OutboxEvent → Option (List ℕ)
taker e = none

abbrev claims_of_role : Role → Claims
claims_of_role role = record {
  user_id = 4;
  username = "ana";
  role = role;
  unit_id = none;
  shelter_id = none;
  issued_at = 0;
  expires_at = 5000;
}

-- The token 1 is an operator's and 2 a citizen's.
abbrev parse : ℕ → List ℕ → Option Claims
parse now (t ∷ []) =
    if t == 1
    then some (claims_of_role operator)
    else if t == 2
    then some (claims_of_role citizen)
    else none
parse now _ = none

abbrev checker : Crypto
checker = record {
  hash = λ p. none;
  matches = λ h p. false;
  sign = λ c. none;
  parse = parse;
  hours = 1;
}

abbrev operator_header : Option (List ℕ)
operator_header = some (bearer ++ 32 ∷ 1 ∷ [])

abbrev citizen_header : Option (List ℕ)
citizen_header = some (bearer ++ 32 ∷ 2 ∷ [])

abbrev smoke : CreateIncidentInput
smoke = record {
  reporter_id = 99;
  title = "Smoke";
  description = "";
  severity = "high";
  latitude = pos 1000000;
  longitude = pos 1000000;
}

-- A report, a vehicle's booking that an operator releases, a call without a token and one whose id
-- does not parse.
abbrev calls : List Call
calls =
    record { pause = 5; header = citizen_header; route = some (Route.post_incidents 12 smoke) }
    ∷ record { pause = 0; header = operator_header; route = some (Route.patch_booking_cancel 60) }
    ∷ record { pause = 1; header = none; route = some (Route.get_dispatch 20) }
    ∷ record { pause = 2; header = operator_header; route = none }
    ∷ []

respond_all-serve_example :
    (rs : List Request) × (respond_all world checker calls sample
      ≡ serve world.distance world.nearby_live taker rs sample)
respond_all-serve_example = respond_all-serve world taker checker calls sample refl

abbrev cancelled : Db
cancelled = (respond world checker operator_header (some (Route.patch_booking_cancel 60)) sample).1

cancelled-differs : cancelled ≢ sample
unfolding respond routed authenticate cancel_transport cancel_booking
cancelled-differs h = ground (arith, ap (λ db. db.next_event) h)

respond-Permitted_example : Permitted world taker checker operator_header sample cancelled
respond-Permitted_example =
    respond-Permitted world taker checker operator_header (some (Route.patch_booking_cancel 60))
      sample refl cancelled-differs

authenticated : authenticate checker 1000 citizen_header ≡ some (claims_of_role citizen)
unfolding authenticate
authenticated = refl

citizen-ReportsOnly_example :
    ReportsOnly sample
      (respond world checker citizen_header (some (Route.post_incidents 12 smoke)) sample).1
citizen-ReportsOnly_example =
    citizen-ReportsOnly world taker checker citizen_header (some (Route.post_incidents 12 smoke))
      sample (claims_of_role citizen) authenticated refl

abbrev desk : Actor
desk = record { user_id = 6; role = operator; unit_id = none; shelter_id = none }

override_available_example :
    ((u' : RescueUnit) × (find 2 (set_unit_override desk 2 "available" sample).1.units ≡ some u')
      × (is_available u'.status ≡ true))
    × (reserve 21 10 2 (set_unit_override desk 2 "available" sample).1
        ≢ ok ((21, dispatch_20), sample))
override_available_example =
    override_available desk 21 10 2 20 engine_2 dispatch_20 sample ((21, dispatch_20), sample) refl
      refl refl refl

sent_to-bounds_example : (2 ≤ sent_to 1 (picks 3 7 8)) × (sent_to 1 (picks 3 7 8) ≤ 3)
sent_to-bounds_example = sent_to-bounds 3 1 7 8 (omega arith) (omega arith)

-- "/api"
abbrev inbound : Inbound
inbound = record {
  path = 47 ∷ 97 ∷ 112 ∷ 105 ∷ [];
  authorization = operator_header;
  request_id = [];
}

forwards :
    handle_edge true checker 1000 3 (120 ∷ []) passes_on inbound 7
    ≡ (Outcome.forwarded 1 (120 ∷ []), 8)
unfolding handle_edge edge_auth is_public next
forwards = refl

forwarded_lem_example :
    (passes_on ≡ passes_on)
    × ((is_public inbound.path ≡ true)
        ⊎ ((claims : Claims) × (authenticate checker 1000 operator_header ≡ some claims)))
    × (1 ≡ 7 % 3)
    × (8 ≡ 7 + 1)
    × (request_id [] (120 ∷ []) ≡ 120 ∷ [])
forwarded_lem_example =
    forwarded_lem checker 1000 3 7 1 8 (120 ∷ []) [] (120 ∷ []) passes_on inbound (omega arith)
      (omega arith) (λ h. ground (arith, h)) forwards
