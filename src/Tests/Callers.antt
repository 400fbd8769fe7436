-- ===== src/Tests/Callers.antt =====
-- The accounts, their tokens and the handlers at small examples.
use Prim.Native.String.{String}
use text.Mathlib.Text.{◌==◌ as str_eq}
use text.Mathlib.TextEquality.{eq_iff}
use crisis_link.Common.{
  ℕ, zero, suc, subst, Bool-cases, ◌<◌, ◌≡◌, ◌≢◌, refl, ap, inl, inr, ◌⊎◌, Bool, true, Option, none,
  some, List, [], ◌∷◌, ◌++◌, ltb, if◌then◌else◌, arith,
}
use crisis_link.Common.Int.{ℤ}
use crisis_link.Table.{Table, find}
use crisis_link.Table.Every.{All}
use crisis_link.Store.Rows.{Db, Dispatch, Victim, VictimStatus}
use crisis_link.Roles.{Role, citizen, responder, shelter_manager, operator, admin, Actor}
use crisis_link.Auth.{
  Crypto, Claims, User, done, register, login, authenticate, bearer, actor_from, new_user, issued,
  get_by_email,
}
use crisis_link.Auth.Accounts.{Proper}
use crisis_link.Auth.Requests.{
  Request, registers, assigns, accounts_after, accounts_after-Proper, no_escalation, Unprivileged,
}
use crisis_link.Auth.Session.{login-authenticate}
use crisis_link.Dispatches.{dispatch_status_of, can_transition_dispatch}
use crisis_link.Dispatches.Transactions.{advance_status}
use crisis_link.Dispatches.Service.{service_advance_status}
use crisis_link.Http.{missing, success}
use crisis_link.Http.Dispatching.{advance}
use crisis_link.Http.Access.{advance_owner}
use crisis_link.Http.Registers.{list, get_by_id, list_nearest_shelters}
use crisis_link.Http.Privacy.{manager_sees, nearest_shelters_shows}
use crisis_link.Victims.Register.{ScoredShelter}
use crisis_link.Tests.Sample.{sample, victim_row}

abbrev role_code : Role → ℕ
role_code citizen = 0
role_code responder = 1
role_code shelter_manager = 2
role_code operator = 3
role_code admin = 4

abbrev role_decode : ℕ → Role
role_decode n =
    if ltb n 1
    then citizen
    else if ltb n 2
    then responder
    else if ltb n 3
    then shelter_manager
    else if ltb n 4
    then operator
    else admin

abbrev id_code : Option ℕ → ℕ
id_code none = 0
id_code (some i) = suc i

abbrev id_decode : ℕ → Option ℕ
id_decode zero = none
id_decode (suc i) = some i

-- Passwords stand for themselves, and a token is the claims of ana, written out.
abbrev write_claims : Claims → Option (List ℕ)
write_claims c =
    if str_eq c.username "ana"
    then some (
        c.user_id
        ∷ role_code c.role
        ∷ id_code c.unit_id
        ∷ id_code c.shelter_id
        ∷ c.issued_at
        ∷ c.expires_at
        ∷ [])
    else none

abbrev read_claims : ℕ → List ℕ → Option Claims
read_claims now (user ∷ role ∷ unit ∷ shelter ∷ issued ∷ expires ∷ []) =
    if ltb now expires
    then some (record {
      user_id = user;
      username = "ana";
      role = role_decode role;
      unit_id = id_decode unit;
      shelter_id = id_decode shelter;
      issued_at = issued;
      expires_at = expires;
    })
    else none
read_claims now _ = none

abbrev plain : Crypto
plain = record {
  hash = λ p. some p;
  matches = λ h p. str_eq h p;
  sign = write_claims;
  parse = read_claims;
  hours = 1;
}

id_round : (i : Option ℕ) → id_decode (id_code i) ≡ i
id_round none = refl
id_round (some i) = refl

role_round : (r : Role) → role_decode (role_code r) ≡ r
role_round r = ground arith

reads_back :
    (c : Claims) (s : List ℕ)
    → write_claims c ≡ some s
    → (now : ℕ) → now < c.expires_at
    → read_claims now s ≡ some c
reads_back c s h now soon = elim (Bool-cases (str_eq c.username "ana")) [
  | inr other ↦ ground (arith, h, other)
  | inl same ↦
      let written : List ℕ =
        c.user_id
        ∷ role_code c.role
        ∷ id_code c.unit_id
        ∷ id_code c.shelter_id
        ∷ c.issued_at
        ∷ c.expires_at
        ∷ [] in
      subst (λ t. read_claims now t ≡ some c) {x = written} {y = s} (ground (arith, h, same))
        (ground (
          arith,
          soon,
          role_round c.role,
          id_round c.unit_id,
          id_round c.shelter_id,
          (eq_iff c.username "ana").0 same,
        ))
]

-- Ana registers, others come and are promoted, and she logs in.
abbrev requests : List Request
requests =
    registers 10 2 "bo" "b@x" "secret"
    ∷ assigns 20 2 "responder" (some 2) none
    ∷ registers 30 3 "cy" "a@x" "other"
    ∷ []

abbrev any_id : ℕ → Bool
any_id i = true

accounts_after-Proper_example : Proper (accounts_after plain any_id any_id [] requests)
accounts_after-Proper_example =
    accounts_after-Proper plain any_id any_id requests []
      (record { ids = tt; names = tt; bindings = tt })

no_escalation_example :
    Unprivileged plain any_id any_id (find 3 (accounts_after plain any_id any_id [] requests))
no_escalation_example = no_escalation plain any_id any_id requests 3 refl

abbrev ana : User
ana = new_user 5 "ana" "a@x" "pw"

abbrev ana_token : List ℕ
ana_token = 1 ∷ 0 ∷ 0 ∷ 0 ∷ 5 ∷ 3605 ∷ []

registered : (register plain 5 1 "ana" "a@x" "pw" []).0 ≡ done (1, ana, ana_token)
unfolding register
registered = refl

abbrev ana_later : List ℕ
ana_later = 1 ∷ 0 ∷ 0 ∷ 0 ∷ 90 ∷ 3690 ∷ []

logged_in : login plain 90 "a@x" "pw" ((1, ana) ∷ []) ≡ done (1, ana, ana_later)
unfolding login
logged_in = refl

login-authenticate_example :
    (get_by_email "a@x" ((1, ana) ∷ []) ≡ some (1, ana))
    × (plain.matches ana.password "pw" ≡ true)
    × (c : Claims) × (authenticate plain 1000 (some (bearer ++ (32 ∷ ana_later))) ≡ some c)
    × (c.username ≡ ana.username)
    × (actor_from c ≡ record {
      user_id = 1;
      role = ana.role;
      unit_id = ana.unit_id;
      shelter_id = ana.shelter_id;
    })
login-authenticate_example =
    login-authenticate plain 90 1000 1 "a@x" "pw" ((1, ana) ∷ []) ana ana_later reads_back logged_in
      (omega arith)

abbrev actor : Role → Option ℕ → Option ℕ → Actor
actor role unit_id shelter_id = record {
  user_id = 9;
  role = role;
  unit_id = unit_id;
  shelter_id = shelter_id;
}

-- The crew of the fire engine.
abbrev crew_2 : Actor
crew_2 = actor responder (some 2) none

moved : (advance crew_2 20 "on_scene" sample).1 ≢ sample
unfolding advance dispatch_status_of advance_status service_advance_status can_transition_dispatch
moved h = ground (arith, ap (λ (x : Db). find 20 x.dispatches) h)

advance_owner_example :
    (d : Dispatch) × (find 20 sample.dispatches ≡ some d)
    × ((crew_2.role ≡ operator)
        ⊎ (crew_2.role ≡ admin)
        ⊎ ((crew_2.role ≡ responder) × (crew_2.unit_id ≡ some d.unit_id)))
advance_owner_example = advance_owner crew_2 20 "on_scene" sample moved

abbrev control_room : Actor
control_room = actor operator none none

abbrev no_uuid : Option ℕ
no_uuid = none

abbrev manager_30 : Actor
manager_30 = actor shelter_manager none (some 30)

manager_sees_example :
    ((status : String) (limit offset : Option ℤ) (rows : Table Victim)
      → (list manager_30 status limit offset sample).0 ≡ success 200 rows
      → All (λ (i, v). v.shelter_id ≡ some 30) rows)
    × ((id : ℕ) (v : Victim)
        → (get_by_id manager_30 id sample).0 ≡ success 200 v
        → (find id sample.victims ≡ some v) × (v.shelter_id ≡ some 30))
manager_sees_example = manager_sees manager_30 30 sample refl refl

abbrev plane_distance : ℤ → ℤ → ℤ → ℤ → ℕ
plane_distance lat lng lat' lng' = 900

-- Victim 40 is not housed anywhere yet.
abbrev victim_40 : Victim
victim_40 = victim_row VictimStatus.registered none

hidden : (get_by_id manager_30 40 sample).0 ≡ missing
unfolding get_by_id
hidden = refl

nearest_shelters_shows_example :
    (shelters : List ScoredShelter) × ((list_nearest_shelters plane_distance manager_30 40 none
        sample).0
      ≡ success 200 (victim_40, shelters))
nearest_shelters_shows_example =
    nearest_shelters_shows plane_distance manager_30 40 none sample victim_40 refl refl hidden
