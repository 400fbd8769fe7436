-- ===== src/Auth.antt =====
-- internal/auth (service.go, repository.go, jwt.go, password.go) and the middleware that reads its
-- tokens (platform/middleware/auth.go and authz.go). Tokens and headers are texts by their bytes.
-- bcrypt, HMAC signing and token parsing are parameters.
pub mod Accounts
pub mod Requests
pub mod Session
use Prim.Native.String.{String}
use text.Mathlib.Text.{◌==◌ as str_eq}
use crisis_link.Common.{
  ℕ, ◌+◌, ◌*◌, Bool, true, false, not, ◌||◌, ◌&&◌, Option, none, some, List, [], ◌∷◌, ◌==◌,
  if◌then◌else◌, exists_in, is_some,
}
use crisis_link.Table.{Table, find, update}
use crisis_link.Roles.{
  Role, citizen, responder, shelter_manager, operator, admin, Actor, holds_role,
}

pub data AuthError : Type 0 where
  duplicate_user invalid_credentials invalid_role binding_missing user_not_found : AuthError
  unknown_resource hashing_failed signing_failed : AuthError

pub data AuthResult {ℓ} (A : Type ℓ) : Type ℓ where
  done : A → AuthResult A
  failed : AuthError → AuthResult A

pub record User : Type 0 where
  pub username : String
  pub email : String
  pub password : String
  pub role : Role
  pub unit_id : Option ℕ
  pub shelter_id : Option ℕ
  pub created_at : ℕ
  pub updated_at : ℕ

pub record Claims : Type 0 where
  pub user_id : ℕ
  pub username : String
  pub role : Role
  pub unit_id : Option ℕ
  pub shelter_id : Option ℕ
  pub issued_at : ℕ
  pub expires_at : ℕ

-- IsValid, with the role that the text names.
unfoldable pub role_of : String → Option Role
role_of s =
    if str_eq s "citizen"
    then some citizen
    else if str_eq s "responder"
    then some responder
    else if str_eq s "shelter_manager"
    then some shelter_manager
    else if str_eq s "operator"
    then some operator
    else if str_eq s "admin"
    then some admin
    else none

-- The two UNIQUE constraints.
unfoldable pub is_taken : String → String → Table User → Bool
is_taken username email = exists_in (λ (i, u). str_eq u.username username || str_eq u.email email)

-- INSERT INTO users; the fresh id is an argument.
unfoldable pub create_user : ℕ → User → Table User → AuthResult (Table User)
unfolding is_taken
create_user id u users =
    if is_some (find id users) || is_taken u.username u.email users
    then failed duplicate_user
    else done ((id, u) ∷ users)

-- SELECT … WHERE email = $1
abbrev pub get_by_email : String → Table User → Option (ℕ × User)
get_by_email email [] = none
get_by_email email ((i, u) ∷ users) =
    if str_eq u.email email then some (i, u) else get_by_email email users

abbrev pub role_set : ℕ → Role → Option ℕ → Option ℕ → User → User
role_set now role unit_id shelter_id u = record u {
  role = role;
  unit_id = unit_id;
  shelter_id = shelter_id;
  updated_at = now;
}

-- UPDATE users SET role, unit_id, shelter_id; both bindings are foreign keys.
abbrev pub refers : (ℕ → Bool) → Option ℕ → Bool
refers known none = true
refers known (some i) = known i

unfoldable pub update_role_and_bindings :
    (known_unit known_shelter : ℕ → Bool)
    → ℕ
    → ℕ
    → Role
    → Option ℕ
    → Option ℕ
    → Table User
    → AuthResult (Table User)
update_role_and_bindings known_unit known_shelter now id role unit_id shelter_id users =
    if not (is_some (find id users))
    then failed user_not_found
    else if refers known_unit unit_id && refers known_shelter shelter_id
    then done (update id (role_set now role unit_id shelter_id) users)
    else failed unknown_resource

-- The bindings that a role is stored with, from those the caller asked for: `none` is a binding that
-- is absent or empty.
abbrev pub bindings_for : Role → Option ℕ → Option ℕ → AuthResult (Option ℕ × Option ℕ)
bindings_for responder none shelter_id = failed binding_missing
bindings_for responder (some i) shelter_id = done (some i, none)
bindings_for shelter_manager unit_id none = failed binding_missing
bindings_for shelter_manager unit_id (some s) = done (none, some s)
bindings_for citizen unit_id shelter_id = done (none, none)
bindings_for operator unit_id shelter_id = done (none, none)
bindings_for admin unit_id shelter_id = done (none, none)

unfoldable pub assign_role :
    (known_unit known_shelter : ℕ → Bool)
    → ℕ
    → ℕ
    → String
    → Option ℕ
    → Option ℕ
    → Table User
    → AuthResult (Table User)
unfolding role_of update_role_and_bindings
assign_role known_unit known_shelter now id role unit_id shelter_id users = elim (role_of role) [
  | none ↦ failed invalid_role
  | some r ↦ elim (bindings_for r unit_id shelter_id) [
    | failed e ↦ failed e
    | done (u, s) ↦ update_role_and_bindings known_unit known_shelter now id r u s users
  ]
]

abbrev pub actor_from : Claims → Actor
actor_from c = record {
  user_id = c.user_id;
  role = c.role;
  unit_id = c.unit_id;
  shelter_id = c.shelter_id;
}

-- strings.SplitN(s, " ", 2): what stands before the first space, and what after it.
abbrev pub split_at_space : List ℕ → List ℕ × Option (List ℕ)
split_at_space [] = ([], none)
split_at_space (b ∷ s) =
    let (word, rest) = split_at_space s in if b == 32 then ([], some s) else (b ∷ word, rest)

abbrev pub bearer : List ℕ
bearer = 66 ∷ 101 ∷ 97 ∷ 114 ∷ 101 ∷ 114 ∷ []

abbrev pub same_text : List ℕ → List ℕ → Bool
same_text [] [] = true
same_text (a ∷ s) (b ∷ t) = (a == b) && same_text s t
same_text _ _ = false

abbrev pub token_of : List ℕ × Option (List ℕ) → Option (List ℕ)
token_of (scheme, none) = none
token_of (scheme, some t) = if same_text scheme bearer then some t else none

-- What the packages outside the repository do: `hash` (with the salt it draws) and `matches` are
-- bcrypt's; `sign` signs with the server's key, and `parse` answers a token whose signature and expiry
-- are valid at that time. `hours` is ExpiryHours.
pub record Crypto : Type 0 where
  pub hash : String → Option String
  pub matches : String → String → Bool
  pub sign : Claims → Option (List ℕ)
  pub parse : ℕ → List ℕ → Option Claims
  pub hours : ℕ

abbrev pub new_user : ℕ → String → String → String → User
new_user now username email hashed = record {
  username = username;
  email = email;
  password = hashed;
  role = citizen;
  unit_id = none;
  shelter_id = none;
  created_at = now;
  updated_at = now;
}

module _ (k : Crypto) where
  abbrev pub claims_of : ℕ → ℕ → User → Claims
  claims_of now id u = record {
    user_id = id;
    username = u.username;
    role = u.role;
    unit_id = u.unit_id;
    shelter_id = u.shelter_id;
    issued_at = now;
    expires_at = now + k.hours * 3600;
  }

  abbrev pub issued : ℕ → ℕ → User → AuthResult (ℕ × User × List ℕ)
  issued now id u = elim (k.sign (claims_of now id u)) [
    | none ↦ failed signing_failed
    | some t ↦ done (id, u, t)
  ]

  -- The accounts are written before the token is signed: the answer, and the accounts it leaves.
  unfoldable pub register :
      ℕ → ℕ → String → String → String → Table User → AuthResult (ℕ × User × List ℕ) × Table User
  unfolding create_user
  register now id username email password users = elim (k.hash password) [
    | none ↦ (failed hashing_failed, users)
    | some hashed ↦ elim (create_user id (new_user now username email hashed) users) [
      | failed e ↦ (failed e, users)
      | done users' ↦ (issued now id (new_user now username email hashed), users')
    ]
  ]

  unfoldable pub login : ℕ → String → String → Table User → AuthResult (ℕ × User × List ℕ)
  login now email password users = elim (get_by_email email users) [
    | none ↦ failed invalid_credentials
    | some (i, u) ↦
        if k.matches u.password password then issued now i u else failed invalid_credentials
  ]

  -- AuthRequired: the caller's claims, or `none` where the answer is 401.
  unfoldable pub authenticate : ℕ → Option (List ℕ) → Option Claims
  authenticate now none = none
  authenticate now (some header) = elim (token_of (split_at_space header)) [
    | none ↦ none
    | some t ↦ k.parse now t
  ]
