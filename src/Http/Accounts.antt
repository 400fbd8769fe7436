-- ===== src/Http/Accounts.antt =====
-- auth/handler.go, with the role that server.go asks for. `runes` is the validator's measure of a text,
-- and `is_email` its test of an address. The answers stand in full for the failures that the switches
-- name.
use Prim.Native.String.{String}
use text.Mathlib.Text.{◌==◌ as str_eq}
use crisis_link.Common.{ℕ, Bool, not, ◌&&◌, Option, List, [], ◌∷◌, leb, if◌then◌else◌}
use crisis_link.Table.{Table}
use crisis_link.Roles.{Actor, admin, holds_role}
use crisis_link.Auth.{
  User, Crypto, AuthError, AuthResult, done, failed, duplicate_user, invalid_role, binding_missing,
  user_not_found, register, login, assign_role,
}
use crisis_link.Http.{Reply, success, failure, Code, bad_request, missing, internal, refused}

abbrev pub Session : Type 0
Session = ℕ × User × List ℕ

abbrev register_reply : AuthResult Session → Reply Session
register_reply (done r) = success 201 r
register_reply (failed duplicate_user) = failure 409 Code.duplicate_user
register_reply (failed e) = internal

abbrev login_reply : AuthResult Session → Reply Session
login_reply (done r) = success 200 r
login_reply (failed e) = failure 401 Code.invalid_credentials

abbrev pub assign_role_reply : AuthError → Reply (Table User)
assign_role_reply invalid_role = bad_request
assign_role_reply binding_missing = bad_request
assign_role_reply user_not_found = missing
assign_role_reply e = internal

module _ (runes : String → ℕ) (is_email : String → Bool) (k : Crypto) where
  abbrev pub is_registration : (username email password : String) → Bool
  is_registration username email password =
      (leb 3 (runes username) && leb (runes username) 50)
      && (is_email email && leb 6 (runes password))

  -- POST /auth/register
  unfoldable pub register_handler :
      (now id : ℕ) (username email password : String) → Table User → Reply Session × Table User
  unfolding register
  register_handler now id username email password users =
      let (r, users') = register k now id username email password users in
      if is_registration username email password
      then (register_reply r, users')
      else (bad_request, users)

  -- POST /auth/login
  unfoldable pub login_handler : (now : ℕ) (email password : String) → Table User → Reply Session
  unfolding login
  login_handler now email password users =
      if is_email email && not (str_eq password "")
      then login_reply (login k now email password users)
      else bad_request

-- PATCH /admin/users/:id/role
unfoldable pub assign_role_handler :
    (known_unit known_shelter : ℕ → Bool)
    → Actor
    → (now id : ℕ) → String
    → (unit_id shelter_id : Option ℕ) → Table User
    → Reply (Table User) × Table User
unfolding assign_role holds_role
assign_role_handler known_unit known_shelter actor now id role unit_id shelter_id users =
    if not (holds_role actor (admin ∷ []))
    then (refused, users)
    else if str_eq role ""
    then (bad_request, users)
    else elim (assign_role known_unit known_shelter now id role unit_id shelter_id users) [
      | failed e ↦ (assign_role_reply e, users)
      | done users' ↦ (success 200 users', users')
    ]
