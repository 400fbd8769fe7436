-- ===== src/Auth/Requests.antt =====
-- Runs of the requests that change accounts (Register and AssignRole), and what privileges they give.
use Prim.Native.String.{String}
use crisis_link.Common.{
  ℕ, ◌≡◌, refl, inl, inr, sym, subst, ◌⊎◌, Bool, false, Option, none, some, List, [], ◌∷◌, ◌==◌,
  exists_in, arith, Bool-cases,
}
use crisis_link.Table.{Table, find}
use crisis_link.Table.Laws.{find-update_ne}
use crisis_link.Roles.{citizen}
use crisis_link.Auth.{
  User, Crypto, AuthResult, done, failed, role_set, assign_role, new_user, register,
}
use crisis_link.Auth.Accounts.{
  Proper, Assigned, AuthResult-cases, assign_role-Assigned, Assigned-Proper, create_user-lem,
  register-cases, register-Proper,
}

-- A request that changes accounts, with the id that the database draws and its time.
pub data Request : Type 0 where
  registers : (now id : ℕ) (username email password : String) → Request
  assigns : (now id : ℕ) (role : String) (unit_id shelter_id : Option ℕ) → Request

module _ (k : Crypto) (known_unit known_shelter : ℕ → Bool) where
  abbrev pub kept_or : Table User → AuthResult (Table User) → Table User
  kept_or users (failed e) = users
  kept_or users (done users') = users'

  unfoldable pub serve : Request → Table User → Table User
  unfolding register assign_role
  serve (registers now id username email password) users =
      (register k now id username email password users).1
  serve (assigns now id role unit_id shelter_id) users =
      kept_or users (assign_role known_unit known_shelter now id role unit_id shelter_id users)

  abbrev pub accounts_after : Table User → List Request → Table User
  accounts_after users [] = users
  accounts_after users (q ∷ requests) = accounts_after (serve q users) requests

  pub assign_role-cases :
      (now id : ℕ) (role : String) (unit_id shelter_id : Option ℕ) (users : Table User)
      → (serve (assigns now id role unit_id shelter_id) users ≡ users)
        ⊎ Assigned id users (serve (assigns now id role unit_id shelter_id) users)
  unfolding serve
  assign_role-cases now id role unit_id shelter_id users =
      elim (AuthResult-cases
        (assign_role known_unit known_shelter now id role unit_id shelter_id users)) [
          | inl (e, f) ↦ inl (rw f refl)
          | inr (users', f) ↦ inr (
              rw f (
                assign_role-Assigned known_unit known_shelter now id role unit_id shelter_id users
                  users' f))
        ]

  serve-Proper : (q : Request) (users : Table User) → Proper users → Proper (serve q users)
  serve-Proper (registers now id username email password) users p =
      unfold serve in register-Proper k now id username email password users p
  serve-Proper (assigns now id role unit_id shelter_id) users p =
      elim (assign_role-cases now id role unit_id shelter_id users) [
        | inl same ↦ subst Proper (sym same) p
        | inr a ↦
            Assigned-Proper id users (serve (assigns now id role unit_id shelter_id) users) a p
      ]

  -- Registrations and role assignments, any of them in any order and accepted or refused, keep the
  -- accounts proper: ids are unique, no two accounts share a username or an e-mail address, a
  -- responder is bound to a unit and nothing else, a shelter manager to a shelter and nothing
  -- else, and every other role to nothing.
  pub accounts_after-Proper :
      (requests : List Request) (users : Table User)
      → Proper users
      → Proper (accounts_after users requests)
  accounts_after-Proper [] users p = p
  accounts_after-Proper (q ∷ requests) users p =
      accounts_after-Proper requests (serve q users) (serve-Proper q users p)

  abbrev pub assigns_to : ℕ → Request → Bool
  assigns_to i (registers now id username email password) = false
  assigns_to i (assigns now id role unit_id shelter_id) = id == i

  -- An account that is a citizen without bindings, or is not there.
  abbrev pub Unprivileged : Option User → Type 0
  Unprivileged none = Unit
  Unprivileged (some u) = (u.role ≡ citizen) × (u.unit_id ≡ none) × (u.shelter_id ≡ none)

  serve-Unprivileged :
      (i : ℕ) (q : Request) (users : Table User)
      → assigns_to i q ≡ false
      → Unprivileged (find i users)
      → Unprivileged (find i (serve q users))
  unfolding serve
  serve-Unprivileged i (registers now id username email password) users n p =
      elim (register-cases k now id username email password users) [
        | inl same ↦ subst (λ t. Unprivileged (find i t)) (sym same) p
        | inr (hashed, made) ↦
            let stored =
              create_user-lem id (new_user now username email hashed) users
                (register k now id username email password users).1 made in
            subst (λ t. Unprivileged (find i t)) (sym stored.2)
              (elim (Bool-cases (id == i)) [
                | inl hit ↦ rw hit (refl, refl, refl)
                | inr miss ↦ rw miss p
              ])
      ]
  serve-Unprivileged i (assigns now id role unit_id shelter_id) users n p =
      elim (assign_role-cases now id role unit_id shelter_id users) [
        | inl same ↦ subst (λ t. Unprivileged (find i t)) (sym same) p
        | inr a ↦
            subst (λ t. Unprivileged (find i t)) (sym a.stored)
              (rw
                (find-update_ne i id (role_set a.time a.role a.unit_id a.shelter_id) users
                  (ground (arith, n)))
                p)
      ]

  kept-Unprivileged :
      (requests : List Request) (i : ℕ) (users : Table User)
      → exists_in (assigns_to i) requests ≡ false
      → Unprivileged (find i users)
      → Unprivileged (find i (accounts_after users requests))
  kept-Unprivileged [] i users h p = p
  kept-Unprivileged (q ∷ requests) i users h p =
      kept-Unprivileged requests i (serve q users) (ground (arith, h))
        (serve-Unprivileged i q users (ground (arith, h)) p)

  -- From no accounts at all, whatever requests are served: an account that no role assignment named
  -- is a citizen without bindings.
  pub no_escalation :
      (requests : List Request) (i : ℕ)
      → exists_in (assigns_to i) requests ≡ false
      → Unprivileged (find i (accounts_after [] requests))
  no_escalation requests i h = kept-Unprivileged requests i [] h tt
