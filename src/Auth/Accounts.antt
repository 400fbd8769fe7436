-- ===== src/Auth/Accounts.antt =====
-- What holds of the accounts through registrations and role assignments (Register and AssignRole).
use Prim.Native.String.{String}
use crisis_link.Common.{
  ℕ, ◌≡◌, refl, inl, inr, ◌∙◌, subst, sym, ◌⊎◌, Bool, false, Option, none, some, [], ◌∷◌, ◌==◌,
  arith, Bool-cases, Option-cases,
}
use crisis_link.Table.{Table, find, update}
use crisis_link.Table.Laws.{Unique, update-Unique}
use crisis_link.Table.Every.{Every, Every-update}
use crisis_link.Roles.{Role, citizen, responder, shelter_manager, operator, admin}
use crisis_link.Auth.{
  User, Crypto, AuthError, AuthResult, done, failed, is_taken, create_user, role_of, role_set,
  bindings_for, update_role_and_bindings, assign_role, new_user, register,
}

-- A responder is bound to one unit, a shelter manager to one shelter, and no other role to anything.
abbrev pub BoundAs : Role → Option ℕ → Option ℕ → Type 0
BoundAs responder (some i) none = Unit
BoundAs responder _ _ = ⊥
BoundAs shelter_manager none (some s) = Unit
BoundAs shelter_manager _ _ = ⊥
BoundAs _ none none = Unit
BoundAs _ _ _ = ⊥

abbrev pub Bound : User → Type 0
Bound u = BoundAs u.role u.unit_id u.shelter_id

abbrev pub Distinct : Table User → Type 0
Distinct [] = Unit
Distinct ((i, u) ∷ users) = (is_taken u.username u.email users ≡ false) × Distinct users

pub record Proper (users : Table User) : Type 0 where
  pub ids : Unique users
  pub names : Distinct users
  pub bindings : Every Bound users

is_taken-update :
    (id : ℕ) (now : ℕ) (r : Role) (i s : Option ℕ) (username email : String) (users : Table User)
    → is_taken username email (update id (role_set now r i s) users) ≡ is_taken username email users
unfolding is_taken
is_taken-update id now r i s username email [] = refl
is_taken-update id now r i s username email ((j, u) ∷ users) =
    ground (arith, is_taken-update id now r i s username email users)

update-Distinct :
    (id : ℕ) (now : ℕ) (r : Role) (i s : Option ℕ) (users : Table User)
    → Distinct users
    → Distinct (update id (role_set now r i s) users)
update-Distinct id now r i s [] d = tt
update-Distinct id now r i s ((j, u) ∷ users) d = elim (Bool-cases (j == id)) [
  | inl hit ↦ rw hit (
    is_taken-update id now r i s u.username u.email users ∙ d.0,
    update-Distinct id now r i s users d.1,
  )
  | inr miss ↦ rw miss (
    is_taken-update id now r i s u.username u.email users ∙ d.0,
    update-Distinct id now r i s users d.1,
  )
]

abbrev BoundBy : Role → AuthResult (Option ℕ × Option ℕ) → Type 0
BoundBy r (done (u, s)) = BoundAs r u s
BoundBy r (failed e) = Unit

bindings_for-BoundBy :
    (r : Role) (unit_id shelter_id : Option ℕ) → BoundBy r (bindings_for r unit_id shelter_id)
bindings_for-BoundBy responder none s = tt
bindings_for-BoundBy responder (some i) s = tt
bindings_for-BoundBy shelter_manager u none = tt
bindings_for-BoundBy shelter_manager u (some i) = tt
bindings_for-BoundBy citizen u s = tt
bindings_for-BoundBy operator u s = tt
bindings_for-BoundBy admin u s = tt

pub AuthResult-cases {ℓ} :
    {A : Type ℓ} (r : AuthResult A) → ((e : AuthError) × (r ≡ failed e)) ⊎ ((a : A) × (r ≡ done a))
AuthResult-cases (failed e) = inl (e, refl)
AuthResult-cases (done a) = inr (a, refl)

-- The accounts that a role assignment stores: those with `id` set to a role and bindings that fit.
pub record Assigned (id : ℕ) (users users' : Table User) : Type 0 where
  pub time : ℕ
  pub role : Role
  pub unit_id : Option ℕ
  pub shelter_id : Option ℕ
  pub fits : BoundAs role unit_id shelter_id
  pub stored : users' ≡ update id (role_set time role unit_id shelter_id) users

module _ (known_unit known_shelter : ℕ → Bool) where
  pub assign_role-Assigned :
      (now id : ℕ) (role : String) (unit_id shelter_id : Option ℕ) (users users' : Table User)
      → assign_role known_unit known_shelter now id role unit_id shelter_id users ≡ done users'
      → Assigned id users users'
  unfolding assign_role update_role_and_bindings
  assign_role-Assigned now id role unit_id shelter_id users users' h =
      elim (Option-cases (role_of role)) [
        | inl e ↦ ground (arith, e)
        | inr (r, e) ↦ elim (AuthResult-cases (bindings_for r unit_id shelter_id)) [
          | inl (x, f) ↦ ground (arith, e, f)
          | inr ((u, s), f) ↦ record {
            time = now;
            role = r;
            unit_id = u;
            shelter_id = s;
            fits = subst (BoundBy r) f (bindings_for-BoundBy r unit_id shelter_id);
            stored = ground (arith, e, f);
          }
        ]
      ]

-- A role assignment keeps the accounts proper, and so does a registration.
pub Assigned-Proper :
    (id : ℕ) (users users' : Table User) → Assigned id users users' → Proper users → Proper users'
Assigned-Proper id users users' a p = subst Proper (sym a.stored) (record {
  ids = update-Unique id (role_set a.time a.role a.unit_id a.shelter_id) users p.ids;
  names = update-Distinct id a.time a.role a.unit_id a.shelter_id users p.names;
  bindings =
      Every-update Bound id (role_set a.time a.role a.unit_id a.shelter_id) users (λ u b. a.fits)
        p.bindings;
})

-- What a registration stores, if anything: a citizen with no bindings, under names that are free.
pub create_user-lem :
    (id : ℕ) (u : User) (users users' : Table User)
    → create_user id u users ≡ done users'
    → (find id users ≡ none)
      × (is_taken u.username u.email users ≡ false)
      × (users' ≡ (id, u) ∷ users)
unfolding create_user
create_user-lem id u users users' h = elim (Option-cases (find id users)) [
  | inr (v, e) ↦ ground (arith, e)
  | inl e ↦ ground (arith, e)
]

module _ (k : Crypto) where
  -- The accounts after a registration: as before, or with one new citizen.
  pub register-cases :
      (now id : ℕ) (username email password : String) (users : Table User)
      → ((register k now id username email password users).1 ≡ users)
        ⊎ ((hashed : String) × (create_user id (new_user now username email hashed) users
              ≡ done (register k now id username email password users).1))
  unfolding register
  register-cases now id username email password users = elim (Option-cases (k.hash password)) [
    | inl e ↦ inl (ground (arith, e))
    | inr (hashed, e) ↦
        elim (AuthResult-cases (create_user id (new_user now username email hashed) users)) [
          | inl (x, f) ↦ inl (ground (arith, e, f))
          | inr (users', f) ↦ inr (hashed, ground (arith, e, f))
        ]
  ]

  pub register-Proper :
      (now id : ℕ) (username email password : String) (users : Table User)
      → Proper users
      → Proper (register k now id username email password users).1
  register-Proper now id username email password users p =
      elim (register-cases now id username email password users) [
        | inl same ↦ subst Proper (sym same) p
        | inr (hashed, made) ↦
            let stored =
              create_user-lem id (new_user now username email hashed) users
                (register k now id username email password users).1 made in
            subst Proper (sym stored.2) (record {
              ids = (stored.0, p.ids);
              names = (stored.1, p.names);
              bindings = (tt, p.bindings);
            })
      ]
