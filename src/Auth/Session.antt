-- ===== src/Auth/Session.antt =====
-- From a registration to the rights that its tokens give (Register, Login, GenerateToken, AuthRequired
-- and ActorFrom).
use Prim.Native.String.{String}
use text.Mathlib.Text.{◌==◌ as str_eq}
use text.Mathlib.TextEquality.{eq_iff}
use crisis_link.Common.{
  ℕ, ◌+◌, ◌*◌, ◌<◌, ◌≡◌, refl, inl, inr, sym, ap, subst, ◌∙◌, Bool, true, false, Option, none, some,
  List, [], ◌∷◌, ◌++◌, arith, Bool-cases, Option-cases, if◌then◌else◌,
}
use crisis_link.Table.{Table, update}
use crisis_link.Roles.{Role}
use crisis_link.Auth.{
  User, Crypto, Claims, done, is_taken, role_set, get_by_email, create_user, new_user, issued,
  register, login, authenticate, bearer, split_at_space, token_of, claims_of, actor_from,
}
use crisis_link.Auth.Accounts.{AuthResult-cases, create_user-lem, register-cases}
use crisis_link.Auth.Requests.{
  Request, registers, assigns, serve, accounts_after, assign_role-cases,
}

-- The account of an e-mail address: its id and the hash it is checked against.
abbrev pub credential : String → Table User → Option (ℕ × String)
credential email [] = none
credential email ((i, u) ∷ users) =
    if str_eq u.email email then some (i, u.password) else credential email users

get_by_email-credential :
    (email hashed : String) (id : ℕ) (users : Table User)
    → credential email users ≡ some (id, hashed)
    → (u : User) × (get_by_email email users ≡ some (id, u)) × (u.password ≡ hashed)
get_by_email-credential email hashed id [] h = ground arith
get_by_email-credential email hashed id ((j, v) ∷ users) h =
    elim (Bool-cases (str_eq v.email email)) [
      | inl hit ↦ (v, ground (arith, hit), ground (arith, hit))
      | inr miss ↦
          let (u, e, p) = get_by_email-credential email hashed id users (ground (arith, miss)) in
          (u, ground (arith, miss, e), p)
    ]

credential-update :
    (email : String) (j now : ℕ) (r : Role) (i s : Option ℕ) (users : Table User)
    → credential email (update j (role_set now r i s) users) ≡ credential email users
credential-update email j now r i s [] = refl
credential-update email j now r i s ((m, v) ∷ users) =
    ground (arith, credential-update email j now r i s users)

-- A name that is free has no account.
credential-free :
    (username email : String) (users : Table User)
    → is_taken username email users ≡ false
    → credential email users ≡ none
unfolding is_taken
credential-free username email [] h = refl
credential-free username email ((m, v) ∷ users) h =
    ground (arith, credential-free username email users)

module _ (k : Crypto) (known_unit known_shelter : ℕ → Bool) where
  serve-credential :
      (q : Request) (email hashed : String) (id : ℕ) (users : Table User)
      → credential email users ≡ some (id, hashed)
      → credential email (serve k known_unit known_shelter q users) ≡ some (id, hashed)
  unfolding serve
  serve-credential (registers now j username mail password) email hashed id users h =
      elim (register-cases k now j username mail password users) [
        | inl same ↦ rw same h
        | inr (other, made) ↦
            let stored =
              create_user-lem j (new_user now username mail other) users
                (register k now j username mail password users).1 made in
            subst (λ t. credential email t ≡ some (id, hashed)) (sym stored.2)
              (elim (Bool-cases (str_eq mail email)) [
                | inl hit ↦ ground (
                  arith,
                  h,
                  credential-free username mail users stored.1,
                  ap (λ e. credential e users) ((eq_iff mail email).0 hit),
                )
                | inr miss ↦ rw miss h
              ])
      ]
  serve-credential (assigns now j role unit_id shelter_id) email hashed id users h =
      elim (assign_role-cases k known_unit known_shelter now j role unit_id shelter_id users) [
        | inl same ↦ rw same h
        | inr a ↦
            subst (λ t. credential email t ≡ some (id, hashed)) (sym a.stored)
              (credential-update email j a.time a.role a.unit_id a.shelter_id users ∙ h)
      ]

  accounts_after-credential :
      (requests : List Request) (email hashed : String) (id : ℕ) (users : Table User)
      → credential email users ≡ some (id, hashed)
      → credential email (accounts_after k known_unit known_shelter users requests)
        ≡ some (id, hashed)
  accounts_after-credential [] email hashed id users h = h
  accounts_after-credential (q ∷ requests) email hashed id users h =
      accounts_after-credential requests email hashed id (serve k known_unit known_shelter q users)
        (serve-credential q email hashed id users h)

  register-credential :
      (now id : ℕ) (username email password : String) (users : Table User) (u : User) (t : List ℕ)
      → (register k now id username email password users).0 ≡ done (id, u, t)
      → (hashed : String) × (k.hash password ≡ some hashed)
        × (credential email (register k now id username email password users).1 ≡ some (id, hashed))
  unfolding register
  register-credential now id username email password users u t h =
      elim (Option-cases (k.hash password)) [
        | inl e ↦ ground (arith, e)
        | inr (hashed, e) ↦
            elim (AuthResult-cases (create_user id (new_user now username email hashed) users)) [
              | inl (x, f) ↦ ground (arith, e, f)
              | inr (users', f) ↦ (
                hashed,
                e,
                ground (
                  arith,
                  e,
                  f,
                  create_user-lem id (new_user now username email hashed) users users' f,
                  (eq_iff email email).1 refl,
                ),
              )
            ]
      ]

  login-found :
      (now id : ℕ) (email password : String) (users : Table User) (u : User)
      → get_by_email email users ≡ some (id, u)
      → k.matches u.password password ≡ true
      → login k now email password users ≡ issued k now id u
  unfolding login
  login-found now id email password users u found m = rw (found, login, m) refl

  -- Where bcrypt matches each password with its hashes: whoever registered can log in with the same
  -- password at any later time, whatever registrations and role assignments came between them, and
  -- logs in to the account that was registered.
  pub login_again :
      (now later id : ℕ) (username email password : String) (users : Table User) (u : User)
      (t : List ℕ) (requests : List Request)
      → ((p h : String) → k.hash p ≡ some h → k.matches h p ≡ true)
      → (register k now id username email password users).0 ≡ done (id, u, t)
      → (v : User) × (get_by_email email (
            accounts_after k known_unit known_shelter
              (register k now id username email password users).1
              requests)
          ≡ some (id, v))
        × (login k later email password (
              accounts_after k known_unit known_shelter
                (register k now id username email password users).1
                requests)
            ≡ issued k later id v)
  login_again now later id username email password users u t requests checks h =
      let start = (register k now id username email password users).1 in
      let (hashed, e, made) = register-credential now id username email password users u t h in
      let (v, found, same) =
        get_by_email-credential email hashed id
          (accounts_after k known_unit known_shelter start requests)
          (accounts_after-credential requests email hashed id start made) in
      (
        v,
        found,
        login-found later id email password
            (accounts_after k known_unit known_shelter start requests) v found
            (subst (λ s. k.matches s password ≡ true) (sym same) (checks password hashed e)),
      )

-- What the header of a token says.
split_bearer : (t : List ℕ) → token_of (split_at_space (bearer ++ (32 ∷ t))) ≡ some t
split_bearer t = refl

-- Where a token that was signed parses to its claims until it expires: a login succeeds only for
-- the account of the e-mail address and a password that matches its hash, and for ExpiryHours
-- after it the token makes its caller known by the id, the username, the role, the unit and the
-- shelter that the account had at the login.
pub login-authenticate :
    (k : Crypto) (now later id : ℕ) (email password : String) (users : Table User) (u : User)
    (t : List ℕ)
    → ((c : Claims) (s : List ℕ)
        → k.sign c ≡ some s
        → (at : ℕ) → at < c.expires_at
        → k.parse at s ≡ some c)
    → login k now email password users ≡ done (id, u, t)
    → later < now + k.hours * 3600
    → (get_by_email email users ≡ some (id, u))
      × (k.matches u.password password ≡ true)
      × (c : Claims) × (authenticate k later (some (bearer ++ (32 ∷ t))) ≡ some c)
      × (c.username ≡ u.username)
      × (actor_from c
          ≡ record { user_id = id; role = u.role; unit_id = u.unit_id; shelter_id = u.shelter_id })
unfolding login authenticate
login-authenticate k now later id email password users u t parses h soon =
    elim (Option-cases (get_by_email email users)) [
      | inl e ↦ ground (arith, e)
      | inr ((i, v), e) ↦ elim (Bool-cases (k.matches v.password password)) [
        | inr m ↦ ground (arith, e, m)
        | inl m ↦ elim (Option-cases (k.sign (claims_of k now i v))) [
          | inl g ↦ ground (arith, e, m, g)
          | inr (s, g) ↦
              let known = parses (claims_of k now i v) s g later soon in
              (
                ground (arith, e, m, g),
                ground (arith, e, m, g),
                claims_of k now id u,
                ground (arith, e, m, g, known),
                refl,
                refl,
              )
        ]
      ]
    ]
