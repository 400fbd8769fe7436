-- ===== src/Store/Tx.antt =====
-- A transaction: it sees the database and either fails or commits. A failure carries no state,
-- which is the deferred tx.Rollback of every repository method.
use crisis_link.Common.{
  arith, ℕ, Bool, true, false, Option, none, some, ◌≡◌, refl, subst, ◌⊎◌, inl, inr,
}
use crisis_link.Store.Rows.{Db}

-- The sentinel errors of the packages, and what the database reports. The package stands first
-- where two packages declare a sentinel of one name.
pub data Error : Type 0 where
  no_rows unique_violation foreign_key_violation : Error
  invalid_coordinates : Error
  unit_not_found invalid_unit_type invalid_unit_status duplicate_call_sign : Error
  incident_not_found invalid_severity invalid_status illegal_transition invalid_radius : Error
  dispatch_unit_not_found unit_not_available dispatch_incident_not_found : Error
  incident_not_dispatchable reservation_conflict dispatch_not_found : Error
  illegal_dispatch_transition unit_unavailable invalid_dispatch_status no_reassign_candidate : Error
  shelter_not_found shelter_closed shelter_full : Error
  invalid_capacity invalid_shelter_status duplicate_shelter_name : Error
  victim_not_found victim_already_assigned : Error
  transport_not_found transport_unavailable insufficient_seats : Error
  booking_not_found booking_not_active transport_incident_not_found : Error
  invalid_kind invalid_transport_status invalid_seats invalid_transport_capacity : Error
  duplicate_transport_call_sign : Error

pub data Result {ℓ} (A : Type ℓ) : Type ℓ where
  ok : A → Result A
  err : Error → Result A

abbrev pub Tx {ℓ} : Type ℓ → Type ℓ
Tx A = Db → Result (A × Db)

infixl 5 ◌>>=◌ ◌>>◌
abbrev pub ◌>>=◌ {ℓ κ} : {A : Type ℓ} {B : Type κ} → Tx A → (A → Tx B) → Tx B
◌>>=◌ m f db = elim (m db) [ ok (a, db') ↦ f a db' | err e ↦ err e ]

abbrev pub ◌>>◌ {ℓ κ} : {A : Type ℓ} {B : Type κ} → Tx A → Tx B → Tx B
m >> k = m >>= λ _. k

module _ {ℓ} {A : Type ℓ} where
  abbrev pub pure : A → Tx A
  pure a db = ok (a, db)

  abbrev pub raise : Error → Tx A
  raise e db = err e

  abbrev pub gets : (Db → A) → Tx A
  gets f db = ok (f db, db)

  -- Scan of one row; pgx.ErrNoRows is turned into `e`.
  abbrev pub row_or : Error → Option A → Tx A
  row_or e none = raise e
  row_or e (some a) = pure a

  -- What the database is after the call returned: a failed transaction left it alone.
  abbrev pub after : Db → Result (A × Db) → Db
  after db (ok (a, db')) = db'
  after db (err e) = db

-- How many transactions committed.
abbrev pub committed {ℓ} : {A : Type ℓ} → Result A → ℕ
committed (ok a) = 1
committed (err e) = 0

abbrev pub modify : (Db → Db) → Tx (Unit {0})
modify f db = ok (tt, f db)

abbrev pub guard : Bool → Error → Tx (Unit {0})
guard true e = pure tt
guard false e = raise e

-- errors.As with Code == "23505": a violated UNIQUE constraint is reported as `e`.
abbrev pub unique_as : Error → Error → Error
unique_as e unique_violation = e
unique_as e x = x

abbrev pub duplicate_as {ℓ} : {A : Type ℓ} → Error → Tx A → Tx A
duplicate_as e m db = elim (m db) [ ok r ↦ ok r | err x ↦ err (unique_as e x) ]

abbrev pub when : Bool → Tx (Unit {0}) → Tx (Unit {0})
when true m = m
when false m = pure tt

pub Result-cases {ℓ} :
    {A : Type ℓ} (r : Result A) → ((e : Error) × (r ≡ err e)) ⊎ ((a : A) × (r ≡ ok a))
Result-cases (ok a) = inr (a, refl)
Result-cases (err e) = inl (e, refl)

-- A property that a failed transaction keeps, and a committed one too.
pub after-keeps {ℓ κ} :
    {A : Type ℓ} (P : Db → Type κ) (m : Tx A) (db : Db)
    → P db
    → ((a : A) (db' : Db) → m db ≡ ok (a, db') → P db')
    → P (after db (m db))
after-keeps P m db h keep = elim (Result-cases (m db)) [
  | inl (e, f) ↦ rw f h
  | inr ((a, db'), f) ↦ rw f (keep a db' f)
]

-- A property of the database that a call leaves, for a call that committed.
pub after-ok {ℓ} :
    {A : Type ℓ} (P : Db → Type 0) (db db' : Db) (r : Result (A × Db)) (a : A)
    → r ≡ ok (a, db')
    → P (after db r)
    → P db'
after-ok P db db' r a h p = subst (λ x. P (after db x)) h p

-- A committed sequence committed its first step, and the rest after it.
pub bind-ok {ℓ κ} :
    {A : Type ℓ} {B : Type κ} (m : Tx A) (f : A → Tx B) (db db' : Db) (b : B)
    → (m >>= f) db ≡ ok (b, db')
    → (a : A) × (db1 : Db) × (m db ≡ ok (a, db1)) × (f a db1 ≡ ok (b, db'))
bind-ok m f db db' b h = elim (Result-cases (m db)) [
  | inl (e, g) ↦ ground (arith, g)
  | inr ((a, db1), g) ↦ (a, db1, g, ground (arith, g))
]

-- A property of every database that a result commits.
abbrev pub Commits {ℓ κ} : {A : Type ℓ} → (Db → Type κ) → Result (A × Db) → Type (ℓ ⊔ κ)
Commits {A} P r = (a : A) (db' : Db) → r ≡ ok (a, db') → P db'
