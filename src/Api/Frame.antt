-- ===== src/Api/Frame.antt =====
-- What a handler leaves behind: lemmas on the middleware of Http, and that the reads write nothing.
use crisis_link.Common.{
  ℕ, ◌≡◌, refl, subst, sym, inl, inr, ◌∙◌, Bool, true, Option, none, some, arith, Bool-cases,
}
use crisis_link.Store.Rows.{Db}
use crisis_link.Store.Tx.{
  Tx, Error, after, pure, gets, guard, row_or, ◌>>=◌, Commits, Result-cases, after-keeps, bind-ok,
}
use crisis_link.Http.{Reply, success, failure, Handler, answer, when_valid, when_allowed}
use crisis_link.Api.{status_of}

pub answer-after {ℓ} :
    {A : Type ℓ} (n : ℕ) (table : Error → Reply A) (m : Tx A) (db : Db)
    → (answer n table m db).1 ≡ after db (m db)
answer-after n table m db = elim (Result-cases (m db)) [
  | inl (e, f) ↦ ground (arith, f)
  | inr ((a, db'), f) ↦ ground (arith, f)
]

module _ {ℓ} {A : Type ℓ} (Q : Db → Type 0) where
  pub status_of-keeps : (x : Reply A × Db) → Q x.1 → Q (status_of x).1
  status_of-keeps (success n a, db) q = q
  status_of-keeps (failure n c, db) q = q

  pub answer-keeps :
      (n : ℕ) (table : Error → Reply A) (m : Tx A) (db : Db)
      → Q (after db (m db))
      → Q (answer n table m db).1
  answer-keeps n table m db q = subst Q (sym (answer-after n table m db)) q

  pub when_valid-keeps :
      (valid : Bool) (h : Handler A) (db : Db) → Q db → Q (h db).1 → Q (when_valid valid h db).1
  when_valid-keeps valid h db q p = elim (Bool-cases valid) [ inl e ↦ rw e p | inr e ↦ rw e q ]

  pub when_allowed-keeps :
      (allowed : Bool) (h : Handler A) (db : Db)
      → Q db
      → (allowed ≡ true → Q (h db).1)
      → Q (when_allowed allowed h db).1
  when_allowed-keeps allowed h db q p = elim (Bool-cases allowed) [
    | inl e ↦ rw e (p e)
    | inr e ↦ rw e q
  ]

-- A call that writes nothing.
abbrev pub Reads {ℓ} : {A : Type ℓ} → Tx A → Type ℓ
Reads m = (db : Db) → Commits (λ x. x ≡ db) (m db)

module _ {ℓ} {A : Type ℓ} where
  pub gets-Reads : (f : Db → A) → Reads (gets f)
  gets-Reads f db a db' h = ground arith

  pub pure-Reads : (a : A) → Reads (pure a)
  pure-Reads a db b db' h = ground arith

  pub row_or-Reads : (e : Error) (o : Option A) → Reads (row_or e o)
  row_or-Reads e none db a db' h = ground arith
  row_or-Reads e (some b) db a db' h = ground arith

  pub bind-Reads {κ} :
      {B : Type κ} (m : Tx A) (f : A → Tx B) → Reads m → ((a : A) → Reads (f a)) → Reads (m >>= f)
  bind-Reads m f rm rf db b db' h =
      let (a, db1, first, rest) = bind-ok m f db db' b h in rf a db1 b db' rest ∙ rm db a db1 first

  pub Reads-after : (m : Tx A) (db : Db) → Reads m → after db (m db) ≡ db
  Reads-after m db r = after-keeps (λ x. x ≡ db) m db refl (r db)

pub fetch-Reads {ℓ} : {A : Type ℓ} (e : Error) (f : Db → Option A) → Reads (gets f >>= row_or e)
fetch-Reads e f = bind-Reads (gets f) (row_or e) (gets-Reads f) (row_or-Reads e)

pub guard-Reads : (b : Bool) (e : Error) → Reads (guard b e)
guard-Reads b e db a db' h = ground arith
