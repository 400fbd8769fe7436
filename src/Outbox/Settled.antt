-- ===== src/Outbox/Settled.antt =====
-- What the writes of a batch leave due (the loop and the statements of PublishBatch).
use crisis_link.Common.{
  ℕ, ◌+◌, ◌≡◌, ◌∙◌, refl, subst, inl, inr, ◌⊎◌, Bool, true, false, Option, List, [], ◌∷◌, ◌==◌,
  exists_in, leb, bit, arith, Bool-cases, Option-cases,
}
use crisis_link.Table.{Table, update}
use crisis_link.Table.Every.{All}
use crisis_link.Store.Rows.{Db, OutboxEvent}
use crisis_link.Store.Tx.{ok, Tx, ◌>>=◌}
use crisis_link.Outbox.Publishing.{
  fail_event, publish_event, publish_each, mark_published, mark_failed, max_publish_attempts,
}
use crisis_link.Outbox.Due.{
  publish_event-Clears, fail_event-Clears, due_at, NoMoreDue, NoMoreDue-refl, NoMoreDue-trans,
  update-NoMoreDue, update-cleared, NoMoreDue-due_at,
}

-- What a write of the outbox did: no time passed, and nothing became due.
pub record Settles (db db' : Db) : Type 0 where
  pub same_time : db'.now ≡ db.now
  pub no_more : NoMoreDue db.now db.outbox db'.outbox

pub Settles-trans : (a b c : Db) → Settles a b → Settles b c → Settles a c
Settles-trans a b c p q = record {
  same_time = q.same_time ∙ p.same_time;
  no_more =
      NoMoreDue-trans a.now a.outbox b.outbox c.outbox p.no_more
        (subst (λ n. NoMoreDue n b.outbox c.outbox) p.same_time q.no_more);
}

pub bind-run {ℓ κ} :
    {A : Type ℓ} {B : Type κ} (m : Tx A) (f : A → Tx B) (db db' : Db) (a : A)
    → m db ≡ ok (a, db')
    → (m >>= f) db ≡ f a db'
bind-run m f db db' a h = ground (arith, h)

abbrev pub has_id : ℕ → List ℕ → Bool
has_id id = exists_in (λ j. j == id)

pub mark_published-lem :
    (ids : List ℕ) (db : Db)
    → (db' : Db) × (mark_published ids db ≡ ok (tt, db'))
      × Settles db db'
      × ((id : ℕ) → has_id id ids ≡ true → due_at db.now id db'.outbox ≡ false)
unfolding mark_published
mark_published-lem [] db = (
  db,
  refl,
  record { same_time = refl; no_more = NoMoreDue-refl db.now db.outbox },
  λ id h. absurd (ground (arith, h)),
)
mark_published-lem (i ∷ ids) db =
    let db1 : Db = record db { outbox = update i (publish_event db.now) db.outbox } in
    let (db', run, settled, cleared) = mark_published-lem ids db1 in
    (
      db',
      run,
      Settles-trans db db1 db'
          (record {
            same_time = refl;
            no_more =
                update-NoMoreDue db.now i (publish_event db.now) db.outbox
                  (publish_event-Clears db.now);
          })
          settled,
      λ id h. elim (Bool-cases (i == id)) [
        | inl here ↦ NoMoreDue-due_at db.now id db1.outbox db'.outbox settled.no_more (
            ground (
              arith,
              here,
              update-cleared db.now i (publish_event db.now) db.outbox
                  (publish_event-Clears db.now),
            ))
        | inr there ↦ cleared id (ground (arith, h, there))
      ],
    )

module _ (publish : ℕ × OutboxEvent → Option (List ℕ)) where
  -- An event of the batch is marked to be published, or not due any more.
  abbrev pub Handled : ℕ → List ℕ → Table OutboxEvent → ℕ → Type 0
  Handled now ids t id = (has_id id ids ≡ true) ⊎ (due_at now id t ≡ false)

  pub publish_each-lem :
      (events : Table OutboxEvent) (failed dead_lettered : ℕ) (ids : List ℕ) (db : Db)
      → (f d : ℕ) × (ids' : List ℕ) × (db' : Db) × (publish_each publish events
            (failed, dead_lettered, ids)
            db
          ≡ ok ((f, d, ids'), db'))
        × Settles db db'
        × ((id : ℕ) → has_id id ids ≡ true → has_id id ids' ≡ true)
        × All (λ (id, e). Handled db.now ids' db'.outbox id) events
  unfolding publish_each mark_failed
  publish_each-lem [] failed dead_lettered ids db = (
    failed,
    dead_lettered,
    ids,
    db,
    refl,
    record { same_time = refl; no_more = NoMoreDue-refl db.now db.outbox },
    λ id h. h,
    tt,
  )
  publish_each-lem ((i, e) ∷ rest) failed dead_lettered ids db =
      elim (Option-cases (publish (i, e))) [
        | inl sent ↦
            let (f, d, ids', db', run, settled, grows, all) =
              publish_each-lem rest failed dead_lettered (i ∷ ids) db in
            (
              f,
              d,
              ids',
              db',
              rw (publish_each, sent) run,
              settled,
              (λ id h. grows id (ground (arith, h))),
              (inl (grows i (ground arith)), all),
            )
        | inr (cause, refused) ↦
            let g : OutboxEvent → OutboxEvent = fail_event (e.attempts + 1) cause db.now in
            let clears = fail_event-Clears (e.attempts + 1) db.now cause in
            let db1 : Db = record db { outbox = update i g db.outbox } in
            let dead : Bool = leb max_publish_attempts (e.attempts + 1) in
            let (f, d, ids', db', run, settled, grows, all) =
              publish_each-lem rest (failed + 1) (dead_lettered + bit dead) ids db1 in
            (
              f,
              d,
              ids',
              db',
              rw (publish_each, refused) run,
              Settles-trans db db1 db'
                  (record {
                    same_time = refl;
                    no_more = update-NoMoreDue db.now i g db.outbox clears;
                  })
                  settled,
              grows,
              (
                inr (
                    NoMoreDue-due_at db.now i db1.outbox db'.outbox settled.no_more
                      (update-cleared db.now i g db.outbox clears)),
                all,
              ),
            )
      ]
