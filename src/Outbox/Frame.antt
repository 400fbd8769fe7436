-- ===== src/Outbox/Frame.antt =====
-- What a batch of the relay leaves alone (PublishBatch in outbox/repository.go).
use crisis_link.Common.{
  ℕ, ◌+◌, ◌≡◌, ◌∙◌, ap, refl, Bool, not, ◌&&◌, Option, List, [], ◌∷◌, leb, keep, take, bit, arith,
  inl, inr, Option-cases,
}
use crisis_link.Common.Sort.{sort_by}
use crisis_link.Table.{Table, update, count_where}
use crisis_link.Table.Laws.{count_where-update_same}
use crisis_link.Store.Rows.{Db, OutboxEvent}
use crisis_link.Store.Tx.{ok, Commits, Result-cases}
use crisis_link.Outbox.Publishing.{
  fail_event, publish_event, is_due, mark_published, mark_failed, publish_each, publish_batch,
  max_publish_attempts,
}

-- Only the outbox is written, and no test that the relay's two writes leave alone sees a change.
pub record OutboxOnly (p : OutboxEvent → Bool) (db db' : Db) : Type 0 where
  pub others : db' ≡ record db { outbox = db'.outbox }
  pub counted : count_where p db'.outbox ≡ count_where p db.outbox

-- A test of what WriteTx wrote.
pub record Lasting (p : OutboxEvent → Bool) : Type 0 where
  pub failing : (n now : ℕ) (cause : List ℕ) (e : OutboxEvent) → p (fail_event n cause now e) ≡ p e
  pub publishing : (now : ℕ) (e : OutboxEvent) → p (publish_event now e) ≡ p e

update-OutboxOnly :
    (p : OutboxEvent → Bool) (id : ℕ) (f : OutboxEvent → OutboxEvent) (db db' : Db)
    → ((e : OutboxEvent) → p (f e) ≡ p e)
    → OutboxOnly p (record db { outbox = update id f db.outbox }) db'
    → OutboxOnly p db db'
update-OutboxOnly p id f db db' same o = record {
  others = o.others;
  counted = ground (arith, o.counted, count_where-update_same p id f db.outbox same);
}

module _ (p : OutboxEvent → Bool) (lasting : Lasting p) where
  mark_published-OutboxOnly :
      (ids : List ℕ) (db db' : Db) → mark_published ids db ≡ ok (tt, db') → OutboxOnly p db db'
  unfolding mark_published
  mark_published-OutboxOnly [] db db' h =
      let e : db' ≡ db = ground arith in rw e (record { others = refl; counted = refl })
  mark_published-OutboxOnly (id ∷ ids) db db' h =
      update-OutboxOnly p id (publish_event db.now) db db' (lasting.publishing db.now) (
        mark_published-OutboxOnly ids
          (record db { outbox = update id (publish_event db.now) db.outbox }) db' h)

  module _ (publish : ℕ × OutboxEvent → Option (List ℕ)) where
    publish_each-OutboxOnly :
        (events : Table OutboxEvent) (failed dead_lettered : ℕ) (ids : List ℕ) (db db' : Db)
        (t : ℕ × ℕ × List ℕ)
        → publish_each publish events (failed, dead_lettered, ids) db ≡ ok (t, db')
        → OutboxOnly p db db'
    unfolding publish_each mark_failed
    publish_each-OutboxOnly [] failed dead_lettered ids db db' t h =
        let e : db' ≡ db = ground arith in rw e (record { others = refl; counted = refl })
    publish_each-OutboxOnly ((id, e) ∷ rest) failed dead_lettered ids db db' t h =
        elim (Option-cases (publish (id, e))) [
          | inl sent ↦
              publish_each-OutboxOnly rest failed dead_lettered (id ∷ ids) db db' t
                (rw (sent, publish_each) at h)
          | inr (cause, refused) ↦
              update-OutboxOnly p id (fail_event (e.attempts + 1) cause db.now) db db'
                (lasting.failing (e.attempts + 1) db.now cause)
                (publish_each-OutboxOnly rest (failed + 1)
                  (dead_lettered + bit (leb max_publish_attempts (e.attempts + 1))) ids
                  (record db {
                    outbox = update id (fail_event (e.attempts + 1) cause db.now) db.outbox;
                  })
                  db' t (rw (refused, publish_each) at h))
        ]

    due : (ℕ → Bool) → ℕ → Db → Table OutboxEvent
    due locked limit db =
        take limit
          (sort_by (λ (id, _). id) (keep (λ (id, e). is_due db.now e && not (locked id)) db.outbox))

    pub publish_batch-OutboxOnly :
        (locked : ℕ → Bool) (limit : ℕ) (db : Db)
        → Commits (OutboxOnly p db) (publish_batch publish locked limit db)
    unfolding publish_batch due
    publish_batch-OutboxOnly locked limit db res db' h =
        elim (Result-cases (publish_each publish (due locked limit db) (0, 0, []) db)) [
          | inl (e, f) ↦ ground (arith, f)
          | inr ((t, db1), f) ↦ elim (Result-cases (mark_published t.2 db1)) [
            | inl (e, g) ↦ ground (arith, f, g)
            | inr ((done, db2), g) ↦
                let e : db' ≡ db2 = ground (arith, f, g) in
                let a = publish_each-OutboxOnly (due locked limit db) 0 0 [] db db1 t f in
                let b = mark_published-OutboxOnly t.2 db1 db2 g in
                let set : Db → Db = λ x. record x { outbox = db2.outbox } in
                rw e
                  (record { others = b.others ∙ ap set a.others; counted = b.counted ∙ a.counted })
          ]
        ]
