-- ===== src/Outbox/Budget.antt =====
-- The retry budget of an event (PublishBatch and markFailed in outbox/repository.go).
use crisis_link.Common.{
  ℕ, ◌+◌, ◌≡◌, ◌≤◌, ◌<◌, Bool, true, not, ◌&&◌, Option, List, [], ◌∷◌, leb, keep, take, length,
  length-take-le, bit, is_some, arith, inl, inr, Option-cases,
}
use crisis_link.Common.Sort.{sort_by}
use crisis_link.Table.{Table, update}
use crisis_link.Table.Every.{Every, Every-update, All-keep, All-sort_by, All-take}
use crisis_link.Store.Rows.{Db, OutboxEvent}
use crisis_link.Store.Tx.{ok, after, after-keeps, Result-cases}
use crisis_link.Outbox.Publishing.{
  fail_event, publish_event, is_due, mark_published, mark_failed, publish_each, publish_batch,
  PublishResult, max_publish_attempts,
}

-- No event has more attempts than the budget, and it is dead if and only if it has as many.
pub record InBudget (e : OutboxEvent) : Type 0 where
  pub bounded : e.attempts ≤ max_publish_attempts
  pub dead_when_spent : is_some e.dead_at ≡ leb max_publish_attempts e.attempts

abbrev IsAlive : OutboxEvent → Type 0
IsAlive e = e.attempts < max_publish_attempts

due-IsAlive : (now : ℕ) (e : OutboxEvent) → InBudget e → is_due now e ≡ true → IsAlive e
due-IsAlive now e b h = ground arith

fail_event-InBudget :
    (attempts now : ℕ) (cause : List ℕ) (e : OutboxEvent)
    → attempts < max_publish_attempts
    → InBudget (fail_event (attempts + 1) cause now e)
fail_event-InBudget attempts now cause e h = ground arith

mark_published-InBudget :
    (ids : List ℕ) (db db' : Db)
    → Every InBudget db.outbox
    → mark_published ids db ≡ ok (tt, db')
    → Every InBudget db'.outbox
unfolding mark_published
mark_published-InBudget [] db db' b h = let e : db' ≡ db = ground arith in rw e b
mark_published-InBudget (id ∷ ids) db db' b h =
    mark_published-InBudget ids (record db { outbox = update id (publish_event db.now) db.outbox })
      db' (Every-update InBudget id (publish_event db.now) db.outbox (λ a v. ground arith) b) h

module _ (publish : ℕ × OutboxEvent → Option (List ℕ)) where
  publish_each-InBudget :
      (events : Table OutboxEvent) (failed dead_lettered : ℕ) (ids : List ℕ) (db db' : Db)
      (t : ℕ × ℕ × List ℕ)
      → Every IsAlive events
      → Every InBudget db.outbox
      → publish_each publish events (failed, dead_lettered, ids) db ≡ ok (t, db')
      → Every InBudget db'.outbox
  unfolding publish_each mark_failed
  publish_each-InBudget [] failed dead_lettered ids db db' t a b h =
      let e : db' ≡ db = ground arith in rw e b
  publish_each-InBudget ((id, e) ∷ rest) failed dead_lettered ids db db' t a b h =
      elim (Option-cases (publish (id, e))) [
        | inl sent ↦
            publish_each-InBudget rest failed dead_lettered (id ∷ ids) db db' t a.1 b
              (rw (sent, publish_each) at h)
        | inr (cause, refused) ↦
            publish_each-InBudget rest (failed + 1)
              (dead_lettered + bit (leb max_publish_attempts (e.attempts + 1))) ids
              (record db {
                outbox = update id (fail_event (e.attempts + 1) cause db.now) db.outbox;
              })
              db' t a.1
              (Every-update InBudget id (fail_event (e.attempts + 1) cause db.now) db.outbox
                (λ x v. fail_event-InBudget e.attempts db.now cause x a.0) b)
              (rw (refused, publish_each) at h)
      ]

  -- The loop's counts: every claimed event is published or has failed.
  publish_each_counts :
      (events : Table OutboxEvent) (failed dead_lettered : ℕ) (ids : List ℕ) (db db' : Db)
      (t : ℕ × ℕ × List ℕ)
      → dead_lettered ≤ failed
      → publish_each publish events (failed, dead_lettered, ids) db ≡ ok (t, db')
      → (t.0 + length t.2 ≡ failed + length ids + length events) × (t.1 ≤ t.0)
  unfolding publish_each mark_failed
  publish_each_counts [] failed dead_lettered ids db db' t le h = ground arith
  publish_each_counts ((id, e) ∷ rest) failed dead_lettered ids db db' t le h =
      elim (Option-cases (publish (id, e))) [
        | inl sent ↦
            let ih =
              publish_each_counts rest failed dead_lettered (id ∷ ids) db db' t le
                (rw (sent, publish_each) at h) in
            (omega (arith, ih.0), ih.1)
        | inr (cause, refused) ↦
            let ih =
              publish_each_counts rest (failed + 1)
                (dead_lettered + bit (leb max_publish_attempts (e.attempts + 1))) ids
                (record db {
                  outbox = update id (fail_event (e.attempts + 1) cause db.now) db.outbox;
                })
                db' t (ground arith) (rw (refused, publish_each) at h) in
            (omega (arith, ih.0), ih.1)
      ]

  claimed : (ℕ → Bool) → ℕ → Db → Table OutboxEvent
  claimed locked limit db =
      take limit
        (sort_by (λ (id, _). id) (keep (λ (id, e). is_due db.now e && not (locked id)) db.outbox))

  claimed-IsAlive :
      (locked : ℕ → Bool) (limit : ℕ) (db : Db)
      → Every InBudget db.outbox
      → Every IsAlive (claimed locked limit db)
  unfolding claimed
  claimed-IsAlive locked limit db b =
      let alive : ℕ × OutboxEvent → Type 0 = λ (k, a). IsAlive a in
      let within : ℕ × OutboxEvent → Type 0 = λ (k, a). InBudget a in
      All-take alive limit _ (
        All-sort_by alive (λ (id, _). id) _
          (All-keep within alive (λ (id, e). is_due db.now e && not (locked id)) db.outbox
            (λ (k, a) v h. due-IsAlive db.now a v (ground arith)) b))

  -- If every event has at most as many attempts as the retry budget, and is dead exactly when it
  -- has as many, then so it is after a batch, whatever the broker answers and whichever rows are
  -- locked.
  pub publish_batch-InBudget :
      (locked : ℕ → Bool) (limit : ℕ) (db : Db)
      → Every InBudget db.outbox
      → Every InBudget (after db (publish_batch publish locked limit db)).outbox
  unfolding publish_batch claimed
  publish_batch-InBudget locked limit db b =
      after-keeps (λ x. Every InBudget x.outbox) (publish_batch publish locked limit) db b
        (λ res db' h.
          elim (Result-cases (publish_each publish (claimed locked limit db) (0, 0, []) db)) [
            | inl (e, f) ↦ ground (arith, f)
            | inr ((t, db1), f) ↦ elim (Result-cases (mark_published t.2 db1)) [
              | inl (e, g) ↦ ground (arith, f, g)
              | inr ((done, db2), g) ↦
                  let e : db' ≡ db2 = ground (arith, f, g) in
                  rw e (
                    mark_published-InBudget t.2 db1 db2
                      (publish_each-InBudget (claimed locked limit db) 0 0 [] db db1 t
                        (claimed-IsAlive locked limit db b) b f)
                      g)
            ]
          ])

  -- A batch that commits has claimed at most its limit, each claimed event was published or has
  -- failed, and the dead letters are among the failures.
  pub publish_batch_counts :
      (locked : ℕ → Bool) (limit : ℕ) (db db' : Db) (res : PublishResult)
      → publish_batch publish locked limit db ≡ ok (res, db')
      → (res.claimed ≡ res.published + res.failed)
        × (res.dead_lettered ≤ res.failed)
        × (res.claimed ≤ limit)
  unfolding publish_batch claimed
  publish_batch_counts locked limit db db' res h =
      elim (Result-cases (publish_each publish (claimed locked limit db) (0, 0, []) db)) [
        | inl (e, f) ↦ ground (arith, f)
        | inr ((t, db1), f) ↦ elim (Result-cases (mark_published t.2 db1)) [
          | inl (e, g) ↦ ground (arith, f, g)
          | inr ((done, db2), g) ↦
              let c =
                publish_each_counts (claimed locked limit db) 0 0 [] db db1 t (omega arith) f in
              ground (
                arith,
                f,
                g,
                c,
                length-take-le limit (
                    sort_by (λ (id, _). id)
                      (keep (λ (id, e). is_due db.now e && not (locked id)) db.outbox)),
              )
        ]
      ]
