-- ===== src/Outbox/Drained.antt =====
-- The relay's loop ends, and leaves nothing due (Relay.drain in relay/relay.go over PublishBatch).
use crisis_link.Common.{
  ℕ, zero, suc, ◌<◌, ◌≤◌, ◌≡◌, ◌∙◌, refl, sym, subst, inl, inr, true, false, ◌&&◌, not, Option,
  some, List, [], keep, length, ltb, arith, Bool-cases,
}
use crisis_link.Common.Sort.{sort_by}
use crisis_link.Table.Every.{All, All-map}
use crisis_link.Store.Rows.{Db, OutboxEvent}
use crisis_link.Store.Tx.{ok, Tx, ◌>>◌, pure}
use crisis_link.Outbox.Publishing.{
  is_due, publish_each, publish_batch, mark_published, claim_due, PublishResult, drain,
}
use crisis_link.Outbox.Due.{
  due_at, due_count, NoMoreDue, NoMoreDue-due_at, due_count-due_at, All-due_at, sort_by-All,
  keep-All, take-short,
}
use crisis_link.Table.Laws.{Unique}
use crisis_link.Outbox.Chances.{chances_left}
use crisis_link.Outbox.Claims.{claimed_by, publish_batch-fewer}
use crisis_link.Outbox.Settled.{
  Settles, Settles-trans, bind-run, mark_published-lem, publish_each-lem,
}

module _ (publish : ℕ × OutboxEvent → Option (List ℕ)) where
  publish_batch-lem :
      (limit : ℕ) (db : Db)
      → (res : PublishResult) × (db' : Db) × (publish_batch publish (λ id. false) limit db
          ≡ ok (res, db'))
        × Settles db db'
        × (res.claimed ≡ length (claimed_by limit db))
        × All (λ (id, e). due_at db.now id db'.outbox ≡ false) (claimed_by limit db)
  unfolding publish_batch claim_due
  publish_batch-lem limit db =
      let events = claimed_by limit db in
      let result : ℕ × ℕ × List ℕ → PublishResult = λ (f, d, ids). record {
        claimed = length events;
        published = length ids;
        failed = f;
        dead_lettered = d;
      } in
      let finish : ℕ × ℕ × List ℕ → Tx PublishResult = λ t. mark_published t.2 >> pure (result t) in
      let (f, d, ids, db1, run, settled, grows, all) = publish_each-lem publish events 0 0 [] db in
      let (db2, marked, settled2, cleared) = mark_published-lem ids db1 in
      (
        result (f, d, ids),
        db2,
        bind-run (publish_each publish events (0, 0, [])) finish db db1 (f, d, ids) run
            ∙ bind-run (mark_published ids) (λ u. pure (result (f, d, ids))) db1 db2 tt marked,
        Settles-trans db db1 db2 settled settled2,
        refl,
        All-map _ _ events
            (λ (id, e) h. elim h [
              | inl marked_id ↦
                  subst (λ n. due_at n id db2.outbox ≡ false) settled.same_time
                    (cleared id marked_id)
              | inr clear ↦
                  NoMoreDue-due_at db.now id db1.outbox db2.outbox
                    (subst (λ n. NoMoreDue n db1.outbox db2.outbox) settled.same_time
                      settled2.no_more)
                    clear
            ])
            all,
      )

  -- A batch that comes back short leaves nothing due.
  short_batch :
      (limit : ℕ) (db db' : Db)
      → Settles db db'
      → All (λ (id, e). due_at db.now id db'.outbox ≡ false) (claimed_by limit db)
      → length (claimed_by limit db) < limit
      → due_count db'.now db'.outbox ≡ 0
  short_batch limit db db' settled all short =
      let P : ℕ × OutboxEvent → Type 0 = λ (id, e). due_at db.now id db'.outbox ≡ false in
      let due = keep (λ (id, e). is_due db.now e && not false) db.outbox in
      let every : All P due =
        sort_by-All P (λ (id, e). id) due
          (subst (All P) (take-short limit (sort_by (λ (id, e). id) due) short) all) in
      let rows =
        All-map _ (λ (id, e). is_due db.now e ≡ true → due_at db.now id db'.outbox ≡ false)
          db.outbox (λ (id, e) h d. h (ground (arith, d)))
          (keep-All P (λ (id, e). is_due db.now e && not false) db.outbox every) in
      subst (λ n. due_count n db'.outbox ≡ 0) (sym settled.same_time)
        (elim (due_count-due_at db.now db'.outbox) [
          | inl none_due ↦ none_due
          | inr (id, there) ↦ elim (Bool-cases (due_at db.now id db.outbox)) [
            | inl before ↦ absurd (
                ground (
                  arith,
                  there,
                  All-due_at db.now (λ i. due_at db.now i db'.outbox ≡ false) id db.outbox rows
                      before,
                ))
            | inr not_before ↦ absurd (
                ground (
                  arith,
                  there,
                  NoMoreDue-due_at db.now id db.outbox db'.outbox settled.no_more not_before,
                ))
          ]
        ])

  -- The relay's loop ends, however long its batches take: with more fuel than the live events have
  -- attempts left, and one more each, it comes to a database, in which no event is due at the time
  -- of the last batch. The batch size is positive and ids of events are unique; between the batches
  -- any time passes and others, such as another relay, do anything that keeps the ids unique and adds
  -- no attempts, so no event is written meanwhile, and no other relay holds rows when a batch claims.
  pub drain_lem :
      (meanwhile : ℕ → Db → Db) (fuel batch : ℕ) (db : Db)
      → ((n : ℕ) (x : Db)
          → Unique x.outbox
          → Unique (meanwhile n x).outbox
            × (chances_left (meanwhile n x).outbox ≤ chances_left x.outbox))
      → Unique db.outbox
      → 0 < batch
      → chances_left db.outbox < fuel
      → (db' : Db) × (drain publish meanwhile fuel batch db ≡ some db')
        × (due_count db'.now db'.outbox ≡ 0)
  unfolding drain
  drain_lem meanwhile zero batch db adds unique positive enough = absurd (omega (arith, enough))
  drain_lem meanwhile (suc fuel) batch db adds unique positive enough =
      let (res, db1, run, settled, count, all) = publish_batch-lem batch db in
      elim (Bool-cases (ltb res.claimed batch)) [
        | inl short ↦ (
          db1,
          rw (drain, run) (rw short refl),
          short_batch batch db db1 settled all (ground (arith, short, count)),
        )
        | inr full ↦
            let (unique1, fewer) =
              publish_batch-fewer publish batch db db1 res unique
                (ground (arith, full, count, positive)) run in
            let (unique2, others) = adds fuel db1 unique1 in
            let (db', rest, none_due) =
              drain_lem meanwhile fuel batch (meanwhile fuel db1) adds unique2 positive
                (omega (arith, fewer, others, enough)) in
            (db', rw (drain, run) (rw full rest), none_due)
      ]
