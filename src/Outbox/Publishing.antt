-- ===== src/Outbox/Publishing.antt =====
-- The relay's half of the outbox (PublishBatch and markFailed in outbox/repository.go). Publishing
-- is the broker's: a parameter that answers with the text of an error, or with none.
use crisis_link.Common.{
  ℕ, zero, suc, ◌+◌, ◌^◌, Bool, true, false, not, ◌&&◌, Option, none, some, List, [], ◌∷◌, ltb, leb,
  if◌then◌else◌, keep, take, length, bit, is_some,
}
use crisis_link.Common.Sort.{sort_by}
use crisis_link.Table.{Table, update}
use crisis_link.Store.Rows.{Db, OutboxEvent}
use crisis_link.Store.Tx.{Tx, ok, err, gets, modify, ◌>>=◌, ◌>>◌, pure}

abbrev pub max_publish_attempts : ℕ
max_publish_attempts = 5

abbrev pub max_backoff_seconds : ℕ
max_backoff_seconds = 300

-- 1 << n is below 2 ^ 31 where it is computed.
unfoldable pub backoff_seconds : ℕ → ℕ
backoff_seconds attempt =
    let n = if ltb attempt 1 then 1 else attempt in
    if ltb 30 n
    then max_backoff_seconds
    else if ltb (2 ^ n) max_backoff_seconds
    then 2 ^ n
    else max_backoff_seconds

-- A text by its bytes.
abbrev pub truncate_err : List ℕ → List ℕ
truncate_err s = if ltb 500 (length s) then take 500 s else s

abbrev pub fail_event : ℕ → List ℕ → ℕ → OutboxEvent → OutboxEvent
fail_event next cause now e = record e {
  attempts = next;
  last_error = some (truncate_err cause);
  next_attempt_at = now + backoff_seconds next;
  dead_at = if leb max_publish_attempts next then some now else none;
}

-- `attempts` is the count that the batch read.
unfoldable pub mark_failed : ℕ → ℕ → List ℕ → Tx Bool
mark_failed id attempts cause db = ok (
  leb max_publish_attempts (attempts + 1),
  record db { outbox = update id (fail_event (attempts + 1) cause db.now) db.outbox },
)

abbrev pub is_due : ℕ → OutboxEvent → Bool
is_due now e = not (is_some e.published_at) && not (is_some e.dead_at) && leb e.next_attempt_at now

abbrev pub publish_event : ℕ → OutboxEvent → OutboxEvent
publish_event now e = record e { published_at = some now }

pub record PublishResult : Type 0 where
  pub claimed : ℕ
  pub published : ℕ
  pub failed : ℕ
  pub dead_lettered : ℕ

-- FOR UPDATE SKIP LOCKED passes over the rows that other relays hold.
unfoldable pub claim_due : (ℕ → Bool) → ℕ → Tx (Table OutboxEvent)
claim_due locked limit = gets λ db.
    take limit
      (sort_by (λ (id, _). id) (keep (λ (id, e). is_due db.now e && not (locked id)) db.outbox))

-- UPDATE … SET published_at = now() WHERE id = ANY(ids)
unfoldable pub mark_published : List ℕ → Tx (Unit {0})
mark_published [] = pure tt
mark_published (id ∷ ids) = do
  modify λ db. record db { outbox = update id (publish_event db.now) db.outbox }
  mark_published ids

module _ (publish : ℕ × OutboxEvent → Option (List ℕ)) where
  -- What the loop has counted: failures, dead letters, and the ids that were published.
  abbrev pub Tally : Type 0
  Tally = ℕ × ℕ × List ℕ

  unfoldable pub publish_each : Table OutboxEvent → Tally → Tx Tally
  publish_each [] tally = pure tally
  publish_each ((id, e) ∷ rest) (failed, dead_lettered, ids) = elim (publish (id, e)) [
    | none ↦ publish_each rest (failed, dead_lettered, id ∷ ids)
    | some cause ↦ mark_failed id e.attempts cause >>= λ dead.
        publish_each rest (failed + 1, dead_lettered + bit dead, ids)
  ]

  unfoldable pub publish_batch : (ℕ → Bool) → ℕ → Tx PublishResult
  unfolding claim_due
  publish_batch locked limit = do
    events ← claim_due locked limit
    (failed, dead_lettered, ids) ← publish_each events (0, 0, [])
    mark_published ids
    pure (record {
      claimed = length events;
      published = length ids;
      failed = failed;
      dead_lettered = dead_lettered;
    })

  -- Relay.drain, by fuel: batches until one comes back short. `none` is fuel that ran out. Each batch
  -- has its own time: `meanwhile` is what passes, and what others commit, before the next one.
  unfoldable pub drain : (meanwhile : ℕ → Db → Db) → ℕ → ℕ → Db → Option Db
  drain meanwhile zero batch db = none
  drain meanwhile (suc fuel) batch db = elim (publish_batch (λ id. false) batch db) [
    | err e ↦ some db
    | ok (res, db') ↦ elim (ltb res.claimed batch) [
      | true ↦ some db'
      | false ↦ drain meanwhile fuel batch (meanwhile fuel db')
    ]
  ]
