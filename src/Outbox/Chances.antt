-- ===== src/Outbox/Chances.antt =====
-- The attempts that the events of the outbox have left, which each batch that claims anything lowers
-- (PublishBatch and markFailed in outbox/repository.go), whatever the time is.
use crisis_link.Common.{
  ℕ, suc, ◌+◌, ◌-◌, ◌≤◌, ◌<◌, ◌≡◌, ◌∙◌, refl, inl, inr, ◌⊎◌, true, false, ◌&&◌, not, Option, some,
  List, [], ◌∷◌, ◌==◌, is_some, leb, bit, if◌then◌else◌, arith, Bool-cases, Option-cases,
}
use crisis_link.Table.{Table, find, update, sum_by}
use crisis_link.Table.Laws.{Unique, update-Unique, sum_by-update, find-update}
use crisis_link.Table.Every.{All}
use crisis_link.Store.Rows.{Db, OutboxEvent}
use crisis_link.Store.Tx.{ok}
use crisis_link.Outbox.Publishing.{
  is_due, fail_event, publish_event, publish_each, mark_published, mark_failed,
  max_publish_attempts,
}
use crisis_link.Outbox.Settled.{has_id}

-- An event that is neither published nor dead has one more than its attempts left to the budget.
abbrev pub chances : OutboxEvent → ℕ
chances e =
    if not (is_some e.published_at) && not (is_some e.dead_at)
    then suc (max_publish_attempts - e.attempts)
    else 0

abbrev pub chances_left : Table OutboxEvent → ℕ
chances_left = sum_by chances

chances-fail :
    (now at : ℕ) (cause : List ℕ) (e : OutboxEvent)
    → is_due now e ≡ true
    → chances (fail_event (e.attempts + 1) cause at e) < chances e
chances-fail now at cause e due = ground (arith, due)

chances-publish : (now : ℕ) (e : OutboxEvent) → chances (publish_event now e) ≡ 0
chances-publish now e = ground arith

update-publish-le :
    (id now : ℕ) (t : Table OutboxEvent)
    → chances_left (update id (publish_event now) t) ≤ chances_left t
update-publish-le id now [] = omega arith
update-publish-le id now ((i, e) ∷ t) =
    ground (arith, update-publish-le id now t, chances-publish now e)

pub mark_published-le :
    (ids : List ℕ) (db db' : Db)
    → mark_published ids db ≡ ok (tt, db')
    → chances_left db'.outbox ≤ chances_left db.outbox
unfolding mark_published
mark_published-le [] db db' h = ground (arith, h)
mark_published-le (i ∷ ids) db db' h =
    let db1 : Db = record db { outbox = update i (publish_event db.now) db.outbox } in
    omega (arith, mark_published-le ids db1 db' h, update-publish-le i db.now db.outbox)

pub mark_published-Unique :
    (ids : List ℕ) (db db' : Db)
    → Unique db.outbox
    → mark_published ids db ≡ ok (tt, db')
    → Unique db'.outbox
unfolding mark_published
mark_published-Unique [] db db' u h = let same : db' ≡ db = ground (arith, h) in rw same u
mark_published-Unique (i ∷ ids) db db' u h =
    mark_published-Unique ids (record db { outbox = update i (publish_event db.now) db.outbox }) db'
      (update-Unique i (publish_event db.now) db.outbox u) h

-- One of the ids is that of a row with a chance.
pub mark_published-lt :
    (ids : List ℕ) (id : ℕ) (e : OutboxEvent) (db db' : Db)
    → Unique db.outbox
    → find id db.outbox ≡ some e
    → 0 < chances e
    → has_id id ids ≡ true
    → mark_published ids db ≡ ok (tt, db')
    → chances_left db'.outbox < chances_left db.outbox
unfolding mark_published
mark_published-lt [] id e db db' u found alive has h = absurd (ground (arith, has))
mark_published-lt (i ∷ ids) id e db db' u found alive has h =
    let f : OutboxEvent → OutboxEvent = publish_event db.now in
    let db1 : Db = record db { outbox = update i f db.outbox } in
    elim (Bool-cases (i == id)) [
      | inl here ↦
          let at_i : find i db.outbox ≡ some e = ground (arith, here, found) in
          omega (
            arith,
            mark_published-le ids db1 db' h,
            sum_by-update chances i f db.outbox e u at_i,
            chances-publish db.now e,
            alive,
          )
      | inr there ↦ omega (
        arith,
        mark_published-lt ids id e db1 db' (update-Unique i f db.outbox u)
            (ground (arith, there, found, find-update id i f db.outbox)) alive
            (ground (arith, has, there)) h,
        update-publish-le i db.now db.outbox,
      )
    ]

-- No id occurs twice in a batch.
abbrev pub Other : ℕ → ℕ × OutboxEvent → Type 0
Other i (j, e) = (i == j) ≡ false

abbrev pub Distinct : Table OutboxEvent → Type 0
Distinct [] = Unit
Distinct ((i, e) ∷ t) = All (Other i) t × Distinct t

-- The rows of a batch are due and stand in the table.
abbrev pub Claimed : ℕ → Table OutboxEvent → ℕ × OutboxEvent → Type 0
Claimed now t (i, e) = (find i t ≡ some e) × (is_due now e ≡ true)

Claimed-update :
    (now i : ℕ) (f : OutboxEvent → OutboxEvent) (t events : Table OutboxEvent)
    → All (Other i) events
    → All (Claimed now t) events
    → All (Claimed now (update i f t)) events
Claimed-update now i f t [] other all = tt
Claimed-update now i f t ((j, e) ∷ rest) other all = (
  (ground (arith, other.0, all.0.0, find-update j i f t), all.0.1),
  Claimed-update now i f t rest other.1 all.1,
)

module _ (publish : ℕ × OutboxEvent → Option (List ℕ)) where
  -- A loop over rows that stand under distinct ids.
  record Loop (now : ℕ) (events : Table OutboxEvent) (db : Db) : Type 0 where
    pub ids : Unique db.outbox
    pub distinct : Distinct events
    pub claimed : All (Claimed now db.outbox) events

  abbrev failed_db : ℕ → OutboxEvent → List ℕ → Db → Db
  failed_db i e cause db = record db {
    outbox = update i (fail_event (e.attempts + 1) cause db.now) db.outbox;
  }

  Loop-failed :
      (now i : ℕ) (e : OutboxEvent) (rest : Table OutboxEvent) (cause : List ℕ) (db : Db)
      → Loop now ((i, e) ∷ rest) db
      → Loop now rest (failed_db i e cause db)
        × (chances_left (failed_db i e cause db).outbox < chances_left db.outbox)
  Loop-failed now i e rest cause db l =
      let f : OutboxEvent → OutboxEvent = fail_event (e.attempts + 1) cause db.now in
      (
        record {
          ids = update-Unique i f db.outbox l.ids;
          distinct = l.distinct.1;
          claimed = Claimed-update now i f db.outbox rest l.distinct.0 l.claimed.1;
        },
        omega (
          arith,
          sum_by-update chances i f db.outbox e l.ids l.claimed.0.0,
          chances-fail now db.now cause e l.claimed.0.1,
        ),
      )

  Loop-sent :
      (now i : ℕ) (e : OutboxEvent) (rest : Table OutboxEvent) (db : Db)
      → Loop now ((i, e) ∷ rest) db
      → Loop now rest db
  Loop-sent now i e rest db l = record {
    ids = l.ids;
    distinct = l.distinct.1;
    claimed = l.claimed.1;
  }

  -- The loop lowers the chances or leaves them, and touches no row but those of the batch.
  publish_each-le :
      (now : ℕ) (events : Table OutboxEvent) (failed dead_lettered : ℕ) (ids : List ℕ) (db db' : Db)
      (t : ℕ × ℕ × List ℕ)
      → Loop now events db
      → publish_each publish events (failed, dead_lettered, ids) db ≡ ok (t, db')
      → (chances_left db'.outbox ≤ chances_left db.outbox)
        × Unique db'.outbox
        × ((k : ℕ) → All (Other k) events → find k db'.outbox ≡ find k db.outbox)
        × ((k : ℕ) → has_id k ids ≡ true → has_id k t.2 ≡ true)
  unfolding publish_each mark_failed
  publish_each-le now [] failed dead_lettered ids db db' t l h =
      let e : db' ≡ db = ground arith in
      let same : t ≡ (failed, dead_lettered, ids) = ground arith in
      rw e (rw same (omega arith, l.ids, λ k o. refl, λ k has. has))
  publish_each-le now ((i, e) ∷ rest) failed dead_lettered ids db db' t l h =
      elim (Option-cases (publish (i, e))) [
        | inl sent ↦
            let (le, u, kept, grows) =
              publish_each-le now rest failed dead_lettered (i ∷ ids) db db' t
                (Loop-sent now i e rest db l) (rw (sent, publish_each) at h) in
            (le, u, λ k o. kept k o.1, λ k has. grows k (ground (arith, has)))
        | inr (cause, refused) ↦
            let (l', less) = Loop-failed now i e rest cause db l in
            let f : OutboxEvent → OutboxEvent = fail_event (e.attempts + 1) cause db.now in
            let (le, u, kept, grows) =
              publish_each-le now rest (failed + 1)
                (dead_lettered + bit (leb max_publish_attempts (e.attempts + 1))) ids
                (failed_db i e cause db) db' t l' (rw (refused, publish_each) at h) in
            (
              omega (arith, le, less),
              u,
              λ k o. kept k o.1 ∙ ground (arith, o.0, find-update k i f db.outbox),
              grows,
            )
      ]

  -- A batch of at least one event, after its loop: fewer chances, or a row to be marked that has one.
  pub publish_each-first :
      (now i : ℕ) (e : OutboxEvent) (rest : Table OutboxEvent) (db db' : Db) (t : ℕ × ℕ × List ℕ)
      → Unique db.outbox
      → Distinct ((i, e) ∷ rest)
      → All (Claimed now db.outbox) ((i, e) ∷ rest)
      → publish_each publish ((i, e) ∷ rest) (0, 0, []) db ≡ ok (t, db')
      → Unique db'.outbox
        × (chances_left db'.outbox ≤ chances_left db.outbox)
        × ((chances_left db'.outbox < chances_left db.outbox)
            ⊎ ((find i db'.outbox ≡ some e) × (0 < chances e) × (has_id i t.2 ≡ true)))
  unfolding publish_each mark_failed
  publish_each-first now i e rest db db' t unique distinct claimed h =
      let l : Loop now ((i, e) ∷ rest) db = record {
        ids = unique;
        distinct = distinct;
        claimed = claimed;
      } in
      elim (Option-cases (publish (i, e))) [
        | inl sent ↦
            let (le, u, kept, grows) =
              publish_each-le now rest 0 0 (i ∷ []) db db' t (Loop-sent now i e rest db l)
                (rw (sent, publish_each) at h) in
            (
              u,
              le,
              inr (
                kept i distinct.0 ∙ claimed.0.0,
                ground (arith, claimed.0.1),
                grows i (ground arith),
              ),
            )
        | inr (cause, refused) ↦
            let (l', less) = Loop-failed now i e rest cause db l in
            let (le, u, kept, grows) =
              publish_each-le now rest 1 (0 + bit (leb max_publish_attempts (e.attempts + 1))) []
                (failed_db i e cause db) db' t l' (rw (refused, publish_each) at h) in
            (u, omega (arith, le, less), inl (omega (arith, le, less)))
      ]
