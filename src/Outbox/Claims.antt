-- ===== src/Outbox/Claims.antt =====
-- The rows that a batch of the relay claims, and what it leaves of their chances (PublishBatch in
-- outbox/repository.go).
use crisis_link.Common.{
  ℕ, zero, suc, ◌<◌, ◌≡◌, inl, inr, Bool, false, ◌&&◌, not, Option, none, List, [], ◌∷◌, keep, take,
  leb, length, arith, Bool-cases,
}
use crisis_link.Common.Sort.{place, sort_by}
use crisis_link.Table.{Table, find}
use crisis_link.Table.Laws.{Unique}
use crisis_link.Table.Every.{
  All, All-keep, All-place, All-sort_by, All-take, All-StandsIn, StandsIn,
}
use crisis_link.Store.Rows.{Db, OutboxEvent}
use crisis_link.Store.Tx.{ok, Result-cases}
use crisis_link.Outbox.Publishing.{
  is_due, publish_each, mark_published, publish_batch, claim_due, PublishResult,
}
use crisis_link.Outbox.Chances.{
  chances_left, Other, Distinct, Claimed, mark_published-le, mark_published-lt, publish_each-first,
  mark_published-Unique,
}

-- The events that a relay without rivals claims.
abbrev pub claimed_by : ℕ → Db → Table OutboxEvent
claimed_by limit db =
    take limit (sort_by (λ (id, e). id) (keep (λ (id, e). is_due db.now e && not false) db.outbox))

find-none-Other : (i : ℕ) (t : Table OutboxEvent) → find i t ≡ none → All (Other i) t
find-none-Other i [] h = tt
find-none-Other i ((j, e) ∷ t) h = (ground (arith, h), find-none-Other i t (ground (arith, h)))

Unique-Distinct : (t : Table OutboxEvent) → Unique t → Distinct t
Unique-Distinct [] u = tt
Unique-Distinct ((i, e) ∷ t) u = (find-none-Other i t u.0, Unique-Distinct t u.1)

keep-Distinct :
    (p : ℕ × OutboxEvent → Bool) (t : Table OutboxEvent) → Distinct t → Distinct (keep p t)
keep-Distinct p [] d = tt
keep-Distinct p ((i, e) ∷ t) d = elim (Bool-cases (p (i, e))) [
  | inl pass ↦ rw pass (All-keep (Other i) (Other i) p t (λ x h k. h) d.0, keep-Distinct p t d.1)
  | inr drop ↦ rw drop (keep-Distinct p t d.1)
]

place-Distinct :
    (key : ℕ × OutboxEvent → ℕ) (i : ℕ) (e : OutboxEvent) (t : Table OutboxEvent)
    → All (Other i) t
    → Distinct t
    → Distinct (place key (i, e) t)
place-Distinct key i e [] o d = (tt, tt)
place-Distinct key i e ((j, f) ∷ t) o d = elim (Bool-cases (leb (key (i, e)) (key (j, f)))) [
  | inl first ↦ rw first (o, d)
  | inr later ↦
      rw later (
        All-place (Other j) key (i, e) t (ground (arith, o.0)) d.0,
        place-Distinct key i e t o.1 d.1,
      )
]

sort_by-Distinct :
    (key : ℕ × OutboxEvent → ℕ) (t : Table OutboxEvent) → Distinct t → Distinct (sort_by key t)
sort_by-Distinct key [] d = tt
sort_by-Distinct key ((i, e) ∷ t) d =
    place-Distinct key i e (sort_by key t) (All-sort_by (Other i) key t d.0)
      (sort_by-Distinct key t d.1)

take-Distinct : (n : ℕ) (t : Table OutboxEvent) → Distinct t → Distinct (take n t)
take-Distinct zero t d = tt
take-Distinct (suc n) [] d = tt
take-Distinct (suc n) ((i, e) ∷ t) d = (All-take (Other i) n t d.0, take-Distinct n t d.1)

claimed_by-Distinct : (limit : ℕ) (db : Db) → Unique db.outbox → Distinct (claimed_by limit db)
claimed_by-Distinct limit db u =
    let due = keep (λ (id, e). is_due db.now e && not false) db.outbox in
    take-Distinct limit (sort_by (λ (id, e). id) due) (
      sort_by-Distinct (λ (id, e). id) due
        (keep-Distinct (λ (id, e). is_due db.now e && not false) db.outbox
          (Unique-Distinct db.outbox u)))

claimed_by-Claimed :
    (limit : ℕ) (db : Db) → Unique db.outbox → All (Claimed db.now db.outbox) (claimed_by limit db)
claimed_by-Claimed limit db u =
    let P = Claimed db.now db.outbox in
    let due = keep (λ (id, e). is_due db.now e && not false) db.outbox in
    All-take P limit (sort_by (λ (id, e). id) due) (
      All-sort_by P (λ (id, e). id) due
        (All-keep (StandsIn db.outbox) P (λ (id, e). is_due db.now e && not false) db.outbox
          (λ (id, e) stands pass. (stands, ground (arith, pass))) (All-StandsIn db.outbox u)))

module _ (publish : ℕ × OutboxEvent → Option (List ℕ)) where
  -- The statements of a batch over some rows.
  events-fewer :
      (events : Table OutboxEvent) (db db1 db2 : Db) (t : ℕ × ℕ × List ℕ)
      → Unique db.outbox
      → Distinct events
      → All (Claimed db.now db.outbox) events
      → 0 < length events
      → publish_each publish events (0, 0, []) db ≡ ok (t, db1)
      → mark_published t.2 db1 ≡ ok (tt, db2)
      → Unique db2.outbox × (chances_left db2.outbox < chances_left db.outbox)
  events-fewer [] db db1 db2 t u d c some_claimed f g = absurd (omega (arith, some_claimed))
  events-fewer ((i, e) ∷ rest) db db1 db2 t u d c some_claimed f g =
      let (u1, le, first) = publish_each-first publish db.now i e rest db db1 t u d c f in
      (
        mark_published-Unique t.2 db1 db2 u1 g,
        elim first [
          | inl less ↦ omega (arith, less, mark_published-le t.2 db1 db2 g)
          | inr (found, alive, has) ↦
              omega (arith, le, mark_published-lt t.2 i e db1 db2 u1 found alive has g)
        ],
      )

  -- A batch that claims anything leaves fewer chances, and the ids unique.
  pub publish_batch-fewer :
      (limit : ℕ) (db db' : Db) (res : PublishResult)
      → Unique db.outbox
      → 0 < length (claimed_by limit db)
      → publish_batch publish (λ id. false) limit db ≡ ok (res, db')
      → Unique db'.outbox × (chances_left db'.outbox < chances_left db.outbox)
  unfolding publish_batch claim_due
  publish_batch-fewer limit db db' res u some_claimed h =
      let events = claimed_by limit db in
      elim (Result-cases (publish_each publish events (0, 0, []) db)) [
        | inl (e, f) ↦ absurd (ground (arith, h, f))
        | inr ((t, db1), f) ↦ elim (Result-cases (mark_published t.2 db1)) [
          | inl (e, g) ↦ absurd (ground (arith, h, f, g))
          | inr ((done, db2), g) ↦
              let same : db' ≡ db2 = ground (arith, h, f, g) in
              rw same (
                events-fewer events db db1 db2 t u (claimed_by-Distinct limit db u)
                  (claimed_by-Claimed limit db u) some_claimed f g)
        ]
      ]
