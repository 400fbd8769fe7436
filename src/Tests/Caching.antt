-- ===== src/Tests/Caching.antt =====
-- The cache, the two consumer groups and the relay's loop at small examples.
use crisis_link.Common.{
  ℕ, ◌+◌, ◌≤◌, ◌<◌, ◌≡◌, refl, true, false, Option, none, some, List, [], ◌∷◌, ◌==◌, if◌then◌else◌,
  arith,
}
use crisis_link.Store.Rows.{Db, OutboxEvent, AggregateType, EventType, Payload}
use crisis_link.Outbox.{new_event}
use crisis_link.Outbox.Publishing.{drain}
use crisis_link.Outbox.Due.{due_count}
use crisis_link.Outbox.Chances.{chances_left}
use crisis_link.Outbox.Drained.{drain_lem}
use crisis_link.Inbox.{Inbox}
use crisis_link.Cache.{State, Load, Step, Reach, get_json, row_of, commit, begin_load, backfill}
use crisis_link.Cache.Staleness.{WasCurrent, Bounded, hit_staleness, longest_ttl}
use crisis_link.Cache.Fresh.{CalmReach, calm_hit_current}
use crisis_link.Cache.Shelters.{Cached, Op}
use crisis_link.Consumers.{EventEnvelope, Logs, Arrival, run_groups}
use crisis_link.Consumers.Groups.{BothOnce, audited, run_groups-BothOnce, run_groups-AuditedOnce}
use crisis_link.Tests.Sample.{sample}

-- Numbers stand for rows: 5 is committed, read into the cache, and 6 is committed.
abbrev first : State ℕ
first = record { now = 100; commits = (90, 5) ∷ []; entry = none; loads = []; writers = 0 }

abbrev read : State ℕ
read = begin_load 5 first

abbrev pair : Load ℕ
pair = record { value = 5; read_at = 100 }

abbrev filled : State ℕ
filled = backfill true 0 pair [] read

abbrev overtaken : State ℕ
overtaken = commit 6 filled

to_overtaken : Reach 0 first overtaken
to_overtaken =
    Reach.later
      (Reach.later (Reach.later Reach.start (Step.loads 5 refl))
        (Step.backfills true 0 pair [] [] refl (omega arith) (omega arith)))
      (Step.commits 6)

first-Bounded : Bounded 0 first
first-Bounded = record { past = omega arith; in_flight = tt; cached = tt }

stale_hit : (get_json true overtaken.now overtaken.entry).0 ≡ some 5
unfolding get_json backfill
stale_hit = refl

hit_staleness_example :
    (since : ℕ) × (since ≤ overtaken.now)
    × (overtaken.now < since + 0 + longest_ttl)
    × WasCurrent 5 since overtaken.commits
hit_staleness_example = hit_staleness 0 first overtaken true 5 first-Bounded to_overtaken stale_hit

to_filled : CalmReach 0 first filled
to_filled =
    CalmReach.later (CalmReach.later CalmReach.start (Step.loads 5 refl) tt)
      (Step.backfills true 0 pair [] [] refl (omega arith) (omega arith)) tt

fresh_hit : (get_json true filled.now filled.entry).0 ≡ some 5
unfolding get_json backfill
fresh_hit = refl

none_writes : filled.writers ≡ 0
unfolding backfill
none_writes = refl

calm_hit_current_example : row_of filled.commits ≡ some 5
calm_hit_current_example =
    calm_hit_current 0 first filled true 5 (record { in_flight = tt; cached = λ h. tt }) to_filled
      none_writes fresh_hit

abbrev cold : Cached
cold = record { db = sample; keys = λ id. none }

-- A read that fills the key, an admission, and reads with and without Redis.
abbrev visits : List Op
visits =
    Op.reads true 0 30
    ∷ Op.admits 40 30
    ∷ Op.reads true 7 30
    ∷ Op.sets 30 "closed"
    ∷ Op.waits 3
    ∷ Op.reads false 0 30
    ∷ Op.reads true 0 31
    ∷ []

abbrev envelope : ℕ → EventEnvelope
envelope id = record {
  id = id;
  event_type = EventType.dispatch_created;
  aggregate_type = AggregateType.dispatch;
  aggregate_id = 20;
  payload = Payload.created 20 11 2;
  occurred_at = 900;
}

abbrev fresh_logs : Inbox Logs
fresh_logs = record {
  ledger = [];
  tables = record { notifications = []; audit_log = []; next_id = 1 };
}

-- The first attempt of each group breaks; event 7 comes twice to each.
abbrev deliveries : List Arrival
deliveries =
    Arrival.to_notifier (some 7)
    ∷ Arrival.to_auditor (some 7)
    ∷ Arrival.to_notifier none
    ∷ Arrival.to_auditor (some 7)
    ∷ Arrival.to_notifier (some 7)
    ∷ Arrival.to_notifier (some 8)
    ∷ []

run_groups-BothOnce_example :
    BothOnce (run_groups envelope (λ group attempt event. attempt == 1) deliveries fresh_logs)
run_groups-BothOnce_example =
    run_groups-BothOnce envelope (λ group attempt event. attempt == 1) deliveries fresh_logs
      (λ event. refl) refl (record { notifications = λ event. refl; audit_log = λ event. refl })

abbrev with_loss : List Arrival
with_loss = Arrival.to_auditor (some 7) ∷ Arrival.ledger_lost ∷ Arrival.to_auditor (some 7) ∷ []

run_groups-AuditedOnce_example :
    audited 7
      (run_groups envelope (λ group attempt event. attempt == 1) with_loss fresh_logs).tables
    ≤ 1
run_groups-AuditedOnce_example =
    run_groups-AuditedOnce envelope (λ group attempt event. attempt == 1) with_loss fresh_logs
      (λ event. refl) (λ event. omega arith) 7

abbrev event_row : ℕ → OutboxEvent
event_row attempts =
    record (new_event AggregateType.dispatch 20 EventType.dispatch_created (Payload.created 20 11 2)
      900) { attempts = attempts }

-- Two events are due, of which the broker takes the second.
abbrev backlog : Db
backlog = record sample { outbox = (2, event_row 0) ∷ (1, event_row 4) ∷ []; next_event = 3 }

abbrev half : ℕ × OutboxEvent → Option (List ℕ)
half (id, e) = if id == 1 then some (101 ∷ []) else none

-- A minute passes between two batches, so what failed in the first is due again in the second.
abbrev slow : ℕ → Db → Db
slow n db = record db { now = db.now + 60 }

chances_of_two : chances_left backlog.outbox < 9
chances_of_two = omega arith

drain_lem_example :
    (db' : Db) × (drain half slow 9 1 backlog ≡ some db') × (due_count db'.now db'.outbox ≡ 0)
drain_lem_example =
    drain_lem half slow 9 1 backlog (λ n x u. (u, omega arith)) (refl, (refl, tt)) (omega arith)
      chances_of_two
