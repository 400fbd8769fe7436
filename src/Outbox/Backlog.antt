-- ===== src/Outbox/Backlog.antt =====
-- The admin's views of the outbox (ListRecent, ListDead and PendingCount in outbox/repository.go, with
-- outbox/service.go and outbox/handler.go).
use crisis_link.Common.{
  ℕ, ◌-◌, ◌≤◌, ◌≡◌, Bool, not, ◌&&◌, Option, [], ◌∷◌, keep, take, length, is_some, arith,
  length-take-le,
}
use crisis_link.Common.Int.{ℤ}
use crisis_link.Common.Sort.{sort_by}
use crisis_link.Table.{Table, count_where}
use crisis_link.Store.Rows.{Db, OutboxEvent}
use crisis_link.Store.Tx.{Tx, ok, gets, ◌>>=◌, pure}
use crisis_link.Roles.{Actor, admin, holds_role}
use crisis_link.Http.{Handler, answer, with_roles, clamp_int}
use crisis_link.Http.Registers.{any_reply}

abbrev pub is_dead : OutboxEvent → Bool
is_dead e = is_some e.dead_at

abbrev pub is_pending : OutboxEvent → Bool
is_pending e = not (is_some e.published_at) && not (is_some e.dead_at)

-- ORDER BY id DESC: no id has been drawn beyond the sequence.
abbrev newest : Db → Table OutboxEvent → Table OutboxEvent
newest db = sort_by (λ (id, e). db.next_event - id)

unfoldable pub list_recent_events : ℕ → Tx (Table OutboxEvent)
list_recent_events limit = gets λ db. take limit (newest db db.outbox)

unfoldable pub list_dead : ℕ → Tx (Table OutboxEvent)
list_dead limit = gets λ db. take limit (newest db (keep (λ (id, e). is_dead e) db.outbox))

unfoldable pub pending_count : Tx ℕ
pending_count = gets λ db. count_where is_pending db.outbox

pub record DeadPage : Type 0 where
  pub dead_count : ℕ
  pub pending_lag : ℕ
  pub events : Table OutboxEvent

unfoldable pub dead_page : ℕ → Tx DeadPage
unfolding list_dead pending_count
dead_page limit = do
  events ← list_dead limit
  lag ← pending_count
  pure (record { dead_count = length events; pending_lag = lag; events = events })

-- GET /admin/outbox
unfoldable pub list_outbox : Actor → Option ℤ → Handler (Table OutboxEvent)
unfolding list_recent_events holds_role
list_outbox actor limit =
    with_roles (admin ∷ []) actor
      (answer 200 any_reply (list_recent_events (clamp_int limit 20 1 200)))

-- GET /admin/outbox/dead
unfoldable pub list_dead_events : Actor → Option ℤ → Handler DeadPage
unfolding dead_page holds_role
list_dead_events actor limit =
    with_roles (admin ∷ []) actor (answer 200 any_reply (dead_page (clamp_int limit 20 1 200)))

-- The count of dead events that the page shows is at most its limit, however many are dead.
pub dead_page-le :
    (limit : ℕ) (db db' : Db) (page : DeadPage)
    → dead_page limit db ≡ ok (page, db')
    → (page.dead_count ≤ limit) × (page.pending_lag ≡ count_where is_pending db.outbox)
unfolding dead_page list_dead pending_count
dead_page-le limit db db' page h =
    let events = newest db (keep (λ (id, e). is_dead e) db.outbox) in
    ground (arith, h, length-take-le limit events)
