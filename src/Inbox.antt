-- ===== src/Inbox.antt =====
-- The consumer's half of the outbox: outbox/inbox_repository.go and consumer/consumer.go. What an
-- event does to the consumer's own tables is a parameter, `effect`; `none` is its failure. The
-- attempts of one delivery may end differently, so an effect is also given the attempt.
pub mod Once
use crisis_link.Common.{
  ℕ, zero, suc, ◌+◌, Bool, true, false, ◌&&◌, ◌||◌, Option, none, some, List, [], ◌∷◌, ◌==◌, leb,
  if◌then◌else◌, exists_in,
}

-- The table processed_events beside the tables that the effects write.
pub record Inbox (S : Type 0) : Type 0 where
  pub ledger : List (ℕ × ℕ)
  pub tables : S

abbrev pub is_claimed : ℕ → ℕ → List (ℕ × ℕ) → Bool
is_claimed consumer event = exists_in (λ (c, e). c == consumer && e == event)

-- ProcessOnce answers whether it ran the effect, and `none` for its error, which rolls back.
module _ {S : Type 0} where
  unfoldable pub process_once : ℕ → ℕ → (S → Option S) → Inbox S → Option (Bool × Inbox S)
  process_once consumer event effect db =
      if is_claimed consumer event db.ledger then some (false, db) else elim (effect db.tables) [
        | none ↦ none
        | some tables ↦
            some (true, record { ledger = (consumer, event) ∷ db.ledger; tables = tables })
      ]

abbrev pub max_attempts : ℕ
max_attempts = 3

-- How a delivery ends; the offset is committed after each of them.
pub data Delivery : Type 0 where
  processed duplicate dead_lettered : Delivery

module _ {S : Type 0} (effect : ℕ → ℕ → S → Option S) where
  -- The loop of Consumer.process over the attempts left; `attempt` is the number of the next one.
  unfoldable pub attempts : ℕ → ℕ → ℕ → ℕ → Inbox S → Delivery × Inbox S
  attempts zero attempt consumer event db = (dead_lettered, db)
  attempts (suc n) attempt consumer event db =
      elim (process_once consumer event (effect attempt event) db) [
        | some (true, db') ↦ (processed, db')
        | some (false, db') ↦ (duplicate, db')
        | none ↦ attempts n (attempt + 1) consumer event db
      ]

  -- Consumer.process of a message: `none` stands for one that cannot be decoded.
  unfoldable pub process : ℕ → Option ℕ → Inbox S → Delivery × Inbox S
  unfolding attempts
  process consumer none db = (dead_lettered, db)
  process consumer (some event) db = attempts max_attempts 1 consumer event db

  -- Consumer.Run over the messages that the broker delivers.
  unfoldable pub run : ℕ → List (Option ℕ) → Inbox S → Inbox S
  run consumer [] db = db
  run consumer (m ∷ ms) db = run consumer ms (process consumer m db).1
