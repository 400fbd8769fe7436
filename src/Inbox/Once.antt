-- ===== src/Inbox/Once.antt =====
-- Repeated deliveries (ProcessOnce in outbox/inbox_repository.go and Consumer.process).
use crisis_link.Common.{
  ℕ, zero, suc, ◌+◌, ◌≡◌, inl, inr, Bool, false, Option, none, some, List, [], ◌∷◌, ◌==◌,
  if◌then◌else◌, bit, arith, Option-cases, Bool-cases,
}
use crisis_link.Inbox.{Inbox, is_claimed, process_once, attempts, process, run, max_attempts}

module _ {S : Type 0} where
  -- After ProcessOnce has answered for an event, a second call for it, with any effect, answers
  -- that it is a duplicate and changes nothing.
  pub process_once_again :
      (consumer event : ℕ) (effect later : S → Option S) (db db' : Inbox S) (b : Bool)
      → process_once consumer event effect db ≡ some (b, db')
      → process_once consumer event later db' ≡ some (false, db')
  unfolding process_once
  process_once_again consumer event effect later db db' b h =
      elim (Bool-cases (is_claimed consumer event db.ledger)) [
        | inl claimed ↦ ground arith
        | inr fresh ↦ elim (Option-cases (effect db.tables)) [
          | inl e ↦ ground arith
          | inr (s, e) ↦ ground arith
        ]
      ]

-- The effect of the notifier or of the auditor, seen by the ids of the events that wrote a row, when
-- the broken attempts are those that `fails` names.
abbrev pub log_effect : (ℕ → ℕ → Bool) → ℕ → ℕ → List ℕ → Option (List ℕ)
log_effect fails attempt event log = if fails attempt event then none else some (event ∷ log)

abbrev pub times : ℕ → List ℕ → ℕ
times event [] = 0
times event (e ∷ log) = bit (e == event) + times event log

-- Each event in the ledger has written one row, and no other has written any.
abbrev pub WroteOnce : ℕ → Inbox (List ℕ) → Type 0
WroteOnce consumer db =
    (event : ℕ) → times event db.tables ≡ bit (is_claimed consumer event db.ledger)

module _ (fails : ℕ → ℕ → Bool) where
  attempts-WroteOnce :
      (n attempt consumer event : ℕ) (db : Inbox (List ℕ))
      → WroteOnce consumer db
      → WroteOnce consumer (attempts (log_effect fails) n attempt consumer event db).1
  unfolding attempts process_once
  attempts-WroteOnce zero attempt consumer event db w = w
  attempts-WroteOnce (suc n) attempt consumer event db w =
      λ e. ground (arith, w e, w event, attempts-WroteOnce n (attempt + 1) consumer event db w e)

  -- If each event in a consumer's ledger has written one row and no other event has written any,
  -- then so it is after any deliveries, in any order and as often as the broker likes, whichever
  -- attempts fail.
  pub run-WroteOnce :
      (consumer : ℕ) (messages : List (Option ℕ)) (db : Inbox (List ℕ))
      → WroteOnce consumer db
      → WroteOnce consumer (run (log_effect fails) consumer messages db)
  unfolding run process
  run-WroteOnce consumer [] db w = w
  run-WroteOnce consumer (none ∷ ms) db w = run-WroteOnce consumer ms db w
  run-WroteOnce consumer (some e ∷ ms) db w =
      run-WroteOnce consumer ms _ (attempts-WroteOnce max_attempts 1 consumer e db w)
