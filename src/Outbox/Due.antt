-- ===== src/Outbox/Due.antt =====
-- Which events are due, through the writes of a batch (PublishBatch in outbox/repository.go).
use crisis_link.Common.{
  ℕ, zero, suc, ◌<◌, ◌≡◌, ◌∙◌, refl, ap, subst, inl, inr, ◌⊎◌, Bool, true, false, ◌&&◌, ◌||◌, List,
  [], ◌∷◌, ◌==◌, keep, take, length, leb, arith, Bool-cases,
}
use crisis_link.Common.Sort.{place, sort_by}
use crisis_link.Table.{Table, update, count_where}
use crisis_link.Table.Every.{All}
use crisis_link.Store.Rows.{OutboxEvent}
use crisis_link.Outbox.Publishing.{is_due, fail_event, publish_event}
use crisis_link.Outbox.Backoff.{backoff_seconds_bounds}

-- A write after which the row is not due.
abbrev pub Clears : ℕ → (OutboxEvent → OutboxEvent) → Type 0
Clears now f = (e : OutboxEvent) → is_due now (f e) ≡ false

pub publish_event-Clears : (now : ℕ) → Clears now (publish_event now)
publish_event-Clears now e = ground arith

pub fail_event-Clears : (next now : ℕ) (cause : List ℕ) → Clears now (fail_event next cause now)
fail_event-Clears next now cause e = ground (arith, backoff_seconds_bounds next)

-- Is there a row under this id that is due?
abbrev pub due_at : ℕ → ℕ → Table OutboxEvent → Bool
due_at now id [] = false
due_at now id ((j, e) ∷ t) = ((j == id) && is_due now e) || due_at now id t

abbrev pub due_count : ℕ → Table OutboxEvent → ℕ
due_count now = count_where (is_due now)

-- The same ids, and no event due that was not.
abbrev pub NoMoreDue : ℕ → Table OutboxEvent → Table OutboxEvent → Type 0
NoMoreDue now [] [] = Unit
NoMoreDue now ((i, a) ∷ t) ((j, b) ∷ u) =
    (i ≡ j) × (is_due now b ≡ true → is_due now a ≡ true) × NoMoreDue now t u
NoMoreDue now _ _ = ⊥

module _ (now : ℕ) where
  pub NoMoreDue-refl : (t : Table OutboxEvent) → NoMoreDue now t t
  NoMoreDue-refl [] = tt
  NoMoreDue-refl ((i, a) ∷ t) = (refl, λ h. h, NoMoreDue-refl t)

  pub NoMoreDue-trans :
      (t u v : Table OutboxEvent) → NoMoreDue now t u → NoMoreDue now u v → NoMoreDue now t v
  NoMoreDue-trans [] [] [] p q = tt
  NoMoreDue-trans ((i, a) ∷ t) ((j, b) ∷ u) ((k, c) ∷ v) (e, f, p) (e', g, q) =
      (e ∙ e', λ h. f (g h), NoMoreDue-trans t u v p q)
  NoMoreDue-trans [] [] (_ ∷ v) p q = elim q [ ]
  NoMoreDue-trans [] (_ ∷ u) v p q = elim p [ ]
  NoMoreDue-trans (_ ∷ t) [] v p q = elim p [ ]
  NoMoreDue-trans (_ ∷ t) (_ ∷ u) [] p q = elim q [ ]

  pub update-NoMoreDue :
      (id : ℕ) (f : OutboxEvent → OutboxEvent) (t : Table OutboxEvent)
      → Clears now f
      → NoMoreDue now t (update id f t)
  update-NoMoreDue id f [] c = tt
  update-NoMoreDue id f ((i, a) ∷ t) c =
      (refl, λ h. ground (arith, h, c a), update-NoMoreDue id f t c)

  pub update-cleared :
      (id : ℕ) (f : OutboxEvent → OutboxEvent) (t : Table OutboxEvent)
      → Clears now f
      → due_at now id (update id f t) ≡ false
  update-cleared id f [] c = refl
  update-cleared id f ((i, a) ∷ t) c = ground (arith, c a, update-cleared id f t c)

  pub NoMoreDue-due_at :
      (id : ℕ) (t u : Table OutboxEvent)
      → NoMoreDue now t u
      → due_at now id t ≡ false
      → due_at now id u ≡ false
  NoMoreDue-due_at id [] [] p h = refl
  NoMoreDue-due_at id ((i, a) ∷ t) ((j, b) ∷ u) (e, f, p) h =
      ground (arith, h, e, f, NoMoreDue-due_at id t u p)
  NoMoreDue-due_at id [] (_ ∷ u) p h = elim p [ ]
  NoMoreDue-due_at id (_ ∷ t) [] p h = elim p [ ]

  -- A table in which something is due has an id at which it is.
  pub due_count-due_at :
      (t : Table OutboxEvent) → (due_count now t ≡ 0) ⊎ ((id : ℕ) × (due_at now id t ≡ true))
  due_count-due_at [] = inl refl
  due_count-due_at ((i, e) ∷ t) = elim (Bool-cases (is_due now e)) [
    | inl due ↦ inr (i, ground (arith, due))
    | inr not_due ↦ elim (due_count-due_at t) [
      | inl none_due ↦ inl (ground (arith, not_due, none_due))
      | inr (id, there) ↦ inr (id, ground (arith, there))
    ]
  ]

  -- What holds of the ids of all rows that are due.
  pub All-due_at :
      (P : ℕ → Type 0) (id : ℕ) (t : Table OutboxEvent)
      → All (λ (i, e). is_due now e ≡ true → P i) t
      → due_at now id t ≡ true
      → P id
  All-due_at P id [] a h = absurd (ground (arith, h))
  All-due_at P id ((i, e) ∷ t) a h = elim (Bool-cases ((i == id) && is_due now e)) [
    | inl here ↦
        let same : i ≡ id = ground (arith, here) in subst P same (a.0 (ground (arith, here)))
    | inr there ↦ All-due_at P id t a.1 (ground (arith, h, there))
  ]

module _ {ℓ κ} {B : Type ℓ} where
  place-All :
      (P : B → Type κ) (key : B → ℕ) (a : B) (xs : List B) → All P (place key a xs) → P a × All P xs
  place-All P key a [] h = (h.0, tt)
  place-All P key a (b ∷ xs) h = elim (Bool-cases (leb (key a) (key b))) [
    | inl first ↦ rw first at h
    | inr later ↦
        let rest : P b × All P (place key a xs) = rw later at h in
        let deeper = place-All P key a xs rest.1 in (deeper.0, (rest.0, deeper.1))
  ]

  -- What holds of a sorted list, of the rows kept from a list, and of all that a page took, holds of
  -- what went in.
  pub sort_by-All : (P : B → Type κ) (key : B → ℕ) (xs : List B) → All P (sort_by key xs) → All P xs
  sort_by-All P key [] h = tt
  sort_by-All P key (a ∷ xs) h =
      let (here, rest) = place-All P key a (sort_by key xs) h in (here, sort_by-All P key xs rest)

  pub keep-All :
      (P : B → Type κ) (p : B → Bool) (xs : List B)
      → All P (keep p xs)
      → All (λ b. p b ≡ true → P b) xs
  keep-All P p [] h = tt
  keep-All P p (b ∷ xs) h = elim (Bool-cases (p b)) [
    | inl pass ↦
        let both : P b × All P (keep p xs) = rw pass at h in (λ e. both.0, keep-All P p xs both.1)
    | inr drop ↦
        let rest : All P (keep p xs) = rw drop at h in
        (λ e. absurd (ground (arith, drop, e)), keep-All P p xs rest)
  ]

module _ {ℓ} {B : Type ℓ} where
  pub take-short : (n : ℕ) (xs : List B) → length (take n xs) < n → take n xs ≡ xs
  take-short zero xs h = absurd (omega (arith, h))
  take-short (suc n) [] h = refl
  take-short (suc n) (x ∷ xs) h = ap (λ t. x ∷ t) (take-short n xs (omega (arith, h)))
