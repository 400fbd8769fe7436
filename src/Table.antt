-- ===== src/Table.antt =====
-- A database table: rows under their primary key, in the order of insertion (newest first).
-- The statements that the repositories under internal/ send are built from these operations.
pub mod Laws
pub mod Every
use crisis_link.Common.{
  ℕ, ◌+◌, Bool, true, false, ◌&&◌, Option, none, some, List, [], ◌∷◌, ◌==◌, if◌then◌else◌, bit,
}

abbrev pub Table {ℓ} : Type ℓ → Type ℓ
Table A = List (ℕ × A)

module _ {ℓ} {A : Type ℓ} where
  -- SELECT … WHERE id = k
  abbrev pub find : ℕ → Table A → Option A
  find k [] = none
  find k ((j, a) ∷ t) = if j == k then some a else find k t

  -- UPDATE … SET f WHERE id = k
  abbrev pub update : ℕ → (A → A) → Table A → Table A
  update k f [] = []
  update k f ((j, a) ∷ t) = (j, if j == k then f a else a) ∷ update k f t

  -- UPDATE … SET f WHERE id = k AND p
  abbrev pub update_where : ℕ → (A → Bool) → (A → A) → Table A → Table A
  update_where k p f = update k (λ a. if p a then f a else a)

  abbrev pub passes : (A → Bool) → Option A → Bool
  passes p none = false
  passes p (some a) = p a

  -- RowsAffected() > 0 for the same statement: is there a row under `k` that passes `p`?
  abbrev pub affects : ℕ → (A → Bool) → Table A → Bool
  affects k p t = passes p (find k t)

  -- SELECT count(*) … WHERE p
  abbrev pub count_where : (A → Bool) → Table A → ℕ
  count_where p [] = 0
  count_where p ((j, a) ∷ t) = bit (p a) + count_where p t

  -- SELECT sum(g)
  abbrev pub sum_by : (A → ℕ) → Table A → ℕ
  sum_by g [] = 0
  sum_by g ((j, a) ∷ t) = g a + sum_by g t
