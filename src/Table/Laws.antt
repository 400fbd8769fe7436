-- ===== src/Table/Laws.antt =====
-- Laws of tables: what is found, counted and summed after each statement.
use mathlib.Core.Option
use crisis_link.Common.{
  ℕ, ◌+◌, ◌≡◌, refl, Bool, true, false, none, some, [], ◌∷◌, arith, ◌==◌, if◌then◌else◌, keep,
  exists_in, ◌≢◌, ap, bit,
}
use crisis_link.Table.{Table, find, update, update_where, passes, count_where, sum_by}

module _ {ℓ} {A : Type ℓ} where
  -- What is found after an update.
  pub find-update :
      (j k : ℕ) (f : A → A) (t : Table A)
      → find j (update k f t) ≡ (if k == j then Option.map f (find j t) else find j t)
  find-update j k f [] = ground arith
  find-update j k f ((i, a) ∷ t) = ground (arith, find-update j k f t)

  pub find-update_self :
      (k : ℕ) (f : A → A) (t : Table A) (a : A)
      → find k t ≡ some a
      → find k (update k f t) ≡ some (f a)
  find-update_self k f [] a h = ground arith
  find-update_self k f ((i, b) ∷ t) a h = ground (arith, find-update_self k f t a)

  pub find-update_ne :
      (j k : ℕ) (f : A → A) (t : Table A) → j ≢ k → find j (update k f t) ≡ find j t
  find-update_ne j k f t h = ground (arith, find-update j k f t)

  -- A row that no count sees fails the test.
  pub count_where-zero :
      (p : A → Bool) (t : Table A) (k : ℕ) (a : A)
      → count_where p t ≡ 0
      → find k t ≡ some a
      → p a ≡ false
  count_where-zero p [] k a h e = ground arith
  count_where-zero p ((i, b) ∷ t) k a h e = ground (arith, count_where-zero p t k a)

  -- No primary key occurs twice.
  abbrev pub Unique : Table A → Type ℓ
  Unique [] = Unit
  Unique ((k, a) ∷ t) = (find k t ≡ none) × Unique t

  pub update-Unique : (k : ℕ) (f : A → A) (t : Table A) → Unique t → Unique (update k f t)
  update-Unique k f [] u = tt
  update-Unique k f ((i, a) ∷ t) u = ground (arith, find-update i k f t, update-Unique k f t u.1)

  update-absent : (k : ℕ) (f : A → A) (t : Table A) → find k t ≡ none → update k f t ≡ t
  update-absent k f [] h = refl
  update-absent k f ((i, a) ∷ t) h = ground (arith, update-absent k f t)

  -- Two updates that do the same to the row are the same.
  pub update_same :
      (k : ℕ) (f g : A → A) (t : Table A) (a : A)
      → Unique t
      → find k t ≡ some a
      → f a ≡ g a
      → update k f t ≡ update k g t
  update_same k f g [] a u h e = refl
  update_same k f g ((i, b) ∷ t) a u h e =
      ground (arith, update-absent k f t, update-absent k g t, update_same k f g t a u.1)

  -- A guarded update whose guard fails at the row leaves the table.
  pub update_where_lost :
      (k : ℕ) (p : A → Bool) (f : A → A) (t : Table A)
      → Unique t
      → passes p (find k t) ≡ false
      → update_where k p f t ≡ t
  update_where_lost k p f [] u h = refl
  update_where_lost k p f ((i, b) ∷ t) u h =
      ground (arith, update-absent k (λ a. if p a then f a else a) t, update_where_lost k p f t u.1)

  -- An update moves a sum by what it does to its row.
  pub sum_by-update :
      (g : A → ℕ) (k : ℕ) (f : A → A) (t : Table A) (a : A)
      → Unique t
      → find k t ≡ some a
      → sum_by g (update k f t) + g a ≡ sum_by g t + g (f a)
  sum_by-update g k f [] a u h = ground arith
  sum_by-update g k f ((i, b) ∷ t) a u h =
      ground (arith, update-absent k f t, sum_by-update g k f t a u.1)

  pub sum_by-update_absent :
      (g : A → ℕ) (k : ℕ) (f : A → A) (t : Table A)
      → find k t ≡ none
      → sum_by g (update k f t) ≡ sum_by g t
  sum_by-update_absent g k f t h = ap (sum_by g) (update-absent k f t h)

  -- The same for a count.
  pub count_where-update :
      (p : A → Bool) (k : ℕ) (f : A → A) (t : Table A) (a : A)
      → Unique t
      → find k t ≡ some a
      → count_where p (update k f t) + bit (p a) ≡ count_where p t + bit (p (f a))
  count_where-update p k f [] a u h = ground arith
  count_where-update p k f ((i, b) ∷ t) a u h =
      ground (arith, update-absent k f t, count_where-update p k f t a u.1)

  -- An update that no test sees leaves the count.
  pub count_where-update_same :
      (p : A → Bool) (k : ℕ) (f : A → A) (t : Table A)
      → ((a : A) → p (f a) ≡ p a)
      → count_where p (update k f t) ≡ count_where p t
  count_where-update_same p k f [] h = refl
  count_where-update_same p k f ((i, b) ∷ t) h =
      ground (arith, h b, count_where-update_same p k f t h)

  -- Every row of a query passes its test.
  pub find-keep :
      (p : ℕ × A → Bool) (t : Table A) (k : ℕ) (a : A)
      → find k (keep p t) ≡ some a
      → p (k, a) ≡ true
  find-keep p [] k a h = ground arith
  find-keep p ((i, b) ∷ t) k a h = ground (arith, find-keep p t k a)

  -- A test that no row passes fails at each row that is found.
  pub exists_in-find :
      (p : ℕ × A → Bool) (t : Table A) (k : ℕ) (a : A)
      → exists_in p t ≡ false
      → find k t ≡ some a
      → p (k, a) ≡ false
  exists_in-find p [] k a h e = ground arith
  exists_in-find p ((i, b) ∷ t) k a h e = ground (arith, exists_in-find p t k a)

  -- A test that fails at each row that is found fails in the whole table, if keys are unique.
  pub exists_in-none :
      (p : ℕ × A → Bool) (t : Table A)
      → Unique t
      → ((k : ℕ) (a : A) → find k t ≡ some a → p (k, a) ≡ false)
      → exists_in p t ≡ false
  exists_in-none p [] u h = refl
  exists_in-none p ((i, b) ∷ t) u h =
      ground (arith, h i b, exists_in-none p t u.1 (λ k a f. h k a (ground (arith, u.0))))
