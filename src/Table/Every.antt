-- ===== src/Table/Every.antt =====
-- What holds of every row of a table, through updates and queries.
use crisis_link.Common.{
  ℕ, zero, suc, ◌≡◌, Bool, true, some, List, [], ◌∷◌, arith, ◌==◌, leb, keep, take, Bool-cases, inl,
  inr, test_self,
}
use crisis_link.Common.Sort.{place, sort_by}
use crisis_link.Table.{Table, find, update}
use crisis_link.Table.Laws.{Unique}

module _ {ℓ κ} {B : Type ℓ} where
  abbrev pub All : (B → Type κ) → List B → Type κ
  All P [] = Unit
  All P (b ∷ xs) = P b × All P xs

  pub All-map : (P Q : B → Type κ) (xs : List B) → ((b : B) → P b → Q b) → All P xs → All Q xs
  All-map P Q [] h e = tt
  All-map P Q (b ∷ xs) h e = (h b e.0, All-map P Q xs h e.1)

  pub All-any : (xs : List B) → All (λ b. Unit {κ}) xs
  All-any [] = tt
  All-any (b ∷ xs) = (tt, All-any xs)

  pub All-both : (P Q : B → Type κ) (xs : List B) → All P xs → All Q xs → All (λ b. P b × Q b) xs
  All-both P Q [] p q = tt
  All-both P Q (b ∷ xs) p q = ((p.0, q.0), All-both P Q xs p.1 q.1)

  pub All-keep :
      (P Q : B → Type κ) (p : B → Bool) (xs : List B)
      → ((b : B) → P b → p b ≡ true → Q b)
      → All P xs
      → All Q (keep p xs)
  All-keep P Q p [] h e = tt
  All-keep P Q p (b ∷ xs) h e = elim (Bool-cases (p b)) [
    | inl pass ↦ rw pass (h b e.0 pass, All-keep P Q p xs h e.1)
    | inr drop ↦ rw drop (All-keep P Q p xs h e.1)
  ]

  pub All-place :
      (P : B → Type κ) (key : B → ℕ) (a : B) (xs : List B) → P a → All P xs → All P (place key a xs)
  All-place P key a [] h e = (h, tt)
  All-place P key a (b ∷ xs) h e = elim (Bool-cases (leb (key a) (key b))) [
    | inl first ↦ rw first (h, e)
    | inr later ↦ rw later (e.0, All-place P key a xs h e.1)
  ]

  pub All-sort_by : (P : B → Type κ) (key : B → ℕ) (xs : List B) → All P xs → All P (sort_by key xs)
  All-sort_by P key [] e = tt
  All-sort_by P key (a ∷ xs) e = All-place P key a (sort_by key xs) e.0 (All-sort_by P key xs e.1)

  pub All-take : (P : B → Type κ) (n : ℕ) (xs : List B) → All P xs → All P (take n xs)
  All-take P zero xs e = tt
  All-take P (suc n) [] e = tt
  All-take P (suc n) (b ∷ xs) e = (e.0, All-take P n xs e.1)

module _ {ℓ} {A : Type ℓ} where
  abbrev pub Every : (A → Type 0) → Table A → Type 0
  Every P = All (λ (k, a). P a)

  pub Every-update :
      (P : A → Type 0) (k : ℕ) (f : A → A) (t : Table A)
      → ((a : A) → P a → P (f a))
      → Every P t
      → Every P (update k f t)
  Every-update P k f [] h e = tt
  Every-update P k f ((j, a) ∷ t) h e = elim (Bool-cases (j == k)) [
    | inl hit ↦ rw hit (h a e.0, Every-update P k f t h e.1)
    | inr miss ↦ rw miss (e.0, Every-update P k f t h e.1)
  ]

  -- The row that stands under its key.
  abbrev pub StandsIn : Table A → ℕ × A → Type ℓ
  StandsIn t (k, a) = find k t ≡ some a

  pub All-StandsIn : (t : Table A) → Unique t → All (StandsIn t) t
  All-StandsIn [] u = tt
  All-StandsIn ((k, a) ∷ t) u = (
    rw (test_self k),
    All-map (StandsIn t) (StandsIn ((k, a) ∷ t)) t (λ (j, b) f. ground arith) (All-StandsIn t u.1),
  )
