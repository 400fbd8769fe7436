-- ===== src/Scoring/Allocation.antt =====
-- internal/scoring: the ranking of shelters (ScoreShelter), in exact fractions where the source has
-- floats, and the stable sort by a score that VictimService.NearestShelters makes of it.
use crisis_link.Common.{
  ℕ, ◌+◌, ◌-◌, ◌*◌, ◌≤◌, Bool, List, [], ◌∷◌, ◌==◌, ltb, arith, if◌then◌else◌, branch,
}
use crisis_link.Store.Rows.{Shelter}
use crisis_link.Table.Every.{All}
use native.Mathlib.Nat.{mul-le-mul_right}

pub record Fraction : Type 0 where
  pub num : ℕ
  pub den : ℕ

-- Is the first fraction less than the second?
abbrev pub less : Fraction → Fraction → Bool
less p q = ltb (p.num * q.den) (q.num * p.den)

abbrev pub shelter_falloff_meters : ℕ
shelter_falloff_meters = 25000

-- The clamped share of the falloff that is left, in metres.
unfoldable pub proximity : ℕ → ℕ
proximity distance = shelter_falloff_meters - distance

-- The share of the capacity that is free; 0 of 1 where there is no capacity.
unfoldable pub headroom : Shelter → Fraction
headroom sh = record {
  num = sh.capacity - sh.occupancy;
  den = if sh.capacity == 0 then 1 else sh.capacity;
}

-- 0.70 of the proximity and 0.30 of the headroom.
unfoldable pub score_shelter : ℕ → Shelter → Fraction
unfolding proximity headroom
score_shelter distance sh = record {
  num =
      7 * (proximity distance * (headroom sh).den)
      + 3 * ((headroom sh).num * shelter_falloff_meters);
  den = 10 * ((headroom sh).den * shelter_falloff_meters);
}

-- sort.SliceStable with `scored[i].Score > scored[j].Score`.
module _ {A : Type 0} (score : A → Fraction) where
  abbrev pub insert_ranked : A → List A → List A
  insert_ranked a [] = a ∷ []
  insert_ranked a (b ∷ xs) =
      let rest = b ∷ insert_ranked a xs in if less (score a) (score b) then rest else a ∷ b ∷ xs

  abbrev pub rank : List A → List A
  rank [] = []
  rank (a ∷ xs) = insert_ranked a (rank xs)

  All-insert_ranked :
      (P : A → Type 0) (a : A) (xs : List A) → P a → All P xs → All P (insert_ranked a xs)
  All-insert_ranked P a [] p e = (p, tt)
  All-insert_ranked P a (b ∷ xs) p e =
      branch (All P) (less (score a) (score b)) (b ∷ insert_ranked a xs) (a ∷ b ∷ xs)
        (e.0, All-insert_ranked P a xs p e.1) (p, e)

  pub All-rank : (P : A → Type 0) (xs : List A) → All P xs → All P (rank xs)
  All-rank P [] e = tt
  All-rank P (a ∷ xs) e = All-insert_ranked P a (rank xs) e.0 (All-rank P xs e.1)

-- A score is at most 1.
score_shelter-bounds :
    (distance : ℕ) (sh : Shelter)
    → (score_shelter distance sh).num ≤ (score_shelter distance sh).den
unfolding score_shelter
score_shelter-bounds distance sh = ground (
  arith,
  mul-le-mul_right {m = shelter_falloff_meters - distance} {n = shelter_falloff_meters}
      (if sh.capacity == 0 then 1 else sh.capacity),
)
