-- ===== src/Common/Sort.antt =====
-- A stable sort by a key into the numbers: ORDER BY in the queries, sort.SliceStable in the services.
use crisis_link.Common.Lists.{take, keep}
use crisis_link.Common.Tests.{leb, if◌then◌else◌, branch}
use Prim.Native.Nat.{ℕ, zero, suc, ◌≤◌}
use mathlib.Core.Bool.{Bool}
use mathlib.Core.List.{List, [], ◌∷◌}
use native.Mathlib.Omega.{arith}

module _ {ℓ} {A : Type ℓ} (key : A → ℕ) where
  abbrev pub place : A → List A → List A
  place a [] = a ∷ []
  place a (b ∷ xs) = let rest = b ∷ place a xs in if leb (key a) (key b) then a ∷ b ∷ xs else rest

  -- Entries of one key keep their order.
  abbrev pub sort_by : List A → List A
  sort_by [] = []
  sort_by (a ∷ xs) = place a (sort_by xs)

  -- Every key in the list is at least `n`.
  abbrev pub AllFrom : ℕ → List A → Type 0
  AllFrom n [] = Unit
  AllFrom n (a ∷ xs) = (n ≤ key a) × AllFrom n xs

  abbrev pub Ascending : List A → Type 0
  Ascending [] = Unit
  Ascending (a ∷ xs) = AllFrom (key a) xs × Ascending xs

  AllFrom-mono : (m n : ℕ) (xs : List A) → m ≤ n → AllFrom n xs → AllFrom m xs
  AllFrom-mono m n [] h s = tt
  AllFrom-mono m n (a ∷ xs) h s = (omega arith, AllFrom-mono m n xs h s.1)

  AllFrom-place : (n : ℕ) (a : A) (xs : List A) → n ≤ key a → AllFrom n xs → AllFrom n (place a xs)
  AllFrom-place n a [] h s = (h, tt)
  AllFrom-place n a (b ∷ xs) h s = ground (arith, AllFrom-place n a xs h s.1)

  place-Ascending : (a : A) (xs : List A) → Ascending xs → Ascending (place a xs)
  place-Ascending a [] s = (tt, tt)
  place-Ascending a (b ∷ xs) s =
      ground (
        arith,
        place-Ascending a xs s.1,
        AllFrom-place (key b) a xs,
        AllFrom-mono (key a) (key b) xs,
      )

  pub sort_by-Ascending : (xs : List A) → Ascending (sort_by xs)
  sort_by-Ascending [] = tt
  sort_by-Ascending (a ∷ xs) = place-Ascending a (sort_by xs) (sort_by-Ascending xs)

  pub take-Ascending : (n : ℕ) (xs : List A) → Ascending xs → Ascending (take n xs)
  take-Ascending zero xs s = tt
  take-Ascending (suc n) [] s = tt
  take-Ascending (suc n) (a ∷ xs) s = (AllFrom-take (key a) n xs s.0, take-Ascending n xs s.1)
    where
      AllFrom-take : (k m : ℕ) (ys : List A) → AllFrom k ys → AllFrom k (take m ys)
      AllFrom-take k zero ys h = tt
      AllFrom-take k (suc m) [] h = tt
      AllFrom-take k (suc m) (y ∷ ys) h = (h.0, AllFrom-take k m ys h.1)

  AllFrom-keep : (n : ℕ) (p : A → Bool) (xs : List A) → AllFrom n xs → AllFrom n (keep p xs)
  AllFrom-keep n p [] h = tt
  AllFrom-keep n p (x ∷ xs) h =
      branch (AllFrom n) (p x) (x ∷ keep p xs) (keep p xs) (h.0, AllFrom-keep n p xs h.1)
        (AllFrom-keep n p xs h.1)

  pub keep-Ascending : (p : A → Bool) (xs : List A) → Ascending xs → Ascending (keep p xs)
  keep-Ascending p [] s = tt
  keep-Ascending p (x ∷ xs) s =
      branch Ascending (p x) (x ∷ keep p xs) (keep p xs)
        (AllFrom-keep (key x) p xs s.0, keep-Ascending p xs s.1) (keep-Ascending p xs s.1)
