-- ===== src/Gateway/Turns.antt =====
-- The round robin of the gateway (newRoundRobinProxy in cmd/gateway/main.go): every replica gets its
-- turn.
use native.Mathlib.Nat.{mod-eq_of_lt, add-mod_right, mod-lt, div-add-mod, suc-mul, mul_comm}
use crisis_link.Common.{
  ℕ, zero, suc, ◌+◌, ◌-◌, ◌*◌, ◌/◌, ◌%◌, ◌≤◌, ◌<◌, ◌≡◌, ◌∙◌, ap, refl, Bool, false, Option, none,
  some, List, [], ◌∷◌, ◌==◌, ltb, bit, ◌&&◌, leb, arith,
}
use crisis_link.Gateway.{max_int, next, picks, word}

pub next_lem :
    (targets counter : ℕ)
    → 0 < targets
    → counter < max_int
    → next targets counter ≡ (some (counter % targets), counter + 1)
unfolding next
next_lem targets counter positive small =
    let e : (counter + 1) % word ≡ counter + 1 = omega arith in
    let f : (counter + 1 + (word - 1)) % word ≡ counter = omega arith in rw (e, f) (ground arith)

abbrev is_index : ℕ → Option ℕ → Bool
is_index j none = false
is_index j (some i) = i == j

-- How many of the requests went to a target.
abbrev pub sent_to : ℕ → List (Option ℕ) → ℕ
sent_to j [] = 0
sent_to j (i ∷ is) = bit (is_index j i) + sent_to j is

zero_left : (b : ℕ) → 0 + b ≡ b
zero_left b = omega arith

zero_right : (c : ℕ) → c + 0 ≡ c
zero_right c = omega arith

suc_left : (a b : ℕ) → suc a + b ≡ suc (a + b)
suc_left a b = omega arith

moved_suc : (c a : ℕ) → c + 1 + a ≡ c + suc a
moved_suc c a = omega arith

suc_right : (c : ℕ) → suc c ≡ c + 1
suc_right c = omega arith

add_flip : (a b : ℕ) → a + b ≡ b + a
add_flip a b = omega arith

back_to : (r n : ℕ) → r ≤ n → r + (n - r) ≡ n
back_to r n h = omega arith

zero_times : (n : ℕ) → 0 * n ≡ 0
zero_times n = omega arith

suc_times : (k n : ℕ) → suc k * n ≡ n + k * n
suc_times k n = suc-mul k n ∙ add_flip (k * n) n

flipped : (n : ℕ) → 1 + n ≡ n + 1
flipped n = omega arith

module _ (n j : ℕ) where
  -- How many of `m` numbers from `c` on leave the remainder `j`.
  abbrev hits : (c m : ℕ) → ℕ
  hits c zero = 0
  hits c (suc m) = bit (c % n == j) + hits (c + 1) m

  sent_to-hits : (c m : ℕ) → 0 < n → c + m ≤ max_int → sent_to j (picks n c m) ≡ hits c m
  sent_to-hits c zero p h = refl
  sent_to-hits c (suc m) p h =
      rw (next_lem n c p (omega arith))
        (ap (λ x. bit (c % n == j) + x) (sent_to-hits (c + 1) m p (omega arith)))

  hits-add : (c a b : ℕ) → hits c (a + b) ≡ hits c a + hits (c + a) b
  hits-add c zero b = omega (arith, ap (hits c) (zero_left b), ap (λ x. hits x b) (zero_right c))
  hits-add c (suc a) b =
      omega (
        arith,
        ap (hits c) (suc_left a b),
        hits-add (c + 1) a b,
        ap (λ x. hits x b) (moved_suc c a),
      )

  -- A full turn from any number meets the remainder as often as one from the next number.
  hits-shift : (c : ℕ) → hits (c + 1) n ≡ hits c n
  hits-shift c = omega (
    arith,
    hits-add c 1 n,
    hits-add c n 1,
    ap (hits c) (flipped n),
    ap (λ r. bit (r == j)) (add-mod_right c n),
  )

  hits-first : (c m : ℕ) → c + m ≤ n → hits c m ≡ bit (leb c j && ltb j (c + m))
  hits-first c zero h = ground arith
  hits-first c (suc m) h =
      let r : c % n ≡ c = mod-eq_of_lt (omega arith) in
      ground (arith, r, hits-first (c + 1) m (omega arith))

  hits-turn : (c : ℕ) → j < n → hits c n ≡ 1
  hits-turn zero h = ground (arith, hits-first 0 n (omega arith))
  hits-turn (suc c) h = ap (λ x. hits x n) (suc_right c) ∙ hits-shift c ∙ hits-turn c h

  hits-turns : (k c : ℕ) → j < n → hits c (k * n) ≡ k
  hits-turns zero c h = ap (hits c) (zero_times n)
  hits-turns (suc k) c h = omega (
    arith,
    ap (hits c) (suc_times k n),
    hits-add c n (k * n),
    hits-turn c h,
    hits-turns k (c + n) h,
  )

  hits-part : (c r : ℕ) → j < n → r ≤ n → hits c r ≤ 1
  hits-part c r h le =
      omega (arith, hits-add c r (n - r), ap (hits c) (back_to r n le), hits-turn c h)

  -- Among any number of requests in a row, at most 2⁶³ in all since the start, every replica gets
  -- its share, the number of requests over the number of replicas, and at most one request more.
  pub sent_to-bounds :
      (c m : ℕ)
      → j < n
      → c + m ≤ max_int
      → (m / n ≤ sent_to j (picks n c m)) × (sent_to j (picks n c m) ≤ m / n + 1)
  sent_to-bounds c m h small =
      let positive : 0 < n = omega arith in
      let whole : m / n * n + m % n ≡ m =
        ap (λ x. x + m % n) (mul_comm (m / n) n) ∙ div-add-mod m n in
      let part = hits-part (c + m / n * n) (m % n) h (omega (arith, mod-lt m positive)) in
      let facts : sent_to j (picks n c m) ≡ m / n + hits (c + m / n * n) (m % n) = omega (
        arith,
        sent_to-hits c m positive small,
        ap (hits c) whole,
        hits-add c (m / n * n) (m % n),
        hits-turns (m / n) c h,
      ) in
      (omega (arith, facts), omega (arith, facts, part))
