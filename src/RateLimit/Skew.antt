-- ===== src/RateLimit/Skew.antt =====
-- The token bucket under the clocks of several replicas (the script of ratelimit_redis.go takes the
-- time from the replica that calls it, and writes it back also where it is the earlier one).
use crisis_link.Common.{ℕ, zero, suc, ◌+◌, ◌-◌, ◌*◌, ◌≤◌, ◌≡◌, refl, true, some, bit, arith}
use crisis_link.RateLimit.{second, Bucket, take_token}
use native.Mathlib.Nat.{mul-le-mul_right}

module _ (rate capacity clock t skew : ℕ) where
  -- A request by the clock that is `skew` ahead, then one by the other.
  abbrev ahead : Bucket → Bucket
  ahead b = (take_token rate capacity clock (t + skew) 1 (some b)).bucket

  abbrev pub alternating : ℕ → Bucket → ℕ
  alternating zero b = 0
  alternating (suc n) b =
      bit (take_token rate capacity clock (t + skew) 1 (some b)).allowed
      + (bit (take_token rate capacity clock t 1 (some (ahead b))).allowed
          + alternating n (take_token rate capacity clock t 1 (some (ahead b))).bucket)

  -- Both requests of a round are allowed, and the next round finds the earlier time again.
  alternating-step :
      (b : Bucket)
      → 2 ≤ capacity
      → 2 * second ≤ skew * rate
      → b.ts ≤ t
      → ((take_token rate capacity clock (t + skew) 1 (some b)).allowed ≡ true)
        × ((take_token rate capacity clock t 1 (some (ahead b))).allowed ≡ true)
        × ((take_token rate capacity clock t 1 (some (ahead b))).bucket.ts ≡ t)
  unfolding take_token
  alternating-step b p q h =
      let more = mul-le-mul_right {m = skew} {n = t + skew - b.ts} rate (omega arith) in
      (ground (arith, more, q, p), ground (arith, more, q, p), refl)

  -- Two replicas whose clocks differ by the time that refills two tokens, or more, let every
  -- request of a client through that alternates between them, however many at one instant, if the
  -- bucket holds two tokens and was last written no later than the earlier clock.
  pub alternating-all :
      (n : ℕ) (b : Bucket)
      → 2 ≤ capacity
      → 2 * second ≤ skew * rate
      → b.ts ≤ t
      → alternating n b ≡ 2 * n
  alternating-all zero b p q h = refl
  alternating-all (suc n) b p q h =
      let both = alternating-step b p q h in
      let rest =
        alternating-all n (take_token rate capacity clock t 1 (some (ahead b))).bucket p q
          (omega (arith, both.2)) in
      rw (both.0, both.1) (omega (arith, rest))
