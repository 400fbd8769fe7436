-- ===== src/Outbox/Backoff.antt =====
-- The schedule of the retries (backoffSeconds in outbox/repository.go).
use native.Mathlib.Nat.{pow-suc}
use crisis_link.Common.{ℕ, zero, suc, ◌*◌, ◌^◌, ◌≤◌, ◌≡◌, ◌<◌, arith}
use crisis_link.Outbox.Publishing.{backoff_seconds, max_backoff_seconds}

two-le-pow : (k : ℕ) → 2 ≤ 2 ^ suc k
two-le-pow zero = omega arith
two-le-pow (suc k) = omega (arith, two-le-pow k, pow-suc 2 (suc k))

-- A retry waits at least two seconds and at most five minutes.
pub backoff_seconds_bounds : (n : ℕ) → (2 ≤ backoff_seconds n) × (backoff_seconds n ≤ 300)
unfolding backoff_seconds
backoff_seconds_bounds zero = ground arith
backoff_seconds_bounds (suc k) = ground (arith, two-le-pow k)

-- A later retry never waits less than an earlier one.
pub backoff_seconds_grows : (n : ℕ) → backoff_seconds n ≤ backoff_seconds (suc n)
unfolding backoff_seconds
backoff_seconds_grows zero = ground arith
backoff_seconds_grows (suc k) = ground (arith, two-le-pow k, pow-suc 2 (suc k))

-- From the first retry on the wait doubles, for as long as it stays below the cap of five minutes.
pub backoff_seconds_doubles :
    (n : ℕ)
    → 0 < n
    → backoff_seconds (suc n) < max_backoff_seconds
    → backoff_seconds (suc n) ≡ 2 * backoff_seconds n
unfolding backoff_seconds
backoff_seconds_doubles zero h k = ground arith
backoff_seconds_doubles (suc k) h l = ground (arith, two-le-pow k, pow-suc 2 (suc k))
