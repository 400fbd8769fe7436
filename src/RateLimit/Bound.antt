-- ===== src/RateLimit/Bound.antt =====
-- How many requests the token bucket lets through (the script and the handler of ratelimit_redis.go).
use crisis_link.Common.{
  ℕ, ◌+◌, ◌-◌, ◌*◌, ◌/◌, ◌≤◌, ◌<◌, ◌≡◌, refl, ap, true, Option, some, List, [], ◌∷◌, ◌∙◌, bit,
  arith,
}
use crisis_link.RateLimit.{second, Bucket, ceil_div, take_token, allowed_count, retry_after}
use native.Mathlib.Nat.{mul-le-mul_right, add-mul, mul_right_comm, lt-div-mul-add}

-- The times come in order, none before `s`.
abbrev pub InOrder : ℕ → List ℕ → Type 0
InOrder s [] = Unit
InOrder s (t ∷ times) = (s ≤ t) × InOrder t times

abbrev pub last_of : ℕ → List ℕ → ℕ
last_of s [] = s
last_of s (t ∷ times) = last_of t times

last_of-le : (s : ℕ) (times : List ℕ) → InOrder s times → s ≤ last_of s times
last_of-le s [] h = omega arith
last_of-le s (t ∷ times) h = omega (arith, last_of-le t times h.1, h.0)

-- Two waits in a row refill what the whole refills.
waits : (s t l rate : ℕ) → s ≤ t → t ≤ l → (l - s) * rate ≡ (l - t) * rate + (t - s) * rate
waits s t l rate p q = ap (λ d. d * rate) (omega arith) ∙ add-mul (l - t) (t - s) rate

module _ (rate capacity : ℕ) where
  -- A bucket written at the time `s` is there until it would be full.
  abbrev WrittenAt : ℕ → Bucket → Type 0
  WrittenAt s b = (b.ts ≡ s) × (b.expires_at ≡ s + (ceil_div capacity rate + 1) * second)

  full_again :
      (s t : ℕ)
      → 0 < rate
      → s + (ceil_div capacity rate + 1) * second ≤ t
      → capacity * second ≤ (t - s) * rate
  full_again s t p h =
      let c = ceil_div capacity rate in
      omega (
        arith,
        lt-div-mul-add {a = capacity + (rate - 1)} {b = rate} p,
        mul-le-mul_right {m = (c + 1) * second} {n = t - s} rate (omega arith),
        mul_right_comm (c + 1) second rate,
        add-mul c 1 rate,
      )

  -- What a request takes and what it leaves come from the tokens and the refill, also where the key
  -- has expired.
  take_token-le :
      (s t : ℕ) (b : Bucket)
      → 0 < rate
      → WrittenAt s b
      → bit (take_token rate capacity t t 1 (some b)).allowed * second
          + (take_token rate capacity t t 1 (some b)).bucket.tokens
        ≤ b.tokens + (t - s) * rate
  unfolding take_token
  take_token-le s t b p w = ground (arith, full_again s t p)

  take_token-full :
      (t : ℕ) (b : Option Bucket)
      → bit (take_token rate capacity t t 1 b).allowed * second
          + (take_token rate capacity t t 1 b).bucket.tokens
        ≤ capacity * second
  unfolding take_token
  take_token-full t b = ground arith

  take_token-WrittenAt :
      (t : ℕ) (b : Option Bucket) → WrittenAt t (take_token rate capacity t t 1 b).bucket
  unfolding take_token
  take_token-WrittenAt t b = (refl, refl)

  -- From a bucket: what is allowed comes from its tokens and the refill.
  allowed_from :
      (s : ℕ) (b : Bucket) (times : List ℕ)
      → 0 < rate
      → WrittenAt s b
      → InOrder s times
      → allowed_count rate capacity (some b) times * second
        ≤ b.tokens + (last_of s times - s) * rate
  allowed_from s b [] p w o = omega arith
  allowed_from s b (t ∷ times) p w o =
      let taken = take_token rate capacity t t 1 (some b) in
      omega (
        arith,
        take_token-le s t b p w,
        allowed_from t taken.bucket times p (take_token-WrittenAt t (some b)) o.1,
        waits s t (last_of t times) rate o.0 (last_of-le t times o.1),
        add-mul (bit taken.allowed) (allowed_count rate capacity (some taken.bucket) times) second,
      )

  -- At a positive rate and by one clock: in every stretch of a client's requests in the order of
  -- their times, whatever the bucket was before them and however often its key expired between
  -- them, at most as many are allowed as the burst and the refill over the length of the stretch
  -- give.
  pub allowed_count-le :
      (b : Option Bucket) (t : ℕ) (times : List ℕ)
      → 0 < rate
      → InOrder t times
      → allowed_count rate capacity b (t ∷ times) * second
        ≤ capacity * second + (last_of t times - t) * rate
  allowed_count-le b t times p o =
      let taken = take_token rate capacity t t 1 b in
      omega (
        arith,
        take_token-full t b,
        allowed_from t taken.bucket times p (take_token-WrittenAt t b) o,
        add-mul (bit taken.allowed) (allowed_count rate capacity (some taken.bucket) times) second,
      )

  -- At a positive rate and capacity and by one clock: a client that waits the seconds of Retry-
  -- After since its last request is let through again.
  pub retry_after_suffices :
      (b : Option Bucket) (t later : ℕ)
      → 0 < rate
      → 0 < capacity
      → t + retry_after rate capacity * second ≤ later
      → (take_token rate capacity later later 1
          (some (take_token rate capacity t t 1 b).bucket)).allowed
        ≡ true
  unfolding take_token retry_after
  retry_after_suffices b t later p q h =
      let wait = 1 / rate + 1 in
      ground (
        arith,
        lt-div-mul-add {a = 1} {b = rate} p,
        mul-le-mul_right {m = wait * second} {n = later - t} rate (omega (arith, h)),
        mul_right_comm wait second rate,
        add-mul (1 / rate) 1 rate,
        q,
      )
