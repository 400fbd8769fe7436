-- ===== src/RateLimit.antt =====
-- internal/platform/middleware/ratelimit_redis.go: the token bucket that Redis keeps for a client.
-- Times are nanoseconds and tokens are billionths, so that a refill of `rate` tokens a second adds
-- `rate` for each nanosecond; the script's floating-point numbers are exact numbers here.
pub mod Bound
pub mod Skew
use crisis_link.Common.{
  ℕ, ◌+◌, ◌-◌, ◌*◌, ◌/◌, min, Bool, true, false, Option, none, some, List, [], ◌∷◌, ltb, leb,
  if◌then◌else◌, bit,
}

abbrev pub second : ℕ
second = 1000000000

pub record Bucket : Type 0 where
  pub tokens : ℕ
  pub ts : ℕ
  pub expires_at : ℕ

abbrev pub ceil_div : ℕ → ℕ → ℕ
ceil_div a b = (a + (b - 1)) / b

-- One run of the script: the answer, the whole tokens that are left, and the bucket.
pub record Taken : Type 0 where
  pub allowed : Bool
  pub remaining : ℕ
  pub bucket : Bucket

-- What the limiter does with a request: it passes on, or it is refused for that many seconds.
pub data Verdict : Type 0 where
  passes_on : Verdict
  rate_limited : (retry_after : ℕ) → Verdict

-- `rate` is in tokens a second, `capacity` in tokens.
module _ (rate capacity : ℕ) where
  -- HMGET: `clock` is Redis's own time, by which the key expires, and `now` the caller's.
  abbrev pub loaded : (clock now : ℕ) → Option Bucket → ℕ × ℕ
  loaded clock now none = (capacity * second, now)
  loaded clock now (some b) =
      if ltb clock b.expires_at then (b.tokens, b.ts) else (capacity * second, now)

  abbrev pub refilled : ℕ → ℕ × ℕ → ℕ
  refilled now (tokens, ts) = min (capacity * second) (tokens + (now - ts) * rate)

  abbrev taken_from : (clock now requested tokens : ℕ) → Taken
  taken_from clock now requested tokens =
      let enough = leb (requested * second) tokens in
      let left = if enough then tokens - requested * second else tokens in
      record {
        allowed = enough;
        remaining = left / second;
        bucket = record {
          tokens = left;
          ts = now;
          expires_at = clock + (ceil_div capacity rate + 1) * second;
        };
      }

  unfoldable pub take_token : (clock now requested : ℕ) → Option Bucket → Taken
  take_token clock now requested b =
      taken_from clock now requested (refilled now (loaded clock now b))

  unfoldable pub retry_after : ℕ
  retry_after = 1 / rate + 1

  -- The handler; `none` is a Redis that does not answer.
  unfoldable pub limit : Option Taken → Verdict
  unfolding retry_after
  limit none = passes_on
  limit (some t) = if t.allowed then passes_on else rate_limited (1 / rate + 1)

  -- A client's requests at these times, by one clock: the bucket they leave, and how many were allowed.
  abbrev pub bucket_after : Option Bucket → List ℕ → Option Bucket
  bucket_after b [] = b
  bucket_after b (t ∷ times) = bucket_after (some (take_token t t 1 b).bucket) times

  abbrev pub allowed_count : Option Bucket → List ℕ → ℕ
  allowed_count b [] = 0
  allowed_count b (t ∷ times) =
      bit (take_token t t 1 b).allowed + allowed_count (some (take_token t t 1 b).bucket) times
