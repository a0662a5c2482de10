-- ===== src/Backend/RateLimit.antt =====
-- `TokenBucket` of backend/middleware/rateLimit.js. The rate is in tokens per minute, as the comments
-- there have it, times are in milliseconds, and `tokens` counts sixty-thousandths of a token, so that
-- every number that the program rounds to a double is exact.
pub mod Limits
pub mod Requests
pub mod Bounded
use fueltracks.Prelude.{ℕ, ◌+◌, ◌-◌, ◌*◌, ◌/◌, Bool, true, false, if◌then◌else◌}
use fueltracks.Prelude.Int.{ℤ, pos, sub_ℕ, neg, pos_part, neg_part, ltb_ℤ, negsuc}

-- One token.
abbrev pub token : ℕ
token = 60000

-- `tokens` falls below zero when the clock is set back.
pub record TokenBucket : Type 0 where
  pub capacity : ℕ
  pub rate : ℕ
  pub tokens : ℤ
  pub last_refill : ℕ

abbrev pub token_bucket : ℕ → ℕ → ℕ → TokenBucket
token_bucket capacity rate now = record {
  capacity = capacity;
  rate = rate;
  tokens = pos (capacity * token);
  last_refill = now;
}

abbrev pub min_ℤ : ℤ → ℤ → ℤ
min_ℤ a b = if ltb_ℤ b a then b else a

-- `Math.min(this.capacity, this.tokens + elapsed * this.refillPerSec)`
unfoldable pub refilled : TokenBucket → ℕ → ℤ
refilled b now =
    min_ℤ (pos (b.capacity * token))
      (sub_ℕ (pos_part b.tokens + now * b.rate) (neg_part b.tokens + b.last_refill * b.rate))

-- `take(n)`, and the bucket after it.
unfoldable pub take : ℕ → TokenBucket → ℕ → Bool × TokenBucket
take n b now =
    let tokens = refilled b now in
    if ltb_ℤ tokens (pos (n * token))
    then (false, record b { tokens = tokens; last_refill = now })
    else (
      true,
      record b {
        tokens = sub_ℕ (pos_part tokens) (n * token + neg_part tokens);
        last_refill = now;
      },
    )

-- `Math.ceil(a / b)` for a signed numerator.
unfoldable pub ceil : ℤ → ℕ → ℤ
ceil (pos a) b = pos ((a + b - 1) / b)
ceil (negsuc a) b = neg (pos ((a + 1) / b))

-- A token takes 1000 * rate of its parts a second.
unfoldable pub retry_after_sec : TokenBucket → ℤ
retry_after_sec b = ceil (sub_ℕ (token + neg_part b.tokens) (pos_part b.tokens)) (1000 * b.rate)
