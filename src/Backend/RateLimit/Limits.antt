-- ===== src/Backend/RateLimit/Limits.antt =====
-- What a token bucket of backend/middleware/rateLimit.js lets pass, and when to try again.
use native.Mathlib.Nat.{div-lt_iff_lt-mul}
use fueltracks.Prelude.{
  ℕ, ◌+◌, ◌-◌, ◌*◌, ◌/◌, ◌≤◌, ◌<◌, ◌≡◌, true, false, List, [], ◌∷◌, leb, if◌then◌else◌, arith,
  Bool-cases, inl, inr, min, ap, sym, ◌↔◌, ◌∙◌,
}
use fueltracks.Prelude.Int.{ℤ, pos, pos_part, neg_part}
use fueltracks.Backend.RateLimit.{
  TokenBucket, token_bucket, token, refilled, take, ceil, retry_after_sec,
}

-- How many of the requests are served that come one after the other, each so many milliseconds after
-- the one before it.
abbrev pub served : TokenBucket → ℕ → List ℕ → ℕ
served b now [] = 0
served b now (d ∷ ds) =
    let rest = served (take 1 b (now + d)).1 (now + d) ds in
    if (take 1 b (now + d)).0 then 1 + rest else rest

abbrev pub total : List ℕ → ℕ
total [] = 0
total (d ∷ ds) = d + total ds

-- A bucket that was last refilled at this time, in no debt.
abbrev stands : ℕ → ℕ → ℕ → ℕ → TokenBucket
stands capacity rate t now = record {
  capacity = capacity;
  rate = rate;
  tokens = pos t;
  last_refill = now;
}

mul_add : (a b c : ℕ) → (a + b) * c ≡ a * c + b * c
mul_add a b c = ground arith

take-accepts :
    (capacity rate t now d : ℕ)
    → (take 1 (stands capacity rate t now) (now + d)).0 ≡ true
    → (u : ℕ) × ((take 1 (stands capacity rate t now) (now + d)).1
        ≡ stands capacity rate u (now + d))
      × (u + token ≤ t + d * rate)
unfolding take refilled
take-accepts capacity rate t now d h = (
  min (capacity * token) (t + d * rate) - token,
  ground (arith, mul_add now d rate),
  ground (arith, mul_add now d rate),
)

take-refuses :
    (capacity rate t now d : ℕ)
    → (take 1 (stands capacity rate t now) (now + d)).0 ≡ false
    → (u : ℕ) × ((take 1 (stands capacity rate t now) (now + d)).1
        ≡ stands capacity rate u (now + d))
      × (u ≤ t + d * rate)
unfolding take refilled
take-refuses capacity rate t now d h = (
  min (capacity * token) (t + d * rate),
  ground (arith, mul_add now d rate),
  ground (arith, mul_add now d rate),
)

served-bounded :
    (capacity rate t now : ℕ) (ds : List ℕ)
    → served (stands capacity rate t now) now ds * token ≤ t + total ds * rate
served-bounded capacity rate t now [] = ground arith
served-bounded capacity rate t now (d ∷ ds) =
    elim (Bool-cases (take 1 (stands capacity rate t now) (now + d)).0) [
      | inl served_now ↦
          let (u, step, bound) = take-accepts capacity rate t now d served_now in
          rw (served_now, step)
            (ground (
              arith,
              served-bounded capacity rate u (now + d) ds,
              mul_add d (total ds) rate,
              bound,
            ))
      | inr refused_now ↦
          let (u, step, bound) = take-refuses capacity rate t now d refused_now in
          rw (refused_now, step)
            (ground (
              arith,
              served-bounded capacity rate u (now + d) ds,
              mul_add d (total ds) rate,
              bound,
            ))
    ]

-- Of the requests that come to a new bucket, however they are spaced, at most its capacity and what
-- its rate gives in the time that they take (in milliseconds, at `rate` tokens a minute) are served.
pub token_bucket-bounded :
    (capacity rate now : ℕ) (ds : List ℕ)
    → served (token_bucket capacity rate now) now ds * token ≤ capacity * token + total ds * rate
token_bucket-bounded capacity rate now ds = served-bounded capacity rate (capacity * token) now ds

leb-div : (x k y : ℕ) → 1 ≤ k → leb ((x + k - 1) / k) y ≡ leb x (y * k)
leb-div x k y h =
    let quotient : ((x + k - 1) / k < y + 1) ↔ (x + k - 1 < (y + 1) * k) = div-lt_iff_lt-mul h in
    ground (arith, quotient, mul_add y 1 k)

-- What the bucket lacks for a token.
abbrev deficit : ℤ → ℕ
deficit t = token + neg_part t - pos_part t

retry_after_sec-deficit :
    (b : TokenBucket)
    → pos_part b.tokens < token + neg_part b.tokens
    → retry_after_sec b ≡ pos ((deficit b.tokens + 1000 * b.rate - 1) / (1000 * b.rate))
unfolding retry_after_sec ceil
retry_after_sec-deficit b h = ground arith

take-later :
    (b : TokenBucket) (s : ℕ)
    → 1 ≤ b.capacity
    → pos_part b.tokens < token + neg_part b.tokens
    → (take 1 b (b.last_refill + s * 1000)).0 ≡ leb (deficit b.tokens) (s * (1000 * b.rate))
unfolding take refilled
take-later b s c h = ground (arith, mul_add b.last_refill (s * 1000) b.rate)

take-refused :
    (b : TokenBucket) (now : ℕ)
    → (take 1 b now).0 ≡ false
    → ((take 1 b now).1 ≡ record b { tokens = refilled b now; last_refill = now })
      × (pos_part (refilled b now) < token + neg_part (refilled b now))
unfolding take
take-refused b now h = ground arith

-- Whatever a bucket of a capacity of at least 1 and a positive rate holds when it refuses a request: a
-- request that comes whole seconds later, with none in between, is served exactly if it does not come
-- before the time that `Retry-After` says.
pub retry_after_sec-exact :
    (b : TokenBucket) (now s : ℕ)
    → 1 ≤ b.capacity
    → 1 ≤ b.rate
    → (take 1 b now).0 ≡ false
    → (retry : ℕ) × (retry_after_sec (take 1 b now).1 ≡ pos retry)
      × ((take 1 (take 1 b now).1 (now + s * 1000)).0 ≡ leb retry s)
retry_after_sec-exact b now s c r refused =
    let (after, short) = take-refused b now refused in
    let owing : TokenBucket = record b { tokens = refilled b now; last_refill = now } in
    let k = 1000 * b.rate in
    (
      (deficit owing.tokens + k - 1) / k,
      ap retry_after_sec after ∙ retry_after_sec-deficit owing short,
      ap (λ x. (take 1 x (now + s * 1000)).0) after
          ∙ take-later owing s c short
          ∙ sym (leb-div (deficit owing.tokens) k s (omega arith)),
    )
