-- ===== src/Tests/Limits.antt =====
-- The rate limiter: a bucket that is emptied, and a map that is full.
use fueltracks.Prelude.{ℕ, ◌≤◌, ◌≡◌, ◌*◌, ◌+◌, refl, false, leb, some, List, [], ◌∷◌, length, arith}
use fueltracks.Prelude.Int.{pos}
use fueltracks.Js.Text.{codes}
use fueltracks.Backend.RateLimit.{TokenBucket, token, token_bucket, take, retry_after_sec, refilled}
use fueltracks.Backend.RateLimit.Limits.{served, total, token_bucket-bounded, retry_after_sec-exact}
use fueltracks.Backend.RateLimit.Requests.{Request}
use fueltracks.Backend.RateLimit.Bounded.{Event, auto, timer, events, events-bounded}

abbrev three_delays : List ℕ
three_delays = 0 ∷ 10 ∷ 700 ∷ []

token_bucket-bounded_example :
    served (token_bucket 1 60 5000) 5000 three_delays * token ≤ 1 * token + total three_delays * 60
token_bucket-bounded_example = token_bucket-bounded 1 60 5000 three_delays

-- half a token, at thirty tokens a minute: one second is missing
abbrev half_bucket : TokenBucket
half_bucket = record { capacity = 30; rate = 30; tokens = pos 30000; last_refill = 5000 }

half_bucket-refuses : (take 1 half_bucket 5000).0 ≡ false
unfolding take refilled
half_bucket-refuses = refl

retry_after_sec-exact_example :
    (retry : ℕ) × (retry_after_sec (take 1 half_bucket 5000).1 ≡ pos retry)
    × ((take 1 (take 1 half_bucket 5000).1 (5000 + 1 * 1000)).0 ≡ leb retry 1)
retry_after_sec-exact_example =
    retry_after_sec-exact half_bucket 5000 1 (ground arith) (ground arith) half_bucket-refuses

abbrev read_from_home : Request
read_from_home = record {
  path = codes "/api/vehicles";
  method = codes "GET";
  user_id = some (codes "7");
  ip = codes "10.0.0.1";
}

abbrev two_events : List Event
two_events = auto 5000 read_from_home ∷ timer 9000000 ∷ []

events-bounded_example : length (events 1 [] two_events) ≤ 1
events-bounded_example = events-bounded 1 [] two_events (ground arith) (ground arith)
