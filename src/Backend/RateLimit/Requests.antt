-- ===== src/Backend/RateLimit/Requests.antt =====
-- The buckets of backend/middleware/rateLimit.js and its middlewares, `rateLimit` and `applyAuto`.
use fueltracks.Prelude.{
  ℕ, ◌+◌, ◌*◌, ◌||◌, Option, none, some, List, [], ◌∷◌, ◌++◌, ltb, leb, if◌then◌else◌, length,
}
use fueltracks.Prelude.Int.{ℤ}
use fueltracks.Js.Text.{Text, codes, equal}
use fueltracks.Backend.RateLimit.{TokenBucket, token_bucket, take, retry_after_sec}

-- The `Map`, its oldest key first.
abbrev pub Buckets : Type 0
Buckets = List (Text × TokenBucket)

unfoldable pub bucket_of : Text → Buckets → Option TokenBucket
bucket_of key [] = none
bucket_of key ((k, b) ∷ bs) = let later = bucket_of key bs in if equal k key then some b else later

-- `take` changes the bucket that the map holds.
unfoldable pub replace : Text → TokenBucket → Buckets → Buckets
replace key b [] = []
replace key b ((k, a) ∷ bs) =
    let rest = replace key b bs in if equal k key then (k, b) ∷ rest else (k, a) ∷ rest

unfoldable pub drop_oldest : Buckets → Buckets
drop_oldest [] = []
drop_oldest (entry ∷ bs) = bs

-- The new entry of `getBucket`, in a map that has it not.
unfoldable pub add_bucket : ℕ → Text → TokenBucket → Buckets → Buckets
add_bucket max_keys key b bs =
    (if leb max_keys (length bs) then drop_oldest bs else bs) ++ (key, b) ∷ []

unfoldable pub get_bucket : ℕ → ℕ → Text → ℕ → ℕ → Buckets → TokenBucket × Buckets
get_bucket max_keys now key capacity rate bs = elim (bucket_of key bs) [
  | some b ↦ (b, bs)
  | none ↦ let b = token_bucket capacity rate now in (b, add_bucket max_keys key b bs)
]

-- The timer that deletes the buckets of more than thirty minutes.
unfoldable pub prune : ℕ → Buckets → Buckets
prune now [] = []
prune now ((k, b) ∷ bs) =
    let rest = prune now bs in
    if ltb (b.last_refill + 30 * 60 * 1000) now then rest else (k, b) ∷ rest

-- What the middlewares read of a request.
pub record Request : Type 0 where
  pub path : Text
  pub method : Text
  pub user_id : Option Text
  pub ip : Text

-- The request is passed on, or answered with status 429 and the seconds of `Retry-After`.
pub data Outcome : Type 0 where
  next : Outcome
  too_many : ℤ → Outcome

-- `getBucket(…)` and `take(1)` of it.
unfoldable pub limited : ℕ → ℕ → Text → ℕ → ℕ → Buckets → Outcome × Buckets
limited max_keys now key capacity rate bs =
    let (b, held) = get_bucket max_keys now key capacity rate bs in
    let (ok, after) = take 1 b now in
    (if ok then next else too_many (retry_after_sec after), replace key after held)

unfoldable pub ip_key : Request → Text
ip_key req = codes "ip:" ++ req.ip

unfoldable pub user_key : Request → Option Text
user_key req = elim req.user_id [
  | none ↦ none
  | some [] ↦ none
  | some (c ∷ cs) ↦ some (codes "u:" ++ c ∷ cs)
]

-- The first key that is there: of `keyFn`, of the user, of the address.
unfoldable pub request_key : Option Text → Request → Text
request_key (some (c ∷ cs)) req = c ∷ cs
request_key _ req = elim (user_key req) [ some key ↦ key | none ↦ ip_key req ]

unfoldable pub rate_limit :
    ℕ → ℕ → ℕ → Option (Request → Text) → Text → ℕ → Request → Buckets → Outcome × Buckets
rate_limit capacity rate max_keys key_fn scope now req bs =
    if equal req.path (codes "/health") || equal req.path (codes "/metrics")
    then (next, bs)
    else limited max_keys now
        (scope
          ++ codes ":"
          ++ request_key (elim key_fn [ some f ↦ some (f req) | none ↦ none ]) req)
        capacity rate bs

-- Both limits of a read, the user's first.
unfoldable pub limit_read : ℕ → ℕ → Request → Buckets → Outcome × Buckets
limit_read max_keys now req bs =
    let by_ip : Buckets → Outcome × Buckets =
      λ held. limited max_keys now (codes "read:" ++ ip_key req) 600 600 held in
    elim (user_key req) [
      | none ↦ by_ip bs
      | some key ↦
          let (outcome, held) = limited max_keys now (codes "read:" ++ key) 100 100 bs in
          elim outcome [ next ↦ by_ip held | too_many retry ↦ (too_many retry, held) ]
    ]

unfoldable pub limit_write : ℕ → ℕ → Request → Buckets → Outcome × Buckets
limit_write max_keys now req bs = elim (user_key req) [
  | none ↦ (next, bs)
  | some key ↦ limited max_keys now (codes "write:" ++ key) 30 30 bs
]

unfoldable pub apply_auto : ℕ → ℕ → Request → Buckets → Outcome × Buckets
apply_auto max_keys now req bs =
    if equal req.method (codes "GET") || equal req.method (codes "HEAD")
    then limit_read max_keys now req bs
    else limit_write max_keys now req bs
