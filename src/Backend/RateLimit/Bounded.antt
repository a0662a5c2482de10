-- ===== src/Backend/RateLimit/Bounded.antt =====
-- How many buckets backend/middleware/rateLimit.js keeps.
use fueltracks.Prelude.{
  ℕ, ◌≤◌, ◌≡◌, refl, Option, none, some, List, [], ◌∷◌, ◌++◌, length, length-append, arith,
}
use fueltracks.Js.Text.{Text, codes}
use fueltracks.Backend.RateLimit.{TokenBucket, take, token_bucket}
use fueltracks.Backend.RateLimit.Requests.{
  Buckets, replace, drop_oldest, add_bucket, get_bucket, prune, Request, limited, limit_read,
  limit_write, apply_auto, rate_limit, request_key,
}

length-replace :
    (key : Text) (b : TokenBucket) (bs : Buckets) → length (replace key b bs) ≡ length bs
unfolding replace
length-replace key b [] = refl
length-replace key b ((k, a) ∷ bs) = ground (arith, length-replace key b bs)

length-add_bucket :
    (max_keys : ℕ) (key : Text) (b : TokenBucket) (bs : Buckets)
    → 1 ≤ max_keys
    → length bs ≤ max_keys
    → length (add_bucket max_keys key b bs) ≤ max_keys
unfolding add_bucket drop_oldest
length-add_bucket max_keys key b [] one h =
    ground (arith, length-append {A = Text × TokenBucket} [] ((key, b) ∷ []))
length-add_bucket max_keys key b (entry ∷ bs) one h =
    ground (arith, length-append bs ((key, b) ∷ []), length-append (entry ∷ bs) ((key, b) ∷ []))

length-prune : (now : ℕ) (bs : Buckets) → length (prune now bs) ≤ length bs
unfolding prune
length-prune now [] = ground arith
length-prune now ((k, b) ∷ bs) = ground (arith, length-prune now bs)

length-get_bucket :
    (max_keys now : ℕ) (key : Text) (capacity rate : ℕ) (bs : Buckets)
    → 1 ≤ max_keys
    → length bs ≤ max_keys
    → length (get_bucket max_keys now key capacity rate bs).1 ≤ max_keys
unfolding get_bucket
length-get_bucket max_keys now key capacity rate bs one h =
    ground (arith, length-add_bucket max_keys key (token_bucket capacity rate now) bs one h)

length-limited :
    (max_keys now : ℕ) (key : Text) (capacity rate : ℕ) (bs : Buckets)
    → 1 ≤ max_keys
    → length bs ≤ max_keys
    → length (limited max_keys now key capacity rate bs).1 ≤ max_keys
unfolding limited
length-limited max_keys now key capacity rate bs one h =
    let (b, held) = get_bucket max_keys now key capacity rate bs in
    rw (length-replace key (take 1 b now).1 held)
      (length-get_bucket max_keys now key capacity rate bs one h)

length-limit_read :
    (max_keys now : ℕ) (req : Request) (bs : Buckets)
    → 1 ≤ max_keys
    → length bs ≤ max_keys
    → length (limit_read max_keys now req bs).1 ≤ max_keys
unfolding limit_read
length-limit_read max_keys now req bs one h =
    let kept : (key : Text) (capacity : ℕ) (held : Buckets)
        → length held ≤ max_keys
        → length (limited max_keys now (codes "read:" ++ key) capacity capacity held).1 ≤ max_keys =
      λ key capacity held within.
        length-limited max_keys now (codes "read:" ++ key) capacity capacity held one within in
    grind (arith, kept)

length-limit_write :
    (max_keys now : ℕ) (req : Request) (bs : Buckets)
    → 1 ≤ max_keys
    → length bs ≤ max_keys
    → length (limit_write max_keys now req bs).1 ≤ max_keys
unfolding limit_write
length-limit_write max_keys now req bs one h =
    let kept : (key : Text)
        → length (limited max_keys now (codes "write:" ++ key) 30 30 bs).1 ≤ max_keys =
      λ key. length-limited max_keys now (codes "write:" ++ key) 30 30 bs one h in
    grind (arith, kept)

-- What happens to the map: a request at a time, one that a `rateLimit` of its own guards, the timer.
pub data Event : Type 0 where
  auto : ℕ → Request → Event
  guarded : ℕ → ℕ → Option (Request → Text) → Text → ℕ → Request → Event
  timer : ℕ → Event

abbrev happen : ℕ → Buckets → Event → Buckets
happen max_keys bs (auto now req) = (apply_auto max_keys now req bs).1
happen max_keys bs (guarded capacity rate key_fn scope now req) =
    (rate_limit capacity rate max_keys key_fn scope now req bs).1
happen max_keys bs (timer now) = prune now bs

abbrev pub events : ℕ → Buckets → List Event → Buckets
events max_keys bs [] = bs
events max_keys bs (e ∷ es) = events max_keys (happen max_keys bs e) es

length-happen :
    (max_keys : ℕ) (bs : Buckets) (e : Event)
    → 1 ≤ max_keys
    → length bs ≤ max_keys
    → length (happen max_keys bs e) ≤ max_keys
unfolding apply_auto rate_limit
length-happen max_keys bs (auto now req) one h = ground (
  arith,
  length-limit_read max_keys now req bs one h,
  length-limit_write max_keys now req bs one h,
)
length-happen max_keys bs (guarded capacity rate key_fn scope now req) one h =
    let key =
      scope ++ codes ":" ++ request_key (elim key_fn [ some f ↦ some (f req) | none ↦ none ]) req in
    ground (arith, length-limited max_keys now key capacity rate bs one h)
length-happen max_keys bs (timer now) one h = ground (arith, length-prune now bs)

-- With a `MAX_KEYS` of at least 1, whatever requests come, from whatever users and addresses, and
-- whenever the timer fires: the map never holds more buckets than `MAX_KEYS`, if it did not before.
pub events-bounded :
    (max_keys : ℕ) (bs : Buckets) (es : List Event)
    → 1 ≤ max_keys
    → length bs ≤ max_keys
    → length (events max_keys bs es) ≤ max_keys
events-bounded max_keys bs [] one h = h
events-bounded max_keys bs (e ∷ es) one h =
    events-bounded max_keys (happen max_keys bs e) es one (length-happen max_keys bs e one h)
