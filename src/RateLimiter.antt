-- ===== src/RateLimiter.antt =====
-- server/rate_limiter.go: a fixed window of requests for each address, and the cleanup of the windows
-- that are over. Times are nanoseconds; a request is one run of the middleware, which holds the lock
-- from its first read of the map to its last write.
pub mod Window
pub mod Cleanup
use tu_dns.Prelude.{
  ℕ, ◌+◌, Bool, true, false, ◌&&◌, List, [], ◌∷◌, Option, some, none, ltb, leb, if◌then◌else◌,
}
use tu_dns.Text.{Text, text_eq}

-- `ipBucket`
pub record IpBucket : Type 0 where
  pub count : ℕ
  pub reset_at : ℕ
  pub interval : ℕ
  pub limit : ℕ

-- `RateLimiter`; the map gives the bucket of an address, if it has one.
pub record RateLimiter : Type 0 where
  pub buckets : Text → Option IpBucket
  pub limit : ℕ
  pub interval : ℕ

-- `NewRateLimiter`, less the start of the cleanup.
unfoldable pub new_rate_limiter : ℕ → ℕ → RateLimiter
new_rate_limiter limit interval = record { buckets = λ _. none; limit = limit; interval = interval }

-- `now.After(b.resetAt)`
abbrev pub is_over : IpBucket → ℕ → Bool
is_over b now = ltb b.reset_at now

abbrev pub put : Text → IpBucket → RateLimiter → RateLimiter
put ip b rl = record rl { buckets = λ other. if text_eq other ip then some b else rl.buckets other }

abbrev pub opened : RateLimiter → ℕ → IpBucket
opened rl now = record {
  count = 1;
  reset_at = now + rl.interval;
  interval = rl.interval;
  limit = rl.limit;
}

abbrev pub counted : Text → IpBucket → RateLimiter → Bool × RateLimiter
counted ip b rl =
    if leb b.limit b.count
    then (false, rl)
    else (true, put ip (record b { count = b.count + 1 }) rl)

abbrev pub serve : Text → ℕ → Option IpBucket → RateLimiter → Bool × RateLimiter
serve ip now none rl = (true, put ip (opened rl now) rl)
serve ip now (some b) rl =
    if is_over b now then (true, put ip (opened rl now) rl) else counted ip b rl

-- `Middleware`: whether the request goes on to the next handler, and the state after it.
unfoldable pub middleware : Text → ℕ → RateLimiter → Bool × RateLimiter
middleware ip now rl = serve ip now (rl.buckets ip) rl

abbrev pub unless_over : ℕ → Option IpBucket → Option IpBucket
unless_over now none = none
unless_over now (some b) = if is_over b now then none else some b

-- One round of `cleanup`.
unfoldable pub cleanup : ℕ → RateLimiter → RateLimiter
cleanup now rl = record rl { buckets = λ ip. unless_over now (rl.buckets ip) }

-- What happens to a limiter, in the order in which the lock is taken.
pub data Event : Type 0 where
  request : Text → ℕ → Event
  round : ℕ → Event

abbrev pub time : Event → ℕ
time (request ip now) = now
time (round now) = now

-- The answers that a sequence of events gives.
unfoldable pub answers : List Event → RateLimiter → List Bool
unfolding middleware cleanup
answers [] rl = []
answers (request ip now ∷ es) rl = let r = middleware ip now rl in r.0 ∷ answers es r.1
answers (round now ∷ es) rl = answers es (cleanup now rl)

abbrev pub tally : Bool → ℕ → ℕ
tally true n = 1 + n
tally false n = n

-- How many requests of an address are served, and how many there are.
unfoldable pub served : Text → List Event → RateLimiter → ℕ
unfolding middleware cleanup
served ip [] rl = 0
served ip (request other now ∷ es) rl =
    let r = middleware other now rl in tally (text_eq ip other && r.0) (served ip es r.1)
served ip (round now ∷ es) rl = served ip es (cleanup now rl)

unfoldable pub requests : Text → List Event → ℕ
requests ip [] = 0
requests ip (request other now ∷ es) = tally (text_eq ip other) (requests ip es)
requests ip (round now ∷ es) = requests ip es
