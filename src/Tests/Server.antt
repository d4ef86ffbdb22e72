-- ===== src/Tests/Server.antt =====
-- The limit of requests: the theorems at concrete inputs.
use tu_dns.Prelude.{◌-◌, ◌≡◌, refl, [], ◌∷◌, List, none, true, false, arith}
use tu_dns.Text.{text}
use tu_dns.RateLimiter.{
  RateLimiter, IpBucket, Event, request, round, cleanup, answers, served, requests, put,
}
use tu_dns.RateLimiter.Window.{min, served_lem}
use tu_dns.RateLimiter.Cleanup.{answers-cleanup}

abbrev bucket : IpBucket
bucket = record { count = 1; reset_at = 60; interval = 60; limit = 3 }

abbrev limiter : RateLimiter
limiter = put (text "a") bucket (record { buckets = λ ip. none; limit = 3; interval = 60 })

abbrev events : List Event
events =
    request (text "a") 10
    ∷ request (text "b") 11
    ∷ round 12
    ∷ request (text "a") 13
    ∷ request (text "a") 14
    ∷ []

served_lem_example :
    served (text "a") events limiter
    ≡ min (requests (text "a") events) (bucket.limit - bucket.count)
served_lem_example =
    served_lem (text "a") events limiter bucket refl
      (omega arith, (omega arith, (omega arith, (omega arith, (omega arith, tt)))))

answers-cleanup_example : answers events (cleanup 5 limiter) ≡ answers events limiter
answers-cleanup_example =
    answers-cleanup 5 events limiter
      (omega arith, (omega arith, (omega arith, (omega arith, (omega arith, tt)))))

-- The third request of the address in its window is refused.
answers_events : answers events limiter ≡ true ∷ true ∷ true ∷ false ∷ []
unfolding answers
answers_events = refl
