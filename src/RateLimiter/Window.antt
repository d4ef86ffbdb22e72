-- ===== src/RateLimiter/Window.antt =====
-- How many requests a window lets through.
use tu_dns.Prelude.{
  ℕ, ◌+◌, ◌-◌, ◌≤◌, ◌≡◌, refl, ap, ◌∙◌, Bool, true, false, List, [], ◌∷◌, Option, some, none, inl,
  inr, arith, All, leb, Bool-cases, if◌then◌else◌,
}
use tu_dns.Text.{Text, text_eq}
use tu_dns.Text.Laws.{text_eq_sound, text_eq_refl}
use mathlib.Core.Path.{subst}
use tu_dns.RateLimiter.{
  IpBucket, RateLimiter, Event, request, round, time, middleware, cleanup, served, requests, put,
  opened, counted, serve, tally, is_over,
}

abbrev pub min : ℕ → ℕ → ℕ
min a b = if leb a b then a else b

not_over : (b : IpBucket) (now : ℕ) → now ≤ b.reset_at → is_over b now ≡ false
not_over b now h = ground arith

-- A request of another address leaves the bucket.
middleware-other :
    (ip other : Text) (now : ℕ) (rl : RateLimiter)
    → text_eq ip other ≡ false
    → (middleware other now rl).1.buckets ip ≡ rl.buckets ip
unfolding middleware
middleware-other ip other now rl differs = go (rl.buckets other)
  where
    go : (o : Option IpBucket) → (serve other now o rl).1.buckets ip ≡ rl.buckets ip
    go none = rw differs refl
    go (some b) =
        elim (is_over b now)
          as (λ c.
            (if◌then◌else◌ {A = Bool × RateLimiter} c (true, put other (opened rl now) rl)
                (counted other b rl)).1.buckets
              ip
            ≡ rl.buckets ip) [
              | true ↦ rw differs refl
              | false ↦
                  elim (leb b.limit b.count)
                    as (λ c.
                      (if◌then◌else◌ {A = Bool × RateLimiter} c (false, rl)
                          (true, put other (record b { count = b.count + 1 }) rl)).1.buckets
                        ip
                      ≡ rl.buckets ip) [ true ↦ refl | false ↦ rw differs refl ]
            ]

-- A request of the address in the window: it is served where the limit is not reached.
middleware-own :
    (ip : Text) (now : ℕ) (rl : RateLimiter) (b : IpBucket)
    → rl.buckets ip ≡ some b
    → now ≤ b.reset_at
    → middleware ip now rl ≡ counted ip b rl
unfolding middleware
middleware-own ip now rl b has in_time = rw has (rw (not_over b now in_time) refl)

cleanup-own :
    (ip : Text) (now : ℕ) (rl : RateLimiter) (b : IpBucket)
    → rl.buckets ip ≡ some b
    → now ≤ b.reset_at
    → (cleanup now rl).buckets ip ≡ some b
unfolding cleanup
cleanup-own ip now rl b has in_time = rw has (rw (not_over b now in_time) refl)

abbrev one_more : IpBucket → IpBucket
one_more b = record b { count = b.count + 1 }

-- The step for a request of the address, from the two states that it may leave.
served-own :
    (ip : Text) (es : List Event) (rl : RateLimiter) (b : IpBucket) (now : ℕ)
    → rl.buckets ip ≡ some b
    → now ≤ b.reset_at
    → served ip es rl ≡ min (requests ip es) (b.limit - b.count)
    → served ip es (put ip (one_more b) rl) ≡ min (requests ip es) (b.limit - (b.count + 1))
    → served ip (request ip now ∷ es) rl
      ≡ min (requests ip (request ip now ∷ es)) (b.limit - b.count)
unfolding served requests
served-own ip es rl b now has in_time stay more =
    rw (text_eq_refl ip, middleware-own ip now rl b has in_time) (go (leb b.limit b.count) refl)
  where
    go :
        (full : Bool)
        → leb b.limit b.count ≡ full
        → tally
            (if◌then◌else◌ {A = Bool × RateLimiter} full
              (false, rl)
              (true, put ip (one_more b) rl)).0
            (served ip es
              (if◌then◌else◌ {A = Bool × RateLimiter} full
                (false, rl)
                (true, put ip (one_more b) rl)).1)
          ≡ min (1 + requests ip es) (b.limit - b.count)
    go true full = stay ∙ none_left (requests ip es)
      where
        none_left : (n : ℕ) → min n (b.limit - b.count) ≡ min (1 + n) (b.limit - b.count)
        none_left n = ground arith
    go false full = ap (λ n. 1 + n) more ∙ one_less (requests ip es)
      where
        one_less : (n : ℕ) → 1 + min n (b.limit - (b.count + 1)) ≡ min (1 + n) (b.limit - b.count)
        one_less n = ground arith

-- In a window of an address, its requests are served until the limit is reached and no longer: as
-- many of them are served as there are, or as the bucket has left, whichever is less, whatever other
-- addresses do and however often the cleanup runs.
pub served_lem :
    (ip : Text) (es : List Event) (rl : RateLimiter) (b : IpBucket)
    → rl.buckets ip ≡ some b
    → All (λ e. time e ≤ b.reset_at) es
    → served ip es rl ≡ min (requests ip es) (b.limit - b.count)
unfolding served requests
served_lem ip [] rl b has in_time = none_asked (b.limit - b.count)
  where
    none_asked : (n : ℕ) → 0 ≡ min 0 n
    none_asked n = ground arith
served_lem ip (request other now ∷ es) rl b has in_time = elim (Bool-cases (text_eq ip other)) [
  | inr differs ↦ rw differs (
      served_lem ip es (middleware other now rl).1 b
        (middleware-other ip other now rl differs ∙ has) in_time.1)
  | inl same ↦
      subst
        (λ o.
          served ip (request o now ∷ es) rl
          ≡ min (requests ip (request o now ∷ es)) (b.limit - b.count))
        (text_eq_sound ip other same)
        (served-own ip es rl b now has in_time.0 (served_lem ip es rl b has in_time.1) (
          served_lem ip es (put ip (one_more b) rl) (one_more b) (rw (text_eq_refl ip) refl)
            in_time.1))
]
served_lem ip (round now ∷ es) rl b has in_time =
    served_lem ip es (cleanup now rl) b (cleanup-own ip now rl b has in_time.0) in_time.1
