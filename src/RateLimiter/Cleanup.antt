-- ===== src/RateLimiter/Cleanup.antt =====
-- The answers of a limiter with and without a round of the cleanup.
use tu_dns.Prelude.{
  ℕ, ◌≤◌, ◌≡◌, refl, ap, true, List, [], ◌∷◌, Option, some, none, ◌⊎◌, inl, inr, arith, All, leb,
  Bool-cases,
}
use tu_dns.Text.{Text, text_eq}
use mathlib.Core.Path.{subst}
use tu_dns.RateLimiter.{
  IpBucket, RateLimiter, Event, request, round, time, middleware, cleanup, answers, put, serve,
  opened, is_over, unless_over,
}

-- The first limiter has the buckets of the second, less some that are over at the time.
abbrev IsCleaned : ℕ → Option IpBucket → Option IpBucket → Type 0
IsCleaned now o o' =
    (o ≡ o') ⊎ ((o ≡ none) × ((b : IpBucket) × ((o' ≡ some b) × (is_over b now ≡ true))))

abbrev AreAlike : ℕ → RateLimiter → RateLimiter → Type 0
AreAlike now a b =
    (a.limit ≡ b.limit)
    × ((a.interval ≡ b.interval) × ((ip : Text) → IsCleaned now (a.buckets ip) (b.buckets ip)))

over_later :
    (b : IpBucket) (now later : ℕ) → now ≤ later → is_over b now ≡ true → is_over b later ≡ true
over_later b now later h e = ground arith

module _ (now : ℕ) where
  cleanup-IsCleaned : (o : Option IpBucket) → IsCleaned now (unless_over now o) o
  cleanup-IsCleaned none = inl refl
  cleanup-IsCleaned (some b) = elim (Bool-cases (is_over b now)) [
    | inl late ↦ inr (rw late refl, (b, (refl, late)))
    | inr early ↦ inl (rw early refl)
  ]

  put-AreAlike :
      (a b : RateLimiter) (ip : Text) (x y : IpBucket)
      → x ≡ y
      → AreAlike now a b
      → AreAlike now (put ip x a) (put ip y b)
  put-AreAlike a b ip x y same alike = (alike.0, (alike.1.0, each))
    where
      each :
          (other : Text) → IsCleaned now ((put ip x a).buckets other) ((put ip y b).buckets other)
      each other = elim (Bool-cases (text_eq other ip)) [
        | inl own ↦ rw own (inl (ap some same))
        | inr differs ↦ rw differs (alike.1.1 other)
      ]

  opened-same : (a b : RateLimiter) (t : ℕ) → AreAlike now a b → opened a t ≡ opened b t
  opened-same a b t alike = cc (alike.0, alike.1.0)

  serve-AreAlike :
      (ip : Text) (t : ℕ) (a b : RateLimiter) (o o' : Option IpBucket)
      → now ≤ t
      → AreAlike now a b
      → IsCleaned now o o'
      → ((serve ip t o a).0 ≡ (serve ip t o' b).0)
        × AreAlike now (serve ip t o a).1 (serve ip t o' b).1
  serve-AreAlike ip t a b o o' later alike (inl same) =
      subst
        (λ o'.
          ((serve ip t o a).0 ≡ (serve ip t o' b).0)
          × AreAlike now (serve ip t o a).1 (serve ip t o' b).1)
        same (same_bucket o)
    where
      same_bucket :
          (o : Option IpBucket)
          → ((serve ip t o a).0 ≡ (serve ip t o b).0)
            × AreAlike now (serve ip t o a).1 (serve ip t o b).1
      same_bucket none = (refl, put-AreAlike a b ip _ _ (opened-same a b t alike) alike)
      same_bucket (some x) = elim (Bool-cases (is_over x t)) [
        | inl late ↦ rw late (refl, put-AreAlike a b ip _ _ (opened-same a b t alike) alike)
        | inr early ↦ rw early (elim (Bool-cases (leb x.limit x.count)) [
          | inl full ↦ rw full (refl, alike)
          | inr left ↦ rw left (refl, put-AreAlike a b ip _ _ refl alike)
        ])
      ]
  serve-AreAlike ip t a b o o' later alike (inr (gone, (old, (there, late)))) = rw gone (
      rw there (
        rw (over_later old now t later late)
          (refl, put-AreAlike a b ip _ _ (opened-same a b t alike) alike)))

  cleanup-AreAlike :
      (a b : RateLimiter) (t : ℕ) → AreAlike now a b → AreAlike now (cleanup t a) (cleanup t b)
  unfolding cleanup
  cleanup-AreAlike a b t alike =
      (alike.0, (alike.1.0, λ ip. each (a.buckets ip) (b.buckets ip) (alike.1.1 ip)))
    where
      each :
          (o o' : Option IpBucket)
          → IsCleaned now o o'
          → IsCleaned now (unless_over t o) (unless_over t o')
      each o o' (inl same) = inl (ap (unless_over t) same)
      each o o' (inr (gone, (x, (there, late)))) = rw gone (
          rw there (elim (Bool-cases (is_over x t)) [
            | inl late' ↦ rw late' (inl refl)
            | inr early ↦ rw early (inr (refl, (x, (refl, late))))
          ]))

  answers-AreAlike :
      (es : List Event) (a b : RateLimiter)
      → All (λ e. now ≤ time e) es
      → AreAlike now a b
      → answers es a ≡ answers es b
  unfolding answers middleware
  answers-AreAlike [] a b later alike = refl
  answers-AreAlike (request ip t ∷ es) a b later alike =
      let s = serve-AreAlike ip t a b (a.buckets ip) (b.buckets ip) later.0 alike (alike.1.1 ip) in
      cc (
        s.0,
        answers-AreAlike es (serve ip t (a.buckets ip) a).1 (serve ip t (b.buckets ip) b).1 later.1
            s.1,
      )
  answers-AreAlike (round t ∷ es) a b later alike =
      answers-AreAlike es (cleanup t a) (cleanup t b) later.1 (cleanup-AreAlike a b t alike)

  -- A round of the cleanup changes no later answer: whatever requests and rounds come at or after its
  -- time, they are answered as if it had not run.
  pub answers-cleanup :
      (es : List Event) (rl : RateLimiter)
      → All (λ e. now ≤ time e) es
      → answers es (cleanup now rl) ≡ answers es rl
  unfolding cleanup
  answers-cleanup es rl later =
      answers-AreAlike es (cleanup now rl) rl later
        (refl, (refl, λ ip. cleanup-IsCleaned (rl.buckets ip)))
