-- ===== src/Payment/Price.antt =====
-- What an amount buys.
use tu_dns.Prelude.{
  ℕ, ◌*◌, ◌/◌, ◌%◌, ◌<◌, ◌≡◌, ap, ==_iff, arith, ◌==◌, inl, inr, Bool-cases, if◌then◌else◌,
}
use tu_dns.Prelude.Int.{pos, two63, wrap64_exact, leb_ℤ, mul64}
use tu_dns.Payment.{points_for}

-- A product that fits is not wrapped.
mul64_exact : (a b : ℕ) → a * b < two63 → mul64 (pos a) (pos b) ≡ pos (a * b)
unfolding mul64
mul64_exact a b h = wrap64_exact (pos (a * b)) (h, omega arith)

-- Both branches of `CreateOrder` give the same points.
whole_yuan : (c r : ℕ) → c % 100 ≡ 0 → c / 100 * r ≡ c * r / 100
whole_yuan c r h =
    let e : c ≡ 100 * (c / 100) = omega arith in omega (arith, ap (λ (t : ℕ). t * r) e)

at_least_rate :
    (n rate : ℕ)
    → (if leb_ℤ (pos n) (pos 0) then pos rate else pos n) ≡ pos (if n == 0 then rate else n)
at_least_rate n rate = ground arith

-- An order buys the cents times the rate, divided by 100 and rounded down, on both branches, as long
-- as the product fits an int64; where that is zero it buys the points of one yuan.
pub points_for_lem :
    (cents rate : ℕ)
    → cents * rate < two63
    → points_for (pos cents) (pos rate)
      ≡ pos (if cents * rate / 100 == 0 then rate else cents * rate / 100)
unfolding points_for
points_for_lem cents rate h = elim (Bool-cases (cents % 100 == 0)) [
  | inl whole ↦
      let same = whole_yuan cents rate ((==_iff (cents % 100) 0).0 whole) in
      rw whole (
        rw (mul64_exact (cents / 100) rate (omega (arith, same)))
          (rw same (at_least_rate (cents * rate / 100) rate)))
  | inr part ↦ rw part (rw (mul64_exact cents rate h) (at_least_rate (cents * rate / 100) rate))
]
