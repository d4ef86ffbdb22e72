-- ===== src/Server/Params/Digits.antt =====
-- Ids as texts.
use tu_dns.Prelude.{
  ℕ, zero, suc, ◌+◌, ◌-◌, ◌*◌, ◌/◌, ◌%◌, ◌<◌, ◌≡◌, refl, ap, ◌∙◌, inl, inr, true, [], ◌∷◌, arith,
  ltb, Bool-cases,
}
use tu_dns.Prelude.Int.{two64}
use tu_dns.Text.{Text}
use tu_dns.Net.{is_digit}
use tu_dns.Server.Params.{parse_digits, parse_uint, digits_before, format_uint}

parse_digits-lt : (n : ℕ) (s : Text) → n < two64 → parse_digits n s < two64
unfolding parse_digits
parse_digits-lt n [] h = h
parse_digits-lt n (c ∷ s) h = ground (arith, parse_digits-lt (n * 10 + (c - b'0')) s)

-- The id that a handler reads of a path is a uint64, whatever the text.
pub parse_uint-lt : (s : Text) → parse_uint s < two64
unfolding parse_uint
parse_uint-lt [] = omega arith
parse_uint-lt (c ∷ s) = parse_digits-lt 0 (c ∷ s) (omega arith)

-- One digit more.
parse_step :
    (m n : ℕ) (s : Text)
    → n < two64
    → n ≡ m * 10 + n % 10
    → parse_digits m ((b'0' + n % 10) ∷ s) ≡ parse_digits n s
unfolding parse_digits
parse_step m n s h e = rw (digit (n % 10) (omega arith)) (rw (value m n e) (rw (small n h)))
  where
    digit : (r : ℕ) → r < 10 → is_digit (b'0' + r) ≡ true
    digit r k = ground arith

    value : (m n : ℕ) → n ≡ m * 10 + n % 10 → m * 10 + (b'0' + n % 10 - b'0') ≡ n
    value m n e = omega arith

    small : (n : ℕ) → n < two64 → ltb n two64 ≡ true
    small n k = ground arith

-- 10 to the power of the fuel
abbrev bound : ℕ → ℕ
bound zero = 1
bound (suc f) = 10 * bound f

parse-digits_before :
    (fuel n : ℕ) (s : Text)
    → n < bound fuel
    → n < two64
    → parse_digits 0 (digits_before fuel n s) ≡ parse_digits n s
unfolding digits_before
parse-digits_before zero n s h k = ap (λ m. parse_digits m s) (zero_of n h)
  where
    zero_of : (n : ℕ) → n < 1 → 0 ≡ n
    zero_of n h = omega arith
parse-digits_before (suc f) n s h k = elim (Bool-cases (ltb n 10)) [
  | inl last ↦ rw last (parse_step 0 n s k (ground arith))
  | inr more ↦ rw more (
      parse-digits_before f (n / 10) ((b'0' + n % 10) ∷ s) (omega arith) (omega arith)
      ∙ parse_step (n / 10) n s k (omega arith))
]

parse_uint-eq : (s : Text) → parse_uint s ≡ parse_digits 0 s
unfolding parse_uint parse_digits
parse_uint-eq [] = refl
parse_uint-eq (c ∷ s) = refl

-- What `FormatUint` prints of a uint64, `ParseUint` reads back.
pub parse_uint-format_uint : (n : ℕ) → n < two64 → parse_uint (format_uint n) ≡ n
unfolding format_uint parse_digits
parse_uint-format_uint n h =
    parse_uint-eq (digits_before 20 n []) ∙ parse-digits_before 20 n [] (omega arith) h
