-- ===== src/Server/Params.antt =====
-- `strconv.ParseUint(s, 10, 64)`, `strconv.Atoi` and `strconv.FormatUint(n, 10)` as the handlers use
-- them: an error of the first two is dropped, and what they return with it is used.
pub mod Digits
use tu_dns.Prelude.{
  ℕ, zero, suc, ◌+◌, ◌-◌, ◌*◌, ◌/◌, ◌%◌, Bool, true, false, List, [], ◌∷◌, Option, none, some, ltb,
  ◌==◌, if◌then◌else◌,
}
use tu_dns.Prelude.Int.{ℤ, pos, neg_ℤ, two63, two64}
use tu_dns.Text.{Text, text}
use tu_dns.Net.{is_digit}

-- The loop over the digits, from the value so far: a syntax error gives 0, a value that is out of
-- range the largest one.
unfoldable pub parse_digits : ℕ → Text → ℕ
parse_digits n [] = n
parse_digits n (c ∷ s) =
    let n' = n * 10 + (c - b'0') in
    let rest = parse_digits n' s in
    if is_digit c then (if ltb n' two64 then rest else two64 - 1) else 0

unfoldable pub parse_uint : Text → ℕ
unfolding parse_digits
parse_uint [] = 0
parse_uint (c ∷ s) = parse_digits 0 (c ∷ s)

abbrev unsigned_part : Text → ℤ
unsigned_part s = let n = parse_uint s in if ltb n two63 then pos n else pos (two63 - 1)

abbrev negative_part : Text → ℤ
negative_part s = let n = parse_uint s in neg_ℤ (pos (if ltb two63 n then two63 else n))

unfoldable pub atoi : Text → ℤ
unfolding parse_uint
atoi [] = pos 0
atoi (c ∷ s) =
    if c == b'-'
    then negative_part s
    else if c == b'+'
    then unsigned_part s
    else unsigned_part (c ∷ s)

-- `page, _ := strconv.Atoi(c.DefaultQuery("page", "1"))`
unfoldable pub page_of : Option Text → ℤ
unfolding atoi
page_of none = pos 1
page_of (some s) = atoi s

-- The digits of a number in front of a text; a uint64 has at most 20.
unfoldable pub digits_before : ℕ → ℕ → Text → Text
digits_before zero n s = s
digits_before (suc fuel) n s =
    let front = b'0' + n % 10 in
    let rest = digits_before fuel (n / 10) (front ∷ s) in if ltb n 10 then front ∷ s else rest

unfoldable pub format_uint : ℕ → Text
unfolding digits_before
format_uint n = digits_before 20 n []
