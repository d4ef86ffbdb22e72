-- ===== src/Platforms/ZoneIds.antt =====
-- The ids of the zones in dns/providers/volcengine.go: printed by `ListZones`, read by
-- `CreateRecord`.
use tu_dns.Prelude.{
  ℕ, zero, suc, ◌+◌, ◌/◌, ◌%◌, ◌<◌, ◌≡◌, refl, true, false, not, List, [], ◌∷◌, any, All, Option,
  none, some, ap, inl, inr, Bool-cases, ltb, ◌==◌, arith,
}
use tu_dns.Prelude.Int.{ℤ, pos, negsuc, neg_ℤ, IsInt64, two63}
use mathlib.Core.Path.{subst}
use tu_dns.Text.{Text, Letters, text, trim_suffix, to_upper}
use tu_dns.Result.{ok, ok-injective, no_record_id, err}
use tu_dns.Dns.{Zone, RecordInput}
use tu_dns.Net.{is_digit}
use tu_dns.Server.Params.{parse_uint, digits_before, format_uint}
use tu_dns.Server.Params.Digits.{parse_uint-format_uint}
use tu_dns.Platforms.{itoa, host_to_sub, normalized_ttl, echo, ◌>>=◌}
use tu_dns.Platforms.Volcengine.{
  VolcZone, VolcClient, parse_zone, present, line_field, named_zones, list_zones, create_record,
}

-- A text that starts with a digit and has no other letters.
abbrev IsNumeral : Text → Type 0
IsNumeral [] = ⊥
IsNumeral (c ∷ s) = (is_digit c ≡ true) × (any (λ d. not (is_digit d)) s ≡ false)

digit : (n : ℕ) → is_digit (b'0' + n % 10) ≡ true
digit n = ground arith

digits_before-IsNumeral :
    (fuel n : ℕ) (s : Text)
    → any (λ d. not (is_digit d)) s ≡ false
    → IsNumeral (digits_before (suc fuel) n s)
unfolding digits_before
digits_before-IsNumeral zero n s h = elim (Bool-cases (ltb n 10)) [
  | inl y ↦ rw y (digit n, h)
  | inr more ↦ rw more (digit n, h)
]
digits_before-IsNumeral (suc f) n s h = elim (Bool-cases (ltb n 10)) [
  | inl y ↦ rw y (digit n, h)
  | inr more ↦ rw more (digits_before-IsNumeral f (n / 10) _ (rw (digit n) h))
]

not_minus : (c : ℕ) → is_digit c ≡ true → (c == b'-') ≡ false
not_minus c h = ground arith

not_plus : (c : ℕ) → is_digit c ≡ true → (c == b'+') ≡ false
not_plus c h = ground arith

small : (n limit : ℕ) → n < limit → ltb n limit ≡ true
small n limit h = ground arith

parse-unsigned :
    (n : ℕ) (s : Text) → IsNumeral s → parse_uint s ≡ n → n < two63 → parse_zone s ≡ ok (pos n)
unfolding parse_zone
parse-unsigned n [] h e b = elim h [ ]
parse-unsigned n (c ∷ s) h e b =
    rw (not_minus c h.0)
      (rw (not_plus c h.0) (rw (h.0) (rw (h.1) (rw e (rw (small n two63 b) refl)))))

neg_suc : (n : ℕ) → neg_ℤ (pos (n + 1)) ≡ negsuc n
unfolding neg_ℤ
neg_suc n = ground arith

parse-minus :
    (n : ℕ) (s : Text)
    → IsNumeral s
    → parse_uint s ≡ n + 1
    → n < two63
    → parse_zone (b'-' ∷ s) ≡ ok (negsuc n)
unfolding parse_zone
parse-minus n [] h e b = elim h [ ]
parse-minus n (c ∷ s) h e b =
    rw (h.0) (rw (h.1) (rw e (rw (small (n + 1) (two63 + 1) (omega arith)) (ap ok (neg_suc n)))))

numeral : (n : ℕ) → IsNumeral (format_uint n)
unfolding format_uint
numeral n = digits_before-IsNumeral 19 n [] refl

-- An int64 that is printed is read back.
pub parse_zone-itoa : (k : ℤ) → IsInt64 k → parse_zone (itoa k) ≡ ok k
unfolding itoa
parse_zone-itoa (pos n) h =
    parse-unsigned n (format_uint n) (numeral n) (parse_uint-format_uint n (omega arith))
      (omega arith)
parse_zone-itoa (negsuc n) h =
    parse-minus n (format_uint (n + 1)) (numeral (n + 1))
      (parse_uint-format_uint (n + 1) (omega arith)) (omega arith)

-- What a zone of the SDK may hold for its number.
abbrev pub IsNumber : Option ℤ → Type 0
IsNumber none = Unit
IsNumber (some n) = IsInt64 n

-- A property of each zone of the SDK that has a number and a name, with the zone that stands for it in
-- a list, in the same order and with no other zones in the list.
module _ (P : ℤ → Text → Zone → Type 0) where
  abbrev pub ListedAs : Option ℤ → Option Text → (List Zone → Type 0) → List Zone → Type 0
  ListedAs none name rest zs = rest zs
  ListedAs (some n) none rest zs = rest zs
  ListedAs (some n) (some name) rest [] = ⊥
  ListedAs (some n) (some name) rest (z ∷ zs) = P n name z × rest zs

  abbrev pub AreListed : List VolcZone → List Zone → Type 0
  AreListed [] zs = zs ≡ []
  AreListed (v ∷ vs) zs = ListedAs v.zid v.zone_name (AreListed vs) zs

module _ (l : Letters) (c : VolcClient) (m : ℕ) (i : RecordInput) where
  -- The zone has the name, less a dot at its end, and a record in it is asked for under the number.
  abbrev pub IsAskedUnder : ℤ → Text → Zone → Type 0
  IsAskedUnder n name z =
      (z.domain ≡ trim_suffix name (text "."))
      × (create_record l (some c) m z i ≡ (
          c.create_record m (record {
            zid = n;
            host = host_to_sub l i.name z.domain;
            type = to_upper l i.type;
            value = i.value;
            ttl = normalized_ttl i.ttl;
            line = line_field i.line;
          })
          >>= (λ created. present (err no_record_id) created (λ id. ok (echo l id i i.line)))))

  asked_under :
      (n : ℤ) (name : Text)
      → IsInt64 n
      → IsAskedUnder n name (record { id = itoa n; domain = trim_suffix name (text ".") })
  unfolding create_record
  asked_under n name h = (refl, rw (parse_zone-itoa n h) refl)

  listed :
      (vs : List VolcZone)
      → All (λ v. IsNumber v.zid) vs
      → AreListed IsAskedUnder vs (named_zones l (some c) vs)
  listed [] h = refl
  listed (v ∷ vs) h = go (listed vs h.1) v.zid v.zone_name h.0
    where
      rest : List Zone
      rest = named_zones l (some c) vs

      go :
          AreListed IsAskedUnder vs rest
          → (zid : Option ℤ) (name : Option Text) → IsNumber zid
          → ListedAs IsAskedUnder zid name
              (AreListed IsAskedUnder vs)
              (named_zones l (some c) (record { zid = zid; zone_name = name } ∷ vs))
      go others none name k = others
      go others (some n) none k = others
      go others (some n) (some name) k = (asked_under n name k, others)

  -- The zones that `ListZones` returns are those of the SDK that have a number and a name, in their
  -- order; and where `CreateRecord` is called with one of them, it asks for the record under that
  -- zone's number, which it reads from the id. The numbers are int64s.
  pub create_record-list_zones :
      (m' : ℕ) (vs : List VolcZone) (zs : List Zone)
      → All (λ v. IsNumber v.zid) vs
      → c.list_zones m' 100 ≡ ok vs
      → list_zones l (some c) m' ≡ ok zs
      → AreListed IsAskedUnder vs zs
  unfolding list_zones
  create_record-list_zones m' vs zs h found e =
      subst (AreListed IsAskedUnder vs)
        (ok-injective (named_zones l (some c) vs) zs (rw found at e)) (listed vs h)
