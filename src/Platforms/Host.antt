-- ===== src/Platforms/Host.antt =====
-- `hostToSub` in dns/providers/dnspod.go, on the full name of a subdomain.
use tu_dns.Prelude.{
  ℕ, ◌+◌, ◌≡◌, refl, ap, sym, ◌∙◌, true, false, [], ◌∷◌, ◌++◌, arith, inl, inr, Bool-cases,
  Option-cases, length, length-append,
}
use tu_dns.Text.{
  Text, Letters, text, text_eq, is_empty, to_lower, lower_rune, after_prefix, trim_suffix,
  has_suffix, has_prefix,
}
use tu_dns.Text.Laws.{text_eq_sound, has_suffix-append, trim_suffix-append}
use tu_dns.Platforms.{host_to_sub}
use mathlib.Core.List.{reverse, reverse-append, reverse-reverse, map-append}

abbrev dot : Text
dot = text "."

-- A text with no dot at its end is not trimmed.
no_trim : (s : Text) → has_suffix s dot ≡ false → trim_suffix s dot ≡ s
unfolding has_suffix trim_suffix has_prefix
no_trim s h = elim (Option-cases (after_prefix (reverse dot) (reverse s))) [
  | inl e ↦ rw (trim_suffix, e) refl
  | inr (rest, e) ↦ let w : true ≡ false = rw (has_suffix, has_prefix, e) at h in cc
]

-- Its last letter stays the last one, whatever stands before it.
last_stays :
    (a z : Text) → is_empty z ≡ false → has_suffix z dot ≡ false → has_suffix (a ++ z) dot ≡ false
unfolding has_suffix has_prefix after_prefix
last_stays a z e h = rw (reverse-append a z) (last (reverse z) refl h)
  where
    empty : z ≡ [] → ⊥
    empty k = cc

    last :
        (r : Text)
        → reverse z ≡ r
        → has_prefix r (reverse dot) ≡ false
        → has_prefix (r ++ reverse a) (reverse dot) ≡ false
    last [] k h' = elim (empty (sym (reverse-reverse z) ∙ ap reverse k)) [ ]
    last (c ∷ r) k h' = ground arith

longer : (a : ℕ) (s z : Text) → (s ++ a ∷ z ≡ z) → ⊥
longer a s z e =
    let n : length s + length (a ∷ z) ≡ length z = sym (length-append s (a ∷ z)) ∙ ap length e in
    omega arith

apart : (a : ℕ) (s z : Text) → text_eq (s ++ a ∷ z) z ≡ false
apart a s z = elim (Bool-cases (text_eq (s ++ a ∷ z) z)) [
  | inl y ↦ elim (longer a s z (text_eq_sound _ _ y)) [ ]
  | inr n ↦ n
]

-- The full name of a subdomain in lower case.
lower_full :
    (l : Letters) (s z : Text)
    → to_lower l (s ++ (dot ++ z)) ≡ to_lower l s ++ (b'.' ∷ to_lower l z)
unfolding to_lower lower_rune
lower_full l s z = map-append (lower_rune l) s (dot ++ z)

lower_stays : (l : Letters) (z : Text) → is_empty z ≡ false → is_empty (to_lower l z) ≡ false
unfolding to_lower
lower_stays l [] e = cc
lower_stays l (c ∷ z) e = refl

-- A platform is told the host of a subdomain below its zone: for the full name `sub.zone` that is
-- `sub`, in lower case, where the zone is not empty and does not end with a dot in lower case.
pub host_to_sub-append :
    (l : Letters) (s z : Text)
    → is_empty z ≡ false
    → has_suffix (to_lower l z) dot ≡ false
    → host_to_sub l (s ++ (text "." ++ z)) z ≡ to_lower l s
unfolding host_to_sub
host_to_sub-append l s z e h =
    let full : has_suffix (to_lower l s ++ b'.' ∷ to_lower l z) dot ≡ false =
      last_stays (to_lower l s) (b'.' ∷ to_lower l z) refl
        (last_stays dot (to_lower l z) (lower_stays l z e) h) in
    rw (lower_full l s z) (
      rw (no_trim (to_lower l z) h) (
        rw (no_trim (to_lower l s ++ b'.' ∷ to_lower l z) full) (
          rw (apart b'.' (to_lower l s) (to_lower l z)) (
            rw (has_suffix-append (to_lower l s) (b'.' ∷ to_lower l z))
              (trim_suffix-append (to_lower l s) (b'.' ∷ to_lower l z))))))
