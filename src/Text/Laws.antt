-- ===== src/Text/Laws.antt =====
-- Equality of texts, and what trimming and case mapping leave.
use tu_dns.Prelude.{◌≡◌, refl, ◌↔◌, true, [], ◌∷◌, ◌++◌, arith, ==_refl, some}
use mathlib.Core.List.{reverse, reverse-append, reverse-reverse}
use tu_dns.Text.{Text, text_eq, after_prefix, trim_suffix, has_suffix, has_prefix}

pub text_eq_sound : (s t : Text) → text_eq s t ≡ true → s ≡ t
text_eq_sound [] [] h = refl
text_eq_sound [] (d ∷ t) h = cc
text_eq_sound (c ∷ s) [] h = cc
text_eq_sound (c ∷ s) (d ∷ t) h = ground (arith, text_eq_sound s t)

pub text_eq_refl : (s : Text) → text_eq s s ≡ true
text_eq_refl [] = refl
text_eq_refl (c ∷ s) = ground (arith, text_eq_refl s)

pub text_eq_iff : (s t : Text) → (text_eq s t ≡ true) ↔ (s ≡ t)
text_eq_iff s t = (text_eq_sound s t, λ e. rw e (text_eq_refl t))

after_prefix-append : (p s : Text) → after_prefix p (p ++ s) ≡ some s
unfolding after_prefix
after_prefix-append [] s = refl
after_prefix-append (c ∷ p) s = rw (==_refl c) (after_prefix-append p s)

pub has_suffix-append : (s p : Text) → has_suffix (s ++ p) p ≡ true
unfolding has_suffix
has_suffix-append s p =
    rw (reverse-append s p, after_prefix-append (reverse p) (reverse s), has_prefix)

pub trim_suffix-append : (s p : Text) → trim_suffix (s ++ p) p ≡ s
unfolding trim_suffix
trim_suffix-append s p =
    rw (reverse-append s p, after_prefix-append (reverse p) (reverse s), trim_suffix)
      (reverse-reverse s)
