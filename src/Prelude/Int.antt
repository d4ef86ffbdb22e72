-- ===== src/Prelude/Int.antt =====
-- Signed integers over the native numbers, and their 64-bit wrap-around (Go's int64 and int).
use Prim.Native.Nat.{◌*◌, ℕ, suc, ◌+◌, ◌-◌, ◌%◌, ◌≤◌, ◌<◌}
use mathlib.Core.Path.{◌≡◌}
use mathlib.Core.Bool.{Bool, true}
use native.Mathlib.Omega.{arith}
use tu_dns.Prelude.Tests.{ltb, leb, ◌==◌, if◌then◌else◌}

-- `negsuc n` is -(n + 1).
pub data ℤ : Type 0 where
  pos : ℕ → ℤ
  negsuc : ℕ → ℤ

abbrev pub pos_part : ℤ → ℕ
pos_part (pos n) = n
pos_part (negsuc n) = 0

abbrev pub neg_part : ℤ → ℕ
neg_part (pos n) = 0
neg_part (negsuc n) = suc n

-- a - b, as an integer.
abbrev pub sub_ℕ : ℕ → ℕ → ℤ
sub_ℕ a b = if leb b a then pos (a - b) else negsuc (b - a - 1)

infixl 65 ◌+ℤ◌
infix 50 ◌≤ℤ◌
unfoldable pub ◌+ℤ◌ : ℤ → ℤ → ℤ
a +ℤ b = sub_ℕ (pos_part a + pos_part b) (neg_part a + neg_part b)

unfoldable pub neg_ℤ : ℤ → ℤ
neg_ℤ a = sub_ℕ (neg_part a) (pos_part a)

abbrev pub ◌≤ℤ◌ : ℤ → ℤ → Type 0
a ≤ℤ b = pos_part a + neg_part b ≤ pos_part b + neg_part a

abbrev pub ltb_ℤ : ℤ → ℤ → Bool
ltb_ℤ a b = ltb (pos_part a + neg_part b) (pos_part b + neg_part a)

abbrev pub leb_ℤ : ℤ → ℤ → Bool
leb_ℤ a b = leb (pos_part a + neg_part b) (pos_part b + neg_part a)

abbrev pub eq_ℤ : ℤ → ℤ → Bool
eq_ℤ a b = pos_part a + neg_part b == pos_part b + neg_part a

-- With these the operations can stay shut.
pub +ℤ_parts :
    (a b : ℤ)
    → pos_part (a +ℤ b) + neg_part a + neg_part b ≡ neg_part (a +ℤ b) + pos_part a + pos_part b
unfolding ◌+ℤ◌
+ℤ_parts a b = ground arith

pub neg_ℤ_parts : (a : ℤ) → pos_part (neg_ℤ a) + pos_part a ≡ neg_part (neg_ℤ a) + neg_part a
unfolding neg_ℤ
neg_ℤ_parts a = ground arith

pub eq_of_parts : (a b : ℤ) → pos_part a + neg_part b ≡ pos_part b + neg_part a → a ≡ b
eq_of_parts a b h = ground arith

pub ruleset int_laws = (arith, +ℤ_parts, neg_ℤ_parts, eq_of_parts)

pub eq_ℤ_sound : (a b : ℤ) → eq_ℤ a b ≡ true → a ≡ b
eq_ℤ_sound a b h = ground arith

abbrev pub two63 : ℕ
two63 = 0x8000000000000000

abbrev pub two64 : ℕ
two64 = 0x10000000000000000

-- The 64-bit two's complement value of an integer.
unfoldable pub wrap64 : ℤ → ℤ
wrap64 (pos n) = let r = n % two64 in if ltb r two63 then pos r else negsuc (two64 - 1 - r)
wrap64 (negsuc n) = let r = n % two64 in if ltb r two63 then negsuc r else pos (two64 - 1 - r)

-- What an int64 can hold.
abbrev pub IsInt64 : ℤ → Type 0
IsInt64 a = (pos_part a < two63) × (neg_part a ≤ two63)

unfoldable pub add64 : ℤ → ℤ → ℤ
unfolding wrap64 ◌+ℤ◌
add64 a b = wrap64 (a +ℤ b)

pub wrap64-IsInt64 : (a : ℤ) → IsInt64 (wrap64 a)
unfolding wrap64
wrap64-IsInt64 (pos n) = ground arith
wrap64-IsInt64 (negsuc n) = ground arith

pub wrap64_exact : (a : ℤ) → IsInt64 a → wrap64 a ≡ a
unfolding wrap64
wrap64_exact (pos n) h = ground arith
wrap64_exact (negsuc n) h = ground arith

-- A sum with a non-negative operand that comes out non-negative did not wrap.
pub add64_exact :
    (a b : ℤ) → pos 0 ≤ℤ a → IsInt64 a → IsInt64 b → pos 0 ≤ℤ add64 a b → add64 a b ≡ a +ℤ b
unfolding add64
add64_exact (pos a) (pos b) ha ia ib h = ground arith
add64_exact (pos a) (negsuc b) ha ia ib h = ground arith
add64_exact (negsuc a) b ha ia ib h = absurd (omega arith)

pub add64-IsInt64 : (a b : ℤ) → IsInt64 (add64 a b)
unfolding add64
add64-IsInt64 a b = wrap64-IsInt64 (a +ℤ b)

unfoldable pub mul64 : ℤ → ℤ → ℤ
unfolding wrap64
mul64 (pos a) (pos b) = wrap64 (pos (a * b))
mul64 (pos a) (negsuc b) = wrap64 (neg_ℤ (pos (a * (b + 1))))
mul64 (negsuc a) (pos b) = wrap64 (neg_ℤ (pos ((a + 1) * b)))
mul64 (negsuc a) (negsuc b) = wrap64 (pos ((a + 1) * (b + 1)))

pub mul64-IsInt64 : (a b : ℤ) → IsInt64 (mul64 a b)
unfolding mul64
mul64-IsInt64 (pos a) (pos b) = search wrap64-IsInt64
mul64-IsInt64 (pos a) (negsuc b) = search wrap64-IsInt64
mul64-IsInt64 (negsuc a) (pos b) = search wrap64-IsInt64
mul64-IsInt64 (negsuc a) (negsuc b) = search wrap64-IsInt64
