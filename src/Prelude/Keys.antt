-- ===== src/Prelude/Keys.antt =====
-- Lists in which no two elements have one key.
use Prim.Native.Nat.{ℕ}
use mathlib.Core.Path.{◌≡◌, refl, ap, ◌∙◌}
use mathlib.Core.Logic.{inl, inr}
use mathlib.Core.Bool.{Bool, true, false}
use mathlib.Core.List.{List, [], ◌∷◌, ◌++◌}
use mathlib.Core.Option.{some, some-injective}
use native.Mathlib.Omega.{arith}
use tu_dns.Prelude.Tests.{if◌then◌else◌, ◌==◌, Bool-cases, ==_iff}
use tu_dns.Prelude.Lists.{any, All, find?, map_where, any-map_where, any-append, All-map, All-find?}

apart_lem : (i j k : ℕ) → (i == j) ≡ false → j ≡ k → (i == k) ≡ true → ⊥
apart_lem i j k h e t = ground arith

clash {ℓ} : {A : Type ℓ} {a b : A} (i j k : ℕ) → (i == j) ≡ false → j ≡ k → (i == k) ≡ true → a ≡ b
clash i j k h e t = absurd (apart_lem i j k h e t)

==_swap : (i j : ℕ) → (i == j) ≡ true → (j == i) ≡ true
==_swap i j h = ground arith

module _ {ℓ} {A : Type ℓ} (key : A → ℕ) where
  abbrev pub Distinct : List A → Type 0
  Distinct [] = Unit
  Distinct (x ∷ xs) = (any (λ y. key y == key x) xs ≡ false) × Distinct xs

  pub Distinct-append :
      (xs : List A) (x : A)
      → Distinct xs
      → any (λ y. key y == key x) xs ≡ false
      → Distinct (xs ++ x ∷ [])
  Distinct-append [] x d h = (refl, tt)
  Distinct-append (y ∷ ys) x d h = (
    rw (any-append (λ z. key z == key y) ys (x ∷ [])) (ground (arith, d.0)),
    Distinct-append ys x d.1 (ground arith),
  )

  pub Distinct-map_where :
      (p : A → Bool) (f : A → A) (xs : List A)
      → ((a : A) → key (f a) ≡ key a)
      → Distinct xs
      → Distinct (map_where p f xs)
  Distinct-map_where p f [] same d = tt
  Distinct-map_where p f (x ∷ xs) same d = (head (p x), Distinct-map_where p f xs same d.1)
    where
      head : (b : Bool) → any (λ y. key y == key (if b then f x else x)) (map_where p f xs) ≡ false
      head true = rw (same x) (any-map_where (λ y. key y == key x) p f xs (λ a. rw (same a)) ∙ d.0)
      head false = any-map_where (λ y. key y == key x) p f xs (λ a. rw (same a)) ∙ d.0

  apart :
      (xs : List A) (k : ℕ) → any (λ y. key y == k) xs ≡ false → All (λ y. (key y == k) ≡ false) xs
  apart [] k h = tt
  apart (x ∷ xs) k h = (ground arith, apart xs k (ground arith))

  -- Whatever has the key of an element that was found is that element.
  pub Distinct-found :
      (p : A → Bool) (xs : List A) (x : A)
      → Distinct xs
      → find? p xs ≡ some x
      → All (λ y. (key y == key x) ≡ true → y ≡ x) xs
  Distinct-found p [] x d e = tt
  Distinct-found p (z ∷ zs) x d e = elim (Bool-cases (p z)) [
    | inl hit ↦
        let same : z ≡ x = some-injective z x (rw hit at e) in
        (
          λ _. same,
          All-map (λ y. (key y == key z) ≡ false) (λ y. (key y == key x) ≡ true → y ≡ x)
              (λ y a h. clash (key y) (key z) (key x) a (ap key same) h) zs (apart zs (key z) d.0),
        )
    | inr miss ↦
        let rest = rw miss at e in
        (
          λ h.
              clash (key x) (key z) (key z)
                (All-find? (λ y. (key y == key z) ≡ false) p zs (apart zs (key z) d.0) rest) refl
                (==_swap (key z) (key x) h),
          Distinct-found p zs x d.1 rest,
        )
  ]

  -- The key of what was found is in the list.
  pub key-any :
      (p : A → Bool) (xs : List A) {x : A}
      → find? p xs ≡ some x
      → any (λ y. key y == key x) xs ≡ true
  key-any p [] e = cc
  key-any p (z ∷ zs) {x} e = elim (Bool-cases (p z)) [
    | inl hit ↦
        let same = ap key (some-injective z x (rw hit at e)) in rw ((==_iff (key z) (key x)).1 same)
    | inr miss ↦ let ih = key-any p zs {x = x} (rw miss at e) in ground arith
  ]
