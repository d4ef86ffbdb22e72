-- ===== src/Prelude/Lists.antt =====
-- Lists tested by Boolean predicates and measured by native numbers, under the library's names.
use Prim.Native.Nat.{ℕ, suc, zero, ◌+◌}
use mathlib.Core.Path.{◌≡◌, refl, ap, subst}
use mathlib.Core.Logic.{inl, inr}
use mathlib.Core.Bool.{Bool, true, false, ◌||◌}
use mathlib.Core.List.{List, [], ◌∷◌, ◌++◌}
use mathlib.Core.Option.{Option, none, some, some-injective}
use native.Mathlib.Omega.{arith}
use tu_dns.Prelude.Tests.{if◌then◌else◌, Bool-cases}

module _ {ℓ} {A : Type ℓ} where
  abbrev pub length : List A → ℕ
  length [] = 0
  length (x ∷ xs) = suc (length xs)

  abbrev pub take : ℕ → List A → List A
  take zero xs = []
  take (suc n) [] = []
  take (suc n) (x ∷ xs) = x ∷ take n xs

  abbrev pub drop : ℕ → List A → List A
  drop zero xs = xs
  drop (suc n) [] = []
  drop (suc n) (x ∷ xs) = drop n xs

  -- The first element that passes.
  abbrev pub find? : (A → Bool) → List A → Option A
  find? p [] = none
  find? p (x ∷ xs) = if p x then some x else find? p xs

  abbrev pub filter : (A → Bool) → List A → List A
  filter p [] = []
  filter p (x ∷ xs) = if p x then x ∷ filter p xs else filter p xs

  abbrev pub count : (A → Bool) → List A → ℕ
  count p [] = 0
  count p (x ∷ xs) = if p x then suc (count p xs) else count p xs

  -- The elements that pass are changed, in place.
  abbrev pub map_where : (A → Bool) → (A → A) → List A → List A
  map_where p f [] = []
  map_where p f (x ∷ xs) = (if p x then f x else x) ∷ map_where p f xs

  abbrev pub any : (A → Bool) → List A → Bool
  any p [] = false
  any p (x ∷ xs) = p x || any p xs

-- A predicate at every element, by recursion, so that tactics read the parts.
module _ {ℓ κ} {A : Type ℓ} where
  abbrev pub All : (A → Type κ) → List A → Type κ
  All P [] = Unit
  All P (x ∷ xs) = P x × All P xs

  pub All-append : (P : A → Type κ) (xs ys : List A) → All P xs → All P ys → All P (xs ++ ys)
  All-append P [] ys hx hy = hy
  All-append P (x ∷ xs) ys hx hy = (hx.0, All-append P xs ys hx.1 hy)

  pub All-filter : (P : A → Type κ) (p : A → Bool) (xs : List A) → All P xs → All P (filter p xs)
  All-filter P p [] h = tt
  All-filter P p (x ∷ xs) h = keep (p x) (All-filter P p xs h.1)
    where
      keep : (b : Bool) → All P (filter p xs) → All P (if b then x ∷ filter p xs else filter p xs)
      keep true k = (h.0, k)
      keep false k = k

  pub All-find? :
      (P : A → Type κ) (p : A → Bool) (xs : List A) {x : A} → All P xs → find? p xs ≡ some x → P x
  All-find? P p [] h e = cc
  All-find? P p (y ∷ ys) {x} h e = elim (Bool-cases (p y)) [
    | inl hit ↦ subst P (some-injective y x (rw hit at e)) h.0
    | inr miss ↦ All-find? P p ys h.1 (rw miss at e)
  ]

module _ {ℓ κ μ} {A : Type ℓ} where
  pub All-map :
      (P : A → Type κ) (Q : A → Type μ) (f : (a : A) → P a → Q a) (xs : List A)
      → All P xs
      → All Q xs
  All-map P Q f [] h = tt
  All-map P Q f (x ∷ xs) h = (f x h.0, All-map P Q f xs h.1)

module _ {ℓ κ μ} {A : Type ℓ} (P : A → Type κ) (Q : A → Type μ) (p : A → Bool) (f : A → A) where
  pub All-map_where :
      ((a : A) → p a ≡ true → P a → Q (f a))
      → ((a : A) → p a ≡ false → P a → Q a)
      → (xs : List A) → All P xs
      → All Q (map_where p f xs)
  All-map_where hit miss [] h = tt
  All-map_where hit miss (x ∷ xs) h = (one (p x) refl, All-map_where hit miss xs h.1)
    where
      one : (b : Bool) → p x ≡ b → Q (if b then f x else x)
      one true e = hit x e h.0
      one false e = miss x e h.0

module _ {ℓ} {A : Type ℓ} where
  pub any-map_where :
      (q p : A → Bool) (f : A → A) (xs : List A)
      → ((a : A) → q (f a) ≡ q a)
      → any q (map_where p f xs) ≡ any q xs
  any-map_where q p f [] same = refl
  any-map_where q p f (x ∷ xs) same = ground (arith, same x, any-map_where q p f xs same)

  pub any-append : (q : A → Bool) (xs ys : List A) → any q (xs ++ ys) ≡ (any q xs || any q ys)
  any-append q [] ys = refl
  any-append q (x ∷ xs) ys = ground (arith, any-append q xs ys)

  pub find?-holds : (p : A → Bool) (xs : List A) {x : A} → find? p xs ≡ some x → p x ≡ true
  find?-holds p [] e = cc
  find?-holds p (y ∷ ys) e = grind (arith, find?-holds p ys)

  pub find?-any : (p : A → Bool) (xs : List A) {x : A} → find? p xs ≡ some x → any p xs ≡ true
  find?-any p [] e = cc
  find?-any p (y ∷ ys) e = grind (arith, find?-any p ys)

  pub find?-none-any : (p : A → Bool) (xs : List A) → find? p xs ≡ none → any p xs ≡ false
  find?-none-any p [] e = refl
  find?-none-any p (y ∷ ys) e = ground (arith, find?-none-any p ys)

  pub find?-append :
      (p : A → Bool) (xs ys : List A) → find? p xs ≡ none → find? p (xs ++ ys) ≡ find? p ys
  find?-append p [] ys e = refl
  find?-append p (x ∷ xs) ys e = ground (arith, find?-append p xs ys)

  pub filter-append :
      (p : A → Bool) (xs ys : List A) → filter p (xs ++ ys) ≡ filter p xs ++ filter p ys
  filter-append p [] ys = refl
  filter-append p (x ∷ xs) ys = ground (arith, filter-append p xs ys)

  pub count-append : (p : A → Bool) (xs ys : List A) → count p (xs ++ ys) ≡ count p xs + count p ys
  count-append p [] ys = omega arith
  count-append p (x ∷ xs) ys = ground (arith, count-append p xs ys)

  -- Nothing that is counted is found.
  pub find?-count_zero : (p : A → Bool) (xs : List A) → count p xs ≡ 0 → find? p xs ≡ none
  find?-count_zero p [] h = refl
  find?-count_zero p (x ∷ xs) h = ground (arith, find?-count_zero p xs)

  pub find?-map_where :
      (q p : A → Bool) (f : A → A) (xs : List A) {x : A}
      → ((a : A) → q (f a) ≡ q a)
      → find? q xs ≡ some x
      → find? q (map_where p f xs) ≡ some (if p x then f x else x)
  find?-map_where q p f [] same e = cc
  find?-map_where q p f (y ∷ ys) {x} same e = elim (Bool-cases (q y)) [
    | inl hit ↦ let e' = some-injective y x (rw hit at e) in ground (arith, same y)
    | inr miss ↦
        let ih = find?-map_where q p f ys {x = x} same (rw miss at e) in ground (arith, same y)
  ]

module _ {ℓ κ μ} {A : Type ℓ} (P : A → Type κ) (Q : A → Type μ) where
  pub All-zip : (xs : List A) → All P xs → All Q xs → All (λ x. P x × Q x) xs
  All-zip [] p q = tt
  All-zip (x ∷ xs) p q = ((p.0, q.0), All-zip xs p.1 q.1)

module _ {ℓ} {A : Type ℓ} where
  -- Where the elements that pass `p` become `r`, and what `q` finds passes `p`, `q` finds `r`.
  pub find?-put :
      (q p : A → Bool) (r : A) (xs : List A) {x : A}
      → q r ≡ true
      → find? q xs ≡ some x
      → p x ≡ true
      → find? q (map_where p (λ _. r) xs) ≡ some r
  find?-put q p r [] hr e hx = cc
  find?-put q p r (y ∷ ys) {x} hr e hx = elim (Bool-cases (p y)) [
    | inl hit ↦ rw hit (rw hr)
    | inr miss ↦ elim (Bool-cases (q y)) [
      | inl found ↦ cc (ap p (some-injective y x (rw found at e)), hx, miss)
      | inr other ↦ rw miss (rw other (find?-put q p r ys hr (rw other at e) hx))
    ]
  ]

module _ {ℓ} {A : Type ℓ} (p : A → Bool) (r : A) where
  -- A row that is the first of its kind is found where it has been appended, and where it has taken
  -- the place of others.
  pub find?-appended :
      (xs : List A) → any p xs ≡ false → p r ≡ true → find? p (xs ++ r ∷ []) ≡ some r
  find?-appended [] h hr = rw hr refl
  find?-appended (x ∷ xs) h hr = elim (Bool-cases (p x)) [
    | inl hit ↦ absurd (cc (rw hit at h))
    | inr miss ↦ rw miss (find?-appended xs (rw miss at h) hr)
  ]

  pub find?-replaced :
      (xs : List A) → any p xs ≡ true → p r ≡ true → find? p (map_where p (λ _. r) xs) ≡ some r
  find?-replaced [] h hr = absurd (cc h)
  find?-replaced (x ∷ xs) h hr = elim (Bool-cases (p x)) [
    | inl hit ↦ rw hit (rw hr refl)
    | inr miss ↦ rw miss (rw miss (find?-replaced xs (rw miss at h) hr))
  ]

module _ {ℓ} {A : Type ℓ} where
  pub length-append : (xs ys : List A) → length (xs ++ ys) ≡ length xs + length ys
  length-append [] ys = omega arith
  length-append (x ∷ xs) ys = omega (arith, length-append xs ys)
