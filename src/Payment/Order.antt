-- ===== src/Payment/Order.antt =====
-- The content that is signed, for two orders in which a map is run through.
use tu_dns.Prelude.{
  ◌≡◌, refl, ap, ◌∙◌, Bool, true, false, [], ◌∷◌, arith, Bool-cases, inl, inr, if◌then◌else◌,
}
use tu_dns.Text.{Text, text, text_eq, is_empty}
use tu_dns.Text.Laws.{text_eq_sound, text_eq_refl}
use tu_dns.World.{Env}
use tu_dns.Payment.{Alipay, verify_rsa2}
use tu_dns.Payment.Query.{
  Form, skip_fields, join_fields, lookup, text_le, insert_field, sort_fields, sorted_query,
  is_sign_field,
}

-- Two orders of the entries of one map, whose keys differ.
pub data Reordered : Form → Form → Type 0 where
  same : {f : Form} → Reordered f f
  swapped :
      {f : Form} (x y : Text × Text) → text_eq x.0 y.0 ≡ false → Reordered (x ∷ y ∷ f) (y ∷ x ∷ f)
  below : {f g : Form} (x : Text × Text) → Reordered f g → Reordered (x ∷ f) (x ∷ g)
  joined : {f g h : Form} → Reordered f g → Reordered g h → Reordered f h

text_le_total : (s t : Text) → text_le s t ≡ false → text_le t s ≡ true
text_le_total [] t h = cc
text_le_total (c ∷ s) [] h = refl
text_le_total (c ∷ s) (d ∷ t) h = ground (arith, text_le_total s t)

text_le_antisym : (s t : Text) → text_le s t ≡ true → text_le t s ≡ true → text_eq s t ≡ true
text_le_antisym [] [] h k = refl
text_le_antisym [] (d ∷ t) h k = cc
text_le_antisym (c ∷ s) [] h k = cc
text_le_antisym (c ∷ s) (d ∷ t) h k = ground (arith, text_le_antisym s t)

text_le_trans : (s t u : Text) → text_le s t ≡ true → text_le t u ≡ true → text_le s u ≡ true
text_le_trans [] t u h k = refl
text_le_trans (c ∷ s) [] u h k = cc
text_le_trans (c ∷ s) (d ∷ t) [] h k = cc
text_le_trans (c ∷ s) (d ∷ t) (e ∷ u) h k = ground (arith, text_le_trans s t u)

insert_swap :
    (x y : Text × Text) (f : Form)
    → text_eq x.0 y.0 ≡ false
    → insert_field x (insert_field y f) ≡ insert_field y (insert_field x f)
insert_swap x y [] apart = ground (arith, text_le_total x.0 y.0, text_le_antisym x.0 y.0)
insert_swap x y (z ∷ f) apart = ground (
  arith,
  insert_swap x y f apart,
  text_le_total x.0 y.0,
  text_le_antisym x.0 y.0,
  text_le_trans x.0 y.0 z.0,
  text_le_trans y.0 x.0 z.0,
)

sort_fields-Reordered : {f g : Form} → Reordered f g → sort_fields f ≡ sort_fields g
sort_fields-Reordered same = refl
sort_fields-Reordered (swapped {f} x y apart) = insert_swap x y (sort_fields f) apart
sort_fields-Reordered (below x r) = ap (insert_field x) (sort_fields-Reordered r)
sort_fields-Reordered (joined r s) = sort_fields-Reordered r ∙ sort_fields-Reordered s

module _ (skip : Text × Text → Bool) where
  skip_fields-below :
      (x : Text × Text) (f g : Form)
      → Reordered (skip_fields skip f) (skip_fields skip g)
      → Reordered (skip_fields skip (x ∷ f)) (skip_fields skip (x ∷ g))
  skip_fields-below x f g r = elim (Bool-cases (skip x)) [
    | inl skipped ↦ rw skipped r
    | inr kept ↦ rw kept (below x r)
  ]

  skip_fields-swapped :
      (x y : Text × Text) (f : Form)
      → text_eq x.0 y.0 ≡ false
      → Reordered (skip_fields skip (x ∷ y ∷ f)) (skip_fields skip (y ∷ x ∷ f))
  skip_fields-swapped x y f apart = elim (Bool-cases (skip x)) [
    | inl skipped ↦ rw skipped same
    | inr kept ↦ elim (Bool-cases (skip y)) [
      | inl skipped' ↦ rw (kept, skipped') same
      | inr kept' ↦ rw (kept, kept') (swapped x y apart)
    ]
  ]

  skip_fields-Reordered :
      {f g : Form} → Reordered f g → Reordered (skip_fields skip f) (skip_fields skip g)
  skip_fields-Reordered same = same
  skip_fields-Reordered (swapped {f} x y apart) = skip_fields-swapped x y f apart
  skip_fields-Reordered (below {f} {g} x r) = skip_fields-below x f g (skip_fields-Reordered r)
  skip_fields-Reordered (joined r s) = joined (skip_fields-Reordered r) (skip_fields-Reordered s)

sorted_query-Reordered : {f g : Form} → Reordered f g → sorted_query f ≡ sorted_query g
unfolding sorted_query
sorted_query-Reordered r =
    ap join_fields (sort_fields-Reordered (skip_fields-Reordered (λ x. is_empty x.1) r))

lookup-swapped :
    (key : Text) (x y : Text × Text) (f : Form)
    → text_eq x.0 y.0 ≡ false
    → lookup key (x ∷ y ∷ f) ≡ lookup key (y ∷ x ∷ f)
lookup-swapped key x y f apart = elim (Bool-cases (text_eq x.0 key)) [
  | inl first ↦ elim (Bool-cases (text_eq y.0 key)) [
    | inl second ↦ absurd (clash (text_eq_sound x.0 key first) (text_eq_sound y.0 key second))
    | inr other ↦ rw (first, other) refl
  ]
  | inr other ↦ rw other refl
]
  where
    clash : x.0 ≡ key → y.0 ≡ key → ⊥
    clash e e' = cc (ap (text_eq x.0) e', ap (text_eq x.0) e, text_eq_refl x.0, apart)

lookup-Reordered : (key : Text) {f g : Form} → Reordered f g → lookup key f ≡ lookup key g
lookup-Reordered key same = refl
lookup-Reordered key (swapped {f} x y apart) = lookup-swapped key x y f apart
lookup-Reordered key (below x r) =
    ap (λ (v : Text). if text_eq x.0 key then x.1 else v) (lookup-Reordered key r)
lookup-Reordered key (joined r s) = lookup-Reordered key r ∙ lookup-Reordered key s

-- The answer of `verifyRSA2`, and the content that `signRSA2` signs, do not depend on the order in
-- which Go runs through the map of the fields: they are the same for any two orders of entries with
-- different keys.
pub verify_rsa2-Reordered :
    (env : Env) (pay : Alipay) (key : Text) (f g : Form)
    → Reordered f g
    → (verify_rsa2 env pay f key ≡ verify_rsa2 env pay g key) × (sorted_query f ≡ sorted_query g)
unfolding verify_rsa2
verify_rsa2-Reordered env pay key f g r = (
  cc (
    sorted_query-Reordered (skip_fields-Reordered (λ x. is_sign_field x.0) r),
    lookup-Reordered (text "sign") r,
  ),
  sorted_query-Reordered r,
)
