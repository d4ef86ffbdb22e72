-- ===== src/Record/Left.antt =====
-- The rows that are left when some have been deleted.
use tu_dns.Prelude.{
  ℕ, ◌≡◌, refl, sym, ap, ◌∙◌, Bool, true, false, not, ◌&&◌, ◌||◌, List, [], ◌∷◌, arith, filter,
  map_where, any, All, All-map, Bool-cases, inl, inr, ◌==◌, ==_refl,
}
use mathlib.Core.Path.{subst}
use tu_dns.Models.{Subdomain, Record, subdomain_status_disabled}
use tu_dns.Record.{has_sub_id, has_record_id}

-- The rows that are left when those of a list have been deleted one by one.
abbrev pub without : List Record → List Record → List Record
without [] t = t
without (r ∷ rs) t = without rs (filter (λ q. not (has_record_id r.id q)) t)

abbrev pub is_below : ℕ → Record → Bool
is_below k r = r.subdomain_id == k

-- One of the rows has the key.
abbrev pub has_key_in : List Record → Record → Bool
has_key_in rs q = any (λ (r : Record). q.id == r.id) rs

-- The row is wanted, and its key is not in the list.
abbrev is_missed : (Record → Bool) → List Record → Record → Bool
is_missed p rs q = p q && not (has_key_in rs q)

any-missed_none :
    (p : Record → Bool) (t : List Record) → any (is_missed p []) t ≡ false → any p t ≡ false
any-missed_none p [] h = refl
any-missed_none p (q ∷ t) h = ground (arith, any-missed_none p t)

any-missed_step :
    (p : Record → Bool) (r : Record) (rs t : List Record)
    → any (is_missed p (r ∷ rs)) t ≡ false
    → any (is_missed p rs) (filter (λ q. not (has_record_id r.id q)) t) ≡ false
any-missed_step p r rs [] h = refl
any-missed_step p r rs (q ∷ t) h = ground (arith, any-missed_step p r rs t)

none_left :
    (p : Record → Bool) (rs t : List Record)
    → any (is_missed p rs) t ≡ false
    → any p (without rs t) ≡ false
none_left p [] t h = any-missed_none p t h
none_left p (r ∷ rs) t h =
    none_left p rs (filter (λ q. not (has_record_id r.id q)) t) (any-missed_step p r rs t h)

none_missed :
    (p : Record → Bool) (t : List Record) → All (λ q. is_missed p (filter p t) q ≡ false) t
none_missed p [] = tt
none_missed p (x ∷ t) = elim (Bool-cases (p x)) [
  | inl wanted ↦
      subst (λ rs. All (λ q. is_missed p rs q ≡ false) (x ∷ t)) (sym (first_in wanted))
        (
          own (p x) (x.id == x.id) (has_key_in (filter p t) x) (==_refl x.id),
          All-map (λ q. is_missed p (filter p t) q ≡ false)
              (λ q. is_missed p (x ∷ filter p t) q ≡ false)
              (λ q h. weaker (p q) (q.id == x.id) (has_key_in (filter p t) q) h) t
              (none_missed p t),
        )
  | inr other ↦
      subst (λ rs. All (λ q. is_missed p rs q ≡ false) (x ∷ t)) (sym (first_out other))
        (unwanted (p x) (has_key_in (filter p t) x) other, none_missed p t)
]
  where
    first_in : p x ≡ true → filter p (x ∷ t) ≡ x ∷ filter p t
    first_in h = rw h refl

    first_out : p x ≡ false → filter p (x ∷ t) ≡ filter p t
    first_out h = rw h refl

    own : (a b c : Bool) → b ≡ true → (a && not (b || c)) ≡ false
    own a b c h = ground arith

    unwanted : (a b : Bool) → a ≡ false → (a && not b) ≡ false
    unwanted a b h = ground arith

    weaker : (a b c : Bool) → (a && not c) ≡ false → (a && not (b || c)) ≡ false
    weaker a b c h = ground arith

All-none_any : (p : Record → Bool) (t : List Record) → All (λ q. p q ≡ false) t → any p t ≡ false
All-none_any p [] h = refl
All-none_any p (q ∷ t) h = rw (h.0) (All-none_any p t h.1)

pub without-filter : (p : Record → Bool) (t : List Record) → any p (without (filter p t) t) ≡ false
without-filter p t =
    none_left p (filter p t) t (All-none_any (is_missed p (filter p t)) t (none_missed p t))

pub others_kept :
    (p : Subdomain → Bool) (t : List Subdomain) → any p (filter (λ q. not (p q)) t) ≡ false
others_kept p [] = refl
others_kept p (q ∷ t) = ground (arith, others_kept p t)

-- The rows that are left are those whose key is none of the list's.
filter-filter :
    (p q : Record → Bool) (t : List Record) → filter p (filter q t) ≡ filter (λ r. q r && p r) t
filter-filter p q [] = refl
filter-filter p q (x ∷ t) = elim (Bool-cases (q x)) [
  | inl y ↦ rw (y, filter-filter p q t) refl
  | inr n ↦ rw (n, filter-filter p q t) refl
]

filter-same :
    (p q : Record → Bool) → ((r : Record) → p r ≡ q r) → (t : List Record) → filter p t ≡ filter q t
filter-same p q h [] = refl
filter-same p q h (x ∷ t) = rw (h x, filter-same p q h t) refl

filter-all : (t : List Record) → t ≡ filter (λ q. true) t
filter-all [] = refl
filter-all (x ∷ t) = ap (λ s. x ∷ s) (filter-all t)

pub without-keys : (rs t : List Record) → without rs t ≡ filter (λ q. not (has_key_in rs q)) t
without-keys [] t = filter-all t
without-keys (r ∷ rs) t =
    without-keys rs (filter (λ q. not (has_record_id r.id q)) t)
    ∙ filter-filter (λ q. not (has_key_in rs q)) (λ q. not (has_record_id r.id q)) t
    ∙ filter-same _ _ (λ q. both (q.id == r.id) (has_key_in rs q)) t
  where
    both : (a b : Bool) → (not a && not b) ≡ not (a || b)
    both a b = ground arith

-- Rows that are dropped may have been disabled before.
pub filter-disabled :
    (k : ℕ) (t : List Subdomain)
    → filter
        (λ s. not (has_sub_id k s))
        (map_where (has_sub_id k) (λ s. record s { status = subdomain_status_disabled }) t)
      ≡ filter (λ s. not (has_sub_id k s)) t
filter-disabled k [] = refl
filter-disabled k (s ∷ t) = elim (Bool-cases (has_sub_id k s)) [
  | inl y ↦ rw (y, y, filter-disabled k t) refl
  | inr n ↦ rw (n, n, filter-disabled k t) refl
]
