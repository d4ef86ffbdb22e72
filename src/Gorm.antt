-- ===== src/Gorm.antt =====
-- What the program relies on of gorm and the database behind it, for one table. The first argument
-- of an operation numbers the call: a call may fail for reasons of its own, and what the laws say is
-- what a call that succeeds has done.
use tu_dns.Prelude.{
  ℕ, ◌≡◌, ◌⊎◌, Bool, true, not, List, [], ◌∷◌, ◌++◌, some, none, ◌==◌, find?, count, filter,
  find?-appended, find?-replaced, Bool-cases, inl, inr, ==_refl, map_where, any, take, drop, All,
  All-append, All-map_where, if◌then◌else◌, false,
}
use mathlib.Core.List.{reverse}
use tu_dns.Prelude.Int.{ℤ, pos_part}
use tu_dns.Result.{Result, ok, err, not_found}
use tu_dns.Models.Schema.{Schema}

-- The rows with the id of `r` become `r`; where there is none, `r` is a new row.
abbrev pub put_row : {Row : Type 0} → Schema Row → Row → List Row → List Row
put_row s r t =
    if any (λ q. s.id_of q == s.id_of r) t
    then map_where (λ q. s.id_of q == s.id_of r) (λ q. r) t
    else t ++ r ∷ []

pub All-put_row :
    {Row : Type 0} (s : Schema Row) (P : Row → Type 0) (r : Row) (t : List Row)
    → P r
    → All P t
    → All P (put_row s r t)
All-put_row s P r t h k = go (any (λ q. s.id_of q == s.id_of r) t)
  where
    go :
        (b : Bool)
        → All P (if b then map_where (λ q. s.id_of q == s.id_of r) (λ q. r) t else t ++ r ∷ [])
    go true = All-map_where P P (λ q. s.id_of q == s.id_of r) (λ q. r) (λ q _ _. h) (λ q _ x. x) t k
    go false = All-append P t (r ∷ []) k (h, tt)

-- What has been put is found under its key.
pub find?-put_row :
    {Row : Type 0} (s : Schema Row) (r : Row) (t : List Row)
    → find? (λ q. s.id_of q == s.id_of r) (put_row s r t) ≡ some r
find?-put_row s r t = elim (Bool-cases (any (λ q. s.id_of q == s.id_of r) t)) [
  | inl old ↦ rw old (find?-replaced (λ q. s.id_of q == s.id_of r) r t old (==_refl (s.id_of r)))
  | inr new ↦ rw new (find?-appended (λ q. s.id_of q == s.id_of r) r t new (==_refl (s.id_of r)))
]

pub record Table {Row : Type 0} (schema : Schema Row) : Type 0 where
  -- `Where(p).First(&r)`
  pub first : ℕ → (Row → Bool) → List Row → Result Row
  -- `Where(p).Count(&n)`
  pub count_where : ℕ → (Row → Bool) → List Row → Result ℕ
  -- `Where(p).Find(&rs)`
  pub find : ℕ → (Row → Bool) → List Row → Result (List Row)
  -- `Where(p).Order("id desc").Find(&rs)`, and the same with `Offset(n).Limit(k)`
  pub find_desc : ℕ → (Row → Bool) → List Row → Result (List Row)
  pub find_page : ℕ → (Row → Bool) → ℤ → ℕ → List Row → Result (List Row)
  -- `Create(&r)`: the row as it is stored, and the new content
  pub create : ℕ → Row → List Row → Result (Row × List Row)
  -- `Save(&r)`
  pub save : ℕ → Row → List Row → Result (List Row)
  -- `Where(p).Updates(f)`
  pub update : ℕ → (Row → Bool) → (Row → Row) → List Row → Result (List Row)
  -- `Where(p).Delete`
  pub delete : ℕ → (Row → Bool) → List Row → Result (List Row)
  -- `Clauses(OnConflict{…, DoUpdates}).Create(&r)`: where a row meets the first test, such rows are
  -- changed; else `r` is a new row.
  pub upsert : ℕ → (Row → Bool) → (Row → Row) → Row → List Row → Result (List Row)
  -- The row with the least primary key, or the error that says that there is none.
  pub first_ok :
      (m : ℕ) (p : Row → Bool) (t : List Row) (r : Row) → first m p t ≡ ok r → find? p t ≡ some r
  pub first_missing :
      (m : ℕ) (p : Row → Bool) (t : List Row) → first m p t ≡ err not_found → find? p t ≡ none
  pub count_ok :
      (m : ℕ) (p : Row → Bool) (t : List Row) (n : ℕ) → count_where m p t ≡ ok n → n ≡ count p t
  pub find_ok : (m : ℕ) (p : Row → Bool) (t rs : List Row) → find m p t ≡ ok rs → rs ≡ filter p t
  pub find_desc_ok :
      (m : ℕ) (p : Row → Bool) (t rs : List Row)
      → find_desc m p t ≡ ok rs
      → rs ≡ reverse (filter p t)
  -- An offset below zero is none.
  pub find_page_ok :
      (m : ℕ) (p : Row → Bool) (n : ℤ) (k : ℕ) (t rs : List Row)
      → find_page m p n k t ≡ ok rs
      → rs ≡ take k (drop (pos_part n) (reverse (filter p t)))
  -- The new row has a new primary key, and conflicts with no row under a unique index.
  pub create_ok :
      (m : ℕ) (r : Row) (t : List Row) (r' : Row) (t' : List Row)
      → create m r t ≡ ok (r', t')
      → (r' ≡ schema.with_id (schema.id_of r') r)
        × (t' ≡ t ++ r' ∷ [])
        × (any (λ q. schema.id_of q == schema.id_of r') t ≡ false)
        × (any (λ q. schema.conflicts q r) t ≡ false)
  pub save_ok : (m : ℕ) (r : Row) (t t' : List Row) → save m r t ≡ ok t' → t' ≡ put_row schema r t
  pub update_ok :
      (m : ℕ) (p : Row → Bool) (f : Row → Row) (t t' : List Row)
      → update m p f t ≡ ok t'
      → t' ≡ map_where p f t
  pub delete_ok :
      (m : ℕ) (p : Row → Bool) (t t' : List Row)
      → delete m p t ≡ ok t'
      → t' ≡ filter (λ q. not (p q)) t
  pub upsert_ok :
      (m : ℕ) (p : Row → Bool) (f : Row → Row) (r : Row) (t t' : List Row)
      → upsert m p f r t ≡ ok t'
      → ((any p t ≡ true) × (t' ≡ map_where p f t))
        ⊎ ((any p t ≡ false) × ((k : ℕ) × (t' ≡ t ++ schema.with_id k r ∷ [])))
