-- ===== src/World/Perfect.antt =====
-- A database that never fails, as a concrete value: it shows that the laws of `Table` and the
-- hypothesis of a healthy database can be met, and examples run on it.
use tu_dns.Prelude.{
  ℕ, suc, ◌<◌, ◌≡◌, ◌⊎◌, refl, sym, ap, ◌∙◌, Bool, true, false, not, List, [], ◌∷◌, ◌++◌, Option,
  some, none, arith, find?, count, filter, map_where, any, take, drop, Bool-cases, inl, inr,
  if◌then◌else◌, ◌==◌,
}
use Prim.Native.Nat.{max}
use mathlib.Core.List.{reverse}
use tu_dns.Prelude.Int.{pos_part}
use tu_dns.Result.{Result, ok, err, not_found, database, ok-injective_rev}
use tu_dns.Gorm.{Table, put_row}
use tu_dns.Models.Schema.{Schema}
use tu_dns.World.Healthy.{IsUp, or_not_found}

module _ {Row : Type 0} (s : Schema Row) where
  -- The greatest key.
  abbrev pub last_id : List Row → ℕ
  last_id [] = 0
  last_id (r ∷ t) = max (s.id_of r) (last_id t)

  fresh_id : (k : ℕ) (t : List Row) → last_id t < k → any (λ q. s.id_of q == k) t ≡ false
  fresh_id k [] h = refl
  fresh_id k (r ∷ t) h = ground (arith, fresh_id k t (omega arith))

  abbrev pub insert_row : Row → List Row → Result (Row × List Row)
  insert_row r t =
      let r' = s.with_id (suc (last_id t)) r in
      if any (λ q. s.conflicts q r) t then err (database 1) else ok (r', t ++ r' ∷ [])

  pub insert_row_ok :
      (m : ℕ) (r : Row) (t : List Row) (r' : Row) (t' : List Row)
      → insert_row r t ≡ ok (r', t')
      → (r' ≡ s.with_id (s.id_of r') r)
        × (t' ≡ t ++ r' ∷ [])
        × (any (λ q. s.id_of q == s.id_of r') t ≡ false)
        × (any (λ q. s.conflicts q r) t ≡ false)
  insert_row_ok m r t r' t' e = elim (Bool-cases (any (λ q. s.conflicts q r) t)) [
    | inl clash ↦ cc (rw clash at e)
    | inr free ↦
        let k = suc (last_id t) in
        let same =
          ok-injective_rev (s.with_id k r, t ++ s.with_id k r ∷ []) (r', t') (rw free at e) in
        let row : r' ≡ s.with_id k r = ap (λ (x : Row × List Row). x.0) same in
        let key : s.id_of r' ≡ k = ap s.id_of row ∙ s.id_of-with_id k r in
        (
          row ∙ ap (λ j. s.with_id j r) (sym key),
          ap (λ (x : Row × List Row). x.1) same ∙ ap (λ q. t ++ q ∷ []) (sym row),
          rw key (fresh_id k t (omega arith)),
          free,
        )
  ]

  pub or_not_found_ok : (o : Option Row) (r : Row) → or_not_found o ≡ ok r → o ≡ some r
  or_not_found_ok none r e = cc
  or_not_found_ok (some q) r e = cc

  pub or_not_found_missing : (o : Option Row) → or_not_found o ≡ err not_found → o ≡ none
  or_not_found_missing none e = refl
  or_not_found_missing (some q) e = cc

  abbrev pub upsert_row : (Row → Bool) → (Row → Row) → Row → List Row → List Row
  upsert_row p f r t = if any p t then map_where p f t else t ++ s.with_id (suc (last_id t)) r ∷ []

  pub upsert_row_ok :
      (p : Row → Bool) (f : Row → Row) (r : Row) (t t' : List Row)
      → ok (upsert_row p f r t) ≡ ok t'
      → ((any p t ≡ true) × (t' ≡ map_where p f t))
        ⊎ ((any p t ≡ false) × ((k : ℕ) × (t' ≡ t ++ s.with_id k r ∷ [])))
  upsert_row_ok p f r t t' e = elim (Bool-cases (any p t)) [
    | inl old ↦ inl (old, ok-injective_rev (map_where p f t) t' (rw old at e))
    | inr new ↦ inr (
      new,
      (
        suc (last_id t),
        ok-injective_rev (t ++ s.with_id (suc (last_id t)) r ∷ []) t' (rw new at e),
      ),
    )
  ]

  abbrev pub perfect : Table s
  perfect = record {
    first = λ m p t. or_not_found (find? p t);
    count_where = λ m p t. ok (count p t);
    find = λ m p t. ok (filter p t);
    find_desc = λ m p t. ok (reverse (filter p t));
    find_page = λ m p n k t. ok (take k (drop (pos_part n) (reverse (filter p t))));
    create = λ m r t. insert_row r t;
    save = λ m r t. ok (put_row s r t);
    update = λ m p f t. ok (map_where p f t);
    delete = λ m p t. ok (filter (λ q. not (p q)) t);
    upsert = λ m p f r t. ok (upsert_row p f r t);
    first_ok = λ m p t r e. or_not_found_ok (find? p t) r e;
    first_missing = λ m p t e. or_not_found_missing (find? p t) e;
    count_ok = λ m p t n e. ok-injective_rev (count p t) n e;
    find_ok = λ m p t rs e. ok-injective_rev (filter p t) rs e;
    find_desc_ok = λ m p t rs e. ok-injective_rev (reverse (filter p t)) rs e;
    find_page_ok =
        λ m p n k t rs e. ok-injective_rev (take k (drop (pos_part n) (reverse (filter p t)))) rs e;
    create_ok = insert_row_ok;
    save_ok = λ m r t t' e. ok-injective_rev (put_row s r t) t' e;
    update_ok = λ m p f t t' e. ok-injective_rev (map_where p f t) t' e;
    delete_ok = λ m p t t' e. ok-injective_rev (filter (λ q. not (p q)) t) t' e;
    upsert_ok = λ m p f r t t' e. upsert_row_ok p f r t t' e;
  }

  pub perfect-IsUp : IsUp perfect
  perfect-IsUp = record {
    first_up = λ m p t. refl;
    count_up = λ m p t. refl;
    find_up = λ m p t. refl;
    create_up = λ m r t fresh. (
      s.with_id (suc (last_id t)) r,
      rw fresh,
      ap (λ k. s.with_id k r) (sym (s.id_of-with_id (suc (last_id t)) r)),
    );
    save_up = λ m r t. refl;
    update_up = λ m p f t. refl;
    delete_up = λ m p t. refl;
  }
