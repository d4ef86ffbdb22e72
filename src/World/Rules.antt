-- ===== src/World/Rules.antt =====
-- What a database call leaves, by the laws of its table.
use tu_dns.Prelude.{
  ℕ, ◌≡◌, ◌⊎◌, inl, inr, refl, Bool, true, false, not, List, [], ◌∷◌, ◌++◌, some, none, ◌==◌, find?,
  count, filter, map_where, any, take, drop,
}
use mathlib.Core.List.{reverse}
use tu_dns.Prelude.Int.{ℤ, pos_part}
use tu_dns.Result.{Error, Result, ok, err, not_found}
use tu_dns.Gorm.{put_row}
use tu_dns.Models.Schema.{Schema}
use tu_dns.World.{
  World, Handle, tick, store, store_new, first, count_where, find, find_desc, find_page, create,
  save, update, delete, upsert,
}
use tu_dns.World.On.{On, returns, raises, On-result}

-- The state after a call that has left `t` in the table of `h`.
abbrev pub stored : {Row : Type 0} {schema : Schema Row} → Handle schema → List Row → World → World
stored h t w = record (tick w) { db = h.put t w.db }

module _ {Row : Type 0} {schema : Schema Row} (h : Handle schema) where
  -- A row that `Create` gives for `r`: its key is new, and it conflicts with no row.
  pub record IsCreated (r : Row) (t : List Row) (r' : Row) : Type 0 where
    pub keeps : r' ≡ schema.with_id (schema.id_of r') r
    pub new_id : any (λ q. schema.id_of q == schema.id_of r') t ≡ false
    pub unique : any (λ q. schema.conflicts q r) t ≡ false

module _ {Row : Type 0} {schema : Schema Row} {P : Row → World → Type 0}
    {Q : Error → World → Type 0} (h : Handle schema) where
  pub On-first :
      (p : Row → Bool) (w : World)
      → ((r : Row) → find? p (h.get w.db) ≡ some r → P r (tick w))
      → ((e : Error) → (e ≡ not_found → find? p (h.get w.db) ≡ none) → Q e (tick w))
      → On P Q (first h p w)
  unfolding first
  On-first p w found missing =
      On-result (h.table.first w.moment p (h.get w.db)) (tick w)
        (λ r x. found r (h.table.first_ok w.moment p (h.get w.db) r x))
        (λ e x. missing e (λ y. h.table.first_missing w.moment p (h.get w.db) (rw (← y) x)))

  pub On-create :
      (r : Row) (w : World)
      → ((r' : Row) → IsCreated h r (h.get w.db) r' → P r' (stored h (h.get w.db ++ r' ∷ []) w))
      → ((e : Error) → Q e (tick w))
      → On P Q (create h r w)
  unfolding create
  On-create r w new old = go (h.table.create w.moment r (h.get w.db)) refl
    where
      go :
          (x : Result (Row × List Row))
          → h.table.create w.moment r (h.get w.db) ≡ x
          → On P Q (store_new h x (tick w))
      go (ok (r', t')) e =
          let facts = h.table.create_ok w.moment r (h.get w.db) r' t' e in
          rw facts.1
            (returns (new r' (record { keeps = facts.0; new_id = facts.2; unique = facts.3 })))
      go (err e) x = raises (old e)

module _ {Row : Type 0} {schema : Schema Row} {P : ℕ → World → Type 0} {Q : Error → World → Type 0}
    (h : Handle schema) where
  pub On-count_where :
      (p : Row → Bool) (w : World)
      → P (count p (h.get w.db)) (tick w)
      → ((e : Error) → Q e (tick w))
      → On P Q (count_where h p w)
  unfolding count_where
  On-count_where p w counted failed =
      On-result (h.table.count_where w.moment p (h.get w.db)) (tick w)
        (λ n x. rw (h.table.count_ok w.moment p (h.get w.db) n x) counted) (λ e x. failed e)

module _ {Row : Type 0} {schema : Schema Row} {P : List Row → World → Type 0}
    {Q : Error → World → Type 0} (h : Handle schema) where
  pub On-find :
      (p : Row → Bool) (w : World)
      → P (filter p (h.get w.db)) (tick w)
      → ((e : Error) → Q e (tick w))
      → On P Q (find h p w)
  unfolding find
  On-find p w found failed =
      On-result (h.table.find w.moment p (h.get w.db)) (tick w)
        (λ rs x. rw (h.table.find_ok w.moment p (h.get w.db) rs x) found) (λ e x. failed e)

  pub On-find_desc :
      (p : Row → Bool) (w : World)
      → P (reverse (filter p (h.get w.db))) (tick w)
      → ((e : Error) → Q e (tick w))
      → On P Q (find_desc h p w)
  unfolding find_desc
  On-find_desc p w found failed =
      On-result (h.table.find_desc w.moment p (h.get w.db)) (tick w)
        (λ rs x. rw (h.table.find_desc_ok w.moment p (h.get w.db) rs x) found) (λ e x. failed e)

  pub On-find_page :
      (p : Row → Bool) (n : ℤ) (k : ℕ) (w : World)
      → P (take k (drop (pos_part n) (reverse (filter p (h.get w.db))))) (tick w)
      → ((e : Error) → Q e (tick w))
      → On P Q (find_page h p n k w)
  unfolding find_page
  On-find_page p n k w found failed =
      On-result (h.table.find_page w.moment p n k (h.get w.db)) (tick w)
        (λ rs x. rw (h.table.find_page_ok w.moment p n k (h.get w.db) rs x) found) (λ e x. failed e)

module _ {Row : Type 0} {schema : Schema Row} {P : Unit {0} → World → Type 0}
    {Q : Error → World → Type 0} (h : Handle schema) (w : World) where
  On-store :
      (x : Result (List Row)) (t : List Row)
      → ((t' : List Row) → x ≡ ok t' → t' ≡ t)
      → P tt (stored h t w)
      → ((e : Error) → Q e (tick w))
      → On P Q (store h x (tick w))
  On-store (ok t') t same done failed = rw (same t' refl) (returns done)
  On-store (err e) t same done failed = raises (failed e)

  pub On-save :
      (r : Row)
      → P tt (stored h (put_row schema r (h.get w.db)) w)
      → ((e : Error) → Q e (tick w))
      → On P Q (save h r w)
  unfolding save
  On-save r =
      On-store (h.table.save w.moment r (h.get w.db)) (put_row schema r (h.get w.db))
        (h.table.save_ok w.moment r (h.get w.db))

  pub On-update :
      (p : Row → Bool) (f : Row → Row)
      → P tt (stored h (map_where p f (h.get w.db)) w)
      → ((e : Error) → Q e (tick w))
      → On P Q (update h p f w)
  unfolding update
  On-update p f =
      On-store (h.table.update w.moment p f (h.get w.db)) (map_where p f (h.get w.db))
        (h.table.update_ok w.moment p f (h.get w.db))

  pub On-delete :
      (p : Row → Bool)
      → P tt (stored h (filter (λ q. not (p q)) (h.get w.db)) w)
      → ((e : Error) → Q e (tick w))
      → On P Q (delete h p w)
  unfolding delete
  On-delete p =
      On-store (h.table.delete w.moment p (h.get w.db)) (filter (λ q. not (p q)) (h.get w.db))
        (h.table.delete_ok w.moment p (h.get w.db))

  pub On-upsert :
      (p : Row → Bool) (f : Row → Row) (r : Row)
      → (any p (h.get w.db) ≡ true → P tt (stored h (map_where p f (h.get w.db)) w))
      → (any p (h.get w.db) ≡ false
          → (k : ℕ) → P tt (stored h (h.get w.db ++ schema.with_id k r ∷ []) w))
      → ((e : Error) → Q e (tick w))
      → On P Q (upsert h p f r w)
  unfolding upsert
  On-upsert p f r changed added failed =
      go (h.table.upsert w.moment p f r (h.get w.db))
        (h.table.upsert_ok w.moment p f r (h.get w.db))
    where
      go :
          (x : Result (List Row))
          → ((t' : List Row)
              → x ≡ ok t'
              → ((any p (h.get w.db) ≡ true) × (t' ≡ map_where p f (h.get w.db)))
                ⊎ ((any p (h.get w.db) ≡ false)
                    × ((k : ℕ) × (t' ≡ h.get w.db ++ schema.with_id k r ∷ []))))
          → On P Q (store h x (tick w))
      go (ok t') law = elim (law t' refl) [
        | inl old ↦ rw old.1 (returns (changed old.0))
        | inr new ↦ rw new.1.1 (returns (added new.0 new.1.0))
      ]
      go (err e) law = raises (failed e)
