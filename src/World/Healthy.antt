-- ===== src/World/Healthy.antt =====
-- A database that is up: each call that can succeed does. Under this hypothesis an operation is
-- known to return, where the laws of `Table` only say what it has done if it does.
use tu_dns.Prelude.{
  ℕ, ◌≡◌, Bool, false, not, List, [], ◌∷◌, ◌++◌, Option, some, none, find?, count, filter,
  map_where, any,
}
use tu_dns.Result.{Error, Result, ok, err, not_found}
use tu_dns.Gorm.{Table, put_row}
use tu_dns.Models.{Db}
use tu_dns.Models.Schema.{Schema}
use tu_dns.World.{
  World, Env, Action, Handle, tick, store, store_new, first, count_where, create, save, update,
  transaction, settle,
}
use tu_dns.World.On.{On, returns, raises}
use tu_dns.World.Rules.{stored}

abbrev pub or_not_found : {Row : Type 0} → Option Row → Result Row
or_not_found none = err not_found
or_not_found (some r) = ok r

pub record IsUp {Row : Type 0} {schema : Schema Row} (table : Table schema) : Type 0 where
  pub first_up :
      (m : ℕ) (p : Row → Bool) (t : List Row) → table.first m p t ≡ or_not_found (find? p t)
  pub count_up : (m : ℕ) (p : Row → Bool) (t : List Row) → table.count_where m p t ≡ ok (count p t)
  pub find_up : (m : ℕ) (p : Row → Bool) (t : List Row) → table.find m p t ≡ ok (filter p t)
  -- A row that conflicts with none is stored.
  pub create_up :
      (m : ℕ) (r : Row) (t : List Row)
      → any (λ q. schema.conflicts q r) t ≡ false
      → (r' : Row) × (table.create m r t ≡ ok (r', t ++ r' ∷ []))
        × (r' ≡ schema.with_id (schema.id_of r') r)
  pub save_up : (m : ℕ) (r : Row) (t : List Row) → table.save m r t ≡ ok (put_row schema r t)
  pub update_up :
      (m : ℕ) (p : Row → Bool) (f : Row → Row) (t : List Row)
      → table.update m p f t ≡ ok (map_where p f t)
  pub delete_up :
      (m : ℕ) (p : Row → Bool) (t : List Row) → table.delete m p t ≡ ok (filter (λ q. not (p q)) t)

pub record IsHealthy (env : Env) : Type 0 where
  pub users : IsUp env.users
  pub domains : IsUp env.domains
  pub subdomains : IsUp env.subdomains
  pub records : IsUp env.records
  pub ledgers : IsUp env.ledgers
  pub codes : IsUp env.codes
  pub uses : IsUp env.uses
  pub orders : IsUp env.orders
  pub settings : IsUp env.settings
  pub logs : IsUp env.logs
  pub commits : (m : ℕ) (b a : Db) → env.commit m b a ≡ (ok tt, a)

module _ {Row : Type 0} {schema : Schema Row} {P : Row → World → Type 0}
    {Q : Error → World → Type 0} (h : Handle schema) (up : IsUp h.table) (w : World) where
  pub Up-first :
      (p : Row → Bool) (r : Row)
      → find? p (h.get w.db) ≡ some r
      → P r (tick w)
      → On P Q (first h p w)
  unfolding first
  Up-first p r e done = rw (up.first_up w.moment p (h.get w.db), e) (returns done)

  pub Up-first_missing :
      (p : Row → Bool) → find? p (h.get w.db) ≡ none → Q not_found (tick w) → On P Q (first h p w)
  unfolding first
  Up-first_missing p e done = rw (up.first_up w.moment p (h.get w.db), e) (raises done)

  pub Up-create :
      (r : Row)
      → any (λ q. schema.conflicts q r) (h.get w.db) ≡ false
      → ((r' : Row)
          → r' ≡ schema.with_id (schema.id_of r') r
          → P r' (stored h (h.get w.db ++ r' ∷ []) w))
      → On P Q (create h r w)
  unfolding create
  Up-create r fresh done =
      let made = up.create_up w.moment r (h.get w.db) fresh in
      rw (made.1, store_new) (returns (done made.0 made.2))

module _ {Row : Type 0} {schema : Schema Row} {P : ℕ → World → Type 0} {Q : Error → World → Type 0}
    (h : Handle schema) (up : IsUp h.table) (w : World) where
  pub Up-count_where :
      (p : Row → Bool) → P (count p (h.get w.db)) (tick w) → On P Q (count_where h p w)
  unfolding count_where
  Up-count_where p done = rw (up.count_up w.moment p (h.get w.db)) (returns done)

module _ {Row : Type 0} {schema : Schema Row} {P : Unit {0} → World → Type 0}
    {Q : Error → World → Type 0} (h : Handle schema) (up : IsUp h.table) (w : World) where
  pub Up-save : (r : Row) → P tt (stored h (put_row schema r (h.get w.db)) w) → On P Q (save h r w)
  unfolding save
  Up-save r done = rw (up.save_up w.moment r (h.get w.db), store) (returns done)

  pub Up-update :
      (p : Row → Bool) (f : Row → Row)
      → P tt (stored h (map_where p f (h.get w.db)) w)
      → On P Q (update h p f w)
  unfolding update
  Up-update p f done = rw (up.update_up w.moment p f (h.get w.db), store) (returns done)

module _ {A : Type 0} {P : A → World → Type 0} {Q : Error → World → Type 0} where
  -- What `m` leaves is committed.
  pub Up-transaction :
      (env : Env) (healthy : IsHealthy env) (m : Action A) (w : World)
      → On (λ a w'. P a (tick w')) (λ e w'. Q e (record (tick w') { db = w.db })) (m w)
      → On P Q (transaction env m w)
  unfolding transaction
  Up-transaction env healthy m w h = go h
    where
      go :
          {x : Result A × World}
          → On (λ a w'. P a (tick w')) (λ e w'. Q e (record (tick w') { db = w.db })) x
          → On P Q (settle env w.db x.0 x.1)
      go (returns {w = w'} p) = rw (healthy.commits w'.moment w.db w'.db) (returns p)
      go (raises {w = w'} q) = rw (env.rollback_lem w'.moment w.db w'.db) (raises q)
