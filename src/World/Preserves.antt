-- ===== src/World/Preserves.antt =====
-- Invariants of actions: `Preserves P m` says that `P` holds of the database after `m`, whether it returns
-- or fails, if it held before. One rule for each way to build an action, and one for each database
-- call on a table that `P` does not depend on.
use tu_dns.Prelude.{ℕ, Bool, true, false, List, Option, none, some, if◌then◌else◌}
use tu_dns.Prelude.Int.{ℤ}
use tu_dns.Result.{Error, Result, ok, err}
use tu_dns.Models.{Db}
use tu_dns.Models.Schema.{Schema}
use tu_dns.World.{
  World, Action, Env, Handle, continue, pure, raise, or_raise, lift, raise_if, attempt, map_error,
  ask, tick, transaction, store, store_new, first, count_where, find, find_desc, find_page, create,
  save, update, delete, upsert, ◌>>=◌, ◌>>◌,
}
use tu_dns.World.On.{On, returns, raises, On-transaction, On-result}

pub record Preserves {A : Type 0} (P : Db → Type 0) (m : Action A) : Type 0 where
  pub run : (w : World) → P w.db → P (m w).1.db

-- `P` does not depend on the table of `h`.
pub record IsApart {Row : Type 0} {schema : Schema Row} (P : Db → Type 0) (h : Handle schema)
    : Type 0 where
  pub apart : (t : List Row) (d : Db) → P d → P (h.put t d)

module _ (P : Db → Type 0) where
  On-either :
      {A : Type 0} {x : Result A × World} → On (λ _ w'. P w'.db) (λ _ w'. P w'.db) x → P x.1.db
  On-either (returns h) = h
  On-either (raises h) = h

  either-On :
      {A : Type 0} (x : Result A × World) → P x.1.db → On (λ _ w'. P w'.db) (λ _ w'. P w'.db) x
  either-On (r, w) h = On-result r w (λ a _. h) (λ e _. h)

module _ {P : Db → Type 0} where
  pub Preserves-On :
      {A : Type 0} (m : Action A)
      → ((w : World) → P w.db → On (λ _ w'. P w'.db) (λ _ w'. P w'.db) (m w))
      → Preserves P m
  Preserves-On m f = record { run = λ w h. On-either P (f w h) }

  pub On-Preserves :
      {A : Type 0} (m : Action A) (w : World)
      → Preserves P m
      → P w.db
      → On (λ _ w'. P w'.db) (λ _ w'. P w'.db) (m w)
  On-Preserves m w k h = either-On P (m w) (k.run w h)

  pub Preserves-pure : {A : Type 0} (a : A) → Preserves P (pure a)
  unfolding pure
  Preserves-pure a = record { run = λ w before. before }

  pub Preserves-raise : {A : Type 0} (e : Error) → Preserves P (raise {A = A} e)
  unfolding raise
  Preserves-raise e = record { run = λ w before. before }

  pub Preserves-lift : {A : Type 0} (r : Result A) → Preserves P (lift r)
  unfolding lift
  Preserves-lift r = record { run = λ w before. before }

  pub Preserves-or_raise : {A : Type 0} (o : Option A) (e : Error) → Preserves P (or_raise o e)
  unfolding or_raise
  Preserves-or_raise none e = Preserves-raise e
  Preserves-or_raise (some a) e = Preserves-pure a

  pub Preserves-ask : {A : Type 0} (f : ℕ → A) → Preserves P (ask f)
  unfolding ask
  Preserves-ask f = record { run = λ w before. before }

  pub Preserves-raise_if : (c : Bool) (e : Error) → Preserves P (raise_if c e)
  unfolding raise_if
  Preserves-raise_if c e = record { run = λ w before. before }

  pub Preserves-if :
      {A : Type 0} (c : Bool) (m' n' : Action A)
      → Preserves P m'
      → Preserves P n'
      → Preserves P (if c then m' else n')
  Preserves-if true m' n' km kn = km
  Preserves-if false m' n' km kn = kn

  Preserves-continue :
      {A B : Type 0} (r : Result A) (f : A → Action B) (w : World)
      → ((a : A) → Preserves P (f a))
      → P w.db
      → P (continue r f w).1.db
  Preserves-continue (ok a) f w kf h = (kf a).run w h
  Preserves-continue (err e) f w kf h = h

  pub Preserves-bind :
      {A B : Type 0} (m : Action A) (f : A → Action B)
      → Preserves P m
      → ((a : A) → Preserves P (f a))
      → Preserves P (m >>= f)
  unfolding ◌>>=◌
  Preserves-bind m f km kf = record {
    run = λ w h. Preserves-continue (m w).0 f (m w).1 kf (km.run w h);
  }

  pub Preserves-then :
      {A B : Type 0} (m : Action A) (k : Action B)
      → Preserves P m
      → Preserves P k
      → Preserves P (m >> k)
  Preserves-then m k km kk = Preserves-bind m (λ _. k) km (λ _. kk)

  pub Preserves-attempt : {A : Type 0} (m : Action A) → Preserves P m → Preserves P (attempt m)
  unfolding attempt
  Preserves-attempt m km = record { run = km.run }

  pub Preserves-map_error :
      {A : Type 0} (g : Error → Error) (m : Action A) → Preserves P m → Preserves P (map_error g m)
  unfolding map_error
  Preserves-map_error g m km = record { run = km.run }

  pub Preserves-transaction :
      {A : Type 0} (env : Env) (m : Action A) → Preserves P m → Preserves P (transaction env m)
  Preserves-transaction env m km =
      Preserves-On (transaction env m) (λ w h. On-transaction env m w (go w h (m w) (km.run w h)))
    where
      go :
          {A : Type 0} (w : World) (h : P w.db) (x : Result A × World)
          → P x.1.db
          → On (λ a w'. P w'.db × ((e : Error) → P w.db)) (λ e w'. P w.db) x
      go w h (r, w') k = On-result r w' (λ a _. (k, λ e. h)) (λ e _. h)

module _ {P : Db → Type 0} {Row : Type 0} {schema : Schema Row} (h : Handle schema) where
  pub Preserves-first : (p : Row → Bool) → Preserves P (first h p)
  unfolding first
  Preserves-first p = record { run = λ w before. before }

  pub Preserves-count_where : (p : Row → Bool) → Preserves P (count_where h p)
  unfolding count_where
  Preserves-count_where p = record { run = λ w before. before }

  pub Preserves-find : (p : Row → Bool) → Preserves P (find h p)
  unfolding find
  Preserves-find p = record { run = λ w before. before }

  pub Preserves-find_desc : (p : Row → Bool) → Preserves P (find_desc h p)
  unfolding find_desc
  Preserves-find_desc p = record { run = λ w before. before }

  pub Preserves-find_page : (p : Row → Bool) (n : ℤ) (k : ℕ) → Preserves P (find_page h p n k)
  unfolding find_page
  Preserves-find_page p n k = record { run = λ w before. before }

  Preserves-store :
      (x : Result (List Row)) (w : World) → IsApart P h → P w.db → P (store h x w).1.db
  Preserves-store (ok t) w a k = a.apart t w.db k
  Preserves-store (err e) w a k = k

  Preserves-store_new :
      (x : Result (Row × List Row)) (w : World) → IsApart P h → P w.db → P (store_new h x w).1.db
  Preserves-store_new (ok (r, t)) w a k = a.apart t w.db k
  Preserves-store_new (err e) w a k = k

  pub Preserves-create : (r : Row) → IsApart P h → Preserves P (create h r)
  unfolding create
  Preserves-create r a = record { run = λ w k. Preserves-store_new _ (tick w) a k }

  pub Preserves-save : (r : Row) → IsApart P h → Preserves P (save h r)
  unfolding save
  Preserves-save r a = record { run = λ w k. Preserves-store _ (tick w) a k }

  pub Preserves-update : (p : Row → Bool) (f : Row → Row) → IsApart P h → Preserves P (update h p f)
  unfolding update
  Preserves-update p f a = record { run = λ w k. Preserves-store _ (tick w) a k }

  pub Preserves-delete : (p : Row → Bool) → IsApart P h → Preserves P (delete h p)
  unfolding delete
  Preserves-delete p a = record { run = λ w k. Preserves-store _ (tick w) a k }

  pub Preserves-upsert :
      (p : Row → Bool) (f : Row → Row) (r : Row) → IsApart P h → Preserves P (upsert h p f r)
  unfolding upsert
  Preserves-upsert p f r a = record { run = λ w k. Preserves-store _ (tick w) a k }

pub ruleset invariant_rules = (
  Preserves-pure, Preserves-raise, Preserves-lift, Preserves-or_raise, Preserves-ask,
  Preserves-raise_if, Preserves-if, Preserves-bind, Preserves-then, Preserves-attempt,
  Preserves-map_error, Preserves-transaction, Preserves-first, Preserves-count_where,
  Preserves-find, Preserves-find_desc, Preserves-find_page, Preserves-create, Preserves-save,
  Preserves-update, Preserves-delete, Preserves-upsert,
)
