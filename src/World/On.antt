-- ===== src/World/On.antt =====
-- Postconditions of actions: `On P Q (m w)` says that `P` holds of the result and the state where
-- `m` returns, and `Q` of the error and the state where it fails. One rule for each way to build an
-- action.
use tu_dns.Prelude.{ℕ, ◌≡◌, refl, Bool, true, false, Option, some, none, if◌then◌else◌}
use tu_dns.Result.{Error, Result, ok, err}
use tu_dns.Models.{Db}
use tu_dns.World.{
  World, Action, Env, continue, pure, raise, or_raise, lift, raise_if, attempt, map_error, ask,
  tick, settle, transaction, ◌>>=◌,
}
use mathlib.Core.Path.{subst}

pub data On {A : Type 0} (P : A → World → Type 0) (Q : Error → World → Type 0)
    : Result A × World → Type 0 where
  returns : {a : A} {w : World} → P a w → On P Q (ok a, w)
  raises : {e : Error} {w : World} → Q e w → On P Q (err e, w)

-- Nothing is changed, in the database or at a platform.
abbrev pub IsUntouched : World → World → Type 0
IsUntouched w w' = (w'.db ≡ w.db) × (w'.calls ≡ w.calls)

module _ {A : Type 0} {P : A → World → Type 0} {Q : Error → World → Type 0} where
  pub On-result :
      (x : Result A) (w : World)
      → ((a : A) → x ≡ ok a → P a w)
      → ((e : Error) → x ≡ err e → Q e w)
      → On P Q (x, w)
  On-result (ok a) w p q = returns (p a refl)
  On-result (err e) w p q = raises (q e refl)

  pub On-mono :
      {P' : A → World → Type 0} {Q' : Error → World → Type 0} {x : Result A × World}
      → On P' Q' x
      → ((a : A) (w : World) → P' a w → P a w)
      → ((e : Error) (w : World) → Q' e w → Q e w)
      → On P Q x
  On-mono (returns {a} {w} h) p q = returns (p a w h)
  On-mono (raises {e} {w} h) p q = raises (q e w h)

  -- What holds of a run that is known to return, and of one that is known to fail.
  On-at_ok : {x : Result A × World} → On P Q x → (a : A) → x.0 ≡ ok a → P a x.1
  On-at_ok (returns {a = b} {w} h) a e = subst (λ c. P c w) (cc) h
  On-at_ok (raises h) a e = cc

  pub On-ok : {x : Result A × World} → On P Q x → (a : A) (w : World) → x ≡ (ok a, w) → P a w
  On-ok {x} o a w e = subst (λ v. P a v) (cc) (On-at_ok o a (cc))

  On-at_err : {x : Result A × World} → On P Q x → (e : Error) → x.0 ≡ err e → Q e x.1
  On-at_err (returns h) e h' = cc
  On-at_err (raises {e = b} {w} h) e e' = subst (λ c. Q c w) (cc) h

  -- Two postconditions of one run.
  pub On-and :
      {P' : A → World → Type 0} {Q' : Error → World → Type 0} {x : Result A × World}
      → On P' Q' x
      → On P Q x
      → On (λ a w. P' a w × P a w) (λ e w. Q' e w × Q e w) x
  On-and (returns {a} {w} h) o = returns (h, On-at_ok o a refl)
  On-and (raises {e} {w} h) o = raises (h, On-at_err o e refl)

  pub On-pure : (a : A) (w : World) → P a w → On P Q (pure a w)
  unfolding pure
  On-pure a w h = returns h

  pub On-raise : (e : Error) (w : World) → Q e w → On P Q (raise e w)
  unfolding raise
  On-raise e w h = raises h

  pub On-lift :
      (x : Result A) (w : World)
      → ((a : A) → x ≡ ok a → P a w)
      → ((e : Error) → x ≡ err e → Q e w)
      → On P Q (lift x w)
  unfolding lift
  On-lift = On-result

  pub On-or_raise :
      (o : Option A) (e : Error) (w : World)
      → ((a : A) → o ≡ some a → P a w)
      → (o ≡ none → Q e w)
      → On P Q (or_raise o e w)
  unfolding or_raise
  On-or_raise none e w p q = raises (q refl)
  On-or_raise (some a) e w p q = returns (p a refl)

  pub On-ask : (f : ℕ → A) (w : World) → P (f w.moment) (tick w) → On P Q (ask f w)
  unfolding ask
  On-ask f w h = returns h

  pub On-if :
      (c : Bool) (m n : Action A) (w : World)
      → (c ≡ true → On P Q (m w))
      → (c ≡ false → On P Q (n w))
      → On P Q ((if c then m else n) w)
  On-if true m n w km kn = km refl
  On-if false m n w km kn = kn refl

  pub On-map_error :
      (g : Error → Error) (m : Action A) (w : World)
      → On P (λ e w'. Q (g e) w') (m w)
      → On P Q (map_error g m w)
  unfolding map_error
  On-map_error g m w h = go h
    where
      go :
          {x : Result A × World}
          → On P (λ e w'. Q (g e) w') x
          → On P Q (elim (x.0) [ ok a ↦ ok a | err e ↦ err (g e) ], x.1)
      go (returns p) = returns p
      go (raises q) = raises q

  -- A transaction that fails has the database of its start, and one that returns what `m` left.
  pub On-transaction :
      (env : Env) (m : Action A) (w : World)
      → On
          (λ a w'. P a (tick w') × ((e : Error) → Q e (record (tick w') { db = w.db })))
          (λ e w'. Q e (record (tick w') { db = w.db }))
          (m w)
      → On P Q (transaction env m w)
  unfolding transaction
  On-transaction env m w h = go h
    where
      commits :
          (a : A) (w' : World) (x : Result (Unit {0}) × Db)
          → (x.0 ≡ ok tt → x.1 ≡ w'.db)
          → ((e : Error) → x.0 ≡ err e → x.1 ≡ w.db)
          → P a (tick w')
          → ((e : Error) → Q e (record (tick w') { db = w.db }))
          → On P Q (elim (x.0) [ ok _ ↦ ok a | err e ↦ err e ], record (tick w') { db = x.1 })
      commits a w' (ok tt, d) done undone p q = rw (done refl) (returns p)
      commits a w' (err e, d) done undone p q = rw (undone e refl) (raises (q e))

      go :
          {x : Result A × World}
          → On
              (λ a w'. P a (tick w') × ((e : Error) → Q e (record (tick w') { db = w.db })))
              (λ e w'. Q e (record (tick w') { db = w.db }))
              x
          → On P Q (settle env w.db x.0 x.1)
      go (returns {a} {w = w'} p) =
          commits a w' (env.commit w'.moment w.db w'.db) (env.commit_ok w'.moment w.db w'.db)
            (λ e. env.commit_err w'.moment w.db w'.db e) p.0 p.1
      go (raises {e} {w = w'} q) = rw (env.rollback_lem w'.moment w.db w'.db) (raises q)

module _ {P : Unit {0} → World → Type 0} {Q : Error → World → Type 0} where
  pub On-raise_if :
      (c : Bool) (e : Error) (w : World)
      → (c ≡ false → P tt w)
      → (c ≡ true → Q e w)
      → On P Q (raise_if c e w)
  unfolding raise_if
  On-raise_if true e w p q = raises (q refl)
  On-raise_if false e w p q = returns (p refl)

module _ {A B : Type 0} {P : B → World → Type 0} {Q : Error → World → Type 0} where
  pub On-bind :
      (m : Action A) (f : A → Action B) (w : World)
      → On (λ a w'. On P Q (f a w')) Q (m w)
      → On P Q ((m >>= f) w)
  unfolding ◌>>=◌
  On-bind m f w h = go h
    where
      go : {x : Result A × World} → On (λ a w'. On P Q (f a w')) Q x → On P Q (continue x.0 f x.1)
      go (returns p) = p
      go (raises q) = raises q

module _ {A : Type 0} {P : Result A → World → Type 0} {Q : Error → World → Type 0} where
  pub On-attempt :
      (m : Action A) (w : World)
      → On (λ a w'. P (ok a) w') (λ e w'. P (err e) w') (m w)
      → On P Q (attempt m w)
  unfolding attempt
  On-attempt m w h = go h
    where
      go :
          {x : Result A × World}
          → On (λ a w'. P (ok a) w') (λ e w'. P (err e) w') x
          → On P Q (ok x.0, x.1)
      go (returns p) = returns p
      go (raises q) = returns q
