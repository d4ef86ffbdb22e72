-- ===== src/Platforms/Yields.antt =====
-- A predicate at what a call returns, with one rule for each way to build a call.
use tu_dns.Prelude.{◌≡◌, refl, sym, Option, none, some, inl, inr, Bool-cases}
use tu_dns.Text.{Text, is_empty}
use tu_dns.Result.{Error, Result, ok, err, ok-injective}
use tu_dns.Platforms.{◌>>=◌}
use tu_dns.Platforms.Volcengine.{present}

pub data Yields {A : Type 0} (P : A → Type 0) : Result A → Type 0 where
  returned : {a : A} → P a → Yields P (ok a)
  failed : {e : Error} → Yields P (err e)

module _ {A : Type 0} {P : A → Type 0} where
  pub Yields-bind :
      {B : Type 0} (x : Result B) (f : B → Result A)
      → ((b : B) → Yields P (f b))
      → Yields P (x >>= f)
  Yields-bind (ok b) f h = h b
  Yields-bind (err e) f h = failed

  -- The same with the equation of the first call.
  pub Yields-after :
      {B : Type 0} (x : Result B) (f : B → Result A)
      → ((b : B) → x ≡ ok b → Yields P (f b))
      → Yields P (x >>= f)
  Yields-after (ok b) f h = h b refl
  Yields-after (err e) f h = failed

  pub Yields-present :
      (e : Error) (o : Option Text) (f : Text → Result A)
      → ((t : Text) → Yields P (f t))
      → Yields P (present (err e) o f)
  Yields-present e none f h = failed
  Yields-present e (some t) f h = elim (Bool-cases (is_empty t)) [
    | inl y ↦ rw y failed
    | inr n ↦ rw n (h t)
  ]

  pub yielded : (x : Result A) (a : A) → Yields P x → x ≡ ok a → P a
  yielded (ok b) a (returned h) e = rw (sym (ok-injective b a e)) h
  yielded (err _) a failed e = cc
