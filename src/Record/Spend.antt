-- ===== src/Record/Spend.antt =====
-- The price of a record, paid in points.
use tu_dns.Prelude.{ℕ, ◌≡◌, refl, sym, ◌⊎◌, inl, inr, true, false, Option, none, some, arith}
use mathlib.Core.Path.{subst}
use tu_dns.Prelude.Int.{ℤ, pos, negsuc, ◌≤ℤ◌, ltb_ℤ, leb_ℤ, neg_ℤ, IsInt64}
use tu_dns.Text.{Text}
use tu_dns.Models.{Db, PointsLedger}
use tu_dns.World.{World, Env, tick}
use tu_dns.World.On.{On, On-if, On-pure, On-mono, On-and}
use tu_dns.Points.Adjust.{Adjusted, number_of}
use tu_dns.Points.Repeat.{IsCharged, charge_lem, charge-calls}
use tu_dns.Points.Balance.{IsBalanced, Adjusted-IsBalanced}
use tu_dns.Domain.{Vault}
use tu_dns.Record.{charge_for}

-- What paying a price has done: nothing where it is zero or less, else an entry of minus the price.
abbrev pub IsSpentFor : Env → Db → ℕ → ℤ → Db → Type 0
IsSpentFor env d user_id cost d' =
    ((leb_ℤ cost (pos 0) ≡ true) × (d' ≡ d))
    ⊎ ((pos 1 ≤ℤ cost)
        × ((number : Text) × (l : PointsLedger) × Adjusted env d user_id (neg_ℤ cost) number l d'))

neg_range : (c : ℤ) → pos 1 ≤ℤ c → IsInt64 c → IsInt64 (neg_ℤ c)
unfolding neg_ℤ
neg_range (pos n) h r = ground arith
neg_range (negsuc n) h r = absurd (omega arith)

module _ (env : Env) (d : Db) (user_id : ℕ) (cost : ℤ) (d' : Db) where
  pub IsSpentFor-IsBalanced :
      IsInt64 cost → IsBalanced d → IsSpentFor env d user_id cost d' → IsBalanced d'
  IsSpentFor-IsBalanced range b (inl (free, same)) = subst IsBalanced (sym same) b
  IsSpentFor-IsBalanced range b (inr (paid, (number, l, done))) =
      Adjusted-IsBalanced env d user_id (neg_ℤ cost) number l d' (neg_range cost paid range) b done

  -- Paying touches users and ledger alone.
  pub IsSpentFor-frame :
      IsSpentFor env d user_id cost d' → d' ≡ record d { users = d'.users; ledgers = d'.ledgers }
  IsSpentFor-frame (inl (free, same)) = rw same refl
  IsSpentFor-frame (inr (paid, (number, l, inl (found, same)))) = rw same refl
  IsSpentFor-frame (inr (paid, (number, l, inr (missing, c)))) = rw c.content refl

module _ (env : Env) (vault : Vault) (user_id : ℕ) (cost : ℤ) (remark : Text) where
  pub charge_for_lem :
      (w : World)
      → On
          (λ o w'. IsSpentFor env w.db user_id cost w'.db × (w'.calls ≡ w.calls))
          (λ e w'. w'.calls ≡ w.calls)
          (charge_for env vault user_id cost remark w)
  unfolding charge_for
  charge_for_lem w =
      On-if (ltb_ℤ (pos 0) cost) _ _ w
        (λ paid.
          On-mono
            (On-and (charge_lem env user_id cost remark w) (charge-calls env user_id cost remark w))
            (λ o w' r. (spent o w'.db r.0, r.1)) (λ e w' r. r.1))
        (λ free. On-pure none w (inl (not_above cost free, refl), refl))
    where
      not_above : (c : ℤ) → ltb_ℤ (pos 0) c ≡ false → leb_ℤ c (pos 0) ≡ true
      not_above c h = ground arith

      at_zero : (c : ℤ) → c ≡ pos 0 → leb_ℤ c (pos 0) ≡ true
      at_zero c h = rw h

      spent :
          (o : Option PointsLedger) (d' : Db)
          → IsCharged env w user_id cost o d'
          → IsSpentFor env w.db user_id cost d'
      spent none d' (zero_cost, same) = inl (at_zero cost zero_cost, same)
      spent (some l) d' (above, done) =
          inr (above, (number_of env (env.uuid w.moment) (tick w), l, done))
