-- ===== src/Redeem/Balance.antt =====
-- Redemptions and the books.
use tu_dns.Prelude.{ℕ, sym, All, All-find?}
use mathlib.Core.Path.{subst}
use tu_dns.Prelude.Int.{IsInt64, ℤ}
use tu_dns.Text.{Text}
use tu_dns.Models.{Db, RedeemCode}
use tu_dns.World.{World, Env}
use tu_dns.World.On.{On, On-mono}
use tu_dns.Points.Balance.{IsBalanced, Adjusted-IsBalanced}
use tu_dns.Redeem.{redeem, has_code, normalized}
use tu_dns.Redeem.Once.{IsRedeemed, redeem_lem}

-- `Redeem` keeps the books balanced: after any call, whether it returned or failed, every user's
-- points are not negative and are the sum of the user's entries, if that was so before and the points
-- of the codes are int64s.
pub redeem-IsBalanced :
    (env : Env) (user_id : ℕ) (code : Text) (w : World)
    → All (λ (c : RedeemCode). IsInt64 c.points) w.db.codes
    → IsBalanced w.db
    → On (λ gained w'. IsBalanced w'.db) (λ e w'. IsBalanced w'.db) (redeem env user_id code w)
redeem-IsBalanced env user_id code w range b =
    On-mono (redeem_lem env user_id code w) (λ gained w' r. after gained w'.db r)
      (λ e w' same. subst IsBalanced (sym same) b)
  where
    after : (gained : ℤ) (d' : Db) → IsRedeemed env w.db user_id code gained d' → IsBalanced d'
    after gained d' r =
        let points_range =
          All-find? (λ (c : RedeemCode). IsInt64 c.points) (has_code (normalized env code))
            w.db.codes range r.found in
        let m =
          Adjusted-IsBalanced env w.db user_id r.item.points _ r.entry r.middle points_range b
            r.adjusted in
        subst IsBalanced (sym r.content) (record { balances = m.balances; owners = m.owners })
