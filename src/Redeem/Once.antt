-- ===== src/Redeem/Once.antt =====
-- What `Redeem` does, on every path.
use tu_dns.Prelude.{
  ℕ, ◌≡◌, refl, ap, true, false, [], ◌∷◌, ◌++◌, some, find?, map_where, count, passed_lem,
  none_above_zero,
}
use mathlib.Core.Path.{subst}
use tu_dns.Prelude.Int.{ℤ, leb_ℤ}
use tu_dns.Text.{Text, text, is_empty}
use tu_dns.Result.{empty_code}
use tu_dns.Models.{Db, RedeemCode, RedeemUse, PointsLedger, ledger_type_redeem}
use tu_dns.World.{World, Env, tick, codes, uses}
use tu_dns.World.On.{
  On, On-bind, On-if, On-pure, On-raise, On-ask, On-raise_if, On-mono, On-transaction, On-map_error,
}
use tu_dns.World.Rules.{On-first, On-update, On-create, On-count_where}
use tu_dns.Points.Adjust.{Adjusted, number_of, adjust_lem}
use tu_dns.Redeem.{
  has_code, has_code_id, uses_code_by, expires_before, normalized, biz_no_at, one_more, check_code,
  spend_code, redeem,
}

-- The code may be used by the user: the guards of `Redeem` pass, at some time.
pub record IsUsable (env : Env) (d : Db) (user_id : ℕ) (item : RedeemCode) : Type 0 where
  pub enabled : item.enabled ≡ true
  pub at : ℕ
  pub in_time : expires_before item.expires_at (env.now at) ≡ false
  pub left : leb_ℤ item.max_uses item.used_count ≡ false
  pub unused : count (uses_code_by item.id user_id) d.uses ≡ 0

-- What a redemption that returned has done.
pub record IsRedeemed (env : Env) (d : Db) (user_id : ℕ) (code : Text) (gained : ℤ) (d' : Db)
    : Type 0 where
  pub item : RedeemCode
  pub found : find? (has_code (normalized env code)) d.codes ≡ some item
  pub usable : IsUsable env d user_id item
  pub gain : gained ≡ item.points
  -- The points go through `Adjust`, under the number of the code and the second.
  pub time : ℕ
  pub moment : World
  pub entry : PointsLedger
  pub middle : Db
  pub adjusted :
      Adjusted env d user_id item.points
        (number_of env (biz_no_at env item time) moment)
        entry
        middle
  -- The use is counted at the code and recorded for the user.
  pub new_use : RedeemUse
  pub use_code : new_use.code_id ≡ item.id
  pub use_user : new_use.user_id ≡ user_id
  pub content : d' ≡ record middle {
    codes = map_where (has_code_id item.id) (one_more item.used_count) middle.codes;
    uses = middle.uses ++ new_use ∷ [];
  }

module _ (env : Env) (user_id : ℕ) where
  check_code_lem :
      (item : RedeemCode) (w : World)
      → On
          (λ _ w'. IsUsable env w.db user_id item × (w'.db ≡ w.db))
          (λ e w'. Unit {0})
          (check_code env user_id item w)
  unfolding check_code
  check_code_lem item w = On-bind _ _ w (
      On-raise_if _ _ w
        (λ on. On-bind _ _ _ (
          On-ask env.now w (
            On-bind _ _ _ (
              On-raise_if _ _ _
                (λ in_time. On-bind _ _ _ (
                  On-raise_if _ _ _
                    (λ left. On-bind _ _ _ (
                      On-count_where (uses env) _ _
                        (On-raise_if _ _ _
                          (λ unused. (
                            record {
                              enabled = passed_lem item.enabled on;
                              at = w.moment;
                              in_time = in_time;
                              left = left;
                              unused = none_above_zero _ unused;
                            },
                            refl,
                          ))
                          (λ _. tt))
                        (λ e. tt)))
                    (λ _. tt)))
                (λ _. tt)))))
        (λ _. tt))

  -- The writes, from a database where the guards have passed.
  spend_code_lem :
      (d : Db) (code : Text) (item : RedeemCode) (w : World)
      → find? (has_code (normalized env code)) d.codes ≡ some item
      → IsUsable env d user_id item
      → w.db ≡ d
      → On
          (λ gained w'. IsRedeemed env d user_id code gained w'.db)
          (λ e w'. Unit {0})
          (spend_code env user_id item w)
  unfolding spend_code
  spend_code_lem d code item w found usable same = On-bind _ _ w (
      On-ask env.now w (
        On-bind _ _ _ (
          On-mono
            (adjust_lem env user_id item.points ledger_type_redeem (text "兑换码" ++ item.code) 0
              (biz_no_at env item (env.now w.moment)) (tick w))
            (λ l w' adjusted. On-bind _ _ w' (
              On-update (codes env) w' _ _
                (On-bind _ _ _ (
                  On-create (uses env) _ _
                    (λ u made. On-pure item.points _ (record {
                      item = item;
                      found = found;
                      usable = usable;
                      gain = refl;
                      time = env.now w.moment;
                      moment = tick w;
                      entry = l;
                      middle = w'.db;
                      adjusted =
                          subst
                            (λ d.
                              Adjusted env d user_id item.points
                                (number_of env (biz_no_at env item (env.now w.moment)) (tick w)) l
                                w'.db)
                            same adjusted;
                      new_use = u;
                      use_code = ap (λ (u : RedeemUse). u.code_id) made.keeps;
                      use_user = ap (λ (u : RedeemUse). u.user_id) made.keeps;
                      content = refl;
                    }))
                    (λ e. tt)))
                (λ e. tt)))
            (λ e w' part. tt))))

  -- `Redeem` on every path. Where it returns, the code as normalised is in the table, enabled, not
  -- expired, has uses left and was not used by this user; the result is its points, `Adjust` has
  -- returned for them under the number of code and second, the code counts one use more and the use
  -- is recorded. Where it fails, the database is as it was.
  pub redeem_lem :
      (code : Text) (w : World)
      → On
          (λ gained w'. IsRedeemed env w.db user_id code gained w'.db)
          (λ e w'. w'.db ≡ w.db)
          (redeem env user_id code w)
  unfolding redeem
  redeem_lem code w =
      On-if (is_empty (normalized env code)) _ _ w (λ _. On-raise empty_code w refl)
        (λ _. On-transaction env _ w (
          On-bind _ _ w (
            On-map_error _ _ w (
              On-first (codes env) _ w
                (λ item found. On-bind _ _ _ (
                  On-mono (check_code_lem item (tick w))
                    (λ _ w' checked.
                      On-mono (spend_code_lem w.db code item w' found checked.0 checked.1)
                        (λ gained w'' done. (done, λ e. refl)) (λ e w'' _. refl))
                    (λ e w' _. refl)))
                (λ e _. refl)))))
