-- ===== src/Payment/Unsigned.antt =====
-- Which notifications `HandleNotify` takes, by their signature.
use tu_dns.Prelude.{◌+◌, ◌≡◌, refl, ap, ◌∙◌, true, false, not, ◌&&◌, [], ◌∷◌, some, none, find?}
use mathlib.Core.Path.{subst}
use tu_dns.Prelude.Int.{pos, ltb_ℤ, add64}
use tu_dns.Text.{Text, text, text_eq, is_empty}
use tu_dns.Result.{Error, ok, err}
use tu_dns.Gorm.{put_row}
use tu_dns.Models.{Db, User, PaymentOrder, PointsLedger, order_status_paid, ledger_type_payment}
use tu_dns.Models.Schema.{order_schema}
use tu_dns.World.{World, Env, orders, transaction}
use tu_dns.World.On.{On, On-bind, On-if, On-pure, On-ask, On-lift, On-attempt, On-mono}
use tu_dns.World.Healthy.{IsHealthy, Up-first, Up-save, Up-transaction}
use tu_dns.Points.{has_id, has_biz_no}
use tu_dns.Points.Adjust.{IsCredited}
use tu_dns.Points.Total.{adjust_total}
use tu_dns.Settings.Laws.{value_of, get_total}
use tu_dns.Payment.Query.{Form, lookup}
use tu_dns.Payment.{
  Alipay, PayConfig, with_defaults, has_trade_no, pay_biz_no, paid_order, load_config, verify_rsa2,
  check_signature, settle_order, handle_notify,
}
use tu_dns.Payment.Notify.{number_in, says_paid}

-- The configuration that is stored.
abbrev pub IsConfigured : Alipay → World → PayConfig → Type 0
IsConfigured pay w c =
    (is_empty (value_of (text "alipay_config") w.db.settings) ≡ false)
    × (pay.decode_config (value_of (text "alipay_config") w.db.settings) ≡ ok c)

abbrev pub sign_of : Form → Text
sign_of form = lookup (text "sign") form

module _ (env : Env) (up : IsHealthy env) (pay : Alipay) where
  load_config_total :
      (w : World) (c : PayConfig)
      → IsConfigured pay w c
      → On (λ c' w'. (c' ≡ with_defaults c) × (w'.db ≡ w.db)) (λ e w'. ⊥) (load_config env pay w)
  unfolding load_config
  load_config_total w c (nonempty, decoded) = On-bind _ _ w (
      On-attempt _ w (
        On-mono (get_total env up (text "alipay_config") w)
          (λ raw w' r.
            On-if (is_empty raw) _ _ w' (λ empty. cc (ap is_empty r.0, nonempty, empty))
              (λ _. On-bind _ _ w' (
                On-lift (pay.decode_config raw) w'
                  (λ c' e. On-pure _ w' (cc (ap pay.decode_config r.0, e, decoded), r.1))
                  (λ bad e. cc (ap pay.decode_config r.0, e, decoded)))))
          (λ e w' none_left. absurd none_left)))

  -- Where the database is up and the stored configuration has a public key, a form that has an order
  -- number, says that the order is paid, and has a signature that the key does not verify is refused
  -- with the verifier's error, and nothing changes.
  pub notify_forged :
      (form : Form) (w : World) (c : PayConfig) (bad : Error)
      → IsConfigured pay w c
      → is_empty c.public_key ≡ false
      → is_empty (number_in form) ≡ false
      → says_paid form ≡ true
      → is_empty (sign_of form) ≡ false
      → verify_rsa2 env pay form c.public_key ≡ err bad
      → On (λ _ w'. ⊥) (λ e w'. (e ≡ bad) × (w'.db ≡ w.db)) (handle_notify env pay form w)
  unfolding handle_notify check_signature with_defaults
  notify_forged form w c bad configured keyed numbered says signed refused =
      On-if (is_empty (number_in form)) _ _ w (λ e. cc (e, numbered))
        (λ _.
          On-if (not (says_paid form)) _ _ w (λ e. cc (ap not says, e))
            (λ _. On-bind _ _ w (
              On-mono (load_config_total w c configured)
                (λ c' w1 r.
                  let key : c'.public_key ≡ c.public_key =
                    ap (λ (c : PayConfig). c.public_key) r.0 in
                  On-bind _ _ w1 (
                    On-if (not (is_empty c'.public_key) && not (is_empty (sign_of form))) _ _ w1
                      (λ _.
                        On-lift (verify_rsa2 env pay form c'.public_key) w1
                          (λ u e. cc (ap (verify_rsa2 env pay form) key, e, refused))
                          (λ e' e. (cc (ap (verify_rsa2 env pay form) key, e, refused), r.1)))
                      (λ e. cc (tested c'.public_key (ap is_empty key ∙ keyed), e))))
                (λ e w1 none_left. absurd none_left))))
    where
      tested :
          (k : Text)
          → is_empty k ≡ false
          → (not (is_empty k) && not (is_empty (sign_of form))) ≡ true
      tested k e = rw (e, signed)

  -- Where the database is up, a form with no signature pays the order that it names, whatever public
  -- key the stored configuration has: if the order is not paid, its user exists and can take the
  -- points and the ledger has no entry for the order, the order's points are credited.
  pub notify_unsigned :
      (form : Form) (w : World) (c : PayConfig) (o : PaymentOrder) (u : User)
      → IsConfigured pay w c
      → is_empty (number_in form) ≡ false
      → says_paid form ≡ true
      → is_empty (sign_of form) ≡ true
      → find? (has_trade_no (number_in form)) w.db.orders ≡ some o
      → text_eq o.status order_status_paid ≡ false
      → find? (has_id o.user_id) w.db.users ≡ some u
      → ltb_ℤ (add64 u.points o.points) (pos 0) ≡ false
      → find? (has_biz_no (pay_biz_no o)) w.db.ledgers ≡ none
      → On
          (λ _ w'.
            (row : PaymentOrder) × (l : PointsLedger) × (row.status ≡ order_status_paid)
            × IsCredited env
                (record w.db { orders = put_row order_schema row w.db.orders })
                o.user_id
                o.points
                (pay_biz_no o)
                l
                w'.db)
          (λ e w'. ⊥)
          (handle_notify env pay form w)
  unfolding handle_notify check_signature settle_order
  notify_unsigned form w c o u configured numbered says unsigned found unpaid owner room fresh =
      On-if (is_empty (number_in form)) _ _ w (λ e. cc (e, numbered))
        (λ _.
          On-if (not (says_paid form)) _ _ w (λ e. cc (ap not says, e))
            (λ _. On-bind _ _ w (
              On-mono (load_config_total w c configured)
                (λ c' w1 r. On-bind _ _ w1 (
                  On-if (not (is_empty c'.public_key) && not (is_empty (sign_of form))) _ _ w1
                    (λ e. cc (untested c'.public_key, e)) (λ _. On-pure tt w1 (settles w1 r.1))))
                (λ e w1 none_left. none_left))))
    where
      row_at : World → PaymentOrder
      row_at w1 =
          paid_order o (lookup (text "trade_no") form) (pay.marshal form) (env.now (w1.moment + 1))

      untested : (k : Text) → (not (is_empty k) && not (is_empty (sign_of form))) ≡ false
      untested [] = refl
      untested (ch ∷ k) = rw unsigned

      settles :
          (w1 : World)
          → w1.db ≡ w.db
          → On
              (λ _ w'.
                (row : PaymentOrder) × (l : PointsLedger) × (row.status ≡ order_status_paid)
                × IsCredited env
                    (record w.db { orders = put_row order_schema row w.db.orders })
                    o.user_id
                    o.points
                    (pay_biz_no o)
                    l
                    w'.db)
              (λ e w'. ⊥)
              (transaction env (settle_order env pay form) w1)
      settles w1 same = Up-transaction env up _ w1 (
          On-bind _ _ w1 (
            Up-first (orders env) up.orders w1 _ o
              (ap (λ (d : Db). find? (has_trade_no (number_in form)) d.orders) same ∙ found)
              (On-if (text_eq o.status order_status_paid) _ _ _ (λ paid. cc (paid, unpaid))
                (λ _. On-bind _ _ _ (
                  On-ask env.now _ (
                    On-bind _ _ _ (
                      Up-save (orders env) up.orders _ _ (
                        On-bind _ _ _ (
                          On-mono
                            (adjust_total env up o.user_id o.points ledger_type_payment
                              (text "支付宝元值") 0 (pay_biz_no o) _ u
                              (ap (λ (d : Db). find? (has_id o.user_id) d.users) same ∙ owner)
                              (ap (λ (d : Db). find? (has_biz_no (pay_biz_no o)) d.ledgers) same
                                ∙ fresh))
                            (λ l w' credit. On-pure tt w' (
                              row_at w1,
                              l,
                              refl,
                              subst
                                  (λ d.
                                    IsCredited env
                                      (record d {
                                        orders = put_row order_schema (row_at w1) d.orders;
                                      })
                                      o.user_id o.points (pay_biz_no o) l w'.db)
                                  same credit,
                            ))
                            (λ e w' refused. cc (refused.1, room)))))))))))
