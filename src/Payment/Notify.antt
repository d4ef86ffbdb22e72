-- ===== src/Payment/Notify.antt =====
-- What `HandleNotify` does, on every path.
use tu_dns.Prelude.{
  ◌≡◌, refl, sym, ap, ◌∙◌, ◌⊎◌, inl, inr, Bool, true, false, not, ◌&&◌, some, find?,
}
use mathlib.Core.Path.{subst}
use tu_dns.Text.{Text, text, text_eq, is_empty}
use tu_dns.Result.{missing_out_trade_no}
use tu_dns.Gorm.{put_row}
use tu_dns.Models.{Db, PaymentOrder, PointsLedger, order_status_paid, ledger_type_payment}
use tu_dns.Models.Schema.{order_schema}
use tu_dns.World.{World, Env, orders, transaction}
use tu_dns.World.On.{
  On, On-bind, On-if, On-pure, On-raise, On-ask, On-lift, On-attempt, On-mono, On-transaction,
}
use tu_dns.World.Rules.{On-first, On-save}
use tu_dns.Points.Adjust.{Adjusted, adjust_lem}
use tu_dns.Settings.Laws.{get_lem}
use tu_dns.Payment.Query.{Form, lookup}
use tu_dns.Payment.{
  Alipay, has_trade_no, is_success, pay_biz_no, paid_order, load_config, settle_order,
  handle_notify,
}

-- The order number that a form names, and whether it says that the order is paid.
abbrev pub number_in : Form → Text
number_in form = lookup (text "out_trade_no") form

abbrev pub says_paid : Form → Bool
says_paid form = is_success (lookup (text "trade_status") form)

-- What a notification that pays an order has done.
pub record IsSettled (env : Env) (d : Db) (form : Form) (d' : Db) : Type 0 where
  pub order : PaymentOrder
  pub found : find? (has_trade_no (number_in form)) d.orders ≡ some order
  pub unpaid : text_eq order.status order_status_paid ≡ false
  -- The row of the order becomes a paid one, of the same number and points.
  pub row : PaymentOrder
  pub row_id : row.id ≡ order.id
  pub row_number : row.out_trade_no ≡ order.out_trade_no
  pub row_points : row.points ≡ order.points
  pub row_paid : row.status ≡ order_status_paid
  -- The order's points go to the order's user, under the number of the order.
  pub entry : PointsLedger
  pub adjusted :
      Adjusted env
        (record d { orders = put_row order_schema row d.orders })
        order.user_id
        order.points
        (pay_biz_no order)
        entry
        d'

-- What a call that returns has done: nothing for a form that does not say paid or names a paid order,
-- else it has settled the order.
abbrev pub IsNotified : Env → Db → Form → Db → Type 0
IsNotified env d form d' =
    ((says_paid form ≡ false) × (d' ≡ d))
    ⊎ (((o : PaymentOrder) × (find? (has_trade_no (number_in form)) d.orders ≡ some o)
          × (text_eq o.status order_status_paid ≡ true)
          × (d' ≡ d))
        ⊎ IsSettled env d form d')

module _ (env : Env) (pay : Alipay) where
  pub load_config_lem :
      (w : World) → On (λ c w'. w'.db ≡ w.db) (λ e w'. w'.db ≡ w.db) (load_config env pay w)
  unfolding load_config
  load_config_lem w = On-bind _ _ w (
      On-attempt _ w (
        On-mono (get_lem env (text "alipay_config") w)
          (λ raw w' r.
            On-if (is_empty raw) _ _ w' (λ _. On-pure _ w' r.1)
              (λ _.
                On-bind _ _ w'
                  (On-lift (pay.decode_config raw) w' (λ c _. On-pure _ w' r.1) (λ e _. r.1))))
          (λ e w' r. On-pure _ w' r)))

  settle_order_lem :
      (form : Form) (d : Db) (w : World)
      → w.db ≡ d
      → On (λ _ w'. IsNotified env d form w'.db) (λ e w'. Unit {0}) (settle_order env pay form w)
  unfolding settle_order
  settle_order_lem form d w same = On-bind _ _ w (
      On-first (orders env) _ w
        (λ o found.
          On-if (text_eq o.status order_status_paid) _ _ _
            (λ paid. On-pure tt _ (
              inr (
                inl (
                  o,
                  ap (λ (d : Db). find? (has_trade_no (number_in form)) d.orders) (sym same)
                      ∙ found,
                  paid,
                  same,
                ))))
            (λ unpaid. On-bind _ _ _ (
              On-ask env.now _ (
                On-bind _ _ _ (
                  On-save (orders env) _ _
                    (On-bind _ _ _ (
                      On-mono
                        (adjust_lem env o.user_id o.points ledger_type_payment (text "支付宝元值") 0
                          (pay_biz_no o) _)
                        (λ l w' done. On-pure tt w' (
                          inr (
                            inr (
                              subst (λ d. IsSettled env d form w'.db) same
                                (record {
                                  order = o;
                                  found = found;
                                  unpaid = unpaid;
                                  row = paid_order o _ _ _;
                                  row_id = refl;
                                  row_number = refl;
                                  row_points = refl;
                                  row_paid = refl;
                                  entry = l;
                                  adjusted = done;
                                })))))
                        (λ e w' _. tt)))
                    (λ e. tt))))))
        (λ e _. tt))

  pub notify_lem :
      (form : Form) (w : World)
      → On
          (λ _ w'. IsNotified env w.db form w'.db)
          (λ e w'. w'.db ≡ w.db)
          (handle_notify env pay form w)
  unfolding handle_notify
  notify_lem form w =
      On-if (is_empty (number_in form)) _ _ w (λ _. On-raise missing_out_trade_no w refl)
        (λ _.
          On-if (not (says_paid form)) _ _ w
            (λ other. On-pure tt w (inl (not_paid (says_paid form) other, refl)))
            (λ _. On-bind _ _ w (
              On-mono (load_config_lem w)
                (λ c w1 same. On-bind _ _ w1 (
                  On-if (not (is_empty c.public_key) && not (is_empty (lookup (text "sign") form)))
                    _ _ w1 (λ _. On-lift _ w1 (λ _ _. settles w1 same) (λ e _. same))
                    (λ _. On-pure tt w1 (settles w1 same))))
                (λ e w1 same. same))))
    where
      not_paid : (b : Bool) → not b ≡ true → b ≡ false
      not_paid true h = cc
      not_paid false h = refl

      settles :
          (w1 : World)
          → w1.db ≡ w.db
          → On
              (λ _ w'. IsNotified env w.db form w'.db)
              (λ e w'. w'.db ≡ w.db)
              (transaction env (settle_order env pay form) w1)
      settles w1 same = On-transaction env _ w1 (
          On-mono (settle_order_lem form w.db w1 same) (λ _ w' done. (done, λ e. same))
            (λ e w' _. same))
