-- ===== src/Payment/Once.antt =====
-- `HandleNotify` called again, and the books.
use tu_dns.Prelude.{
  ℕ, ◌≡◌, sym, ap, ◌∙◌, inl, inr, Bool, true, some, find?, find?-put, find?-holds, any, ◌==◌, All,
  All-find?, ==_refl,
}
use mathlib.Core.Path.{subst}
use mathlib.Core.Option.{some-injective}
use tu_dns.Prelude.Keys.{key-any}
use tu_dns.Prelude.Int.{IsInt64}
use tu_dns.Text.{text_eq}
use tu_dns.Text.Laws.{text_eq_refl}
use tu_dns.Gorm.{put_row}
use tu_dns.Models.{Db, PaymentOrder, order_status_paid}
use tu_dns.Models.Schema.{order_schema}
use tu_dns.World.{World, Env}
use tu_dns.World.On.{On, On-mono}
use tu_dns.Points.Adjust.{Adjusted}
use tu_dns.Points.Balance.{IsBalanced, Adjusted-IsBalanced}
use tu_dns.Payment.Query.{Form}
use tu_dns.Payment.{Alipay, has_trade_no, pay_biz_no, handle_notify}
use tu_dns.Payment.Notify.{IsSettled, IsNotified, number_in, says_paid, notify_lem}

-- The order that a form names is paid.
abbrev pub HasPaid : Db → Form → Type 0
HasPaid d form =
    (o : PaymentOrder) × (find? (has_trade_no (number_in form)) d.orders ≡ some o)
    × (text_eq o.status order_status_paid ≡ true)

module _ (env : Env) (d : Db) (form : Form) (d' : Db) where
  -- `Adjust` does not touch the orders.
  orders-kept : (s : IsSettled env d form d') → d'.orders ≡ put_row order_schema s.row d.orders
  orders-kept s = go s.adjusted
    where
      go :
          Adjusted env
            (record d { orders = put_row order_schema s.row d.orders })
            s.order.user_id
            s.order.points
            (pay_biz_no s.order)
            s.entry
            d'
          → d'.orders ≡ put_row order_schema s.row d.orders
      go (inl (found, same)) = ap (λ (d : Db). d.orders) same
      go (inr (missing, c)) = ap (λ (d : Db). d.orders) c.content

  IsSettled-HasPaid : IsSettled env d form d' → HasPaid d' form
  IsSettled-HasPaid s = (
    s.row,
    ap (find? (has_trade_no (number_in form))) (orders-kept s)
        ∙ rw (ap (λ k. any_id k) s.row_id ∙ key-any (λ (o : PaymentOrder). o.id) _ d.orders s.found)
            (find?-put (has_trade_no (number_in form)) (λ q. q.id == s.row.id) s.row d.orders
              numbered s.found (rw s.row_id (==_refl s.order.id))),
    rw s.row_paid (text_eq_refl order_status_paid),
  )
    where
      any_id : ℕ → Bool
      any_id k = any (λ (q : PaymentOrder). q.id == k) d.orders

      numbered : has_trade_no (number_in form) s.row ≡ true
      numbered = rw s.row_number (find?-holds (has_trade_no (number_in form)) d.orders s.found)

module _ (env : Env) (pay : Alipay) where
  -- A notification for an order that is paid changes nothing.
  notify-paid :
      (form : Form) (w : World)
      → HasPaid w.db form
      → On (λ _ w'. w'.db ≡ w.db) (λ e w'. w'.db ≡ w.db) (handle_notify env pay form w)
  notify-paid form w (o, found, paid) =
      On-mono (notify_lem env pay form w) (λ _ w' done. go w'.db done) (λ e w' same. same)
    where
      go : (d : Db) → IsNotified env w.db form d → d ≡ w.db
      go d (inl (other, same)) = same
      go d (inr (inl (o', found', paid', same))) = same
      go d (inr (inr s)) = cc (
        ap (λ (o : PaymentOrder). text_eq o.status order_status_paid)
            (some-injective o s.order (sym found ∙ s.found)),
        paid,
        s.unpaid,
      )

  -- `HandleNotify` pays an order once: after a call that returned for a form that says paid, no further
  -- form for the same order number, whatever else it says, changes anything.
  pub notify_twice :
      (form form' : Form) (w : World)
      → says_paid form ≡ true
      → number_in form' ≡ number_in form
      → On
          (λ _ w1.
            On (λ _ w2. w2.db ≡ w1.db) (λ e w2. w2.db ≡ w1.db) (handle_notify env pay form' w1))
          (λ e w1. w1.db ≡ w.db)
          (handle_notify env pay form w)
  notify_twice form form' w says same_number =
      On-mono (notify_lem env pay form w)
        (λ _ w1 done. notify-paid form' w1 (paid_after w1.db done)) (λ e w1 same. same)
    where
      renumber : (d : Db) → HasPaid d form → HasPaid d form'
      renumber d (o, found, paid) =
          (o, ap (λ n. find? (has_trade_no n) d.orders) same_number ∙ found, paid)

      paid_after : (d : Db) → IsNotified env w.db form d → HasPaid d form'
      paid_after d (inl (other, same)) = cc (other, says)
      paid_after d (inr (inl (o, found, paid, same))) =
          renumber d
            (o, ap (λ (d : Db). find? (has_trade_no (number_in form)) d.orders) same ∙ found, paid)
      paid_after d (inr (inr s)) = renumber d (IsSettled-HasPaid env w.db form d s)

  -- `HandleNotify` keeps the books balanced: after any call, whether it returned or failed, every
  -- user's points are not negative and are the sum of the user's entries, if that was so before and
  -- the points of the orders are int64s.
  pub notify-IsBalanced :
      (form : Form) (w : World)
      → All (λ (o : PaymentOrder). IsInt64 o.points) w.db.orders
      → IsBalanced w.db
      → On (λ _ w'. IsBalanced w'.db) (λ e w'. IsBalanced w'.db) (handle_notify env pay form w)
  notify-IsBalanced form w range b =
      On-mono (notify_lem env pay form w) (λ _ w' done. go w'.db done)
        (λ e w' same. subst IsBalanced (sym same) b)
    where
      go : (d : Db) → IsNotified env w.db form d → IsBalanced d
      go d (inl (other, same)) = subst IsBalanced (sym same) b
      go d (inr (inl (o, found, paid, same))) = subst IsBalanced (sym same) b
      go d (inr (inr s)) =
          Adjusted-IsBalanced env (record w.db { orders = put_row order_schema s.row w.db.orders })
            s.order.user_id s.order.points (pay_biz_no s.order) s.entry d
            (All-find? (λ (o : PaymentOrder). IsInt64 o.points) _ w.db.orders range s.found)
            (record { balances = b.balances; owners = b.owners }) s.adjusted
