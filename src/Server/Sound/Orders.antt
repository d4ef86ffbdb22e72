-- ===== src/Server/Sound/Orders.antt =====
-- Settings, the configuration of the payments and the orders under the invariant of the database.
use tu_dns.Prelude.{
  ℕ, sym, inl, inr, Bool, true, false, [], ◌∷◌, All-append, All-find?, arith, if◌then◌else◌,
}
use mathlib.Core.Path.{subst}
use tu_dns.Prelude.Int.{ℤ, pos, negsuc, IsInt64, leb_ℤ, mul64, mul64-IsInt64}
use tu_dns.Text.{Text, text, is_empty}
use tu_dns.Result.{Result, ok, err}
use tu_dns.Gorm.{put_row, All-put_row}
use tu_dns.Models.{Db, Setting, PaymentOrder}
use tu_dns.Models.Schema.{order_schema}
use tu_dns.World.{World, Env, orders, create, ◌>>=◌}
use tu_dns.World.On.{On, On-if, On-bind, On-pure, On-mono, On-attempt, On-lift, On-raise_if, On-ask}
use tu_dns.World.Rules.{On-create}
use tu_dns.World.Preserves.{Preserves, Preserves-On, Preserves-bind, On-Preserves}
use tu_dns.Settings.{value_or_empty}
use tu_dns.Settings
use tu_dns.Payment.Query.{Form}
use tu_dns.Payment.{
  Alipay, PayConfig, Amount, default_config, with_defaults, div100, mod100_zero, points_for,
  pay_biz_no, config_of, load_config, save_config, handle_notify, mock_pay, build_page_pay_url,
  new_order, create_order, get_order, list_orders,
}
use tu_dns.Payment.Notify.{IsNotified, notify_lem}
use tu_dns.Server.Sound.{IsSound, IsSound-Adjusted, IsSound-orders, sound_rules}

div100-IsInt64 : (a : ℤ) → IsInt64 a → IsInt64 (div100 a)
div100-IsInt64 (pos n) h = ground arith
div100-IsInt64 (negsuc n) h = ground arith

rate_or-IsInt64 :
    (b : Bool) (rate p : ℤ) → IsInt64 rate → IsInt64 p → IsInt64 (if b then rate else p)
rate_or-IsInt64 true rate p h k = h
rate_or-IsInt64 false rate p h k = k

points_for-IsInt64 : (cents rate : ℤ) → IsInt64 rate → IsInt64 (points_for cents rate)
unfolding points_for
points_for-IsInt64 cents rate h = rate_or-IsInt64 _ rate _ h (bought (mod100_zero cents))
  where
    bought :
        (b : Bool) → IsInt64 (if b then mul64 (div100 cents) rate else div100 (mul64 cents rate))
    bought true = mul64-IsInt64 (div100 cents) rate
    bought false = div100-IsInt64 _ (mul64-IsInt64 cents rate)

module _ (env : Env) where
  value_or_empty-IsSound : (r : Result Setting) → Preserves IsSound (value_or_empty r)
  unfolding value_or_empty
  value_or_empty-IsSound (ok item) = search sound_rules
  value_or_empty-IsSound (err e) = search sound_rules

  pub get-IsSound : (key : Text) → Preserves IsSound (Settings.get env key)
  unfolding Settings.get
  get-IsSound key = search (sound_rules, value_or_empty-IsSound)

  pub set-IsSound : (key value : Text) → Preserves IsSound (Settings.set env key value)
  unfolding Settings.set
  set-IsSound key value = search sound_rules

  pub get_all-IsSound : Preserves IsSound (Settings.get_all env)
  unfolding Settings.get_all
  get_all-IsSound = search sound_rules

module _ (env : Env) (pay : Alipay) where
  config_of-IsSound : (r : Result Text) → Preserves IsSound (config_of env pay r)
  unfolding config_of
  config_of-IsSound (ok raw) = search sound_rules depth 10
  config_of-IsSound (err e) = search sound_rules

  pub load_config-IsSound : Preserves IsSound (load_config env pay)
  unfolding load_config
  load_config-IsSound = search (sound_rules, config_of-IsSound, get-IsSound) depth 10

  pub save_config-IsSound : (c : PayConfig) → Preserves IsSound (save_config env pay c)
  unfolding save_config
  save_config-IsSound c = set-IsSound env (text "alipay_config") (pay.encode_config c)

  rate-IsInt64 :
      (c : PayConfig) → IsInt64 c.points_per_yuan → IsInt64 (with_defaults c).points_per_yuan
  unfolding with_defaults
  rate-IsInt64 c h = pick (leb_ℤ c.points_per_yuan (pos 0))
    where
      pick : (b : Bool) → IsInt64 (if b then pos 10 else c.points_per_yuan)
      pick true = omega arith
      pick false = h

  config_of-rate :
      (r : Result Text) (w : World)
      → IsSound w.db
      → On
          (λ c w'. IsInt64 c.points_per_yuan × IsSound w'.db)
          (λ e w'. IsSound w'.db)
          (config_of env pay r w)
  unfolding config_of
  config_of-rate (err e) w s = On-pure default_config w (omega arith, s)
  config_of-rate (ok raw) w s =
      On-if (is_empty raw) _ _ w (λ _. On-pure default_config w (omega arith, s))
        (λ _. On-bind _ _ w (
          On-lift (pay.decode_config raw) w
            (λ c e. On-pure _ w (rate-IsInt64 c (pay.decode_config-IsInt64 raw c e), s))
            (λ e _. s)))

  load_config-rate :
      (w : World)
      → IsSound w.db
      → On
          (λ c w'. IsInt64 c.points_per_yuan × IsSound w'.db)
          (λ e w'. IsSound w'.db)
          (load_config env pay w)
  unfolding load_config
  load_config-rate w s = On-bind _ _ w (
      On-attempt _ w (
        On-mono (On-Preserves _ w (get-IsSound env (text "alipay_config")) s)
          (λ raw w' s'. config_of-rate (ok raw) w' s') (λ e w' s'. config_of-rate (err e) w' s')))

  pub handle_notify-IsSound : (form : Form) → Preserves IsSound (handle_notify env pay form)
  handle_notify-IsSound form = Preserves-On _ λ w s.
      On-mono (notify_lem env pay form w) (λ _ w' done. go w.db w'.db s done)
        (λ e w' same. subst IsSound (sym same) s)
    where
      go : (d d' : Db) → IsSound d → IsNotified env d form d' → IsSound d'
      go d d' s (inl (other, same)) = subst IsSound (sym same) s
      go d d' s (inr (inl (o, found, paid, same))) = subst IsSound (sym same) s
      go d d' s (inr (inr done)) =
          IsSound-Adjusted env (record d { orders = put_row order_schema done.row d.orders })
            done.order.user_id done.order.points (pay_biz_no done.order) done.entry d'
            (All-find? (λ (o : PaymentOrder). IsInt64 o.points) _ d.orders s.orders done.found)
            (IsSound-orders d _
              (All-put_row order_schema (λ (o : PaymentOrder). IsInt64 o.points) done.row d.orders
                (subst IsInt64 (sym done.row_points) (
                  All-find? (λ (o : PaymentOrder). IsInt64 o.points) _ d.orders s.orders
                    done.found))
                s.orders)
              s)
            done.adjusted

  pub mock_pay-IsSound : (n : Text) → Preserves IsSound (mock_pay env pay n)
  unfolding mock_pay
  mock_pay-IsSound n = search (sound_rules, load_config-IsSound, handle_notify-IsSound) depth 20

  build_page_pay_url-IsSound :
      (c : PayConfig) (o : PaymentOrder) → Preserves IsSound (build_page_pay_url env pay c o)
  unfolding build_page_pay_url
  build_page_pay_url-IsSound c o = search sound_rules depth 20

  stored_order-IsSound :
      (c : PayConfig) (o : PaymentOrder)
      → IsInt64 o.points
      → Preserves IsSound (do
        url ← build_page_pay_url env pay c o
        create (orders env) (record o { pay_url = url }))
  stored_order-IsSound c o h = Preserves-bind _ _ (build_page_pay_url-IsSound c o) λ url.
      Preserves-On _ λ w s.
        On-create (orders env) (record o { pay_url = url }) w
          (λ r made.
            IsSound-orders w.db _
              (All-append _ w.db.orders (r ∷ []) s.orders
                (subst (λ (o : PaymentOrder). IsInt64 o.points) (sym made.keeps) h, tt))
              s)
          (λ e. s)

  created_order_lem :
      (user_id : ℕ) (amount : Amount) (w : World)
      → IsSound w.db
      → On (λ _ w'. IsSound w'.db) (λ _ w'. IsSound w'.db) (create_order env pay user_id amount w)
  unfolding create_order
  created_order_lem user_id amount w s = On-bind _ _ w (
      On-mono (load_config-rate w s)
        (λ c w1 r. On-bind _ _ w1 (
          On-raise_if _ _ w1
            (λ _. On-bind _ _ w1 (
              On-raise_if _ _ w1
                (λ _. On-bind _ _ w1 (
                  On-ask env.uuid w1 (
                    On-Preserves _ _
                      (stored_order-IsSound c (new_order env pay user_id (env.uuid w1.moment) _ _)
                        (points_for-IsInt64 amount.cents c.points_per_yuan r.0))
                      r.1)))
                (λ _. r.1)))
            (λ _. r.1)))
        (λ e w1 s1. s1))

  pub create_order-IsSound :
      (user_id : ℕ) (amount : Amount) → Preserves IsSound (create_order env pay user_id amount)
  create_order-IsSound user_id amount = Preserves-On _ (created_order_lem user_id amount)

  pub get_order-IsSound : (user_id : ℕ) (n : Text) → Preserves IsSound (get_order env pay user_id n)
  unfolding get_order
  get_order-IsSound user_id n = search sound_rules

  pub list_orders-IsSound : (user_id : ℕ) → Preserves IsSound (list_orders env pay user_id)
  unfolding list_orders
  list_orders-IsSound user_id = search sound_rules
