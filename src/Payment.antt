-- ===== src/Payment.antt =====
-- payment/alipay/service.go: orders that a platform pays and points that a paid order brings.
pub mod Query
pub mod Order
pub mod Notify
pub mod Once
pub mod Unsigned
pub mod Price
use tu_dns.Prelude.{
  ℕ, ◌≡◌, ◌+◌, ◌-◌, ◌*◌, ◌/◌, ◌%◌, Bool, true, false, not, ◌&&◌, ◌||◌, List, [], ◌∷◌, ◌++◌, map,
  filter, Option, none, some, ltb, ◌==◌, take, length, if◌then◌else◌,
}
use tu_dns.Prelude.Int.{ℤ, pos, negsuc, leb_ℤ, mul64, IsInt64}
use tu_dns.Text.{Text, text, text_eq, is_empty, byte_len}
use tu_dns.Result.{
  Error, Result, ok, err, missing_out_trade_no, pay_disabled, amount_too_small, mock_forbidden,
  panic,
}
use tu_dns.Models.{PaymentOrder, order_status_paid, order_status_pending, ledger_type_payment}
use tu_dns.World.{
  Env, Action, pure, raise, raise_if, lift, attempt, ask, first, find_page, create, save, orders,
  transaction, ◌>>=◌, ◌>>◌,
}
use tu_dns.Points.{adjust}
use tu_dns.Settings
use Query.{Form, lookup, sorted_query, unsigned_fields}

-- `alipay.Config`
pub record PayConfig : Type 0 where
  pub enabled : Bool
  pub app_id : Text
  pub private_key : Text
  pub public_key : Text
  pub notify_url : Text
  pub return_url : Text
  pub points_per_yuan : ℤ
  pub gateway : Text

-- What the payments use of encoding/json, fmt, net/url and the RSA packages: the settings text of a
-- configuration, the text of a form and of an amount, a signature and its test. Keys are PEM texts.
pub record Alipay : Type 0 where
  pub encode_config : PayConfig → Text
  pub decode_config : Text → Result PayConfig
  pub decode_config-IsInt64 :
      (raw : Text) (c : PayConfig) → decode_config raw ≡ ok c → IsInt64 c.points_per_yuan
  pub marshal : Form → Text
  pub print_yuan : ℤ → Text
  pub print_int : ℤ → Text
  pub print_time : ℕ → Text
  pub encode_query : Form → Text
  pub sign : ℕ → Text → Text → Result Text
  pub verify : Text → Text → Text → Result (Unit {0})

-- The two results of float arithmetic on an amount in yuan: `amountYuan < 0.01`, and
-- `int64(amountYuan*100 + 0.5)`.
pub record Amount : Type 0 where
  pub below_cent : Bool
  pub cents : ℤ

abbrev pub default_gateway : Text
default_gateway = text "https://openapi.alipay.com/gateway.do"

abbrev pub default_config : PayConfig
default_config = record {
  enabled = false;
  app_id = [];
  private_key = [];
  public_key = [];
  notify_url = [];
  return_url = [];
  points_per_yuan = pos 10;
  gateway = default_gateway;
}

-- The defaults of a rate that is not positive and of an empty gateway.
unfoldable pub with_defaults : PayConfig → PayConfig
with_defaults c = record c {
  points_per_yuan = if leb_ℤ c.points_per_yuan (pos 0) then pos 10 else c.points_per_yuan;
  gateway = if is_empty c.gateway then default_gateway else c.gateway;
}

-- Division of int64s, which truncates towards zero.
abbrev pub div100 : ℤ → ℤ
div100 (pos n) = pos (n / 100)
div100 (negsuc n) = if ltb (n + 1) 100 then pos 0 else negsuc ((n + 1) / 100 - 1)

abbrev pub mod100_zero : ℤ → Bool
mod100_zero (pos n) = n % 100 == 0
mod100_zero (negsuc n) = (n + 1) % 100 == 0

-- The points that an amount in cents buys, at a rate per yuan.
unfoldable pub points_for : ℤ → ℤ → ℤ
unfolding mul64
points_for cents rate =
    let points =
      if mod100_zero cents then mul64 (div100 cents) rate else div100 (mul64 cents rate) in
    if leb_ℤ points (pos 0) then rate else points

abbrev pub has_trade_no : Text → PaymentOrder → Bool
has_trade_no n o = text_eq o.out_trade_no n

abbrev pub is_success : Text → Bool
is_success status =
    is_empty status
    || text_eq status (text "TRADE_SUCCESS")
    || text_eq status (text "TRADE_FINISHED")

abbrev pub pay_biz_no : PaymentOrder → Text
pay_biz_no o = text "pay-" ++ o.out_trade_no

-- The row that a notification saves.
abbrev pub paid_order : PaymentOrder → Text → Text → ℕ → PaymentOrder
paid_order o trade_no raw now = record o {
  status = order_status_paid;
  trade_no = trade_no;
  paid_at = some now;
  notify_raw = raw;
}

module _ (env : Env) (pay : Alipay) where
  unfoldable pub config_of : Result Text → Action PayConfig
  unfolding with_defaults
  config_of (err e) = pure default_config
  config_of (ok raw) =
      if is_empty raw
      then pure default_config
      else do c ← lift (pay.decode_config raw); pure (with_defaults c)

  -- `LoadConfig`
  unfoldable pub load_config : Action PayConfig
  unfolding config_of
  load_config = do raw ← attempt (Settings.get env (text "alipay_config")); config_of raw

  -- `SaveConfig`
  unfoldable pub save_config : PayConfig → Action (Unit {0})
  save_config c = Settings.set env (text "alipay_config") (pay.encode_config c)

  -- `verifyRSA2`
  unfoldable pub verify_rsa2 : Form → Text → Result (Unit {0})
  verify_rsa2 form key =
      pay.verify key (sorted_query (unsigned_fields form)) (lookup (text "sign") form)

  -- The body of the transaction of `HandleNotify`.
  unfoldable pub settle_order : Form → Action (Unit {0})
  settle_order form = do
    order ← first (orders env) (has_trade_no (lookup (text "out_trade_no") form))
    if text_eq order.status order_status_paid then pure tt else do
      now ← ask env.now
      save (orders env) (paid_order order (lookup (text "trade_no") form) (pay.marshal form) now)
      adjust env order.user_id order.points ledger_type_payment (text "支付宝元值") 0 (pay_biz_no order)
      pure tt

  -- The signature is tested where there is a public key and the form has a signature.
  unfoldable pub check_signature : PayConfig → Form → Action (Unit {0})
  unfolding verify_rsa2
  check_signature c form =
      if not (is_empty c.public_key) && not (is_empty (lookup (text "sign") form))
      then lift (verify_rsa2 form c.public_key)
      else pure tt

  -- `HandleNotify`
  unfoldable pub handle_notify : Form → Action (Unit {0})
  unfolding settle_order check_signature load_config
  handle_notify form =
      if is_empty (lookup (text "out_trade_no") form)
      then raise missing_out_trade_no
      else if not (is_success (lookup (text "trade_status") form))
      then pure tt
      else do c ← load_config; check_signature c form; transaction env (settle_order form)

  -- The form that `MockPay` makes. The slice of the first 8 bytes panics on a shorter text.
  abbrev pub mock_form : Text → Form
  mock_form n =
      (text "out_trade_no", n)
      ∷ (text "trade_status", text "TRADE_SUCCESS")
      ∷ (text "trade_no", text "MOCK-" ++ take 8 n)
      ∷ []

  -- `MockPay`, for an order number of ASCII characters
  unfoldable pub mock_pay : Text → Action (Unit {0})
  unfolding handle_notify load_config
  mock_pay n = do
    c ← load_config
    raise_if (not (is_empty c.private_key) && c.enabled) mock_forbidden
    raise_if (ltb (length n) 8) panic
    handle_notify (mock_form n)

  abbrev pub page_params : PayConfig → PaymentOrder → Text → Form
  page_params c o time =
      (text "app_id", c.app_id)
      ∷ (text "method", text "alipay.trade.page.pay")
      ∷ (text "format", text "JSON")
      ∷ (text "charset", text "utf-8")
      ∷ (text "sign_type", text "RSA2")
      ∷ (text "timestamp", time)
      ∷ (text "version", text "1.0")
      ∷ (text "notify_url", c.notify_url)
      ∷ (text "return_url", c.return_url)
      ∷ (
        text "biz_content",
        pay.marshal (
            (text "out_trade_no", o.out_trade_no)
            ∷ (text "product_code", text "FAST_INSTANT_TRADE_PAY")
            ∷ (text "total_amount", pay.print_yuan o.amount_cent)
            ∷ (text "subject", text "TuDNS积分元值" ++ pay.print_int o.points)
            ∷ []),
      )
      ∷ []

  -- `buildPagePayURL`: with no keys, the page of the simulation
  unfoldable pub build_page_pay_url : PayConfig → PaymentOrder → Action Text
  build_page_pay_url c o =
      if is_empty c.app_id || is_empty c.private_key
      then pure (
          text "/pay/mock?out_trade_no="
          ++ o.out_trade_no
          ++ text "&amount="
          ++ pay.print_yuan o.amount_cent)
      else do
        time ← ask (λ m. pay.print_time (env.now m))
        let params = page_params c o time
        signed ← ask (λ m. pay.sign m c.private_key (sorted_query params))
        sign ← lift signed
        pure (c.gateway ++ text "?" ++ pay.encode_query (params ++ (text "sign", sign) ∷ []))

  -- The order before its page is known; its number is a UUID without dashes.
  abbrev pub new_order : ℕ → Text → ℤ → ℤ → PaymentOrder
  new_order user_id id cents points = record {
    id = 0;
    user_id = user_id;
    out_trade_no = filter (λ ch. not (ch == b'-')) id;
    trade_no = [];
    amount_cent = cents;
    points = points;
    status = order_status_pending;
    pay_url = [];
    notify_raw = [];
    paid_at = none;
  }

  -- `CreateOrder`
  unfoldable pub create_order : ℕ → Amount → Action PaymentOrder
  unfolding load_config build_page_pay_url points_for
  create_order user_id amount = do
    c ← load_config
    raise_if (not c.enabled && not (is_empty c.private_key)) pay_disabled
    raise_if amount.below_cent amount_too_small
    id ← ask env.uuid
    let order = new_order user_id id amount.cents (points_for amount.cents c.points_per_yuan)
    url ← build_page_pay_url c order
    create (orders env) (record order { pay_url = url })

  abbrev pub of_user : ℕ → PaymentOrder → Bool
  of_user user_id o = if ltb 0 user_id then o.user_id == user_id else true

  -- `GetOrder`
  unfoldable pub get_order : ℕ → Text → Action PaymentOrder
  get_order user_id n = first (orders env) (λ o. has_trade_no n o && of_user user_id o)

  -- `ListOrders`
  unfoldable pub list_orders : ℕ → Action (List PaymentOrder)
  list_orders user_id = find_page (orders env) (of_user user_id) (pos 0) 100
