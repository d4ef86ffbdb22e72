-- ===== src/Server/Payments.antt =====
-- server/handlers_payment.go, and the handlers of handlers_admin.go on the payments' configuration and
-- orders. A form is the first value of each of its keys.
use tu_dns.Prelude.{ℕ, Bool, ◌||◌, Option, none, some, if◌then◌else◌}
use tu_dns.Text.{Text, text, text_eq, is_empty}
use tu_dns.Result.{Result, ok, err, panic, no_such_order}
use tu_dns.World.{Action, pure, attempt, lift, ◌>>=◌}
use tu_dns.Payment.{
  PayConfig, Amount, load_config, save_config, handle_notify, mock_pay, create_order, get_order,
  list_orders,
}
use tu_dns.Payment.Query.{Form, lookup}
use tu_dns.Webhook.{dispatch}
use tu_dns.Server.{
  App, Answer, Response, plain, one_order, order_list, pay_config, trade_no_event, just,
  bad_request, missing, server_error, reply, reply_then, bind_json, const_done,
}

module _ (app : App) where
  unfoldable pub handle_alipay_create : ℕ → Option Amount → Action Answer
  unfolding create_order reply bind_json
  handle_alipay_create uid req =
      bind_json req λ amount. reply bad_request one_order (create_order app.env app.pay uid amount)

  unfoldable pub handle_my_orders : ℕ → Action Answer
  unfolding list_orders reply
  handle_my_orders uid = reply server_error order_list (list_orders app.env app.pay uid)

  unfoldable pub handle_get_order : ℕ → Text → Action Answer
  unfolding get_order reply
  handle_get_order uid n =
      reply (λ _. missing no_such_order) one_order (get_order app.env app.pay uid n)

  -- Any error is answered by the text `fail`.
  abbrev fail_text : Response
  fail_text = plain 400 (text "fail")

  abbrev pub notify_with : Form → Action Answer
  notify_with form =
      reply_then (λ _. fail_text) (handle_notify app.env app.pay form)
        λ _. do
          sent ←
              dispatch app.env app.http (text "payment.completed")
                (app.event_json (trade_no_event (lookup (text "out_trade_no") form)))
          pure (record { response = plain 200 (text "success"); sent = sent })

  unfoldable pub handle_alipay_notify : Option Form → Action Answer
  unfolding handle_notify dispatch reply_then
  handle_alipay_notify none = pure (just fail_text)
  handle_alipay_notify (some form) = notify_with form

  unfoldable pub handle_alipay_mock : Option Text → Action Answer
  unfolding mock_pay reply bind_json
  handle_alipay_mock req =
      bind_json req λ n. reply bad_request const_done (mock_pay app.env app.pay n)

  abbrev masked : Text → Text
  masked key = if is_empty key then key else text "***"

  abbrev pub mask : PayConfig → PayConfig
  mask c = record c { private_key = masked c.private_key; public_key = masked c.public_key }

  unfoldable pub handle_admin_get_alipay : Action Answer
  unfolding load_config reply
  handle_admin_get_alipay =
      reply server_error (λ c. pay_config (mask c)) (load_config app.env app.pay)

  abbrev keeps_key : Text → Bool
  keeps_key key = text_eq key (text "***") || is_empty key

  -- The key that is saved. An error of `LoadConfig` has left `old` nil, and reading its key panics.
  abbrev pub key_or_old : (PayConfig → Text) → Text → Result PayConfig → Result Text
  key_or_old key_of new (ok old) = if keeps_key new then ok (key_of old) else ok new
  key_or_old key_of new (err e) = if keeps_key new then err panic else ok new

  abbrev pub save_with : PayConfig → Action (Unit {0})
  save_with c = do
    old ← attempt (load_config app.env app.pay)
    private_key ← lift (key_or_old (λ o. o.private_key) c.private_key old)
    public_key ← lift (key_or_old (λ o. o.public_key) c.public_key old)
    save_config app.env app.pay (record c { private_key = private_key; public_key = public_key })

  unfoldable pub handle_admin_save_alipay : Option PayConfig → Action Answer
  unfolding load_config save_config reply bind_json
  handle_admin_save_alipay req = bind_json req λ c. reply server_error const_done (save_with c)

  unfoldable pub handle_admin_orders : Action Answer
  unfolding list_orders reply
  handle_admin_orders = reply server_error order_list (list_orders app.env app.pay 0)
