-- ===== src/Server/Answers/Routes.antt =====
-- Every request to the API is answered.
use tu_dns.Prelude.{ℕ, refl, none, some}
use tu_dns.Text.{Text}
use tu_dns.Result.{Result, ok, err}
use tu_dns.Models.{User}
use tu_dns.World.{World}
use tu_dns.World.On.{On}
use tu_dns.Admin.{write_log}
use tu_dns.Server.{App, Answer, Event, Data, plain, status_of}
use tu_dns.Server.Accounts.{
  handle_register, handle_login, handle_me, handle_list_api_keys, handle_unread_count,
  handle_mark_all_read, handle_change_password, handle_create_api_key, handle_revoke_api_key,
  handle_list_notifications, handle_mark_read, handle_my_points, handle_redeem,
  handle_admin_list_api_keys, handle_admin_users, handle_admin_points, handle_admin_logs,
  handle_admin_update_user, handle_admin_adjust_points, handle_admin_reset_password,
  handle_admin_revoke_api_key,
}
use tu_dns.Server.Names.{
  handle_public_domains, handle_dns_providers, handle_my_subdomains, handle_my_records,
  handle_create_bundle, handle_delete_subdomain, handle_add_record, handle_update_record,
  handle_delete_record, handle_admin_domains, handle_admin_subdomains, handle_admin_records,
  handle_admin_save_domain, handle_admin_delete_domain, handle_admin_dns_check,
  handle_admin_dns_zones, tell,
}
use tu_dns.Server.Payments.{
  handle_alipay_notify, handle_alipay_mock, handle_my_orders, handle_alipay_create,
  handle_get_order, handle_admin_get_alipay, handle_admin_orders, handle_admin_save_alipay,
}
use tu_dns.Server.Admin.{
  handle_admin_list_redeem, handle_admin_get_settings, handle_admin_webhooks,
  handle_admin_create_redeem, handle_admin_save_settings, handle_admin_create_webhook,
  handle_admin_update_webhook, handle_admin_delete_webhook, CodeInput, create_parsed,
}
use tu_dns.Server.Router.{
  PublicRequest, UserRequest, AdminRequest, ApiRequest, open_route, user_route, admin_route, Caller,
  serve, handle_public, handle_user, handle_admin, register_account, log_in, public_domains,
  dns_providers, alipay_notify, alipay_mock, me, my_keys, unread_notices, read_all_notices,
  my_subdomains, my_records, my_orders, new_password, new_api_key, revoke_api_key, notices,
  read_notice, bundle_request, drop_subdomain, new_record, change_record, drop_record, my_points,
  redeem_code, new_order, order_by_number, domains, subdomains, records, codes, settings,
  pay_settings, orders, hooks, api_keys, users, points, logs, change_user, change_points,
  set_password, save_domain, drop_domain, check_platform, platform_zones, new_code, save_settings,
  save_pay_settings, new_hook, change_hook, drop_hook, drop_api_key,
}
use tu_dns.Server.Answers.{IsStatus, Answers, Answers-guard, Succeeds, answer_rules}

module _ (app : App) where
  plain-IsStatus :
      (t : Text) → IsStatus (status_of (plain 400 t)) × IsStatus (status_of (plain 200 t))
  unfolding status_of
  plain-IsStatus t = (refl, refl)

  fail-IsStatus : (t : Text) → IsStatus (status_of (plain 400 t))
  fail-IsStatus t = (plain-IsStatus t).0

  sent-IsStatus : (t : Text) → IsStatus (status_of (plain 200 t))
  sent-IsStatus t = (plain-IsStatus t).1

  write_log-Succeeds :
      (user_id admin_id : ℕ) (action typ id ip message : Text)
      → Succeeds (write_log app.env user_id admin_id action typ id ip message)
  unfolding write_log
  write_log-Succeeds user_id admin_id action typ id ip message = search answer_rules depth 10

  tell-Answers : (event : Text) (e : Event) (d : Data) → Answers (tell app event e d)
  unfolding tell
  tell-Answers event e d = search answer_rules depth 10

  create_parsed-Answers : (i : CodeInput) (r : Result ℕ) → Answers (create_parsed app i r)
  create_parsed-Answers i (ok t) = search answer_rules
  create_parsed-Answers i (err e) = search answer_rules

  ruleset rules = (
    answer_rules, fail-IsStatus, sent-IsStatus, write_log-Succeeds, tell-Answers,
    create_parsed-Answers,
  )

  handle_public-Answers : (req : PublicRequest) → Answers (handle_public app req)
  unfolding handle_public handle_register handle_login handle_public_domains handle_dns_providers
      handle_alipay_notify handle_alipay_mock
  handle_public-Answers (register_account req) = search rules depth 20
  handle_public-Answers (log_in req) = search rules depth 20
  handle_public-Answers public_domains = search rules depth 20
  handle_public-Answers dns_providers = search rules depth 20
  handle_public-Answers (alipay_notify none) = search rules depth 20
  handle_public-Answers (alipay_notify (some form)) = search rules depth 20
  handle_public-Answers (alipay_mock req) = search rules depth 20

  handle_user-Answers :
      (u : User) (ip : Text) (req : UserRequest) → Answers (handle_user app u ip req)
  unfolding handle_user handle_me handle_list_api_keys handle_unread_count handle_mark_all_read
      handle_my_subdomains handle_my_records handle_my_orders handle_change_password
      handle_create_api_key handle_revoke_api_key handle_list_notifications handle_mark_read
      handle_create_bundle handle_delete_subdomain handle_add_record handle_update_record
      handle_delete_record handle_my_points handle_redeem handle_alipay_create handle_get_order
  handle_user-Answers u ip me = search rules depth 20
  handle_user-Answers u ip my_keys = search rules depth 20
  handle_user-Answers u ip unread_notices = search rules depth 20
  handle_user-Answers u ip read_all_notices = search rules depth 20
  handle_user-Answers u ip my_subdomains = search rules depth 20
  handle_user-Answers u ip my_records = search rules depth 20
  handle_user-Answers u ip my_orders = search rules depth 20
  handle_user-Answers u ip (new_password req) = search rules depth 20
  handle_user-Answers u ip (new_api_key req) = search rules depth 20
  handle_user-Answers u ip (revoke_api_key id) = search rules depth 20
  handle_user-Answers u ip (notices page) = search rules depth 20
  handle_user-Answers u ip (read_notice id) = search rules depth 20
  handle_user-Answers u ip (bundle_request req) = search rules depth 20
  handle_user-Answers u ip (drop_subdomain id) = search rules depth 20
  handle_user-Answers u ip (new_record req) = search rules depth 20
  handle_user-Answers u ip (change_record id req) = search rules depth 20
  handle_user-Answers u ip (drop_record id) = search rules depth 20
  handle_user-Answers u ip (my_points page) = search rules depth 20
  handle_user-Answers u ip (redeem_code req) = search rules depth 20
  handle_user-Answers u ip (new_order req) = search rules depth 20
  handle_user-Answers u ip (order_by_number n) = search rules depth 20

  handle_admin-Answers : (u : User) (req : AdminRequest) → Answers (handle_admin app u req)
  unfolding handle_admin handle_admin_domains handle_admin_subdomains handle_admin_records
      handle_admin_list_redeem handle_admin_get_settings handle_admin_get_alipay handle_admin_orders
      handle_admin_webhooks handle_admin_list_api_keys handle_admin_users handle_admin_points
      handle_admin_logs handle_admin_update_user handle_admin_adjust_points
      handle_admin_reset_password handle_admin_save_domain handle_admin_delete_domain
      handle_admin_dns_check handle_admin_dns_zones handle_admin_create_redeem
      handle_admin_save_settings handle_admin_save_alipay handle_admin_create_webhook
      handle_admin_update_webhook handle_admin_delete_webhook handle_admin_revoke_api_key
  handle_admin-Answers u domains = search rules depth 20
  handle_admin-Answers u subdomains = search rules depth 20
  handle_admin-Answers u records = search rules depth 20
  handle_admin-Answers u codes = search rules depth 20
  handle_admin-Answers u settings = search rules depth 20
  handle_admin-Answers u pay_settings = search rules depth 20
  handle_admin-Answers u orders = search rules depth 20
  handle_admin-Answers u hooks = search rules depth 20
  handle_admin-Answers u api_keys = search rules depth 20
  handle_admin-Answers u (users page) = search rules depth 20
  handle_admin-Answers u (points page) = search rules depth 20
  handle_admin-Answers u (logs page) = search rules depth 20
  handle_admin-Answers u (change_user id req) = search rules depth 20
  handle_admin-Answers u (change_points id req) = search rules depth 20
  handle_admin-Answers u (set_password id req) = search rules depth 20
  handle_admin-Answers u (save_domain id req) = search rules depth 20
  handle_admin-Answers u (drop_domain id) = search rules depth 20
  handle_admin-Answers u (check_platform req) = search rules depth 20
  handle_admin-Answers u (platform_zones req) = search rules depth 20
  handle_admin-Answers u (new_code req) = search rules depth 20
  handle_admin-Answers u (save_settings req) = search rules depth 20
  handle_admin-Answers u (save_pay_settings req) = search rules depth 20
  handle_admin-Answers u (new_hook req) = search rules depth 20
  handle_admin-Answers u (change_hook id req) = search rules depth 20
  handle_admin-Answers u (drop_hook id) = search rules depth 20
  handle_admin-Answers u (drop_api_key id) = search rules depth 20

  serve-Answers : (c : Caller) (req : ApiRequest) → Answers (serve app c req)
  unfolding serve
  serve-Answers c (open_route req) = Answers-guard app _ _ (λ _. handle_public-Answers req)
  serve-Answers c (user_route req) = Answers-guard app _ _ (λ u. handle_user-Answers u c.ip req)
  serve-Answers c (admin_route req) = Answers-guard app _ _ (λ u. handle_admin-Answers u req)

  -- Every request to the API that the rate limiter lets through ends with an answer, in any state and whatever fails: an error of the
  -- database, of a platform or of a service, or a panic of a handler. Its status is one of 200, 400,
  -- 401, 403, 404, 500 and 503.
  pub serve_total :
      (c : Caller) (req : ApiRequest) (w : World)
      → On (λ (r : Answer) w'. IsStatus (status_of r.response)) (λ e w'. ⊥) (serve app c req w)
  serve_total c req w = (serve-Answers c req).at w
