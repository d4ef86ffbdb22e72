-- ===== src/Server/Sound/Handlers.antt =====
-- The handlers of the routes under the invariant of the database. The integers of a body are those that
-- encoding/json decodes into an int64 or an int.
use tu_dns.Prelude.{none, some}
use tu_dns.Text.{Text}
use tu_dns.Models.{User}
use tu_dns.World.Preserves.{Preserves}
use tu_dns.Server.{App, Event, Data}
use tu_dns.Server.Accounts.{
  handle_me, handle_list_api_keys, handle_unread_count, handle_mark_all_read,
  handle_change_password, handle_create_api_key, handle_revoke_api_key, handle_list_notifications,
  handle_mark_read, handle_my_points, handle_redeem, handle_register, handle_login,
}
use tu_dns.Server.Names.{
  handle_my_subdomains, handle_my_records, handle_create_bundle, handle_delete_subdomain,
  handle_add_record, handle_update_record, handle_delete_record, tell, handle_public_domains,
  handle_dns_providers,
}
use tu_dns.Server.Payments.{
  handle_my_orders, handle_alipay_create, handle_get_order, handle_alipay_notify,
  handle_alipay_mock,
}
use tu_dns.Server.Router.{
  PublicRequest, UserRequest, handle_public, handle_user, me, my_keys, unread_notices,
  read_all_notices, my_subdomains, my_records, my_orders, new_password, new_api_key, revoke_api_key,
  notices, read_notice, bundle_request, drop_subdomain, new_record, change_record, drop_record,
  my_points, redeem_code, new_order, order_by_number, register_account, log_in, public_domains,
  dns_providers, alipay_notify, alipay_mock,
}
use tu_dns.Server.Sound.Accounts.{
  list_points-IsSound, list_users-IsSound, list_logs-IsSound, write_log-IsSound,
  update_user-IsSound, adjust_points-IsSound, list_notifications-IsSound, unread_count-IsSound,
  mark_read-IsSound, mark_all_read-IsSound, register_user-IsSound, create_admin-IsSound,
  login-IsSound, get_user-IsSound, change_password-IsSound, reset_password-IsSound,
  create_key-IsSound, list_keys-IsSound, revoke-IsSound, bearer_auth-IsSound,
}
use tu_dns.Server.Sound.Names.{
  update_record-IsSound, delete_record-IsSound, delete_subdomain-IsSound, list_by_user-IsSound,
  list_all-IsSound, list_subdomains-IsSound, list_public-IsSound, list_domains-IsSound,
  check_provider-IsSound, list_zones-IsSound, create_bundle-IsSound, add_record-IsSound,
  save_domain-IsSound, delete_domain-IsSound,
}
use tu_dns.Server.Sound.Orders.{
  get-IsSound, set-IsSound, get_all-IsSound, load_config-IsSound, save_config-IsSound,
  handle_notify-IsSound, mock_pay-IsSound, create_order-IsSound, get_order-IsSound,
  list_orders-IsSound,
}
use tu_dns.Server.Sound.Codes.{redeem-IsSound, create_code-IsSound, list-IsSound}
use tu_dns.Server.Sound.Hooks.{
  list_webhooks-IsSound, create_webhook-IsSound, update_webhook-IsSound, delete_webhook-IsSound,
  dispatch-IsSound, reply_rules,
}
use tu_dns.Server.Sound.{IsSound}

module _ (app : App) where
  tell-IsSound : (event : Text) (e : Event) (d : Data) → Preserves IsSound (tell app event e d)
  unfolding tell
  tell-IsSound event e d = search (reply_rules, dispatch-IsSound) depth 10

  pub ruleset service_rules = (
    reply_rules, list_points-IsSound, list_users-IsSound, list_logs-IsSound, write_log-IsSound,
    update_user-IsSound, adjust_points-IsSound, list_notifications-IsSound, unread_count-IsSound,
    mark_read-IsSound, mark_all_read-IsSound, register_user-IsSound, create_admin-IsSound,
    login-IsSound, get_user-IsSound, change_password-IsSound, reset_password-IsSound,
    create_key-IsSound, list_keys-IsSound, revoke-IsSound, bearer_auth-IsSound,
    update_record-IsSound, delete_record-IsSound, delete_subdomain-IsSound, list_by_user-IsSound,
    list_all-IsSound, list_subdomains-IsSound, list_public-IsSound, list_domains-IsSound,
    check_provider-IsSound, list_zones-IsSound, create_bundle-IsSound, add_record-IsSound,
    save_domain-IsSound, delete_domain-IsSound, get-IsSound, set-IsSound, get_all-IsSound,
    load_config-IsSound, save_config-IsSound, handle_notify-IsSound, mock_pay-IsSound,
    create_order-IsSound, get_order-IsSound, list_orders-IsSound, redeem-IsSound,
    create_code-IsSound, list-IsSound, list_webhooks-IsSound, create_webhook-IsSound,
    delete_webhook-IsSound, dispatch-IsSound,
  )

  pub handle_user-IsSound :
      (u : User) (ip : Text) (req : UserRequest) → Preserves IsSound (handle_user app u ip req)
  unfolding handle_user handle_me handle_list_api_keys handle_unread_count handle_mark_all_read
      handle_my_subdomains handle_my_records handle_my_orders handle_change_password
      handle_create_api_key handle_revoke_api_key handle_list_notifications handle_mark_read
      handle_create_bundle handle_delete_subdomain handle_add_record handle_update_record
      handle_delete_record handle_my_points handle_redeem handle_alipay_create handle_get_order
  handle_user-IsSound u ip me = search service_rules depth 30
  handle_user-IsSound u ip my_keys = search service_rules depth 30
  handle_user-IsSound u ip unread_notices = search service_rules depth 30
  handle_user-IsSound u ip read_all_notices = search service_rules depth 30
  handle_user-IsSound u ip my_subdomains = search service_rules depth 30
  handle_user-IsSound u ip my_records = search service_rules depth 30
  handle_user-IsSound u ip my_orders = search service_rules depth 30
  handle_user-IsSound u ip (new_password req) = search service_rules depth 30
  handle_user-IsSound u ip (new_api_key req) = search service_rules depth 30
  handle_user-IsSound u ip (revoke_api_key id) = search service_rules depth 30
  handle_user-IsSound u ip (notices page) = search service_rules depth 30
  handle_user-IsSound u ip (read_notice id) = search service_rules depth 30
  handle_user-IsSound u ip (bundle_request req) = search service_rules depth 30
  handle_user-IsSound u ip (drop_subdomain id) = search service_rules depth 30
  handle_user-IsSound u ip (new_record req) = search service_rules depth 30
  handle_user-IsSound u ip (change_record id req) = search service_rules depth 30
  handle_user-IsSound u ip (drop_record id) = search service_rules depth 30
  handle_user-IsSound u ip (my_points page) = search service_rules depth 30
  handle_user-IsSound u ip (redeem_code req) = search service_rules depth 30
  handle_user-IsSound u ip (new_order req) = search service_rules depth 30
  handle_user-IsSound u ip (order_by_number n) = search service_rules depth 30

  pub handle_public-IsSound : (req : PublicRequest) → Preserves IsSound (handle_public app req)
  unfolding handle_public handle_register handle_login handle_public_domains handle_dns_providers
      handle_alipay_notify handle_alipay_mock
  handle_public-IsSound (register_account req) = search service_rules depth 30
  handle_public-IsSound (log_in req) = search service_rules depth 30
  handle_public-IsSound public_domains = search service_rules depth 30
  handle_public-IsSound dns_providers = search service_rules depth 30
  handle_public-IsSound (alipay_notify none) = search service_rules depth 30
  handle_public-IsSound (alipay_notify (some form)) = search service_rules depth 30
  handle_public-IsSound (alipay_mock req) = search service_rules depth 30
