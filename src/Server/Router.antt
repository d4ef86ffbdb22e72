-- ===== src/Server/Router.antt =====
-- The routes of server/router.go and their guards: a request is a constructor for each route, with
-- what gin has read of it; a body is `none` where it does not bind.
use tu_dns.Prelude.{Bool, not, ◌||◌, List, Option}
use tu_dns.Text.{Text}
use tu_dns.Result.{Error, Result, ok, err, not_installed, user_disabled, admin_required}
use tu_dns.Models.{User}
use tu_dns.World.{Action, pure, raise_if, attempt, ◌>>=◌, ◌>>◌}
use tu_dns.Auth.{bearer_auth, admin_only}
use tu_dns.Admin.{UpdateUserInput}
use tu_dns.Domain.{SaveInput}
use tu_dns.Record.{BundleInput, AddRecordInput, UpdateRecordInput}
use tu_dns.Payment.{PayConfig, Amount}
use tu_dns.Payment.Query.{Form}
use tu_dns.Server.{App, Answer, Response, failure, just, unauthorized, forbid}
use tu_dns.Server.Accounts.{
  RegisterInput, LoginInput, PasswordInput, DeltaInput, handle_register, handle_login, handle_me,
  handle_change_password, handle_list_api_keys, handle_create_api_key, handle_revoke_api_key,
  handle_admin_list_api_keys, handle_admin_revoke_api_key, handle_list_notifications,
  handle_unread_count, handle_mark_read, handle_mark_all_read, handle_my_points, handle_redeem,
  handle_admin_users, handle_admin_update_user, handle_admin_adjust_points,
  handle_admin_reset_password, handle_admin_points, handle_admin_logs,
}
use tu_dns.Server.Names.{
  PlatformInput, handle_public_domains, handle_dns_providers, handle_create_bundle,
  handle_my_subdomains, handle_delete_subdomain, handle_my_records, handle_add_record,
  handle_update_record, handle_delete_record, handle_admin_domains, handle_admin_save_domain,
  handle_admin_delete_domain, handle_admin_dns_check, handle_admin_dns_zones,
  handle_admin_subdomains, handle_admin_records,
}
use tu_dns.Server.Payments.{
  handle_alipay_create, handle_my_orders, handle_get_order, handle_alipay_notify,
  handle_alipay_mock, handle_admin_get_alipay, handle_admin_save_alipay, handle_admin_orders,
}
use tu_dns.Server.Admin.{
  CodeInput, HookInput, handle_admin_webhooks, handle_admin_create_webhook,
  handle_admin_update_webhook, handle_admin_delete_webhook, handle_admin_list_redeem,
  handle_admin_create_redeem, handle_admin_get_settings, handle_admin_save_settings,
}

-- The routes behind `requireInstalled` alone.
pub data PublicRequest : Type 0 where
  register_account : Option RegisterInput → PublicRequest
  log_in : Option LoginInput → PublicRequest
  public_domains dns_providers : PublicRequest
  alipay_notify : Option Form → PublicRequest
  alipay_mock : Option Text → PublicRequest

-- The group `authg`
pub data UserRequest : Type 0 where
  me my_keys unread_notices read_all_notices my_subdomains my_records my_orders : UserRequest
  new_password : Option PasswordInput → UserRequest
  new_api_key : Option Text → UserRequest
  revoke_api_key : Text → UserRequest
  notices : Option Text → UserRequest
  read_notice : Text → UserRequest
  bundle_request : Option BundleInput → UserRequest
  drop_subdomain : Text → UserRequest
  new_record : Option AddRecordInput → UserRequest
  change_record : Text → Option UpdateRecordInput → UserRequest
  drop_record : Text → UserRequest
  my_points : Option Text → UserRequest
  redeem_code : Option Text → UserRequest
  new_order : Option Amount → UserRequest
  order_by_number : Text → UserRequest

-- The group `adminG`
pub data AdminRequest : Type 0 where
  domains subdomains records codes settings pay_settings orders hooks api_keys : AdminRequest
  users points logs : Option Text → AdminRequest
  change_user : Text → Option UpdateUserInput → AdminRequest
  change_points : Text → Option DeltaInput → AdminRequest
  set_password : Text → Option Text → AdminRequest
  save_domain : Text → Option SaveInput → AdminRequest
  drop_domain : Text → AdminRequest
  check_platform platform_zones : Option PlatformInput → AdminRequest
  new_code : Option CodeInput → AdminRequest
  save_settings : Option (List (Text × Text)) → AdminRequest
  save_pay_settings : Option PayConfig → AdminRequest
  new_hook : Option HookInput → AdminRequest
  change_hook : Text → Option HookInput → AdminRequest
  drop_hook : Text → AdminRequest
  drop_api_key : Text → AdminRequest

pub data ApiRequest : Type 0 where
  open_route : PublicRequest → ApiRequest
  user_route : UserRequest → ApiRequest
  admin_route : AdminRequest → ApiRequest

-- Whether the lock of the installation is there and a database is connected; and of the request the
-- header Authorization and the address of the client.
pub record Caller : Type 0 where
  pub locked : Bool
  pub connected : Bool
  pub header : Text
  pub ip : Text

module _ (app : App) where
  unfoldable pub handle_public : PublicRequest → Action Answer
  handle_public (register_account req) = handle_register app req
  handle_public (log_in req) = handle_login app req
  handle_public public_domains = handle_public_domains app
  handle_public dns_providers = handle_dns_providers app
  handle_public (alipay_notify form) = handle_alipay_notify app form
  handle_public (alipay_mock req) = handle_alipay_mock app req

  -- For the user whom `BearerAuth` has found.
  unfoldable pub handle_user : User → Text → UserRequest → Action Answer
  handle_user u ip me = handle_me app u.id
  handle_user u ip my_keys = handle_list_api_keys app u.id
  handle_user u ip unread_notices = handle_unread_count app u.id
  handle_user u ip read_all_notices = handle_mark_all_read app u.id
  handle_user u ip my_subdomains = handle_my_subdomains app u.id
  handle_user u ip my_records = handle_my_records app u.id
  handle_user u ip my_orders = handle_my_orders app u.id
  handle_user u ip (new_password req) = handle_change_password app u.id req
  handle_user u ip (new_api_key req) = handle_create_api_key app u.id req
  handle_user u ip (revoke_api_key id) = handle_revoke_api_key app u.id id
  handle_user u ip (notices page) = handle_list_notifications app u.id page
  handle_user u ip (read_notice id) = handle_mark_read app u.id id
  handle_user u ip (bundle_request req) = handle_create_bundle app u.id ip req
  handle_user u ip (drop_subdomain id) = handle_delete_subdomain app u.id u.role id
  handle_user u ip (new_record req) = handle_add_record app u.id u.role req
  handle_user u ip (change_record id req) = handle_update_record app u.id u.role id req
  handle_user u ip (drop_record id) = handle_delete_record app u.id u.role id
  handle_user u ip (my_points page) = handle_my_points app u.id page
  handle_user u ip (redeem_code req) = handle_redeem app u.id req
  handle_user u ip (new_order req) = handle_alipay_create app u.id req
  handle_user u ip (order_by_number n) = handle_get_order app u.id n

  unfoldable pub handle_admin : User → AdminRequest → Action Answer
  handle_admin u domains = handle_admin_domains app
  handle_admin u subdomains = handle_admin_subdomains app
  handle_admin u records = handle_admin_records app
  handle_admin u codes = handle_admin_list_redeem app
  handle_admin u settings = handle_admin_get_settings app
  handle_admin u pay_settings = handle_admin_get_alipay app
  handle_admin u orders = handle_admin_orders app
  handle_admin u hooks = handle_admin_webhooks app
  handle_admin u api_keys = handle_admin_list_api_keys app
  handle_admin u (users page) = handle_admin_users app page
  handle_admin u (points page) = handle_admin_points app page
  handle_admin u (logs page) = handle_admin_logs app page
  handle_admin u (change_user id req) = handle_admin_update_user app id req
  handle_admin u (change_points id req) = handle_admin_adjust_points app u.id id req
  handle_admin u (set_password id req) = handle_admin_reset_password app id req
  handle_admin u (save_domain id req) = handle_admin_save_domain app id req
  handle_admin u (drop_domain id) = handle_admin_delete_domain app id
  handle_admin u (check_platform req) = handle_admin_dns_check app req
  handle_admin u (platform_zones req) = handle_admin_dns_zones app req
  handle_admin u (new_code req) = handle_admin_create_redeem app req
  handle_admin u (save_settings req) = handle_admin_save_settings app req
  handle_admin u (save_pay_settings req) = handle_admin_save_alipay app req
  handle_admin u (new_hook req) = handle_admin_create_webhook app req
  handle_admin u (change_hook id req) = handle_admin_update_webhook app id req
  handle_admin u (drop_hook id) = handle_admin_delete_webhook app id
  handle_admin u (drop_api_key id) = handle_admin_revoke_api_key app id

  -- What a guard answers to its error.
  abbrev pub refusal : Error → Response
  refusal not_installed = failure 503 503 not_installed
  refusal user_disabled = forbid user_disabled
  refusal admin_required = forbid admin_required
  refusal e = unauthorized e

  -- `requireInstalled`
  unfoldable pub require_installed : Caller → Action (Unit {0})
  require_installed c = raise_if (not c.locked || not c.connected) not_installed

  abbrev pub pass : {A : Type 0} → (A → Action Answer) → Result A → Action Answer
  pass f (ok a) = f a
  pass f (err e) = pure (just (refusal e))

  -- A guard that aborts with its refusal, or goes on.
  unfoldable pub guard : {A : Type 0} → Action A → (A → Action Answer) → Action Answer
  guard m f = do r ← attempt m; pass f r

  -- The guards of `authg`
  unfoldable pub authorize : Caller → Action User
  unfolding bearer_auth require_installed
  authorize c = do require_installed c; bearer_auth app.env app.security c.connected c.header

  -- The guards of `adminG`
  unfoldable pub authorize_admin : Caller → Action User
  unfolding authorize admin_only
  authorize_admin c = do u ← authorize c; admin_only u.role; pure u

  -- A request to `/api`, less those of the installation
  unfoldable pub serve : Caller → ApiRequest → Action Answer
  unfolding guard handle_public handle_user handle_admin
  serve c (open_route req) = guard (require_installed c) λ _. handle_public req
  serve c (user_route req) = guard (authorize c) λ u. handle_user u c.ip req
  serve c (admin_route req) = guard (authorize_admin c) λ u. handle_admin u req
