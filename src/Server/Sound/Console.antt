-- ===== src/Server/Sound/Console.antt =====
-- The routes of an administrator under the invariant of the database.
use tu_dns.Prelude.{ℕ, List, [], ◌∷◌, Option, none, some}
use tu_dns.Prelude.Int.{IsInt64}
use tu_dns.Text.{Text}
use tu_dns.Result.{Result, ok, err}
use tu_dns.Models.{User}
use tu_dns.World.Preserves.{Preserves, Preserves-then}
use tu_dns.Domain.{SaveInput}
use tu_dns.Server.{App}
use tu_dns.Server.Names.{
  handle_admin_domains, handle_admin_subdomains, handle_admin_records, handle_admin_save_domain,
  handle_admin_delete_domain, handle_admin_dns_check, handle_admin_dns_zones,
}
use tu_dns.Server.Admin.{
  handle_admin_list_redeem, handle_admin_get_settings, handle_admin_webhooks,
  handle_admin_create_redeem, handle_admin_save_settings, handle_admin_create_webhook,
  handle_admin_update_webhook, handle_admin_delete_webhook, set_each, CodeInput, create_until,
  create_parsed,
}
use tu_dns.Server.Payments.{handle_admin_get_alipay, handle_admin_orders, handle_admin_save_alipay}
use tu_dns.Server.Accounts.{
  handle_admin_list_api_keys, handle_admin_users, handle_admin_points, handle_admin_logs,
  handle_admin_update_user, handle_admin_adjust_points, handle_admin_reset_password,
  handle_admin_revoke_api_key, DeltaInput,
}
use tu_dns.Server.Router.{
  AdminRequest, handle_admin, domains, subdomains, records, codes, settings, pay_settings, orders,
  hooks, api_keys, users, points, logs, change_user, change_points, set_password, save_domain,
  drop_domain, check_platform, platform_zones, new_code, save_settings, save_pay_settings, new_hook,
  change_hook, drop_hook, drop_api_key,
}
use tu_dns.Server.Sound.Codes.{create_code-IsSound}
use tu_dns.Server.Sound.Orders.{set-IsSound}
use tu_dns.Server.Sound.Handlers.{service_rules}
use tu_dns.Server.Sound.Hooks.{reply_rules}
use tu_dns.Server.Sound.{IsSound}

-- `P` of a body that binds.
abbrev pub Given : {A : Type 0} → (A → Type 0) → Option A → Type 0
Given P none = Unit
Given P (some a) = P a

-- The numbers of a body fit the types that it is decoded into.
abbrev pub IsDecoded : AdminRequest → Type 0
IsDecoded (change_points id req) = Given (λ (i : DeltaInput). IsInt64 i.delta) req
IsDecoded (save_domain id req) = Given (λ (i : SaveInput). IsInt64 i.points_cost) req
IsDecoded (new_code req) = Given (λ (i : CodeInput). IsInt64 i.points × IsInt64 i.max_uses) req
IsDecoded req = Unit

module _ (app : App) where
  set_each-IsSound : (m : List (Text × Text)) → Preserves IsSound (set_each app m)
  unfolding set_each
  set_each-IsSound [] = search reply_rules
  set_each-IsSound ((key, value) ∷ m) =
      Preserves-then _ _ (set-IsSound app.env key value) (set_each-IsSound m)

  create_until-IsSound :
      (i : CodeInput) (expires : Option ℕ)
      → IsInt64 i.points
      → IsInt64 i.max_uses
      → Preserves IsSound (create_until app i expires)
  create_until-IsSound i expires hp hm =
      search (reply_rules, create_code-IsSound app.env i.points i.max_uses expires hp hm)

  create_parsed-IsSound :
      (i : CodeInput) (r : Result ℕ)
      → IsInt64 i.points
      → IsInt64 i.max_uses
      → Preserves IsSound (create_parsed app i r)
  create_parsed-IsSound i (ok t) hp hm = create_until-IsSound i (some t) hp hm
  create_parsed-IsSound i (err e) hp hm = search reply_rules

  ruleset rules = (service_rules, set_each-IsSound, create_until-IsSound, create_parsed-IsSound)

  pub handle_admin-IsSound :
      (u : User) (req : AdminRequest) → IsDecoded req → Preserves IsSound (handle_admin app u req)
  unfolding handle_admin handle_admin_domains handle_admin_subdomains handle_admin_records
      handle_admin_list_redeem handle_admin_get_settings handle_admin_get_alipay handle_admin_orders
      handle_admin_webhooks handle_admin_list_api_keys handle_admin_users handle_admin_points
      handle_admin_logs handle_admin_update_user handle_admin_adjust_points
      handle_admin_reset_password handle_admin_save_domain handle_admin_delete_domain
      handle_admin_dns_check handle_admin_dns_zones handle_admin_create_redeem
      handle_admin_save_settings handle_admin_save_alipay handle_admin_create_webhook
      handle_admin_update_webhook handle_admin_delete_webhook handle_admin_revoke_api_key
  handle_admin-IsSound u domains h = search rules depth 30
  handle_admin-IsSound u subdomains h = search rules depth 30
  handle_admin-IsSound u records h = search rules depth 30
  handle_admin-IsSound u codes h = search rules depth 30
  handle_admin-IsSound u settings h = search rules depth 30
  handle_admin-IsSound u pay_settings h = search rules depth 30
  handle_admin-IsSound u orders h = search rules depth 30
  handle_admin-IsSound u hooks h = search rules depth 30
  handle_admin-IsSound u api_keys h = search rules depth 30
  handle_admin-IsSound u (users page) h = search rules depth 30
  handle_admin-IsSound u (points page) h = search rules depth 30
  handle_admin-IsSound u (logs page) h = search rules depth 30
  handle_admin-IsSound u (change_user id req) h = search rules depth 30
  handle_admin-IsSound u (change_points id none) h = search rules depth 30
  handle_admin-IsSound u (change_points id (some i)) h = search rules depth 30
  handle_admin-IsSound u (set_password id req) h = search rules depth 30
  handle_admin-IsSound u (save_domain id none) h = search rules depth 30
  handle_admin-IsSound u (save_domain id (some i)) h = search rules depth 30
  handle_admin-IsSound u (drop_domain id) h = search rules depth 30
  handle_admin-IsSound u (check_platform req) h = search rules depth 30
  handle_admin-IsSound u (platform_zones req) h = search rules depth 30
  handle_admin-IsSound u (new_code none) h = search rules depth 30
  handle_admin-IsSound u (new_code (some i)) h = search rules depth 30
  handle_admin-IsSound u (save_settings req) h = search rules depth 30
  handle_admin-IsSound u (save_pay_settings req) h = search rules depth 30
  handle_admin-IsSound u (new_hook req) h = search rules depth 30
  handle_admin-IsSound u (change_hook id req) h = search rules depth 30
  handle_admin-IsSound u (drop_hook id) h = search rules depth 30
  handle_admin-IsSound u (drop_api_key id) h = search rules depth 30
