-- ===== src/Server/Names.antt =====
-- server/handlers_domain.go, and the handlers of handlers_admin.go on domains, subdomains and records.
-- `a.webhook` is not nil behind `requireInstalled`.
use tu_dns.Prelude.{ℕ, Bool, List, [], ◌∷◌, Option, if◌then◌else◌}
use tu_dns.Text.{Text, text, text_eq, is_empty}
use tu_dns.Models.{role_admin}
use tu_dns.Dns.{ConfigMap, Registry}
use tu_dns.World.{Action, pure, ◌>>=◌, ◌>>◌}
use tu_dns.Admin.{write_log}
use tu_dns.Domain.{SaveInput, list_public, save_domain, delete_domain, check_provider, list_zones}
use tu_dns.Domain
use tu_dns.Record.{
  BundleInput, AddRecordInput, UpdateRecordInput, list_by_user, list_all, list_subdomains,
}
use tu_dns.Record.Create.{create_bundle, add_record}
use tu_dns.Record.Change.{update_record, delete_record, delete_subdomain}
use tu_dns.Webhook.{dispatch}
use tu_dns.Payment.Query.{text_le}
use tu_dns.Server.Params.{parse_uint, format_uint}
use tu_dns.Server.{
  App, Answer, Event, Data, success, done, domain_list, one_domain, platform_list, zone_list,
  bundle, subdomain_list, record_list, one_record, charged_record, bundle_event, record_event,
  new_record_event, record_id_event, just, bad_request, server_error, reply, reply_then, bind_json,
  const_done,
}

pub record PlatformInput : Type 0 where
  pub provider_key : Text
  pub config : ConfigMap

-- The keys of `dns.List`, in order; the labels and fields are constants of the platforms.
abbrev insert_key : Text → List Text → List Text
insert_key k [] = k ∷ []
insert_key k (j ∷ ks) = if text_le k j then k ∷ j ∷ ks else j ∷ insert_key k ks

unfoldable pub platform_keys : Registry → List Text
platform_keys [] = []
platform_keys ((k, p) ∷ r) = insert_key k (platform_keys r)

module _ (app : App) where
  unfoldable pub handle_public_domains : Action Answer
  unfolding list_public reply
  handle_public_domains = reply server_error domain_list (list_public app.env app.vault)

  unfoldable pub handle_dns_providers : Action Answer
  unfolding platform_keys
  handle_dns_providers = pure (just (success (platform_list (platform_keys app.env.registry))))

  -- An event, behind which the answer is `d`.
  unfoldable pub tell : Text → Event → Data → Action Answer
  unfolding dispatch
  tell event e d = do
    sent ← dispatch app.env app.http event (app.event_json e)
    pure (record { response = success d; sent = sent })

  -- The log has the address of the client, `ip`.
  unfoldable pub handle_create_bundle : ℕ → Text → Option BundleInput → Action Answer
  unfolding create_bundle write_log tell reply_then bind_json format_uint
  handle_create_bundle uid ip req = bind_json req λ i.
      reply_then bad_request (create_bundle app.env app.vault uid i) λ res. do
        write_log app.env uid 0 (text "create_bundle") (text "subdomain")
            (format_uint res.subdomain.id) ip res.subdomain.full_domain
        tell (text "subdomain.created") (bundle_event res) (bundle res)

  unfoldable pub handle_my_subdomains : ℕ → Action Answer
  unfolding list_subdomains reply
  handle_my_subdomains uid =
      reply server_error subdomain_list (list_subdomains app.env app.vault uid)

  abbrev pub is_admin : Text → Bool
  is_admin role = text_eq role role_admin

  unfoldable pub handle_delete_subdomain : ℕ → Text → Text → Action Answer
  unfolding delete_subdomain tell reply_then parse_uint
  handle_delete_subdomain uid role id =
      reply_then bad_request
        (delete_subdomain app.env app.vault uid (parse_uint id) (is_admin role))
        λ _. tell (text "record.deleted") (record_id_event id) done

  unfoldable pub handle_my_records : ℕ → Action Answer
  unfolding list_by_user reply
  handle_my_records uid = reply server_error record_list (list_by_user app.env app.vault uid)

  unfoldable pub handle_add_record : ℕ → Text → Option AddRecordInput → Action Answer
  unfolding add_record tell reply_then bind_json
  handle_add_record uid role req = bind_json req λ i.
      reply_then bad_request (add_record app.env app.vault uid i (is_admin role))
        λ r. tell (text "record.created") (new_record_event r.0) (charged_record r.0 r.1)

  unfoldable pub handle_update_record : ℕ → Text → Text → Option UpdateRecordInput → Action Answer
  unfolding update_record tell reply_then bind_json parse_uint
  handle_update_record uid role id req = bind_json req λ i.
      reply_then bad_request (update_record app.env app.vault uid (parse_uint id) i (is_admin role))
        λ r. tell (text "record.updated") (record_event r) (one_record r)

  unfoldable pub handle_delete_record : ℕ → Text → Text → Action Answer
  unfolding delete_record reply parse_uint
  handle_delete_record uid role id =
      reply bad_request const_done
        (delete_record app.env app.vault uid (parse_uint id) (is_admin role))

  unfoldable pub handle_admin_domains : Action Answer
  unfolding Domain.list_all reply
  handle_admin_domains = reply server_error domain_list (Domain.list_all app.env app.vault)

  -- The route of a new domain has no id.
  unfoldable pub handle_admin_save_domain : Text → Option SaveInput → Action Answer
  unfolding save_domain reply bind_json parse_uint
  handle_admin_save_domain id req = bind_json req λ i.
      reply bad_request one_domain
        (save_domain app.env app.vault (if is_empty id then 0 else parse_uint id) i)

  unfoldable pub handle_admin_delete_domain : Text → Action Answer
  unfolding delete_domain reply parse_uint
  handle_admin_delete_domain id =
      reply bad_request const_done (delete_domain app.env app.vault (parse_uint id))

  unfoldable pub handle_admin_dns_check : Option PlatformInput → Action Answer
  unfolding check_provider reply bind_json
  handle_admin_dns_check req =
      bind_json req
        λ i. reply bad_request const_done (check_provider app.env app.vault i.provider_key i.config)

  unfoldable pub handle_admin_dns_zones : Option PlatformInput → Action Answer
  unfolding list_zones reply bind_json
  handle_admin_dns_zones req =
      bind_json req
        λ i. reply bad_request zone_list (list_zones app.env app.vault i.provider_key i.config)

  unfoldable pub handle_admin_subdomains : Action Answer
  unfolding list_subdomains reply
  handle_admin_subdomains = reply server_error subdomain_list (list_subdomains app.env app.vault 0)

  unfoldable pub handle_admin_records : Action Answer
  unfolding list_all reply
  handle_admin_records = reply server_error record_list (list_all app.env app.vault)
