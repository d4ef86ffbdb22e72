-- ===== src/Server/Admin.antt =====
-- server/handlers_webhook.go, and the handlers of handlers_admin.go on redeem codes and settings.
use tu_dns.Prelude.{ℕ, Bool, ◌||◌, List, [], ◌∷◌, Option, none, some, if◌then◌else◌}
use tu_dns.Prelude.Int.{ℤ}
use tu_dns.Text.{Text, is_empty}
use tu_dns.Result.{Result, ok, err, missing_hook_fields, bad_expiry}
use tu_dns.World.{Action, pure, ◌>>◌}
use tu_dns.Redeem.{create_code}
use tu_dns.Redeem
use tu_dns.Settings
use tu_dns.Webhook.{list_webhooks, create_webhook, update_webhook, delete_webhook}
use tu_dns.Server.Params.{parse_uint}
use tu_dns.Server.{
  App, Answer, one_code, code_list, setting_map, hook_list, one_hook, just, bad_request,
  server_error, reply, bind_json, const_done,
}

pub record CodeInput : Type 0 where
  pub points : ℤ
  pub max_uses : ℤ
  pub expires_at : Text

pub record HookInput : Type 0 where
  pub name : Text
  pub url : Text
  pub events : Text
  pub secret : Text
  pub enabled : Bool

module _ (app : App) where
  unfoldable pub handle_admin_webhooks : Action Answer
  unfolding list_webhooks reply
  handle_admin_webhooks = reply server_error hook_list (list_webhooks app.env app.http)

  -- `enabled` is not read.
  unfoldable pub handle_admin_create_webhook : Option HookInput → Action Answer
  unfolding create_webhook reply bind_json
  handle_admin_create_webhook req = bind_json req λ i.
      if is_empty i.name || is_empty i.url || is_empty i.events
      then pure (just (bad_request missing_hook_fields))
      else reply server_error one_hook
          (create_webhook app.env app.http i.name i.url i.events i.secret)

  unfoldable pub handle_admin_update_webhook : Text → Option HookInput → Action Answer
  unfolding update_webhook reply bind_json parse_uint
  handle_admin_update_webhook id req = bind_json req λ i.
      reply bad_request one_hook
        (update_webhook app.env app.http (parse_uint id) i.name i.url i.events i.secret i.enabled)

  unfoldable pub handle_admin_delete_webhook : Text → Action Answer
  unfolding delete_webhook reply parse_uint
  handle_admin_delete_webhook id =
      reply server_error const_done (delete_webhook app.env app.http (parse_uint id))

  unfoldable pub handle_admin_list_redeem : Action Answer
  unfolding Redeem.list reply
  handle_admin_list_redeem = reply server_error code_list (Redeem.list app.env)

  abbrev pub create_until : CodeInput → Option ℕ → Action Answer
  create_until i expires =
      reply bad_request one_code (create_code app.env i.points i.max_uses expires)

  abbrev pub create_parsed : CodeInput → Result ℕ → Action Answer
  create_parsed i (ok t) = create_until i (some t)
  create_parsed i (err e) = pure (just (bad_request bad_expiry))

  unfoldable pub handle_admin_create_redeem : Option CodeInput → Action Answer
  unfolding create_code reply bind_json
  handle_admin_create_redeem req = bind_json req λ i.
      if is_empty i.expires_at
      then create_until i none
      else create_parsed i (app.parse_time i.expires_at)

  unfoldable pub handle_admin_get_settings : Action Answer
  unfolding Settings.get_all reply
  handle_admin_get_settings = reply server_error setting_map (Settings.get_all app.env)

  -- The loop over the body, in the order in which the map is read; the first error ends it.
  unfoldable pub set_each : List (Text × Text) → Action (Unit {0})
  unfolding Settings.set
  set_each [] = pure tt
  set_each ((key, value) ∷ m) = do Settings.set app.env key value; set_each m

  unfoldable pub handle_admin_save_settings : Option (List (Text × Text)) → Action Answer
  unfolding set_each reply bind_json
  handle_admin_save_settings req = bind_json req λ m. reply server_error const_done (set_each m)
