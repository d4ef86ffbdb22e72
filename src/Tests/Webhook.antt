-- ===== src/Tests/Webhook.antt =====
-- Webhooks: the theorems at concrete inputs.
use tu_dns.Prelude.{◌≡◌, true, [], ◌∷◌}
use tu_dns.Text.{text}
use tu_dns.Result.{ok}
use tu_dns.Models.{Webhook}
use tu_dns.World.{World}
use tu_dns.World.On.{On}
use tu_dns.Webhook.{Http, dispatch}
use tu_dns.Webhook.Dispatch.{IsSent, dispatch_lem}
use tu_dns.Tests.Base.{env, start, db}

abbrev hook : Webhook
hook = record {
  id = 1;
  name = text "chat";
  url = text "https://chat.ex.com";
  events = text "*";
  secret = text "s";
  enabled = true;
}

abbrev pub http : Http
http = record {
  marshal = λ event now content. ok event;
  hmac_hex = λ secret body. text "00";
  accepts_url = λ url. true;
}

abbrev hooked : World
hooked = record start { db = record db { webhooks = hook ∷ [] } }

dispatch_lem_example :
    On
      (λ rs w'. (w'.db ≡ hooked.db) × IsSent env http (text "order.paid") (text "{}") hooked rs)
      (λ e w'. ⊥)
      (dispatch env http (text "order.paid") (text "{}") hooked)
dispatch_lem_example = dispatch_lem env http (text "order.paid") (text "{}") hooked
