-- ===== src/Platforms/Westcn.antt =====
-- dns/providers/westcn.go
use tu_dns.Prelude.{ℕ, ◌++◌, ◌||◌, List, [], ◌∷◌, if◌then◌else◌}
use tu_dns.Text.{Text, text, is_empty, trim_space, to_upper}
use tu_dns.Result.{Result, ok, err, platform_config}
use tu_dns.Dns.{Zone, RecordInput, RemoteRecord, Provider, Platform}
use tu_dns.Payment.Query.{Form, lookup}
use tu_dns.Platforms.{
  Client, Decoders, form_body, set_field, fetch, accept_code, normalized_ttl, itoa, host_to_sub,
  echo, ◌>>=◌,
}

-- `WestCn` behind `Configure`
pub record Westcn : Type 0 where
  pub username : Text
  pub api_password : Text

module _ (client : Client) (json : Decoders) where
  module _ (p : Westcn) where
    -- `apiToken`, with the second reading of the clock in one call of `post`
    abbrev api_token : ℕ → Text
    api_token m = client.md5_hex (p.username ++ p.api_password ++ client.time_text m 1)

    unfoldable pub post : {A : Type 0} → ℕ → Text → Form → (Text → Result A) → Result A
    unfolding fetch
    post m action form decode =
        let signed = set_field (text "token") (api_token m) (
          set_field (text "time") (client.time_text m 0)
            (set_field (text "username") p.username form)) in
        fetch client m
          (record {
            method = text "POST";
            url = text "https://api.west.cn/api/v2/dns/" ++ action;
            headers = (text "Content-Type", text "application/x-www-form-urlencoded") ∷ [];
            body = form_body signed;
          })
          decode

    unfoldable pub list_zones : ℕ → Result (List Zone)
    unfolding post accept_code
    list_zones m = do
      r ← post m (text "list") [] json.zones
      _ ← accept_code r.code r.msg
      ok r.zones

    abbrev record_form : Zone → RecordInput → Form → Form
    record_form zone i form = set_field (text "ttl") (itoa (normalized_ttl i.ttl)) (
        set_field (text "value") i.value (
          set_field (text "type") (to_upper client.letters i.type) (
            set_field (text "subdomain") (host_to_sub client.letters i.name zone.domain)
              (set_field (text "domain") zone.domain form))))

    unfoldable pub create_record : ℕ → Zone → RecordInput → Result RemoteRecord
    unfolding post accept_code host_to_sub normalized_ttl itoa to_upper
    create_record m zone i = do
      let form = record_form zone i []
      r ←
          post m (text "addrecord")
            (if is_empty i.line then form else set_field (text "line") i.line form) json.rec
      _ ← accept_code r.code r.msg
      ok (echo client.letters r.id i [])

    unfoldable pub update_record : ℕ → Zone → Text → RecordInput → Result RemoteRecord
    unfolding post accept_code host_to_sub normalized_ttl itoa to_upper
    update_record m zone id i = do
      r ← post m (text "modrecord") (record_form zone i (set_field (text "id") id [])) json.status
      _ ← accept_code r.code r.msg
      ok (echo client.letters id i [])

    unfoldable pub delete_record : ℕ → Zone → Text → Result (Unit {0})
    unfolding post accept_code
    delete_record m zone id = do
      r ←
          post m (text "delrecord")
            (set_field (text "domain") zone.domain (set_field (text "id") id [])) json.status
      accept_code r.code r.msg

    -- `Check`
    abbrev check : ℕ → Result (Unit {0})
    check m = do _ ← list_zones m; ok tt

    abbrev pub provider : Provider
    provider = record {
      check = check;
      list_zones = list_zones;
      create_record = create_record;
      update_record = update_record;
      delete_record = delete_record;
    }

  -- `Configure`
  unfoldable pub configure : Platform
  unfolding trim_space
  configure config =
      let name = trim_space (lookup (text "username") config) in
      let password = trim_space (lookup (text "api_password") config) in
      if is_empty name || is_empty password
      then err platform_config
      else ok (provider (record { username = name; api_password = password }))
