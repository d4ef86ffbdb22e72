-- ===== src/Platforms/Xinnet.antt =====
-- dns/providers/xinnet.go
use tu_dns.Prelude.{ℕ, ◌++◌, ◌||◌, List, [], ◌∷◌, if◌then◌else◌}
use tu_dns.Text.{Text, text, is_empty, trim_space, to_upper}
use tu_dns.Result.{Result, ok, err, platform_config}
use tu_dns.Dns.{Zone, RecordInput, RemoteRecord, Provider, Platform}
use tu_dns.Payment.Query.{lookup}
use tu_dns.Platforms.{
  Client, Decoders, Json, text_value, int_value, json_body, fetch, accept_code, normalized_ttl,
  host_to_sub, echo, ◌>>=◌,
}

-- `Xinnet` behind `Configure`
pub record Xinnet : Type 0 where
  pub api_key : Text
  pub secret_key : Text

-- A JSON object that the client builds: its entries, no key twice.
abbrev JsonObject : Type 0
JsonObject = List (Text × Json)

module _ (client : Client) (json : Decoders) where
  module _ (p : Xinnet) where
    -- `sign`
    abbrev sign : Text → Text
    sign timestamp = client.md5_hex (p.api_key ++ p.secret_key ++ timestamp)

    unfoldable pub post : {A : Type 0} → ℕ → Text → JsonObject → (Text → Result A) → Result A
    unfolding fetch
    post m path body decode =
        let timestamp = client.unix_text m in
        let signed =
          (text "api_key", text_value p.api_key)
          ∷ (text "timestamp", text_value timestamp)
          ∷ (text "sign", text_value (sign timestamp))
          ∷ body in
        fetch client m
          (record {
            method = text "POST";
            url = text "https://api.xinnet.com/dns/v2" ++ path;
            headers = (text "Content-Type", text "application/json") ∷ [];
            body = json_body signed;
          })
          decode

    unfoldable pub list_zones : ℕ → Result (List Zone)
    unfolding post accept_code
    list_zones m = do
      r ← post m (text "/domain/list") [] json.zones
      _ ← accept_code r.code r.msg
      ok r.zones

    -- The entries of a record.
    abbrev record_body : Zone → RecordInput → JsonObject
    record_body zone i =
        (text "domain_id", text_value zone.id)
        ∷ (text "host", text_value (host_to_sub client.letters i.name zone.domain))
        ∷ (text "type", text_value (to_upper client.letters i.type))
        ∷ (text "value", text_value i.value)
        ∷ (text "ttl", int_value (normalized_ttl i.ttl))
        ∷ []

    unfoldable pub create_record : ℕ → Zone → RecordInput → Result RemoteRecord
    unfolding post accept_code host_to_sub normalized_ttl to_upper
    create_record m zone i = do
      r ← post m (text "/record/create") (record_body zone i) json.rec
      _ ← accept_code r.code r.msg
      ok (echo client.letters r.id i [])

    unfoldable pub update_record : ℕ → Zone → Text → RecordInput → Result RemoteRecord
    unfolding post accept_code host_to_sub normalized_ttl to_upper
    update_record m zone id i = do
      r ←
          post m (text "/record/update") ((text "record_id", text_value id) ∷ record_body zone i)
            json.status
      _ ← accept_code r.code r.msg
      ok (echo client.letters id i [])

    unfoldable pub delete_record : ℕ → Zone → Text → Result (Unit {0})
    unfolding post accept_code
    delete_record m zone id = do
      r ←
          post m (text "/record/delete")
            ((text "record_id", text_value id) ∷ (text "domain_id", text_value zone.id) ∷ [])
            json.status
      accept_code r.code r.msg

    -- `Check`
    abbrev check : ℕ → Result (Unit {0})
    check m = do _ ← list_zones m; ok tt

    abbrev pub provider : Provider
    provider = record {
      check = check;
      list_zones = list_zones;
      create_record = create_record;
      update_record = update_record;
      delete_record = delete_record;
    }

  -- `Configure`
  unfoldable pub configure : Platform
  unfolding trim_space
  configure config =
      let key = trim_space (lookup (text "api_key") config) in
      let secret = trim_space (lookup (text "secret_key") config) in
      if is_empty key || is_empty secret
      then err platform_config
      else ok (provider (record { api_key = key; secret_key = secret }))
