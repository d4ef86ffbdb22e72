-- ===== src/Platforms/Cloudflare.antt =====
-- dns/providers/cloudflare.go
use tu_dns.Prelude.{ℕ, ◌++◌, Bool, List, [], ◌∷◌, if◌then◌else◌}
use tu_dns.Prelude.Int.{ℤ, pos, leb_ℤ}
use tu_dns.Text.{Text, text, is_empty, trim_space, to_upper}
use tu_dns.Result.{Result, ok, err, platform_config}
use tu_dns.Dns.{Zone, RecordInput, RemoteRecord, Provider, Platform}
use tu_dns.Payment.Query.{lookup}
use tu_dns.Platforms.{Client, Body, no_body, json_body, text_value, int_value, fetch, accept, ◌>>=◌}

-- The replies: whether the call has succeeded, the messages of its errors, and the zones or the
-- record.
pub record FlareZones : Type 0 where
  pub success : Bool
  pub errors : List Text
  pub zones : List Zone

pub record FlareRecord : Type 0 where
  pub success : Bool
  pub errors : List Text
  pub id : Text
  pub name : Text
  pub type : Text
  pub content : Text
  pub ttl : ℤ

pub record FlareStatus : Type 0 where
  pub success : Bool
  pub errors : List Text

-- `json.Unmarshal`
pub record FlareJson : Type 0 where
  pub zones : Text → Result FlareZones
  pub rec : Text → Result FlareRecord
  pub status : Text → Result FlareStatus

-- `Cloudflare` behind `Configure`
pub record Cloudflare : Type 0 where
  pub api_token : Text

abbrev message_of : Text → List Text → Text
message_of default [] = default
message_of default (e ∷ es) = e

-- A time of 1 is Cloudflare's automatic one.
unfoldable pub flare_ttl : ℤ → ℤ
flare_ttl ttl = if leb_ℤ ttl (pos 0) then pos 1 else ttl

abbrev record_of : FlareRecord → RemoteRecord
record_of r = record {
  remote_id = r.id;
  name = r.name;
  type = r.type;
  value = r.content;
  ttl = r.ttl;
  line = [];
}

abbrev zones_url : Text
zones_url = text "https://api.cloudflare.com/client/v4/zones"

module _ (client : Client) (json : FlareJson) where
  module _ (p : Cloudflare) where
    -- `do`
    unfoldable pub call : {A : Type 0} → ℕ → Text → Text → Body → (Text → Result A) → Result A
    unfolding fetch
    call m method url body decode =
        fetch client m
          (record {
            method = method;
            url = url;
            headers =
                (text "Authorization", text "Bearer " ++ p.api_token)
                ∷ (text "Content-Type", text "application/json")
                ∷ [];
            body = body;
          })
          decode

    unfoldable pub list_zones : ℕ → Result (List Zone)
    unfolding call accept
    list_zones m = do
      r ← call m (text "GET") (zones_url ++ text "?per_page=50") no_body json.zones
      _ ← accept r.success (message_of (text "cloudflare error") r.errors)
      ok r.zones

    -- The address of a zone's records, and of one of them.
    abbrev records_url : Zone → Text
    records_url zone = zones_url ++ text "/" ++ zone.id ++ text "/dns_records"

    abbrev record_url : Zone → Text → Text
    record_url zone id = records_url zone ++ text "/" ++ id

    abbrev record_body : RecordInput → Body
    record_body i = json_body (
        (text "type", text_value (to_upper client.letters i.type))
        ∷ (text "name", text_value i.name)
        ∷ (text "content", text_value i.value)
        ∷ (text "ttl", int_value (flare_ttl i.ttl))
        ∷ [])

    unfoldable pub create_record : ℕ → Zone → RecordInput → Result RemoteRecord
    unfolding call accept flare_ttl to_upper
    create_record m zone i = do
      r ← call m (text "POST") (records_url zone) (record_body i) json.rec
      _ ← accept r.success (message_of (text "create failed") r.errors)
      ok (record_of r)

    unfoldable pub update_record : ℕ → Zone → Text → RecordInput → Result RemoteRecord
    unfolding call accept flare_ttl to_upper
    update_record m zone id i = do
      r ← call m (text "PUT") (record_url zone id) (record_body i) json.rec
      _ ← accept r.success (message_of (text "update failed") r.errors)
      ok (record_of r)

    unfoldable pub delete_record : ℕ → Zone → Text → Result (Unit {0})
    unfolding call accept
    delete_record m zone id = do
      r ← call m (text "DELETE") (record_url zone id) no_body json.status
      accept r.success (message_of (text "delete failed") r.errors)

    -- `Check`
    abbrev check : ℕ → Result (Unit {0})
    check m = do _ ← list_zones m; ok tt

    abbrev pub provider : Provider
    provider = record {
      check = check;
      list_zones = list_zones;
      create_record = create_record;
      update_record = update_record;
      delete_record = delete_record;
    }

  -- `Configure`
  unfoldable pub configure : Platform
  unfolding trim_space
  configure config =
      let token = trim_space (lookup (text "api_token") config) in
      if is_empty token then err platform_config else ok (provider (record { api_token = token }))
