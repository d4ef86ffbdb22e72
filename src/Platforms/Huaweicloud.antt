-- ===== src/Platforms/Huaweicloud.antt =====
-- dns/providers/huaweicloud.go
use tu_dns.Prelude.{ℕ, ◌++◌, ◌||◌, List, [], ◌∷◌, map, ltb, if◌then◌else◌}
use tu_dns.Text.{Text, Letters, text, is_empty, trim_space, trim_suffix, to_upper}
use tu_dns.Result.{Result, ok, err, platform_config, http_status}
use tu_dns.Dns.{Zone, RecordInput, RemoteRecord, Provider, Platform}
use tu_dns.Payment.Query.{lookup}
use tu_dns.Platforms.{
  HttpRequest, Body, no_body, json_body, text_value, texts_value, int_value, normalized_ttl,
  host_to_sub, echo, ◌>>=◌,
}

-- A reply whose body has not been read yet.
pub record OpenReply : Type 0 where
  pub status : ℕ
  pub body : Result Text

-- What the client uses of net/http, net/url, encoding/json, the hashes (their bytes as texts) and
-- the clock, which one call reads once.
pub record HuaweiTools : Type 0 where
  pub round_trip : ℕ → HttpRequest → Result OpenReply
  pub url_host : Text → Text
  pub url_path : Text → Text
  pub url_query : Text → Text
  pub zones : Text → Result (List Zone)
  pub record_id : Text → Result Text
  pub sha256 : Text → Text
  pub hmac : Text → Text → Text
  pub hex : Text → Text
  pub date_time : ℕ → Text
  pub date : ℕ → Text

-- `HuaweiCloud` behind `Configure`
pub record Huaweicloud : Type 0 where
  pub access_key : Text
  pub secret_key : Text
  pub region : Text

-- `strings.Join(lines, "\n")`
abbrev pub joined_lines : List Text → Text
joined_lines [] = []
joined_lines (s ∷ []) = s
joined_lines (s ∷ t ∷ rest) = s ++ (10 ∷ joined_lines (t ∷ rest))

module _ (l : Letters) (tools : HuaweiTools) where
  module _ (p : Huaweicloud) where
    abbrev endpoint : Text
    endpoint = text "https://dns." ++ p.region ++ text ".myhuaweicloud.com/v2"

    -- `deriveKey`
    abbrev derive_key : ℕ → Text
    derive_key m =
        tools.hmac (tools.hmac (tools.hmac (text "HWS" ++ p.secret_key) (tools.date m)) p.region)
          (text "dns")

    abbrev canonical_request : ℕ → Text → Text → Text
    canonical_request m method url = joined_lines (
        method
        ∷ tools.url_path url
        ∷ tools.url_query url
        ∷ (text "host:" ++ tools.url_host url)
        ∷ (text "x-sdk-date:" ++ tools.date_time m)
        ∷ []
        ∷ text "host;x-sdk-date"
        ∷ tools.hex (tools.sha256 [])
        ∷ [])

    abbrev string_to_sign : ℕ → Text → Text → Text
    string_to_sign m method url = joined_lines (
        text "HWS-SDK-SHA256"
        ∷ tools.date_time m
        ∷ (tools.date m ++ text "/" ++ p.region ++ text "/dns")
        ∷ tools.hex (tools.sha256 (canonical_request m method url))
        ∷ [])

    -- The header that `sign` sets last.
    abbrev authorization : ℕ → Text → Text → Text
    authorization m method url =
        text "HWS-SDK-HMAC-SHA256 Access="
        ++ p.access_key
        ++ text ", SignedHeaders=host;x-sdk-date, Signature="
        ++ tools.hex (tools.hmac (derive_key m) (string_to_sign m method url))

    -- `do`
    unfoldable pub call : ℕ → Text → Text → Body → Result (Result Text)
    call m method path body = do
      let url = endpoint ++ path
      r ← tools.round_trip m (record {
        method = method;
        url = url;
        headers =
            (text "Host", tools.url_host url)
            ∷ (text "Content-Type", text "application/json; charset=utf-8")
            ∷ (text "X-Sdk-Date", tools.date_time m)
            ∷ (text "Authorization", authorization m method url)
            ∷ [];
        body = body;
      })
      if ltb r.status 400 then ok r.body else err (http_status r.status)

    unfoldable pub list_zones : ℕ → Result (List Zone)
    unfolding call trim_suffix
    list_zones m = do
      body ← call m (text "GET") (text "/zones?limit=100") no_body
      content ← body
      zones ← tools.zones content
      ok (map (λ z. record { id = z.id; domain = trim_suffix z.domain (text ".") }) zones)

    abbrev record_sets : Zone → Text
    record_sets zone = text "/zones/" ++ zone.id ++ text "/recordsets"

    abbrev record_set : Zone → Text → Text
    record_set zone id = record_sets zone ++ text "/" ++ id

    -- The full name that is sent.
    unfoldable pub full_name : Text → Zone → Text
    unfolding host_to_sub
    full_name name zone = host_to_sub l name zone.domain ++ (text "." ++ (zone.domain ++ text "."))

    abbrev record_body : Zone → RecordInput → Body
    record_body zone i = json_body (
        (text "name", text_value (full_name i.name zone))
        ∷ (text "type", text_value (to_upper l i.type))
        ∷ (text "records", texts_value (i.value ∷ []))
        ∷ (text "ttl", int_value (normalized_ttl i.ttl))
        ∷ [])

    unfoldable pub create_record : ℕ → Zone → RecordInput → Result RemoteRecord
    unfolding call full_name normalized_ttl to_upper
    create_record m zone i = do
      body ← call m (text "POST") (record_sets zone) (record_body zone i)
      content ← body
      id ← tools.record_id content
      ok (echo l id i [])

    -- The body of the reply is not read.
    unfoldable pub update_record : ℕ → Zone → Text → RecordInput → Result RemoteRecord
    unfolding call full_name normalized_ttl to_upper
    update_record m zone id i = do
      _ ← call m (text "PUT") (record_set zone id) (record_body zone i)
      ok (echo l id i [])

    unfoldable pub delete_record : ℕ → Zone → Text → Result (Unit {0})
    unfolding call
    delete_record m zone id = do _ ← call m (text "DELETE") (record_set zone id) no_body; ok tt

    -- `Check`
    abbrev check : ℕ → Result (Unit {0})
    check m = do _ ← list_zones m; ok tt

    abbrev pub provider : Provider
    provider = record {
      check = check;
      list_zones = list_zones;
      create_record = create_record;
      update_record = update_record;
      delete_record = delete_record;
    }

  -- `Configure`
  unfoldable pub configure : Platform
  unfolding trim_space
  configure config =
      let access = trim_space (lookup (text "access_key") config) in
      let secret = trim_space (lookup (text "secret_key") config) in
      let region = trim_space (lookup (text "region") config) in
      if is_empty access || is_empty secret
      then err platform_config
      else ok (
          provider (record {
            access_key = access;
            secret_key = secret;
            region = if is_empty region then text "cn-east-2" else region;
          }))
