-- ===== src/Platforms/Jdcloud.antt =====
-- dns/providers/jdcloud.go
use tu_dns.Prelude.{ℕ, ◌++◌, ◌||◌, List, [], ◌∷◌, map, Option, none, some, ltb, if◌then◌else◌}
use tu_dns.Prelude.Int.{ℤ}
use tu_dns.Text.{Text, Letters, text, is_empty, trim_space, to_upper}
use tu_dns.Result.{Result, ok, err, platform_config, http_status}
use tu_dns.Dns.{Zone, RecordInput, RemoteRecord, Provider, Platform}
use tu_dns.Payment.Query.{Form, lookup, sort_fields}
use tu_dns.Platforms.{
  HttpRequest, Body, no_body, json_body, Json, text_value, int_value, normalized_ttl, itoa,
  host_to_sub, echo, ◌>>=◌,
}
use tu_dns.Platforms.Huaweicloud.{OpenReply, joined_lines}

-- A zone of `jdCloudZoneResp`
pub record JdZone : Type 0 where
  pub id : ℤ
  pub domain_name : Text

-- What the client uses of net/http, encoding/json, the hashes (their bytes as texts) and the clock,
-- which one call reads once. `record_id` decodes into `jdCloudIDResp`.
pub record JdTools : Type 0 where
  pub round_trip : ℕ → HttpRequest → Result OpenReply
  pub marshal : List (Text × Json) → Text
  pub zones : Text → Result (List JdZone)
  pub record_id : Text → Result ℤ
  pub sha256 : Text → Text
  pub hmac : Text → Text → Text
  pub hex : Text → Text
  pub date_time : ℕ → Text
  pub date : ℕ → Text
  pub unix_nano : ℕ → Text

-- `JDCloud` behind `Configure`
pub record Jdcloud : Type 0 where
  pub access_key : Text
  pub secret_key : Text

-- `strings.Join(keys, ";")`
abbrev joined_keys : List Text → Text
joined_keys [] = []
joined_keys (s ∷ []) = s
joined_keys (s ∷ t ∷ rest) = s ++ (b';' ∷ joined_keys (t ∷ rest))

abbrev jd_host : Text
jd_host = text "dns.jdcloud-api.com"

module _ (l : Letters) (tools : JdTools) where
  -- `jdSha256Hex`
  abbrev sha256_hex : Text → Text
  sha256_hex s = tools.hex (tools.sha256 s)

  -- The headers that are signed, by ascending name.
  abbrev signed_headers : ℕ → Form
  signed_headers m = sort_fields (
      (text "x-jdcloud-date", tools.date_time m)
      ∷ (text "x-jdcloud-nonce", tools.unix_nano m)
      ∷ (text "content-type", text "application/json")
      ∷ (text "host", jd_host)
      ∷ [])

  abbrev header_names : ℕ → Text
  header_names m = joined_keys (map (λ x. x.0) (signed_headers m))

  abbrev canonical_request : ℕ → Text → Text → Text → Text → Text
  canonical_request m method path query body = joined_lines (
      method
      ∷ path
      ∷ query
      ∷ joined_lines (map (λ x. x.0 ++ text ":" ++ x.1) (signed_headers m))
      ∷ []
      ∷ header_names m
      ∷ sha256_hex body
      ∷ [])

  abbrev scope : ℕ → Text
  scope m = tools.date m ++ text "/dns/jdcloud-api"

  module _ (p : Jdcloud) where
    abbrev signing_key : ℕ → Text
    signing_key m =
        tools.hmac
          (tools.hmac (tools.hmac (tools.hmac p.secret_key (tools.date m)) (text "dns"))
            (text "jdcloud-api"))
          (text "jdcloud2_request")

    -- What `sign` returns for the header Authorization.
    unfoldable pub sign : ℕ → Text → Text → Text → Text → Text
    sign m method path query body =
        let string_to_sign = joined_lines (
          text "JDCLOUD2-HMAC-SHA256"
          ∷ tools.date_time m
          ∷ scope m
          ∷ sha256_hex (canonical_request m method path query body)
          ∷ []) in
        text "JDCLOUD2-HMAC-SHA256 Credential="
        ++ p.access_key
        ++ text "/"
        ++ scope m
        ++ text ", SignedHeaders="
        ++ header_names m
        ++ text ", Signature="
        ++ tools.hex (tools.hmac (signing_key m) string_to_sign)

    abbrev body_text : Option (List (Text × Json)) → Text
    body_text none = []
    body_text (some entries) = tools.marshal entries

    abbrev body_of : Option (List (Text × Json)) → Body
    body_of none = no_body
    body_of (some entries) = json_body entries

    -- `do`. The date and the nonce are joined and split again at a bar, which a date does not have.
    unfoldable pub call :
        ℕ → Text → Text → Text → Option (List (Text × Json)) → Result (Result Text)
    unfolding sign
    call m method path query body = do
      r ← tools.round_trip m (record {
        method = method;
        url = text "https://dns.jdcloud-api.com" ++ path ++ text "?" ++ query;
        headers =
            (text "Content-Type", text "application/json")
            ∷ (text "Host", jd_host)
            ∷ (text "x-jdcloud-date", tools.date_time m)
            ∷ (text "x-jdcloud-nonce", tools.unix_nano m)
            ∷ (text "Authorization", sign m method path query (body_text body))
            ∷ [];
        body = body_of body;
      })
      if ltb r.status 400 then ok r.body else err (http_status r.status)

    unfoldable pub list_zones : ℕ → Result (List Zone)
    unfolding call itoa
    list_zones m = do
      body ← call m (text "GET") (text "/v1/regions/cn-north-1") (text "domain=yes") none
      content ← body
      zones ← tools.zones content
      ok (map (λ z. record { id = itoa z.id; domain = z.domain_name }) zones)

    abbrev domain_path : Zone → Text
    domain_path zone = text "/v1/regions/cn-north-1/domain/" ++ zone.id

    -- The entries that a creation and a change share.
    abbrev record_entries : Zone → RecordInput → List (Text × Json)
    record_entries zone i =
        (text "hostRecord", text_value (host_to_sub l i.name zone.domain))
        ∷ (text "hostValue", text_value i.value)
        ∷ (text "type", text_value (to_upper l i.type))
        ∷ (text "ttl", int_value (normalized_ttl i.ttl))
        ∷ []

    unfoldable pub create_record : ℕ → Zone → RecordInput → Result RemoteRecord
    unfolding call host_to_sub normalized_ttl itoa to_upper
    create_record m zone i = do
      body ←
          call m (text "POST") (domain_path zone ++ text "/rrs") []
            (some (record_entries zone i ++ ((text "viewValue", text_value (text "default")) ∷ [])))
      content ← body
      id ← tools.record_id content
      ok (echo l (itoa id) i [])

    abbrev record_path : Zone → Text → Text
    record_path zone id = domain_path zone ++ text "/rr/" ++ id

    -- The body of the reply is not read.
    unfoldable pub update_record : ℕ → Zone → Text → RecordInput → Result RemoteRecord
    unfolding call host_to_sub normalized_ttl to_upper
    update_record m zone id i = do
      _ ← call m (text "PUT") (record_path zone id) [] (some (record_entries zone i))
      ok (echo l id i [])

    unfoldable pub delete_record : ℕ → Zone → Text → Result (Unit {0})
    unfolding call
    delete_record m zone id = do _ ← call m (text "DELETE") (record_path zone id) [] none; ok tt

    -- `Check`
    abbrev check : ℕ → Result (Unit {0})
    check m = do _ ← list_zones m; ok tt

    abbrev pub provider : Provider
    provider = record {
      check = check;
      list_zones = list_zones;
      create_record = create_record;
      update_record = update_record;
      delete_record = delete_record;
    }

  -- `Configure`
  unfoldable pub configure : Platform
  unfolding trim_space
  configure config =
      let access = trim_space (lookup (text "access_key") config) in
      let secret = trim_space (lookup (text "secret_key") config) in
      if is_empty access || is_empty secret
      then err platform_config
      else ok (provider (record { access_key = access; secret_key = secret }))
