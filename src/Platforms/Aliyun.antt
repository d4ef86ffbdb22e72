-- ===== src/Platforms/Aliyun.antt =====
-- dns/providers/aliyun.go
use tu_dns.Prelude.{ℕ, ◌++◌, ◌&&◌, ◌||◌, List, [], ◌∷◌, map, ◌==◌, if◌then◌else◌}
use tu_dns.Text.{Text, text, is_empty, trim_space, to_upper}
use tu_dns.Result.{Result, ok, err, platform_config}
use tu_dns.Dns.{Zone, RecordInput, RemoteRecord, Provider, Platform}
use tu_dns.Payment.Query.{Form, lookup, sort_fields}
use tu_dns.Platforms.{
  Client, no_body, set_field, fetch, accept, normalized_ttl, itoa, host_to_sub, echo, ◌>>=◌,
}

-- The replies, whose code is empty for a success.
pub record AliyunZones : Type 0 where
  pub code : Text
  pub message : Text
  pub zones : List Zone

pub record AliyunRecord : Type 0 where
  pub code : Text
  pub message : Text
  pub record_id : Text

pub record AliyunStatus : Type 0 where
  pub code : Text
  pub message : Text

-- What the client uses of encoding/json, net/url, crypto/hmac (with the base64 of what it gives) uuid
-- and the clock.
pub record AliyunTools : Type 0 where
  pub zones : Text → Result AliyunZones
  pub rec : Text → Result AliyunRecord
  pub status : Text → Result AliyunStatus
  pub query_escape : Text → Text
  pub encode_query : Form → Text
  pub hmac_sha1 : Text → Text → Text
  pub nonce : ℕ → Text
  pub timestamp : ℕ → Text

-- `strings.ReplaceAll` of one letter, and of "%7E" by "~".
abbrev replace_all : ℕ → Text → Text → Text
replace_all old new [] = []
replace_all old new (c ∷ s) =
    let rest = replace_all old new s in if c == old then new ++ rest else c ∷ rest

abbrev replace_tilde : Text → Text
replace_tilde (a ∷ b ∷ c ∷ s) =
    let all = replace_tilde s in
    let one = replace_tilde (b ∷ c ∷ s) in
    if a == b'%' && b == b'7' && c == b'E' then b'~' ∷ all else a ∷ one
replace_tilde s = s

abbrev joined_by_and : List Text → Text
joined_by_and [] = []
joined_by_and (s ∷ []) = s
joined_by_and (s ∷ t ∷ rest) = s ++ text "&" ++ joined_by_and (t ∷ rest)

-- `Aliyun` behind `Configure`
pub record Aliyun : Type 0 where
  pub access_key_id : Text
  pub access_key_secret : Text

module _ (client : Client) (tools : AliyunTools) where
  abbrev percent_encode : Text → Text
  percent_encode s =
      replace_tilde
        (replace_all b'*' (text "%2A") (replace_all b'+' (text "%20") (tools.query_escape s)))

  -- The canonical text: the parameters by ascending key.
  abbrev pub canonicalized : Form → Text
  canonicalized params =
      joined_by_and
        (map (λ x. percent_encode x.0 ++ text "=" ++ percent_encode x.1) (sort_fields params))

  abbrev string_to_sign : Form → Text
  string_to_sign params =
      text "GET&" ++ percent_encode (text "/") ++ text "&" ++ percent_encode (canonicalized params)

  module _ (p : Aliyun) where
    abbrev common_params : ℕ → Form → Form
    common_params m params = set_field (text "SignatureNonce") (tools.nonce m) (
        set_field (text "SignatureVersion") (text "1.0") (
          set_field (text "Timestamp") (tools.timestamp m) (
            set_field (text "SignatureMethod") (text "HMAC-SHA1") (
              set_field (text "AccessKeyId") p.access_key_id (
                set_field (text "Version") (text "2015-01-09")
                  (set_field (text "Format") (text "JSON") params))))))

    unfoldable pub request : {A : Type 0} → ℕ → Form → (Text → Result A) → Result A
    unfolding fetch
    request m params decode =
        let full = common_params m params in
        let signature = tools.hmac_sha1 (p.access_key_secret ++ text "&") (string_to_sign full) in
        fetch client m
          (record {
            method = text "GET";
            url =
                text "https://alidns.aliyuncs.com/?"
                ++ tools.encode_query (set_field (text "Signature") signature full);
            headers = [];
            body = no_body;
          })
          decode

    unfoldable pub list_zones : ℕ → Result (List Zone)
    unfolding request accept
    list_zones m = do
      r ←
          request m
            ((text "Action", text "DescribeDomains")
              ∷ (text "PageNumber", text "1")
              ∷ (text "PageSize", text "100")
              ∷ [])
            tools.zones
      _ ← accept (is_empty r.code) r.message
      ok r.zones

    -- The parameters that a creation and a change share.
    abbrev record_params : Zone → RecordInput → Form
    record_params zone i =
        (text "RR", host_to_sub client.letters i.name zone.domain)
        ∷ (text "Type", to_upper client.letters i.type)
        ∷ (text "Value", i.value)
        ∷ (text "TTL", itoa (normalized_ttl i.ttl))
        ∷ []

    unfoldable pub create_record : ℕ → Zone → RecordInput → Result RemoteRecord
    unfolding request accept host_to_sub normalized_ttl itoa to_upper
    create_record m zone i = do
      let params =
          (text "Action", text "AddDomainRecord")
          ∷ (text "DomainName", zone.domain)
          ∷ record_params zone i
      r ←
          request m (if is_empty i.line then params else set_field (text "Line") i.line params)
            tools.rec
      _ ← accept (is_empty r.code) r.message
      ok (echo client.letters r.record_id i [])

    unfoldable pub update_record : ℕ → Zone → Text → RecordInput → Result RemoteRecord
    unfolding request accept host_to_sub normalized_ttl itoa to_upper
    update_record m zone id i = do
      r ←
          request m
            ((text "Action", text "UpdateDomainRecord")
              ∷ (text "RecordId", id)
              ∷ record_params zone i)
            tools.rec
      _ ← accept (is_empty r.code) r.message
      ok (echo client.letters id i [])

    unfoldable pub delete_record : ℕ → Zone → Text → Result (Unit {0})
    unfolding request accept
    delete_record m zone id = do
      r ←
          request m ((text "Action", text "DeleteDomainRecord") ∷ (text "RecordId", id) ∷ [])
            tools.status
      accept (is_empty r.code) r.message

    -- `Check`
    abbrev check : ℕ → Result (Unit {0})
    check m = do _ ← list_zones m; ok tt

    abbrev pub provider : Provider
    provider = record {
      check = check;
      list_zones = list_zones;
      create_record = create_record;
      update_record = update_record;
      delete_record = delete_record;
    }

  -- `Configure`
  unfoldable pub configure : Platform
  unfolding trim_space
  configure config =
      let id = trim_space (lookup (text "access_key_id") config) in
      let secret = trim_space (lookup (text "access_key_secret") config) in
      if is_empty id || is_empty secret
      then err platform_config
      else ok (provider (record { access_key_id = id; access_key_secret = secret }))
