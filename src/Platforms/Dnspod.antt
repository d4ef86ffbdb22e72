-- ===== src/Platforms/Dnspod.antt =====
-- dns/providers/dnspod.go
use tu_dns.Prelude.{ℕ, ◌++◌, ◌||◌, List, [], ◌∷◌, if◌then◌else◌}
use tu_dns.Text.{Text, text, text_eq, is_empty, trim_space, to_upper}
use tu_dns.Result.{Result, ok, err, platform_config}
use tu_dns.Dns.{Zone, RecordInput, RemoteRecord, Provider, Platform}
use tu_dns.Payment.Query.{Form, lookup}
use tu_dns.Platforms.{
  Client, form_body, set_field, fetch, accept, normalized_ttl, itoa, host_to_sub, echo, ◌>>=◌,
}

-- The replies that the client decodes: the status, with the zones or the record's id
-- in two of them.
pub record PodZones : Type 0 where
  pub code : Text
  pub message : Text
  pub zones : List Zone

pub record PodRecord : Type 0 where
  pub code : Text
  pub message : Text
  pub id : Text

pub record PodStatus : Type 0 where
  pub code : Text
  pub message : Text

pub record PodJson : Type 0 where
  pub zones : Text → Result PodZones
  pub rec : Text → Result PodRecord
  pub status : Text → Result PodStatus

-- `DNSPod` behind `Configure`
pub record Dnspod : Type 0 where
  pub secret_id : Text
  pub secret_key : Text

module _ (client : Client) (json : PodJson) where
  unfoldable pub post : {A : Type 0} → ℕ → Text → Form → (Text → Result A) → Result A
  unfolding fetch
  post m endpoint form decode =
      fetch client m
        (record {
          method = text "POST";
          url = endpoint;
          headers = (text "Content-Type", text "application/x-www-form-urlencoded") ∷ [];
          body = form_body form;
        })
        decode

  module _ (p : Dnspod) where
    -- The fields that every form has.
    abbrev signed_form : Form
    signed_form =
        set_field (text "format") (text "json")
          (set_field (text "login_token") (p.secret_id ++ text "," ++ p.secret_key) [])

    unfoldable pub list_zones : ℕ → Result (List Zone)
    unfolding post accept
    list_zones m = do
      r ← post m (text "https://dnsapi.cn/Domain.List") signed_form json.zones
      _ ← accept (text_eq r.code (text "1")) r.message
      ok r.zones

    -- The fields of a record, behind those that are set already.
    abbrev record_form : Zone → RecordInput → Form → Form
    record_form zone i form =
        let named = set_field (text "record_line") (text "默认") (
          set_field (text "record_type") (to_upper client.letters i.type)
            (set_field (text "sub_domain") (host_to_sub client.letters i.name zone.domain) form)) in
        let lined =
          if is_empty i.line then named else set_field (text "record_line") i.line named in
        set_field (text "ttl") (itoa (normalized_ttl i.ttl))
          (set_field (text "value") i.value lined)

    unfoldable pub create_record : ℕ → Zone → RecordInput → Result RemoteRecord
    unfolding post accept host_to_sub normalized_ttl itoa to_upper
    create_record m zone i = do
      r ←
          post m (text "https://dnsapi.cn/Record.Create")
            (record_form zone i (set_field (text "domain_id") zone.id signed_form)) json.rec
      _ ← accept (text_eq r.code (text "1")) r.message
      ok (echo client.letters r.id i [])

    unfoldable pub update_record : ℕ → Zone → Text → RecordInput → Result RemoteRecord
    unfolding post accept host_to_sub normalized_ttl itoa to_upper
    update_record m zone id i = do
      r ←
          post m (text "https://dnsapi.cn/Record.Modify")
            (record_form zone i
              (set_field (text "record_id") id (set_field (text "domain_id") zone.id signed_form)))
            json.status
      _ ← accept (text_eq r.code (text "1")) r.message
      ok (echo client.letters id i [])

    unfoldable pub delete_record : ℕ → Zone → Text → Result (Unit {0})
    unfolding post accept
    delete_record m zone id = do
      r ←
          post m (text "https://dnsapi.cn/Record.Remove")
            (set_field (text "record_id") id (set_field (text "domain_id") zone.id signed_form))
            json.status
      accept (text_eq r.code (text "1")) r.message

    -- `Check`
    abbrev check : ℕ → Result (Unit {0})
    check m = do _ ← list_zones m; ok tt

    abbrev pub provider : Provider
    provider = record {
      check = check;
      list_zones = list_zones;
      create_record = create_record;
      update_record = update_record;
      delete_record = delete_record;
    }

  -- `Configure`
  unfoldable pub configure : Platform
  unfolding trim_space
  configure config =
      let id = trim_space (lookup (text "id") config) in
      let token = trim_space (lookup (text "token") config) in
      if is_empty id || is_empty token
      then err platform_config
      else ok (provider (record { secret_id = id; secret_key = token }))
