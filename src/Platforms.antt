-- ===== src/Platforms.antt =====
-- What the clients in dns/providers share: requests over HTTP, their fields, the host of a record
-- below a zone, and the time to live.
pub mod Dnspod
pub mod Westcn
pub mod Dnsla
pub mod Xinnet
pub mod Baidu
pub mod Volcengine
pub mod Aliyun
pub mod Huaweicloud
pub mod Jdcloud
pub mod Cloudflare
pub mod Host
pub mod Yields
pub mod Echo
pub mod Fresh
pub mod ZoneIds
use tu_dns.Prelude.{
  ℕ, ◌+◌, ◌-◌, ◌%◌, Bool, true, false, List, [], ◌∷◌, ◌++◌, map, Option, none, some, ltb,
  if◌then◌else◌,
}
use tu_dns.Prelude.Int.{ℤ, pos, negsuc, leb_ℤ, eq_ℤ}
use tu_dns.Text.{
  Text, Letters, text, text_eq, is_empty, to_lower, to_upper, trim_suffix, has_suffix,
}
use tu_dns.Result.{Error, Result, ok, err, http_status, platform_refused}
use tu_dns.Dns.{Zone, RecordInput, RemoteRecord}
use tu_dns.Payment.Query.{Form}
use tu_dns.Server.Params.{format_uint}

pub data Json : Type 0 where
  text_value : Text → Json
  int_value : ℤ → Json
  texts_value : List Text → Json

-- What is sent: a form, before it is encoded, or a JSON object.
pub data Body : Type 0 where
  no_body : Body
  form_body : Form → Body
  json_body : List (Text × Json) → Body

pub record HttpRequest : Type 0 where
  pub method : Text
  pub url : Text
  pub headers : List (Text × Text)
  pub body : Body

pub record HttpReply : Type 0 where
  pub status : ℕ
  pub content : Text

-- The replies of the platforms that answer with a code, 200 for a success: the zones, the new
-- record, and the rest.
pub record ZonesReply : Type 0 where
  pub code : ℤ
  pub msg : Text
  pub zones : List Zone

pub record RecordReply : Type 0 where
  pub code : ℤ
  pub msg : Text
  pub id : Text

pub record StatusReply : Type 0 where
  pub code : ℤ
  pub msg : Text

-- `json.Unmarshal` into each of them
pub record Decoders : Type 0 where
  pub zones : Text → Result ZonesReply
  pub rec : Text → Result RecordReply
  pub status : Text → Result StatusReply

-- What the clients use of net/http, crypto/md5 and time. `send` is `http.NewRequest`, `Do` and
-- `io.ReadAll`; the second number of `time_text` tells the readings of one call apart.
pub record Client : Type 0 where
  pub send : ℕ → HttpRequest → Result HttpReply
  pub md5_hex : Text → Text
  pub time_text : ℕ → ℕ → Text
  pub unix_text : ℕ → Text
  pub letters : Letters

infixl 5 ◌>>=◌
abbrev pub ◌>>=◌ : {A B : Type 0} → Result A → (A → Result B) → Result B
(ok a) >>= f = f a
(err e) >>= f = err e

-- `url.Values.Set`
abbrev pub set_field : Text → Text → Form → Form
set_field key value [] = (key, value) ∷ []
set_field key value ((j, v) ∷ f) =
    if text_eq j key then (key, value) ∷ f else (j, v) ∷ set_field key value f

-- The reading of the reply that `post` and `do` share: a status of 400 or more is an error.
unfoldable pub read_reply : {A : Type 0} → (Text → Result A) → HttpReply → Result A
read_reply decode r = if ltb r.status 400 then decode r.content else err (http_status r.status)

unfoldable pub fetch : {A : Type 0} → Client → ℕ → HttpRequest → (Text → Result A) → Result A
unfolding read_reply
fetch client m req decode = client.send m req >>= read_reply decode

-- `if !accepted { return fmt.Errorf(message) }`
unfoldable pub accept : Bool → Text → Result (Unit {0})
accept accepted message = if accepted then ok tt else err (platform_refused message)

-- `if result.Code != 200 { return fmt.Errorf(message) }`
unfoldable pub accept_code : ℤ → Text → Result (Unit {0})
unfolding accept
accept_code code message = accept (eq_ℤ code (pos 200)) message

-- `normalizedTTL`, and the same test where it is written out
unfoldable pub normalized_ttl : ℤ → ℤ
normalized_ttl ttl = if leb_ℤ ttl (pos 0) then pos 600 else ttl

-- `strconv.Itoa`
unfoldable pub itoa : ℤ → Text
unfolding format_uint
itoa (pos n) = format_uint n
itoa (negsuc n) = b'-' ∷ format_uint (n + 1)

abbrev pub at_sign : Text
at_sign = text "@"

-- `hostToSub`
unfoldable pub host_to_sub : Letters → Text → Text → Text
unfolding to_lower trim_suffix has_suffix
host_to_sub l name zone =
    let host = trim_suffix (to_lower l name) (text ".") in
    let domain = trim_suffix (to_lower l zone) (text ".") in
    let suffix = text "." ++ domain in
    if text_eq host domain
    then at_sign
    else if has_suffix host suffix
    then trim_suffix host suffix
    else host

-- The record that most clients return: what was asked for, under the id of the platform.
abbrev pub echo : Letters → Text → RecordInput → Text → RemoteRecord
echo l id i line = record {
  remote_id = id;
  name = i.name;
  type = to_upper l i.type;
  value = i.value;
  ttl = normalized_ttl i.ttl;
  line = line;
}
