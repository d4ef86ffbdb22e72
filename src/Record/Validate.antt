-- ===== src/Record/Validate.antt =====
-- The tests on a subdomain's name and on a record's type and value (subNameRe, reserved and
-- validateRecord of record/service.go).
use tu_dns.Prelude.{
  ℕ, Bool, false, ◌&&◌, ◌||◌, List, [], ◌∷◌, Option, none, some, ltb, leb, ◌==◌, any, length,
  if◌then◌else◌,
}
use tu_dns.Text.{Text, text, text_eq, is_empty, byte_len}
use tu_dns.Net.{parse_ip, is_v4}
use tu_dns.Result.{
  Result, ok, err, missing_type_or_value, not_ipv4, not_ipv6, value_too_long, unsupported_type,
}

abbrev pub is_alnum : ℕ → Bool
is_alnum c = (leb b'a' c && leb c b'z') || (leb b'0' c && leb c b'9')

abbrev pub is_label_char : ℕ → Bool
is_label_char c = is_alnum c || c == b'-'

-- `[a-z0-9-]*[a-z0-9]`
abbrev pub ends_label : Text → Bool
ends_label [] = false
ends_label (c ∷ []) = is_alnum c
ends_label (c ∷ d ∷ s) = is_label_char c && ends_label (d ∷ s)

-- `^[a-z0-9]([a-z0-9-]{0,61}[a-z0-9])?$`
unfoldable pub is_subdomain_name : Text → Bool
is_subdomain_name [] = false
is_subdomain_name (c ∷ s) = is_alnum c && (is_empty s || (leb (length s) 62 && ends_label s))

abbrev reserved : List Text
reserved =
    text "www"
    ∷ text "mail"
    ∷ text "ftp"
    ∷ text "ns"
    ∷ text "mx"
    ∷ text "admin"
    ∷ text "api"
    ∷ text "cdn"
    ∷ text "test"
    ∷ []

unfoldable pub is_reserved : Text → Bool
is_reserved name = any (λ r. text_eq r name) reserved

abbrev need_v4 : Option (List ℕ) → Result (Unit {0})
need_v4 none = err not_ipv4
need_v4 (some ip) = if is_v4 ip then ok tt else err not_ipv4

abbrev need_v6 : Option (List ℕ) → Result (Unit {0})
need_v6 none = err not_ipv6
need_v6 (some ip) = if is_v4 ip then err not_ipv6 else ok tt

-- `validateRecord`
unfoldable pub validate_record : Text → Text → Result (Unit {0})
unfolding parse_ip is_v4 byte_len
validate_record rec_type value =
    if is_empty rec_type || is_empty value
    then err missing_type_or_value
    else if text_eq rec_type (text "A")
    then need_v4 (parse_ip value)
    else if text_eq rec_type (text "AAAA")
    then need_v6 (parse_ip value)
    else if text_eq rec_type (text "CNAME")
        || text_eq rec_type (text "TXT")
        || text_eq rec_type (text "MX")
        || text_eq rec_type (text "NS")
    then (if ltb 1024 (byte_len value) then err value_too_long else ok tt)
    else err unsupported_type
