-- ===== src/Platforms/Volcengine.antt =====
-- dns/providers/volcengine.go. The client of the SDK is a parameter, `none` before `Configure`.
use tu_dns.Prelude.{
  ℕ, ◌+◌, not, ◌||◌, List, [], ◌∷◌, any, Option, none, some, ltb, ◌==◌, if◌then◌else◌,
}
use tu_dns.Prelude.Int.{ℤ, pos, neg_ℤ, two63}
use tu_dns.Net.{is_digit}
use tu_dns.Server.Params.{parse_uint}
use tu_dns.Text.{Text, Letters, text, is_empty, trim_space, trim_suffix, to_upper}
use tu_dns.Result.{Result, ok, err, platform_config, invalid_zone_id, no_record_id, no_record_line}
use tu_dns.Dns.{Zone, RecordInput, RemoteRecord, Provider, Platform}
use tu_dns.Payment.Query.{lookup}
use tu_dns.Platforms.{normalized_ttl, itoa, host_to_sub, echo, ◌>>=◌}

-- A zone of the SDK, whose fields may be missing.
pub record VolcZone : Type 0 where
  pub zid : Option ℤ
  pub zone_name : Option Text

pub record VolcCreate : Type 0 where
  pub zid : ℤ
  pub host : Text
  pub type : Text
  pub value : Text
  pub ttl : ℤ
  pub line : Option Text

pub record VolcUpdate : Type 0 where
  pub host : Text
  pub line : Text
  pub record_id : Text
  pub ttl : ℤ
  pub type : Text
  pub value : Text

-- `volcDNSClient`: the new record's id and the record's line may be missing.
pub record VolcClient : Type 0 where
  pub list_zones : ℕ → ℕ → Result (List VolcZone)
  pub create_record : ℕ → VolcCreate → Result (Option Text)
  pub update_record : ℕ → VolcUpdate → Result (Unit {0})
  pub delete_record : ℕ → Text → Result (Unit {0})
  pub query_record : ℕ → Text → Result (Option Text)

-- `if p == nil || *p == "" { return err }`
abbrev pub present : {A : Type 0} → Result A → Option Text → (Text → Result A) → Result A
present missing none f = missing
present missing (some t) f = if is_empty t then missing else f t

abbrev pub line_field : Text → Option Text
line_field line = if is_empty line then none else some line

-- `strconv.ParseInt(s, 10, 64)` behind the sign, which says whether the number is below 2^63 or at
-- most 2^63.
abbrev magnitude : ℕ → Text → Option ℕ
magnitude limit s =
    let n = parse_uint s in
    if is_empty s || any (λ c. not (is_digit c)) s
    then none
    else if ltb n limit
    then some n
    else none

abbrev signed_by : (ℕ → ℤ) → Option ℕ → Result ℤ
signed_by sign none = err invalid_zone_id
signed_by sign (some n) = ok (sign n)

unfoldable pub parse_zone : Text → Result ℤ
parse_zone [] = err invalid_zone_id
parse_zone (c ∷ s) =
    if c == b'-'
    then signed_by (λ n. neg_ℤ (pos n)) (magnitude (two63 + 1) s)
    else if c == b'+'
    then signed_by pos (magnitude two63 s)
    else signed_by pos (magnitude two63 (c ∷ s))

module _ (l : Letters) where
  module _ (client : Option VolcClient) where
    unfoldable pub ready : Result VolcClient
    ready = elim client [ none ↦ err platform_config | some c ↦ ok c ]

    abbrev pub named_zones : List VolcZone → List Zone
    named_zones [] = []
    named_zones (z ∷ zs) =
        let rest = named_zones zs in
        elim z.zid [
          | none ↦ rest
          | some n ↦ elim z.zone_name [
            | none ↦ rest
            | some name ↦ record { id = itoa n; domain = trim_suffix name (text ".") } ∷ rest
          ]
        ]

    unfoldable pub list_zones : ℕ → Result (List Zone)
    unfolding ready itoa trim_suffix
    list_zones m = do c ← ready; zones ← c.list_zones m 100; ok (named_zones zones)

    unfoldable pub create_record : ℕ → Zone → RecordInput → Result RemoteRecord
    unfolding ready parse_zone parse_uint host_to_sub normalized_ttl to_upper
    create_record m zone i = do
      c ← ready
      zid ← parse_zone zone.id
      created ← c.create_record m (record {
        zid = zid;
        host = host_to_sub l i.name zone.domain;
        type = to_upper l i.type;
        value = i.value;
        ttl = normalized_ttl i.ttl;
        line = line_field i.line;
      })
      present (err no_record_id) created (λ id. ok (echo l id i i.line))

    -- The line that an update sends: that of the record where none is asked for.
    unfoldable pub update_line : ℕ → VolcClient → Text → Text → Result Text
    update_line m c id line =
        if is_empty line
        then c.query_record m id >>= (λ found. present (err no_record_line) found ok)
        else ok line

    unfoldable pub update_record : ℕ → Zone → Text → RecordInput → Result RemoteRecord
    unfolding ready host_to_sub normalized_ttl to_upper update_line
    update_record m zone id i = do
      c ← ready
      line ← update_line m c id i.line
      _ ← c.update_record m (record {
        host = host_to_sub l i.name zone.domain;
        line = line;
        record_id = id;
        ttl = normalized_ttl i.ttl;
        type = to_upper l i.type;
        value = i.value;
      })
      ok (echo l id i line)

    unfoldable pub delete_record : ℕ → Zone → Text → Result (Unit {0})
    unfolding ready
    delete_record m zone id = do c ← ready; c.delete_record m id

    -- `Check`
    abbrev check : ℕ → Result (Unit {0})
    check m = do _ ← list_zones m; ok tt

    abbrev pub provider : Provider
    provider = record {
      check = check;
      list_zones = list_zones;
      create_record = create_record;
      update_record = update_record;
      delete_record = delete_record;
    }

  -- `Configure`, with the SDK's constructor of a client
  unfoldable pub configure : (Text → Text → VolcClient) → Platform
  unfolding trim_space
  configure new_client config =
      let access = trim_space (lookup (text "access_key") config) in
      let secret = trim_space (lookup (text "secret_key") config) in
      if is_empty access || is_empty secret
      then err platform_config
      else ok (provider (some (new_client access secret)))
