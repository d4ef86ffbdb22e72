-- ===== src/Platforms/Baidu.antt =====
-- dns/providers/baidu.go. The client of the SDK, the request's context and the order in which a loop
-- over a map visits its keys are parameters.
use tu_dns.Prelude.{
  ℕ, zero, suc, ◌+◌, ◌-◌, ◌%◌, Bool, ◌&&◌, ◌||◌, List, [], ◌∷◌, map, any, Option, none, some, ltb,
  leb, if◌then◌else◌,
}
use tu_dns.Prelude.Int.{ℤ, pos, negsuc}
use tu_dns.Text.{Text, Letters, text, text_eq, is_empty, trim_space, trim_suffix, to_upper}
use tu_dns.Result.{Result, ok, err, platform_config, ambiguous_record, record_not_found}
use tu_dns.Dns.{Zone, RecordInput, RemoteRecord, Provider, Platform}
use tu_dns.Payment.Query.{lookup}
use tu_dns.Platforms.{normalized_ttl, host_to_sub, echo, ◌>>=◌}
use tu_dns.Platforms.Volcengine.{line_field}

pub record BaiduRecord : Type 0 where
  pub id : Text
  pub rr : Text
  pub type : Text
  pub value : Text

pub record BaiduRequest : Type 0 where
  pub rr : Text
  pub type : Text
  pub value : Text
  pub ttl : ℤ
  pub line : Option Text

-- `baiduDNSClient`, behind its random tokens. The listings of one call are told apart by the second
-- number.
pub record BaiduClient : Type 0 where
  pub list_zone : ℕ → ℕ → Result (List Zone)
  pub list_record : ℕ → ℕ → Text → Text → ℕ → Result (List BaiduRecord)
  pub create_record : ℕ → Text → BaiduRequest → Result (Unit {0})
  pub update_record : ℕ → Text → Text → BaiduRequest → Result (Unit {0})
  pub delete_record : ℕ → Text → Text → Result (Unit {0})

-- The Go runtime: `ctx.Err()`, the `select` between the end of the context and 200 milliseconds,
-- the order of a `range` over a map, and the folding of letters above ASCII.
pub record Runtime : Type 0 where
  pub context_error : ℕ → Result (Unit {0})
  pub pause : ℕ → ℕ → Result (Unit {0})
  pub in_order : ℕ → ℕ → List Text → List Text
  pub fold : ℕ → ℕ

-- `int32(ttl)`
abbrev residue32 : ℤ → ℕ
residue32 (pos n) = n % 0x100000000
residue32 (negsuc n) = 0x100000000 - 1 - n % 0x100000000

unfoldable pub int32 : ℤ → ℤ
int32 ttl =
    let n = residue32 ttl in if ltb n 0x80000000 then pos n else negsuc (0x100000000 - 1 - n)

-- `strings.EqualFold`
abbrev fold_rune : Runtime → ℕ → ℕ
fold_rune go c = if ltb c 0x80 then (if leb b'A' c && leb c b'Z' then c + 32 else c) else go.fold c

unfoldable pub equal_fold : Runtime → Text → Text → Bool
equal_fold go s t = text_eq (map (fold_rune go) s) (map (fold_rune go) t)

-- A `map[string]struct{}` as the list of its keys.
abbrev pub has_key : Text → List Text → Bool
has_key key ids = any (text_eq key) ids

abbrev add_key : Text → List Text → List Text
add_key key ids = if has_key key ids then ids else key ∷ ids

-- The loop of `findNewRecordID` over the keys, with the `remoteID` so far.
unfoldable pub pick_new : List Text → Text → List Text → Result Text
pick_new before found [] = ok found
pick_new before found (id ∷ ids) =
    let skipped = pick_new before found ids in
    let taken = pick_new before id ids in
    if has_key id before then skipped else if is_empty found then taken else err ambiguous_record

module _ (l : Letters) (go : Runtime) where
  -- The test of `matchingRecordIDs`
  unfoldable pub is_match : Text → RecordInput → BaiduRecord → Bool
  unfolding equal_fold
  is_match rr i r = text_eq r.rr rr && equal_fold go r.type i.type && text_eq r.value i.value

  unfoldable pub collect_ids : Text → RecordInput → List BaiduRecord → List Text
  unfolding is_match
  collect_ids rr i [] = []
  collect_ids rr i (r ∷ rs) =
      let ids = collect_ids rr i rs in if is_match rr i r then add_key r.id ids else ids

  -- The listing with number n of the call at m.
  unfoldable pub matching_record_ids : ℕ → ℕ → BaiduClient → Zone → RecordInput → Result (List Text)
  unfolding collect_ids host_to_sub
  matching_record_ids m n c zone i = do
    let rr = host_to_sub l i.name zone.domain
    records ← c.list_record m n zone.domain rr 1000
    ok (collect_ids rr i records)

  -- One round of `findNewRecordID`: the empty text where there is no new record.
  unfoldable pub look_for : ℕ → ℕ → BaiduClient → Zone → RecordInput → List Text → Result Text
  unfolding matching_record_ids pick_new
  look_for m n c zone i before = do
    after ← matching_record_ids m n c zone i
    pick_new before [] (go.in_order m n after)

  -- The rounds that are left behind one that found nothing; `attempt` is the next one.
  unfoldable pub retry : ℕ → ℕ → ℕ → BaiduClient → Zone → RecordInput → List Text → Result Text
  unfolding look_for
  retry zero attempt m c zone i before = err record_not_found
  retry (suc left) attempt m c zone i before =
      let again = retry left (attempt + 1) m c zone i before in
      go.pause m attempt
      >>= (λ _. look_for m (attempt + 1) c zone i before)
      >>= (λ id. if is_empty id then again else ok id)

  -- The listing with number 0 is the one before the creation.
  unfoldable pub find_new_record_id : ℕ → BaiduClient → Zone → RecordInput → List Text → Result Text
  unfolding look_for retry
  find_new_record_id m c zone i before =
      look_for m 1 c zone i before
      >>= (λ id. if is_empty id then retry 2 1 m c zone i before else ok id)

  module _ (client : Option BaiduClient) where
    unfoldable pub ready : ℕ → Result BaiduClient
    ready m = do _ ← go.context_error m; elim client [ none ↦ err platform_config | some c ↦ ok c ]

    unfoldable pub list_zones : ℕ → Result (List Zone)
    unfolding ready trim_suffix
    list_zones m = do
      c ← ready m
      zones ← c.list_zone m 1000
      ok (map (λ z. record { id = z.id; domain = trim_suffix z.domain (text ".") }) zones)

    unfoldable pub create_record : ℕ → Zone → RecordInput → Result RemoteRecord
    unfolding ready host_to_sub normalized_ttl int32 to_upper matching_record_ids find_new_record_id
    create_record m zone i = do
      c ← ready m
      before ← matching_record_ids m 0 c zone i
      _ ← c.create_record m zone.domain (record {
        rr = host_to_sub l i.name zone.domain;
        type = to_upper l i.type;
        value = i.value;
        ttl = int32 (normalized_ttl i.ttl);
        line = line_field i.line;
      })
      id ← find_new_record_id m c zone i before
      ok (echo l id i i.line)

    unfoldable pub update_record : ℕ → Zone → Text → RecordInput → Result RemoteRecord
    unfolding ready host_to_sub normalized_ttl int32 to_upper
    update_record m zone id i = do
      c ← ready m
      _ ← c.update_record m zone.domain id (record {
        rr = host_to_sub l i.name zone.domain;
        type = to_upper l i.type;
        value = i.value;
        ttl = int32 (normalized_ttl i.ttl);
        line = none;
      })
      ok (echo l id i i.line)

    unfoldable pub delete_record : ℕ → Zone → Text → Result (Unit {0})
    unfolding ready
    delete_record m zone id = do c ← ready m; c.delete_record m zone.domain id

    -- `Check`
    abbrev check : ℕ → Result (Unit {0})
    check m = do _ ← go.context_error m; _ ← list_zones m; ok tt

    abbrev pub provider : Provider
    provider = record {
      check = check;
      list_zones = list_zones;
      create_record = create_record;
      update_record = update_record;
      delete_record = delete_record;
    }

  -- `Configure`, with the SDK's constructor of a client
  unfoldable pub configure : (Text → Text → Result BaiduClient) → Platform
  unfolding trim_space
  configure new_client config =
      let access = trim_space (lookup (text "access_key") config) in
      let secret = trim_space (lookup (text "secret_key") config) in
      if is_empty access || is_empty secret
      then err platform_config
      else new_client access secret >>= (λ c. ok (provider (some c)))
