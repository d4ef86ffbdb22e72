-- ===== src/Tests/Platforms.antt =====
-- The clients of the platforms on small replies, and the theorems at concrete inputs.
use tu_dns.Prelude.{none, ◌≡◌, refl, List, [], ◌∷◌, ◌++◌, ℕ, some, ◌==◌, if◌then◌else◌, arith}
use tu_dns.Prelude.Int.{pos, negsuc}
use tu_dns.Text.{Text, Letters, text, to_lower, has_suffix}
use tu_dns.Result.{ok, err, record_not_found, http_status}
use tu_dns.Dns.{Zone, RecordInput, RemoteRecord}
use tu_dns.Platforms.{Client, Decoders, host_to_sub}
use tu_dns.Platforms.Baidu.{BaiduClient, BaiduRecord, Runtime, matching_record_ids, int32}
use tu_dns.Platforms.Volcengine.{VolcZone, VolcClient, list_zones}
use tu_dns.Platforms.Host.{host_to_sub-append}
use tu_dns.Platforms.ZoneIds.{AreListed, IsAskedUnder, create_record-list_zones}
use tu_dns.Platforms.Echo.{
  Outside, BuiltIn, westcn, provider_of, IsEcho, create_record-IsEcho, update_record-IsEcho,
}
use tu_dns.Platforms.Fresh.{IsFresh, create_record-IsFresh}
use tu_dns.Platforms.Westcn
use tu_dns.Platforms.Baidu

abbrev letters : Letters
letters = record { lower = λ c. c; upper = λ c. c }

-- A platform that accepts everything under the id 77.
abbrev http : Client
http = record {
  send = λ m q. ok (record { status = 200; content = text "{}" });
  md5_hex = λ t. t;
  time_text = λ m n. text "20240102030405";
  unix_text = λ m. text "1704164645";
  letters = letters;
}

abbrev json : Decoders
json = record {
  zones = λ t. ok (record { code = pos 200; msg = []; zones = [] });
  rec = λ t. ok (record { code = pos 200; msg = []; id = text "77" });
  status = λ t. ok (record { code = pos 200; msg = [] });
}

abbrev runtime : Runtime
runtime = record {
  context_error = λ m. ok tt;
  pause = λ m n. ok tt;
  in_order = λ m n ids. ids;
  fold = λ c. c;
}

abbrev outside : Outside
outside = record {
  http = http;
  pod_json = record {
    zones = λ t. err (http_status 0);
    rec = λ t. err (http_status 0);
    status = λ t. err (http_status 0);
  };
  json = json;
  go = runtime;
  ali = record {
    zones = λ t. err (http_status 0);
    rec = λ t. err (http_status 0);
    status = λ t. err (http_status 0);
    query_escape = λ t. t;
    encode_query = λ f. [];
    hmac_sha1 = λ k t. t;
    nonce = λ m. [];
    timestamp = λ m. [];
  };
  huawei = record {
    round_trip = λ m q. err (http_status 0);
    url_host = λ u. u;
    url_path = λ u. u;
    url_query = λ u. u;
    zones = λ t. ok [];
    record_id = λ t. ok t;
    sha256 = λ t. t;
    hmac = λ k t. t;
    hex = λ t. t;
    date_time = λ m. [];
    date = λ m. [];
  };
  jd = record {
    round_trip = λ m q. err (http_status 0);
    marshal = λ es. [];
    zones = λ t. ok [];
    record_id = λ t. ok (pos 0);
    sha256 = λ t. t;
    hmac = λ k t. t;
    hex = λ t. t;
    date_time = λ m. [];
    date = λ m. [];
    unix_nano = λ m. [];
  };
}

abbrev west : BuiltIn
west = westcn (record { username = text "ann"; api_password = text "secret" })

abbrev zone : Zone
zone = record { id = text "5"; domain = text "Example.com" }

abbrev input : RecordInput
input = record {
  name = text "www.example.com";
  type = text "a";
  value = text "10.0.0.1";
  ttl = pos 0;
  line = [];
}

abbrev stored : RemoteRecord
stored = record {
  remote_id = text "77";
  name = text "www.example.com";
  type = text "A";
  value = text "10.0.0.1";
  ttl = pos 600;
  line = [];
}

creates_at_westcn : (provider_of outside west).create_record 0 zone input ≡ ok stored
unfolding Westcn.create_record
creates_at_westcn = refl

create_record-IsEcho_example : IsEcho letters input stored
create_record-IsEcho_example =
    create_record-IsEcho outside 0 zone input west stored creates_at_westcn

changes_at_westcn : (provider_of outside west).update_record 0 zone (text "77") input ≡ ok stored
unfolding Westcn.update_record
changes_at_westcn = refl

update_record-IsEcho_example : IsEcho letters input stored × (stored.remote_id ≡ text "77")
update_record-IsEcho_example =
    update_record-IsEcho outside 0 zone input west (text "77") stored changes_at_westcn

-- The new record shows in the second listing behind the request.
abbrev listed : ℕ → List BaiduRecord
listed n =
    let old : BaiduRecord = record {
      id = text "1";
      rr = text "www";
      type = text "A";
      value = text "10.0.0.1";
    } in
    let new : BaiduRecord = record {
      id = text "77";
      rr = text "www";
      type = text "A";
      value = text "10.0.0.1";
    } in
    if n == 2 then new ∷ old ∷ [] else old ∷ []

abbrev baidu : BaiduClient
baidu = record {
  list_zone = λ m k. ok [];
  list_record = λ m n domain rr k. ok (listed n);
  create_record = λ m domain q. ok tt;
  update_record = λ m domain id q. ok tt;
  delete_record = λ m domain id. ok tt;
}

creates_at_baidu : Baidu.create_record letters runtime (some baidu) 0 zone input ≡ ok stored
unfolding Baidu.create_record
creates_at_baidu = refl

create_record-IsFresh_example :
    (before : List Text) × ((matching_record_ids letters runtime 0 0 baidu zone input ≡ ok before)
      × IsFresh letters runtime 0 baidu zone input before (text "77"))
create_record-IsFresh_example =
    create_record-IsFresh letters runtime (λ P m n ids h. h) 0 baidu zone input stored
      creates_at_baidu

-- A record that no listing shows is created and not found.
abbrev hidden : BaiduClient
hidden = record baidu { list_record = λ m n domain rr k. ok (listed 0) }

hides_at_baidu :
    Baidu.create_record letters runtime (some hidden) 0 zone input ≡ err record_not_found
unfolding Baidu.create_record
hides_at_baidu = refl

-- A time to live of 2^32 seconds is sent as 0.
int32_wraps : int32 (pos 0x100000000) ≡ pos 0
unfolding int32
int32_wraps = refl

host_to_sub-append_example :
    host_to_sub letters (text "WWW" ++ (text "." ++ text "Example.com")) (text "Example.com")
    ≡ text "www"
unfolding to_lower has_suffix
host_to_sub-append_example = host_to_sub-append letters (text "WWW") (text "Example.com") refl refl

abbrev volc_zones : List VolcZone
volc_zones =
    record { zid = some (negsuc 4095); zone_name = some (text "ex.com.") }
    ∷ record { zid = some (pos 7); zone_name = none }
    ∷ []

-- A client with two zones, one of which has no name.
abbrev volc : VolcClient
volc = record {
  list_zones = λ m size. ok volc_zones;
  create_record = λ m q. ok (some (text "r1"));
  update_record = λ m q. ok tt;
  delete_record = λ m id. ok tt;
  query_record = λ m id. ok none;
}

two_listed :
    list_zones letters (some volc) 1
    ≡ ok (record { id = text "-4096"; domain = text "ex.com" } ∷ [])
unfolding list_zones
two_listed = refl

create_record-list_zones_example :
    AreListed
      (IsAskedUnder letters volc 0 input)
      volc_zones
      (record { id = text "-4096"; domain = text "ex.com" } ∷ [])
create_record-list_zones_example =
    create_record-list_zones letters volc 0 input 1 volc_zones
      (record { id = text "-4096"; domain = text "ex.com" } ∷ [])
      ((omega arith, omega arith), ((omega arith, omega arith), tt)) refl two_listed
