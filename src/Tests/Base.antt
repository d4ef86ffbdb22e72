-- ===== src/Tests/Base.antt =====
-- An environment whose database never fails, with one platform, and a database with a few rows.
use tu_dns.Prelude.{◌*◌, ◌≡◌, arith, refl, [], ◌∷◌, none, some, true}
use tu_dns.Prelude.Int.{pos, int_laws}
use tu_dns.Text.{text}
use tu_dns.Result.{Error, Result, ok, err}
use tu_dns.Dns.{Provider, Platform, Registry}
use tu_dns.Models.{
  Db, User, Domain, Subdomain, Record, PointsLedger, RedeemCode, PaymentOrder, Setting, ApiKey,
  role_user, role_admin,
}
use tu_dns.World.{World, Env}
use tu_dns.World.Healthy.{IsHealthy}
use tu_dns.Points.Balance.{IsBalanced}
use tu_dns.World.Perfect.{perfect, perfect-IsUp}

abbrev pub provider : Provider
provider = record {
  check = λ m. ok tt;
  list_zones = λ m. ok [];
  create_record = λ m zone i. ok (record {
    remote_id = text "r1";
    name = i.name;
    type = i.type;
    value = i.value;
    ttl = i.ttl;
    line = i.line;
  });
  update_record = λ m zone id i. ok (record {
    remote_id = id;
    name = i.name;
    type = i.type;
    value = i.value;
    ttl = i.ttl;
    line = i.line;
  });
  delete_record = λ m zone id. ok tt;
}

abbrev pub platform : Platform
platform config = ok provider

abbrev pub registry : Registry
registry = (text "mem", platform) ∷ []

pub no_error : (r : Result (Unit {0})) (b a : Db) (e : Error) → r ≡ ok tt → r ≡ err e → a ≡ b
no_error r b a e good bad = cc (good, bad)

abbrev pub env : Env
env = record {
  users = perfect _;
  domains = perfect _;
  subdomains = perfect _;
  records = perfect _;
  ledgers = perfect _;
  codes = perfect _;
  uses = perfect _;
  orders = perfect _;
  settings = perfect _;
  logs = perfect _;
  notifications = perfect _;
  webhooks = perfect _;
  api_keys = perfect _;
  commit = λ m before after. (ok tt, after);
  rollback = λ m before after. before;
  commit_ok = λ m b a e. refl;
  commit_err = λ m b a x e. no_error (ok tt) b a x refl e;
  rollback_lem = λ m b a. refl;
  now = λ m. m * 1000000000;
  format_second = λ t. t ∷ [];
  uuid = λ m. b'u' ∷ m ∷ [];
  random_hex = λ m n. ok (text "0123456789abcdef0123456789abcdef");
  letters = record { lower = λ c. c; upper = λ c. c };
  registry = registry;
}

pub healthy : IsHealthy env
healthy = record {
  users = perfect-IsUp _;
  domains = perfect-IsUp _;
  subdomains = perfect-IsUp _;
  records = perfect-IsUp _;
  ledgers = perfect-IsUp _;
  codes = perfect-IsUp _;
  uses = perfect-IsUp _;
  orders = perfect-IsUp _;
  settings = perfect-IsUp _;
  logs = perfect-IsUp _;
  commits = λ m b a. refl;
}

abbrev pub ann : User
ann = record {
  id = 1;
  username = text "ann";
  email = [];
  password_hash = text "secret1";
  role = role_user;
  status = pos 1;
  points = pos 10;
}

abbrev pub bob : User
bob = record {
  id = 2;
  username = text "bob";
  email = [];
  password_hash = text "secret2";
  role = role_admin;
  status = pos 1;
  points = pos 0;
}

abbrev pub first_entry : PointsLedger
first_entry = record {
  id = 1;
  user_id = 1;
  delta = pos 10;
  balance = pos 10;
  type = text "admin";
  biz_no = text "start";
  remark = [];
  operator = 2;
}

abbrev pub zone : Domain
zone = record {
  id = 1;
  name = text "ex.com";
  provider_key = text "mem";
  remote_zone_id = text "z";
  config_ciphertext = [];
  record_types = text "A,TXT";
  points_cost = pos 3;
  description = [];
  subdomain_ttl_days = pos 0;
  status = pos 1;
}

-- A subdomain of Ann's that expires at 0.
abbrev pub home : Subdomain
home = record {
  id = 1;
  user_id = 1;
  domain_id = 1;
  name = text "home";
  full_domain = text "home.ex.com";
  status = pos 1;
  expires_at = some 0;
}

abbrev pub address : Record
address = record {
  id = 1;
  user_id = 1;
  domain_id = 1;
  subdomain_id = 1;
  remote_id = text "r0";
  name = text "home.ex.com";
  type = text "A";
  value = text "1.2.3.4";
  ttl = pos 600;
  line = [];
}

abbrev pub gift : RedeemCode
gift = record {
  id = 1;
  code = text "GIFT";
  points = pos 5;
  max_uses = pos 2;
  used_count = pos 0;
  expires_at = none;
  enabled = true;
}

abbrev pub order : PaymentOrder
order = record {
  id = 1;
  user_id = 1;
  out_trade_no = text "order-01";
  trade_no = [];
  amount_cent = pos 100;
  points = pos 10;
  status = text "pending";
  pay_url = [];
  notify_raw = [];
  paid_at = none;
}

abbrev pub stored_config : Setting
stored_config = record { id = 1; key = text "alipay_config"; value = text "{}" }

abbrev pub ann_key : ApiKey
ann_key = record {
  id = 1;
  user_id = 1;
  name = text "ci";
  key_prefix = text "01234567";
  key_hash = text "key";
  last_used_at = none;
  last_ip = [];
  enabled = true;
}

abbrev pub db : Db
db = record {
  users = ann ∷ bob ∷ [];
  domains = zone ∷ [];
  subdomains = home ∷ [];
  records = address ∷ [];
  ledgers = first_entry ∷ [];
  codes = gift ∷ [];
  uses = [];
  orders = order ∷ [];
  settings = stored_config ∷ [];
  logs = [];
  notifications = [];
  webhooks = [];
  api_keys = ann_key ∷ [];
}

abbrev pub start : World
start = record { db = db; moment = 1; calls = [] }

pub db-IsBalanced : IsBalanced db
db-IsBalanced = record {
  balances = (
    (omega int_laws, omega arith, (omega arith, omega arith)),
    ((omega int_laws, omega arith, (omega arith, omega arith)), tt),
  );
  owners = (refl, tt);
}
