-- ===== src/World.antt =====
-- The state that the services share and the actions on it. `World` is the content of the database,
-- the number of outside calls made so far and the calls made to DNS platforms; `Env` is what is
-- outside the program: gorm's tables and transactions, the clock, random sources and platforms.
pub mod On
pub mod Rules
pub mod Preserves
pub mod Healthy
pub mod Perfect
use tu_dns.Prelude.{ℕ, ◌+◌, ◌≡◌, Bool, List, [], ◌∷◌, ◌++◌, Option, none, some, if◌then◌else◌}
use tu_dns.Prelude.Int.{ℤ}
use tu_dns.Text.{Text, Letters}
use tu_dns.Gorm.{Table}
use tu_dns.Result.{Error, Result, ok, err}
use tu_dns.Models.{
  Db, User, Domain, Subdomain, Record, PointsLedger, RedeemCode, RedeemUse, PaymentOrder, Setting,
  OperationLog, Notification, Webhook, ApiKey,
}
use tu_dns.Models.Schema.{
  Schema, user_schema, domain_schema, subdomain_schema, record_schema, ledger_schema, code_schema,
  use_schema, order_schema, setting_schema, log_schema, notification_schema, webhook_schema,
  api_key_schema,
}
use tu_dns.Dns.{Zone, RecordInput, RemoteRecord, Registry}

-- A call of a provider, with what the platform answered.
pub data Call : Type 0 where
  create_call : Zone → RecordInput → Result RemoteRecord → Call
  update_call : Zone → Text → RecordInput → Result RemoteRecord → Call
  delete_call : Zone → Text → Result (Unit {0}) → Call

pub record World : Type 0 where
  pub db : Db
  pub moment : ℕ
  pub calls : List Call

pub record Env : Type 0 where
  pub users : Table user_schema
  pub domains : Table domain_schema
  pub subdomains : Table subdomain_schema
  pub records : Table record_schema
  pub ledgers : Table ledger_schema
  pub codes : Table code_schema
  pub uses : Table use_schema
  pub orders : Table order_schema
  pub settings : Table setting_schema
  pub logs : Table log_schema
  pub notifications : Table notification_schema
  pub webhooks : Table webhook_schema
  pub api_keys : Table api_key_schema
  -- The end of a transaction that began at the first content and has come to the second.
  pub commit : ℕ → Db → Db → Result (Unit {0}) × Db
  pub rollback : ℕ → Db → Db → Db
  pub commit_ok : (m : ℕ) (b a : Db) → (commit m b a).0 ≡ ok tt → (commit m b a).1 ≡ a
  pub commit_err : (m : ℕ) (b a : Db) (e : Error) → (commit m b a).0 ≡ err e → (commit m b a).1 ≡ b
  pub rollback_lem : (m : ℕ) (b a : Db) → rollback m b a ≡ b
  -- `time.Now()`, and its print with the layout 20060102150405, which tells seconds apart
  pub now : ℕ → ℕ
  pub format_second : ℕ → Text
  -- `uuid.NewString()`, and the bytes of `rand.Read` in hexadecimal digits
  pub uuid : ℕ → Text
  pub random_hex : ℕ → ℕ → Result Text
  pub letters : Letters
  pub registry : Registry

abbrev pub Action : Type 0 → Type 0
Action A = World → Result A × World

module _ {A : Type 0} where
  unfoldable pub pure : A → Action A
  pure a w = (ok a, w)

  unfoldable pub raise : Error → Action A
  raise e w = (err e, w)

  -- What was done before an error stays done.
  abbrev continue : {B : Type 0} → Result A → (A → Action B) → Action B
  continue (ok a) f w = f a w
  continue (err e) f w = (err e, w)

  unfoldable pub or_raise : Option A → Error → Action A
  unfolding pure raise
  or_raise none e = raise e
  or_raise (some a) e = pure a

  unfoldable pub lift : Result A → Action A
  lift r w = (r, w)

infixl 5 ◌>>=◌ ◌>>◌
unfoldable pub ◌>>=◌ : {A B : Type 0} → Action A → (A → Action B) → Action B
◌>>=◌ m f w = let (r, w') = m w in continue r f w'

abbrev pub ◌>>◌ : {A B : Type 0} → Action A → Action B → Action B
m >> k = m >>= λ _. k

-- `if c { return e }`
unfoldable pub raise_if : Bool → Error → Action (Unit {0})
raise_if c e w = (if c then err e else ok tt, w)

-- A call whose error the caller looks at.
unfoldable pub attempt : {A : Type 0} → Action A → Action (Result A)
attempt m w = let (r, w') = m w in (ok r, w')

-- `if m; err != nil { return … }` with another error in the place of err
unfoldable pub map_error : {A : Type 0} → (Error → Error) → Action A → Action A
map_error g m w = let (r, w') = m w in (elim r [ ok a ↦ ok a | err e ↦ err (g e) ], w')

abbrev pub tick : World → World
tick w = record w { moment = w.moment + 1 }

-- A call to the outside that does not touch the state.
unfoldable pub ask : {A : Type 0} → (ℕ → A) → Action A
ask f w = (ok (f w.moment), tick w)

-- A table of the environment, with its place in the database.
pub record Handle {Row : Type 0} (schema : Schema Row) : Type 0 where
  pub table : Table schema
  pub get : Db → List Row
  pub put : List Row → Db → Db

module _ {Row : Type 0} {schema : Schema Row} (h : Handle schema) where
  abbrev store : Result (List Row) → World → Result (Unit {0}) × World
  store (ok t) w = (ok tt, record w { db = h.put t w.db })
  store (err e) w = (err e, w)

  abbrev store_new : Result (Row × List Row) → World → Result Row × World
  store_new (ok (r, t)) w = (ok r, record w { db = h.put t w.db })
  store_new (err e) w = (err e, w)

  unfoldable pub first : (Row → Bool) → Action Row
  first p w = (h.table.first w.moment p (h.get w.db), tick w)

  unfoldable pub count_where : (Row → Bool) → Action ℕ
  count_where p w = (h.table.count_where w.moment p (h.get w.db), tick w)

  unfoldable pub find : (Row → Bool) → Action (List Row)
  find p w = (h.table.find w.moment p (h.get w.db), tick w)

  unfoldable pub find_desc : (Row → Bool) → Action (List Row)
  find_desc p w = (h.table.find_desc w.moment p (h.get w.db), tick w)

  unfoldable pub find_page : (Row → Bool) → ℤ → ℕ → Action (List Row)
  find_page p n k w = (h.table.find_page w.moment p n k (h.get w.db), tick w)

  unfoldable pub create : Row → Action Row
  create r w = store_new (h.table.create w.moment r (h.get w.db)) (tick w)

  unfoldable pub save : Row → Action (Unit {0})
  save r w = store (h.table.save w.moment r (h.get w.db)) (tick w)

  unfoldable pub update : (Row → Bool) → (Row → Row) → Action (Unit {0})
  update p f w = store (h.table.update w.moment p f (h.get w.db)) (tick w)

  unfoldable pub delete : (Row → Bool) → Action (Unit {0})
  delete p w = store (h.table.delete w.moment p (h.get w.db)) (tick w)

  unfoldable pub upsert : (Row → Bool) → (Row → Row) → Row → Action (Unit {0})
  upsert p f r w = store (h.table.upsert w.moment p f r (h.get w.db)) (tick w)

module _ (env : Env) where
  abbrev pub settings : Handle setting_schema
  settings = record {
    table = env.settings;
    get = λ d. d.settings;
    put = λ t d. record d { settings = t };
  }

  abbrev pub logs : Handle log_schema
  logs = record { table = env.logs; get = λ d. d.logs; put = λ t d. record d { logs = t } }

  abbrev pub notifications : Handle notification_schema
  notifications = record {
    table = env.notifications;
    get = λ d. d.notifications;
    put = λ t d. record d { notifications = t };
  }

  abbrev pub webhooks : Handle webhook_schema
  webhooks = record {
    table = env.webhooks;
    get = λ d. d.webhooks;
    put = λ t d. record d { webhooks = t };
  }

  abbrev pub api_keys : Handle api_key_schema
  api_keys = record {
    table = env.api_keys;
    get = λ d. d.api_keys;
    put = λ t d. record d { api_keys = t };
  }

  abbrev pub users : Handle user_schema
  users = record { table = env.users; get = λ d. d.users; put = λ t d. record d { users = t } }

  abbrev pub domains : Handle domain_schema
  domains = record {
    table = env.domains;
    get = λ d. d.domains;
    put = λ t d. record d { domains = t };
  }

  abbrev pub subdomains : Handle subdomain_schema
  subdomains = record {
    table = env.subdomains;
    get = λ d. d.subdomains;
    put = λ t d. record d { subdomains = t };
  }

  abbrev pub records : Handle record_schema
  records = record {
    table = env.records;
    get = λ d. d.records;
    put = λ t d. record d { records = t };
  }

  abbrev pub ledgers : Handle ledger_schema
  ledgers = record {
    table = env.ledgers;
    get = λ d. d.ledgers;
    put = λ t d. record d { ledgers = t };
  }

  abbrev pub codes : Handle code_schema
  codes = record { table = env.codes; get = λ d. d.codes; put = λ t d. record d { codes = t } }

  abbrev pub uses : Handle use_schema
  uses = record { table = env.uses; get = λ d. d.uses; put = λ t d. record d { uses = t } }

  abbrev pub orders : Handle order_schema
  orders = record { table = env.orders; get = λ d. d.orders; put = λ t d. record d { orders = t } }

  -- `db.Transaction(m)`: an error of `m` or of the commit leaves the database as it was, but not
  -- the platforms.
  abbrev settle : {A : Type 0} → Db → Result A → World → Result A × World
  settle before (err e) w = (err e, record (tick w) { db = env.rollback w.moment before w.db })
  settle before (ok a) w =
      let (r, after) = env.commit w.moment before w.db in
      (elim r [ ok _ ↦ ok a | err e ↦ err e ], record (tick w) { db = after })

  unfoldable pub transaction : {A : Type 0} → Action A → Action A
  transaction m w = let (r, w') = m w in settle w.db r w'
