-- ===== src/Models.antt =====
-- The tables of models/models.go. An id (Go's uint) is a natural number, an int or int64 column an
-- integer, a time a number of nanoseconds. The columns that only gorm writes (CreatedAt, UpdatedAt)
-- are left out: nothing of the program reads them but the view of a user, which shows one.
pub mod Schema
use tu_dns.Prelude.{ℕ, Bool, false, ◌&&◌, List, Option, none, some, ltb}
use tu_dns.Prelude.Int.{ℤ, pos, eq_ℤ}
use tu_dns.Text.{Text, text}

abbrev pub role_user : Text
role_user = text "user"

abbrev pub role_admin : Text
role_admin = text "admin"

abbrev pub role_premium : Text
role_premium = text "premium"

abbrev pub user_status_active : ℤ
user_status_active = pos 1

abbrev pub domain_status_active : ℤ
domain_status_active = pos 1

abbrev pub subdomain_status_active : ℤ
subdomain_status_active = pos 1

abbrev pub subdomain_status_disabled : ℤ
subdomain_status_disabled = pos 0

abbrev pub ledger_type_admin : Text
ledger_type_admin = text "admin"

abbrev pub ledger_type_redeem : Text
ledger_type_redeem = text "redeem"

abbrev pub ledger_type_payment : Text
ledger_type_payment = text "payment"

abbrev pub ledger_type_charge : Text
ledger_type_charge = text "charge"

abbrev pub order_status_pending : Text
order_status_pending = text "pending"

abbrev pub order_status_paid : Text
order_status_paid = text "paid"

pub record User : Type 0 where
  pub id : ℕ
  pub username : Text
  pub email : Text
  pub password_hash : Text
  pub role : Text
  pub status : ℤ
  pub points : ℤ

pub record Domain : Type 0 where
  pub id : ℕ
  pub name : Text
  pub provider_key : Text
  pub remote_zone_id : Text
  pub config_ciphertext : Text
  pub record_types : Text
  pub points_cost : ℤ
  pub description : Text
  pub subdomain_ttl_days : ℤ
  pub status : ℤ

pub record Subdomain : Type 0 where
  pub id : ℕ
  pub user_id : ℕ
  pub domain_id : ℕ
  pub name : Text
  pub full_domain : Text
  pub status : ℤ
  pub expires_at : Option ℕ

abbrev pub before_now : Option ℕ → ℕ → Bool
before_now none now = false
before_now (some t) now = ltb t now

-- `Subdomain.IsExpired`, at the time `now`.
unfoldable pub is_expired : Subdomain → ℕ → Bool
is_expired s now = before_now s.expires_at now && eq_ℤ s.status subdomain_status_active

pub record Record : Type 0 where
  pub id : ℕ
  pub user_id : ℕ
  pub domain_id : ℕ
  pub subdomain_id : ℕ
  pub remote_id : Text
  pub name : Text
  pub type : Text
  pub value : Text
  pub ttl : ℤ
  pub line : Text

pub record PointsLedger : Type 0 where
  pub id : ℕ
  pub user_id : ℕ
  pub delta : ℤ
  pub balance : ℤ
  pub type : Text
  pub biz_no : Text
  pub remark : Text
  pub operator : ℕ

pub record RedeemCode : Type 0 where
  pub id : ℕ
  pub code : Text
  pub points : ℤ
  pub max_uses : ℤ
  pub used_count : ℤ
  pub expires_at : Option ℕ
  pub enabled : Bool

pub record RedeemUse : Type 0 where
  pub id : ℕ
  pub code_id : ℕ
  pub user_id : ℕ

pub record PaymentOrder : Type 0 where
  pub id : ℕ
  pub user_id : ℕ
  pub out_trade_no : Text
  pub trade_no : Text
  pub amount_cent : ℤ
  pub points : ℤ
  pub status : Text
  pub pay_url : Text
  pub notify_raw : Text
  pub paid_at : Option ℕ

pub record Setting : Type 0 where
  pub id : ℕ
  pub key : Text
  pub value : Text

pub record Notification : Type 0 where
  pub id : ℕ
  pub user_id : ℕ
  pub title : Text
  pub content : Text
  pub read : Bool
  pub link : Text

pub record Webhook : Type 0 where
  pub id : ℕ
  pub name : Text
  pub url : Text
  pub events : Text
  pub secret : Text
  pub enabled : Bool

pub record ApiKey : Type 0 where
  pub id : ℕ
  pub user_id : ℕ
  pub name : Text
  pub key_prefix : Text
  pub key_hash : Text
  pub last_used_at : Option ℕ
  pub last_ip : Text
  pub enabled : Bool

pub record OperationLog : Type 0 where
  pub id : ℕ
  pub user_id : ℕ
  pub admin_id : ℕ
  pub action : Text
  pub target_type : Text
  pub target_id : Text
  pub ip : Text
  pub message : Text

-- The content of the database: a table is its rows, by ascending primary key. `AllModels` lists
-- the same tables.
pub record Db : Type 0 where
  pub users : List User
  pub domains : List Domain
  pub subdomains : List Subdomain
  pub records : List Record
  pub ledgers : List PointsLedger
  pub codes : List RedeemCode
  pub uses : List RedeemUse
  pub orders : List PaymentOrder
  pub settings : List Setting
  pub logs : List OperationLog
  pub notifications : List Notification
  pub webhooks : List Webhook
  pub api_keys : List ApiKey
