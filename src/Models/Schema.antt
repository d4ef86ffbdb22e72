-- ===== src/Models/Schema.antt =====
-- What the gorm tags of models/models.go tell the database of each table: the primary key, and the
-- columns under a unique index.
use tu_dns.Prelude.{ℕ, ◌≡◌, refl, Bool, false}
use tu_dns.Text.{text_eq}
use tu_dns.Models.{
  User, Domain, Subdomain, Record, PointsLedger, RedeemCode, RedeemUse, PaymentOrder, Setting,
  OperationLog, Notification, Webhook, ApiKey,
}

-- `conflicts` holds of two rows that a unique index keeps apart.
pub record Schema (Row : Type 0) : Type 0 where
  pub id_of : Row → ℕ
  pub with_id : ℕ → Row → Row
  pub conflicts : Row → Row → Bool
  pub id_of-with_id : (k : ℕ) (r : Row) → id_of (with_id k r) ≡ k

abbrev pub user_schema : Schema User
user_schema = record {
  id_of = λ u. u.id;
  with_id = λ k u. record u { id = k };
  conflicts = λ u v. text_eq u.username v.username;
  id_of-with_id = λ k r. refl;
}

abbrev pub domain_schema : Schema Domain
domain_schema = record {
  id_of = λ d. d.id;
  with_id = λ k d. record d { id = k };
  conflicts = λ d e. text_eq d.name e.name;
  id_of-with_id = λ k r. refl;
}

abbrev pub subdomain_schema : Schema Subdomain
subdomain_schema = record {
  id_of = λ s. s.id;
  with_id = λ k s. record s { id = k };
  conflicts = λ s t. text_eq s.full_domain t.full_domain;
  id_of-with_id = λ k r. refl;
}

abbrev pub record_schema : Schema Record
record_schema = record {
  id_of = λ r. r.id;
  with_id = λ k r. record r { id = k };
  conflicts = λ r q. false;
  id_of-with_id = λ k r. refl;
}

abbrev pub ledger_schema : Schema PointsLedger
ledger_schema = record {
  id_of = λ l. l.id;
  with_id = λ k l. record l { id = k };
  conflicts = λ l m. text_eq l.biz_no m.biz_no;
  id_of-with_id = λ k r. refl;
}

abbrev pub code_schema : Schema RedeemCode
code_schema = record {
  id_of = λ c. c.id;
  with_id = λ k c. record c { id = k };
  conflicts = λ c d. text_eq c.code d.code;
  id_of-with_id = λ k r. refl;
}

abbrev pub use_schema : Schema RedeemUse
use_schema = record {
  id_of = λ u. u.id;
  with_id = λ k u. record u { id = k };
  conflicts = λ u v. false;
  id_of-with_id = λ k r. refl;
}

abbrev pub order_schema : Schema PaymentOrder
order_schema = record {
  id_of = λ o. o.id;
  with_id = λ k o. record o { id = k };
  conflicts = λ o p. text_eq o.out_trade_no p.out_trade_no;
  id_of-with_id = λ k r. refl;
}

abbrev pub setting_schema : Schema Setting
setting_schema = record {
  id_of = λ s. s.id;
  with_id = λ k s. record s { id = k };
  conflicts = λ s t. text_eq s.key t.key;
  id_of-with_id = λ k r. refl;
}

abbrev pub log_schema : Schema OperationLog
log_schema = record {
  id_of = λ l. l.id;
  with_id = λ k l. record l { id = k };
  conflicts = λ l m. false;
  id_of-with_id = λ k r. refl;
}

abbrev pub notification_schema : Schema Notification
notification_schema = record {
  id_of = λ n. n.id;
  with_id = λ k n. record n { id = k };
  conflicts = λ n m. false;
  id_of-with_id = λ k r. refl;
}

abbrev pub webhook_schema : Schema Webhook
webhook_schema = record {
  id_of = λ w. w.id;
  with_id = λ k w. record w { id = k };
  conflicts = λ w v. false;
  id_of-with_id = λ k r. refl;
}

abbrev pub api_key_schema : Schema ApiKey
api_key_schema = record {
  id_of = λ a. a.id;
  with_id = λ k a. record a { id = k };
  conflicts = λ a b. false;
  id_of-with_id = λ k r. refl;
}
