-- ===== src/Server/Sound.antt =====
-- The invariant of the whole database under the requests of server/router.go.
pub mod Accounts
pub mod Codes
pub mod Orders
pub mod Names
pub mod Hooks
pub mod Handlers
pub mod Console
pub mod Run
use tu_dns.Prelude.{ℕ, ◌≡◌, refl, inl, inr, List, All}
use tu_dns.Prelude.Int.{ℤ, IsInt64}
use tu_dns.Text.{Text}
use tu_dns.Models.{Db, Domain, RedeemCode, PaymentOrder, PointsLedger}
use tu_dns.World.{Env, settings, logs, notifications, webhooks, api_keys, subdomains, records}
use tu_dns.World.Preserves.{IsApart, invariant_rules}
use tu_dns.Points.Adjust.{Adjusted}
use tu_dns.Points.Balance.{IsBalanced, Adjusted-IsBalanced}
use tu_dns.Record.Spend.{IsSpentFor, IsSpentFor-IsBalanced, IsSpentFor-frame}
use tu_dns.Redeem.Uses.{IsCounted}

-- The users' points are the sums of their entries, the codes count their uses, and the amounts of
-- points that the rows hold are int64s.
pub record IsSound (d : Db) : Type 0 where
  pub balanced : IsBalanced d
  pub counted : IsCounted d.codes d.uses
  pub gifts : All (λ (c : RedeemCode). IsInt64 c.points) d.codes
  pub orders : All (λ (o : PaymentOrder). IsInt64 o.points) d.orders
  pub prices : All (λ (d : Domain). IsInt64 d.points_cost) d.domains

module _ (d d' : Db) where
  -- The tables that the invariant does not read may change.
  pub IsSound-same :
      d'.users ≡ d.users
      → d'.ledgers ≡ d.ledgers
      → d'.codes ≡ d.codes
      → d'.uses ≡ d.uses
      → d'.orders ≡ d.orders
      → d'.domains ≡ d.domains
      → IsSound d
      → IsSound d'
  IsSound-same us ls cs vs os ds s = record {
    balanced = record {
      balances = rw (us, ls) s.balanced.balances;
      owners = rw (us, ls) s.balanced.owners;
    };
    counted = rw (cs, vs) s.counted;
    gifts = rw cs s.gifts;
    orders = rw os s.orders;
    prices = rw ds s.prices;
  }

  -- Points may move, as long as the books stay balanced.
  pub IsSound-moved :
      d' ≡ record d { users = d'.users; ledgers = d'.ledgers }
      → IsBalanced d'
      → IsSound d
      → IsSound d'
  IsSound-moved frame b s = record {
    balanced = b;
    counted = rw frame s.counted;
    gifts = rw frame s.gifts;
    orders = rw frame s.orders;
    prices = rw frame s.prices;
  }

module _ (env : Env) (d : Db) (user_id : ℕ) (delta : ℤ) where
  Adjusted-frame :
      (number : Text) (l : PointsLedger) (d' : Db)
      → Adjusted env d user_id delta number l d'
      → d' ≡ record d { users = d'.users; ledgers = d'.ledgers }
  Adjusted-frame number l d' (inl (found, same)) = rw same refl
  Adjusted-frame number l d' (inr (missing, c)) = rw c.content refl

  pub IsSound-Adjusted :
      (number : Text) (l : PointsLedger) (d' : Db)
      → IsInt64 delta
      → IsSound d
      → Adjusted env d user_id delta number l d'
      → IsSound d'
  IsSound-Adjusted number l d' range s done =
      IsSound-moved d d' (Adjusted-frame number l d' done)
        (Adjusted-IsBalanced env d user_id delta number l d' range s.balanced done) s

  pub IsSound-spent :
      (d' : Db) → IsInt64 delta → IsSound d → IsSpentFor env d user_id delta d' → IsSound d'
  IsSound-spent d' range s done =
      IsSound-moved d d' (IsSpentFor-frame env d user_id delta d' done)
        (IsSpentFor-IsBalanced env d user_id delta d' range s.balanced done) s

module _ (d : Db) where
  pub IsSound-domains :
      (t : List Domain)
      → All (λ (d : Domain). IsInt64 d.points_cost) t
      → IsSound d
      → IsSound (record d { domains = t })
  IsSound-domains t prices s = record {
    balanced = record { balances = s.balanced.balances; owners = s.balanced.owners };
    counted = s.counted;
    gifts = s.gifts;
    orders = s.orders;
    prices = prices;
  }

  pub IsSound-orders :
      (t : List PaymentOrder)
      → All (λ (o : PaymentOrder). IsInt64 o.points) t
      → IsSound d
      → IsSound (record d { orders = t })
  IsSound-orders t orders s = record {
    balanced = record { balances = s.balanced.balances; owners = s.balanced.owners };
    counted = s.counted;
    gifts = s.gifts;
    orders = orders;
    prices = s.prices;
  }

module _ (env : Env) where
  pub IsApart-settings : IsApart IsSound (settings env)
  IsApart-settings = record { apart = λ t d. IsSound-same d _ refl refl refl refl refl refl }

  pub IsApart-logs : IsApart IsSound (logs env)
  IsApart-logs = record { apart = λ t d. IsSound-same d _ refl refl refl refl refl refl }

  pub IsApart-notifications : IsApart IsSound (notifications env)
  IsApart-notifications = record { apart = λ t d. IsSound-same d _ refl refl refl refl refl refl }

  pub IsApart-webhooks : IsApart IsSound (webhooks env)
  IsApart-webhooks = record { apart = λ t d. IsSound-same d _ refl refl refl refl refl refl }

  pub IsApart-api_keys : IsApart IsSound (api_keys env)
  IsApart-api_keys = record { apart = λ t d. IsSound-same d _ refl refl refl refl refl refl }

  pub IsApart-subdomains : IsApart IsSound (subdomains env)
  IsApart-subdomains = record { apart = λ t d. IsSound-same d _ refl refl refl refl refl refl }

  pub IsApart-records : IsApart IsSound (records env)
  IsApart-records = record { apart = λ t d. IsSound-same d _ refl refl refl refl refl refl }

pub ruleset sound_rules = (
  invariant_rules, IsApart-settings, IsApart-logs, IsApart-notifications, IsApart-webhooks,
  IsApart-api_keys, IsApart-subdomains, IsApart-records,
)
