-- ===== src/Server.antt =====
-- server/response.go and what the handlers of the package server share: the answers, the services
-- that `App` holds, and how an error of a service becomes an answer.
pub mod Params
pub mod Accounts
pub mod Names
pub mod Payments
pub mod Admin
pub mod Router
pub mod Guards
pub mod Answers
pub mod Sound
use tu_dns.Prelude.{ℕ, ◌≡◌, Bool, true, false, List, [], ◌∷◌, Option, none, some, if◌then◌else◌}
use tu_dns.Prelude.Int.{ℤ}
use tu_dns.Text.{Text, text}
use tu_dns.Result.{Error, Result, ok, err, panic, bad_parameters}
use tu_dns.Models.{
  Domain, Subdomain, Record, PointsLedger, RedeemCode, PaymentOrder, OperationLog, Notification,
  Webhook, ApiKey,
}
use tu_dns.Dns.{Zone}
use tu_dns.World.{Env, Action, pure, attempt, ◌>>=◌}
use tu_dns.Auth.{Security, UserView, TokenResult}
use tu_dns.Domain.{Vault}
use tu_dns.Payment.{Alipay, PayConfig}
use tu_dns.Webhook.{Http, Request}
use tu_dns.Record.{BundleResult}

-- What a handler gives `OK`. The last three of a page are the rows, their total and the page asked.
pub data Data : Type 0 where
  done : Data
  token : TokenResult → Data
  user_view : UserView → Data
  user_page : List UserView → ℕ → ℤ → Data
  key_list : List ApiKey → Data
  new_key : Text → ApiKey → Data
  notification_page : List Notification → ℕ → ℤ → Data
  unread : ℕ → Data
  ledger_page : List PointsLedger → ℕ → ℤ → Data
  log_page : List OperationLog → ℕ → ℤ → Data
  gained : ℤ → Data
  domain_list : List Domain → Data
  one_domain : Domain → Data
  platform_list : List Text → Data
  zone_list : List Zone → Data
  bundle : BundleResult → Data
  subdomain_list : List Subdomain → Data
  record_list : List Record → Data
  one_record : Record → Data
  charged_record : Record → ℤ → Data
  one_order : PaymentOrder → Data
  order_list : List PaymentOrder → Data
  one_code : RedeemCode → Data
  code_list : List RedeemCode → Data
  setting_map : List (Text × Text) → Data
  pay_config : PayConfig → Data
  hook_list : List Webhook → Data
  one_hook : Webhook → Data

-- The answers: `OK`, `Fail` with the status, the code and the error whose text is the message, a
-- plain text, and what gin.Recovery answers where a handler panics.
pub data Response : Type 0 where
  success : Data → Response
  failure : ℕ → ℕ → Error → Response
  plain : ℕ → Text → Response
  crashed : Response

abbrev pub bad_request : Error → Response
bad_request = failure 400 400

abbrev pub unauthorized : Error → Response
unauthorized = failure 401 401

abbrev pub forbid : Error → Response
forbid = failure 403 403

abbrev pub missing : Error → Response
missing = failure 404 404

abbrev pub server_error : Error → Response
server_error = failure 500 500

-- The HTTP status
unfoldable pub status_of : Response → ℕ
status_of (success d) = 200
status_of (failure status code e) = status
status_of (plain status t) = status
status_of crashed = 500

-- An answer, with the requests to webhooks that the handler has started.
pub record Answer : Type 0 where
  pub response : Response
  pub sent : List Request

abbrev pub just : Response → Answer
just r = record { response = r; sent = [] }

-- What an event tells the webhooks, before it is JSON.
pub data Event : Type 0 where
  bundle_event : BundleResult → Event
  record_event : Record → Event
  new_record_event : Record → Event
  record_id_event : Text → Event
  trade_no_event : Text → Event

-- `App`: what the services are made with, the JSON of an event, and `time.Parse(time.RFC3339, …)`.
pub record App : Type 0 where
  pub env : Env
  pub security : Security
  pub vault : Vault
  pub pay : Alipay
  pub http : Http
  pub event_json : Event → Text
  pub parse_time : Text → Result ℕ

abbrev pub is_panic : Error → Bool
is_panic panic = true
is_panic e = false

module _ {A : Type 0} where
  -- The answer to a result: where the service has panicked, that of gin.Recovery.
  unfoldable pub answer : (Error → Response) → (A → Data) → Result A → Response
  answer on_error good (ok a) = success (good a)
  answer on_error good (err e) = if is_panic e then crashed else on_error e

  -- `x, err := m; if err != nil { …; return }; OK(c, x)`
  unfoldable pub reply : (Error → Response) → (A → Data) → Action A → Action Answer
  unfolding answer
  reply on_error good m = do r ← attempt m; pure (just (answer on_error good r))

  abbrev pub go_on : (Error → Response) → (A → Action Answer) → Result A → Action Answer
  go_on on_error f (ok a) = f a
  go_on on_error f (err e) = pure (just (if is_panic e then crashed else on_error e))

  -- The same, where more is done after a success.
  unfoldable pub reply_then : (Error → Response) → Action A → (A → Action Answer) → Action Answer
  reply_then on_error m f = do r ← attempt m; go_on on_error f r

  -- `if err := c.ShouldBindJSON(&req); err != nil { BadRequest; return }`
  unfoldable pub bind_json : Option A → (A → Action Answer) → Action Answer
  bind_json none f = pure (just (bad_request bad_parameters))
  bind_json (some a) f = f a

abbrev pub const_done : Unit {0} → Data
const_done _ = done
