-- ===== src/Lib.antt =====
-- TuDNS hands out subdomains of an operator's domains against points. This library models the
-- services of the program and proves what makes them correct.
--
-- The parts and their files:
--   World     the state (database, number of outside calls so far, log of platform calls), actions that
--             may fail, and transactions. World/On and World/Rules are the rules for postconditions of
--             actions, World/Healthy those for a database that is up, World/Perfect a concrete table.
--   Gorm      a table of the database: what a gorm call returns is not the program's, so a table is a
--             record of operations and of the laws that a call obeys when it succeeds.
--   Models    models/models.go: the tables and constants; Models/Schema has keys and unique columns.
--   Points    points/service.go: Adjust, Charge, List.
--   Redeem    redeem/service.go: Create, List, Redeem, and the random code.
--   Settings  config/settings.go: Get, Set, GetAll.
--   Payment   payment/alipay/service.go: configuration, orders, HandleNotify, MockPay; Payment/Query is
--             the content that is signed.
--   Secret    crypto/secret.go: Encrypt, Decrypt.
--   Dns       dns/provider.go: the interface Provider, Register, New.
--   Domain    domain/service.go: domains, their encrypted configurations and providers.
--   Record    record/service.go: Record/Create has CreateBundle and AddRecord, Record/Change has
--             UpdateRecord, DeleteRecord and DeleteSubdomain, Record/Validate the tests on names and
--             values, Record/Remote the calls of a platform. Record/Guard is what the guard against
--             expired subdomains leaves, Record/Left what a deletion leaves.
--   Auth      auth/service.go, auth/password.go, auth/jwt.go, auth/apikey.go and the guards of
--             server/auth_middleware.go.
--   Admin     admin/service.go: users, points, passwords, log.
--   Platforms the clients in dns/providers over an HTTP client or an SDK: what they send, and what
--             they return. Platforms/Echo puts nine of them behind the one interface.
--   RateLimiter   server/rate_limiter.go: the window of an address and the cleanup.
--   Notification  notification/service.go.
--   Webhook   webhook/service.go: the webhooks and the requests that an event starts.
--   Server    server/response.go, server/router.go and the handlers: Server/Accounts has those of
--             handlers_auth.go, handlers_apikey.go, handlers_notification.go and handlers_points.go,
--             Server/Names of handlers_domain.go, Server/Payments of handlers_payment.go, Server/Admin
--             of handlers_webhook.go, each with its part of handlers_admin.go. Server/Router has the
--             routes and their guards, Server/Params the ids and pages of a request. Server/Guards says
--             whom the guards let in, Server/Answers what is answered, Server/Sound is the invariant
--             under any sequence of requests.
--   Page      the paging that the services share. Net is net.ParseIP, Text the strings package.
--   Prelude   lists, options, integers over the native numbers. Tests runs the theorems at concrete inputs.
--
-- How the state is passed. An action takes the state and gives a result and a state; an error is a
-- value and keeps what was written before it. Every outside call takes the number of the call, so that
-- a clock, a random source, the database and a platform may answer each call differently. A
-- transaction that fails restores the database of its start, but not the log of platform calls. The
-- services call one another as in the code: Redeem, Payment, Record and Admin end in Points.adjust,
-- Record goes through Domain for the provider and its zone, and Payment reads Settings. A request is
-- a constructor for its route; Server.Router.serve starts behind the middlewares of NewRouter, among
-- them the rate limiter, which is a model of its own; it runs the route's guards and its handler, and
-- the handler the services. World/Preserves has the rules by which an invariant of the database is followed through
-- all of them.
--
-- Numbers. An id is a natural number, an int or int64 an integer whose sums and products wrap at 64
-- bits (add64, mul64); times are nanoseconds. Texts are lists of code points. Loops are structural
-- recursion on a list; the printing of an id has fuel, 20 digits, which a
-- uint64 does not pass, and the Baidu client's search for a new record the three rounds of the code.
--
-- Parameters: the database (Gorm.Table), commit and rollback, the clock, uuid, random source and the
-- case of letters above ASCII (World.Env); AES-GCM, SHA-256 and base64 (Secret.Cipher); JSON
-- (Domain.Vault, Payment.Alipay, Server.App); RSA signatures, URL and float arithmetic (Payment.Alipay,
-- Payment.Amount); bcrypt and JWT (Auth.Security); HMAC, JSON and URLs of webhooks (Webhook.Http);
-- DNS platforms (Dns.Platform) where the services use them; behind their clients HTTP, the SDKs, hashes,
-- JSON and the clock (Platforms.Client and the records of the clients).
--
-- Not modelled: the HTTP client of the webhooks, installation, the configuration file, the
-- opening of the database, the probes of the server, its headers and the web pages.
-- Concurrent calls are not interleaved: a request runs alone, as under the row lock of Adjust.
pub mod Prelude
pub mod Text
pub mod Models
pub mod Result
pub mod Dns
pub mod Gorm
pub mod World
pub mod Page
pub mod Points
pub mod Redeem
pub mod Settings
pub mod Payment
pub mod Secret
pub mod Domain
pub mod Net
pub mod Record
pub mod RateLimiter
pub mod Auth
pub mod Admin
pub mod Notification
pub mod Webhook
pub mod Server
pub mod Platforms
mod Tests
