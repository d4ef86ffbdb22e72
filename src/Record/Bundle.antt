-- ===== src/Record/Bundle.antt =====
-- What `CreateBundle` finds and does: the rows, the price, and the calls of the platform.
pub mod Steps
pub mod Paths
pub mod Total
use tu_dns.Prelude.{
  if◌then◌else◌, ℕ, ◌≡◌, refl, sym, ap, ◌∙◌, true, false, List, [], ◌∷◌, ◌++◌, Option, some, none,
  find?, count, All, All-find?, passed_lem, none_above_zero,
}
use mathlib.Core.Path.{subst}
use tu_dns.Prelude.Int.{ℤ, pos, eq_ℤ, ltb_ℤ, leb_ℤ, IsInt64}
use tu_dns.Text.{Text, text, to_lower, to_upper, trim_space}
use tu_dns.Result.{Error, Result, ok, err, create_failed}
use tu_dns.Models.{Db, Domain, domain_status_active, subdomain_status_active}
use tu_dns.Dns.{Provider, Zone, RecordInput, RemoteRecord}
use tu_dns.World.{
  World, Env, Call, ask, pure, ◌>>=◌, transaction, create_call, delete_call, tick, subdomains,
  records,
}
use tu_dns.World.On.{
  On, On-bind, On-if, On-pure, On-raise, On-ask, On-lift, On-raise_if, On-mono, On-transaction,
  On-map_error, On-attempt, IsUntouched,
}
use tu_dns.World.Rules.{On-create, On-count_where}
use tu_dns.Domain.{Vault, has_domain_id, allows}
use tu_dns.Domain.Config.{get_lem, build_provider_lem}
use tu_dns.Record.{BundleInput, BundleResult, has_full_domain, ttl_or, add_days, remote_input}
use tu_dns.Record.Create.{
  check_bundle, open_domain, expiry, create_both, record_or_cleanup, create_bundle,
}
use tu_dns.Record.Validate.{is_subdomain_name, is_reserved, validate_record}
use tu_dns.Record.Remote.{On-create_remote, On-delete_remote}
use tu_dns.Record.Spend.{IsSpentFor, IsSpentFor-IsBalanced, charge_for_lem}
use tu_dns.Points.Balance.{IsBalanced}

-- The name, type and value that are tested and stored.
abbrev pub clean_name : Env → BundleInput → Text
clean_name env i = to_lower env.letters (trim_space i.subdomain_name)

abbrev pub clean_type : Env → BundleInput → Text
clean_type env i = to_upper env.letters (trim_space i.type)

abbrev pub full_name : Env → BundleInput → Domain → Text
full_name env i d = clean_name env i ++ text "." ++ d.name

-- A domain on which the bundle may be made.
pub record IsOpen (env : Env) (d : Db) (i : BundleInput) (domain : Domain) : Type 0 where
  pub found : find? (has_domain_id i.domain_id) d.domains ≡ some domain
  pub active : eq_ℤ domain.status domain_status_active ≡ true
  pub allowed : allows env.letters domain (clean_type env i) ≡ true

-- A bundle whose name, type and value pass the tests.
pub record IsValid (env : Env) (i : BundleInput) : Type 0 where
  pub named : is_subdomain_name (clean_name env i) ≡ true
  pub unreserved : is_reserved (clean_name env i) ≡ false
  pub value : validate_record (clean_type env i) (trim_space i.value) ≡ ok tt

-- The rows of a bundle, the price and the one call of the platform.
pub record IsMade (env : Env) (user_id : ℕ) (domain : Domain) (name full : Text) (zone : Zone)
    (input : RecordInput) (expires_at : Option ℕ) (d : Db) (before : List Call) (b : BundleResult)
    (d' : Db) (after : List Call) : Type 0 where
  pub middle : Db
  pub spent : IsSpentFor env d user_id domain.points_cost middle
  pub content : d' ≡ record middle {
    subdomains = middle.subdomains ++ b.subdomain ∷ [];
    records = middle.records ++ b.record_of ∷ [];
  }
  pub charged : b.charged ≡ domain.points_cost
  -- The subdomain is the user's, is active, has the full name and ends when it should.
  pub sub : b.subdomain ≡ record {
    id = b.subdomain.id;
    user_id = user_id;
    domain_id = domain.id;
    name = name;
    full_domain = full;
    status = subdomain_status_active;
    expires_at = expires_at;
  }
  -- The record is the subdomain's, and knows the platform's id.
  pub remote : RemoteRecord
  pub rec : b.record_of ≡ record {
    id = b.record_of.id;
    user_id = user_id;
    domain_id = domain.id;
    subdomain_id = b.subdomain.id;
    remote_id = remote.remote_id;
    name = full;
    type = input.type;
    value = input.value;
    ttl = input.ttl;
    line = input.line;
  }
  pub calls : after ≡ before ++ create_call zone input (ok remote) ∷ []

-- The zone of a domain at its platform.
abbrev pub zone_of : Domain → Zone
zone_of d = record { id = d.remote_zone_id; domain = d.name }

-- The record that a bundle asks for.
abbrev pub asked : Env → BundleInput → Domain → RecordInput
asked env i d = record {
  name = full_name env i d;
  type = clean_type env i;
  value = trim_space i.value;
  ttl = if leb_ℤ i.ttl (pos 0) then pos 600 else i.ttl;
  line = i.line;
}

-- The end of a subdomain: the domain's number of days from now, or none where it has no such number.
abbrev pub end_of : Env → Domain → ℕ → Option ℕ
end_of env d m =
    if ltb_ℤ (pos 0) d.subdomain_ttl_days
    then some (add_days (env.now m) d.subdomain_ttl_days)
    else none

-- What a bundle that returned has found and done.
pub record IsBundled (env : Env) (user_id : ℕ) (i : BundleInput) (d : Db) (before : List Call)
    (b : BundleResult) (d' : Db) (after : List Call) : Type 0 where
  pub valid : IsValid env i
  pub domain : Domain
  pub opened : IsOpen env d i domain
  pub free : count (has_full_domain (full_name env i domain)) d.subdomains ≡ 0
  -- The time from which the subdomain's days are counted.
  pub moment : ℕ
  pub made :
      IsMade env user_id domain
        (clean_name env i)
        (full_name env i domain)
        (zone_of domain)
        (asked env i domain)
        (end_of env domain moment)
        d
        before
        b
        d'
        after

-- The calls of a platform that a failed bundle has made.
pub data Left (calls : List Call) : List Call → Type 0 where
  untouched : Left calls calls
  refused :
      (zone : Zone) (i : RecordInput) (e : Error)
      → Left calls (calls ++ create_call zone i (err e) ∷ [])
  cleaned :
      (zone : Zone) (i : RecordInput) (r : RemoteRecord) (x : Result (Unit {0}))
      → Left calls
          ((calls ++ create_call zone i (ok r) ∷ []) ++ delete_call zone r.remote_id x ∷ [])
  -- The commit itself failed.
  uncommitted :
      (zone : Zone) (i : RecordInput) (r : RemoteRecord)
      → Left calls (calls ++ create_call zone i (ok r) ∷ [])

-- A failed bundle: the database is as before.
abbrev pub IsUndone : World → World → Type 0
IsUndone w w' = (w'.db ≡ w.db) × Left w.calls w'.calls
