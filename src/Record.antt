-- ===== src/Record.antt =====
-- record/service.go: subdomains and their records, kept in step with the DNS platform. This file has
-- the inputs, the rows and what the operations share; Record/Create and Record/Change have the
-- operations.
pub mod Validate
pub mod Remote
pub mod Create
pub mod Change
pub mod Spend
pub mod Bundle
pub mod Guard
pub mod Left
pub mod Add
pub mod Remove
pub mod Access
pub mod Expiry
use tu_dns.Prelude.{
  ℕ, ◌+◌, ◌*◌, ◌≡◌, Bool, true, false, not, ◌&&◌, ◌||◌, List, [], ◌∷◌, ◌++◌, Option, none, some,
  ltb, ◌==◌, any, if◌then◌else◌,
}
use tu_dns.Prelude.Int.{ℤ, pos, eq_ℤ, ltb_ℤ, leb_ℤ, ◌+ℤ◌, mul64, pos_part}
use tu_dns.Text.{Text, text, text_eq, is_empty, to_lower, to_upper, trim_space}
use tu_dns.Result.{
  Error, Result, ok, err, bad_subdomain_name, reserved_name, no_such_domain, domain_inactive,
  type_not_allowed, subdomain_taken, no_such_subdomain, no_such_record, forbidden,
  subdomain_disabled, subdomain_expired, create_failed, update_failed, delete_failed,
}
use tu_dns.Models.{
  Domain, Subdomain, Record, PointsLedger, is_expired, domain_status_active,
  subdomain_status_active, subdomain_status_disabled,
}
use tu_dns.Dns.{Provider, Zone, RecordInput, RemoteRecord}
use tu_dns.World.{
  Env, Action, pure, raise, raise_if, map_error, attempt, lift, ask, first, count_where, find,
  find_desc, create, save, update, delete, transaction, subdomains, records, ◌>>=◌, ◌>>◌,
}
use tu_dns.Points.{charge}
use tu_dns.Domain.{Vault, allows, build_provider}
use tu_dns.Domain

pub record BundleInput : Type 0 where
  pub domain_id : ℕ
  pub subdomain_name : Text
  pub type : Text
  pub value : Text
  pub ttl : ℤ
  pub line : Text

pub record BundleResult : Type 0 where
  pub subdomain : Subdomain
  pub record_of : Record
  pub charged : ℤ

pub record AddRecordInput : Type 0 where
  pub subdomain_id : ℕ
  pub type : Text
  pub value : Text
  pub ttl : ℤ
  pub line : Text

pub record UpdateRecordInput : Type 0 where
  pub type : Text
  pub value : Text
  pub ttl : ℤ
  pub line : Text

abbrev pub ttl_or : ℤ → ℤ → ℤ
ttl_or ttl other = if leb_ℤ ttl (pos 0) then other else ttl

abbrev pub text_or : Text → Text → Text
text_or s other = if is_empty s then other else s

abbrev pub has_sub_id : ℕ → Subdomain → Bool
has_sub_id k s = s.id == k

abbrev pub has_full_domain : Text → Subdomain → Bool
has_full_domain full s = text_eq s.full_domain full

abbrev pub has_record_id : ℕ → Record → Bool
has_record_id k r = r.id == k

-- The nanoseconds of a day, and `now.Add(days * 24h)`.
abbrev day : ℤ
day = pos 86400000000000

unfoldable pub add_days : ℕ → ℤ → ℕ
unfolding mul64 ◌+ℤ◌
add_days now days = pos_part (pos now +ℤ mul64 days day)

abbrev pub record_row : Subdomain → ℕ → Text → Text → Text → ℤ → Text → Record
record_row sub domain_id remote_id rec_type value ttl line = record {
  id = 0;
  user_id = sub.user_id;
  domain_id = domain_id;
  subdomain_id = sub.id;
  remote_id = remote_id;
  name = sub.full_domain;
  type = rec_type;
  value = value;
  ttl = ttl;
  line = line;
}

abbrev pub remote_input : Text → Text → Text → ℤ → Text → RecordInput
remote_input name rec_type value ttl line = record {
  name = name;
  type = rec_type;
  value = value;
  ttl = ttl;
  line = line;
}

-- `!isAdmin && owner != userID`
abbrev pub not_owner : Bool → ℕ → ℕ → Bool
not_owner is_admin owner user_id = not is_admin && not (owner == user_id)

module _ (env : Env) (vault : Vault) where
  -- `if d.PointsCost > 0 { Charge }`
  unfoldable pub charge_for : ℕ → ℤ → Text → Action (Option PointsLedger)
  charge_for user_id cost remark =
      if ltb_ℤ (pos 0) cost then charge env user_id cost remark else pure none

  -- `checkExpired`: an expired subdomain is disabled, whether or not that can be written.
  unfoldable pub check_expired : Subdomain → Action (Unit {0})
  unfolding is_expired
  check_expired sub = do
    now ← ask env.now
    if is_expired sub now
        then (do
          attempt (
              update (subdomains env) (has_sub_id sub.id)
                (λ s. record s { status = subdomain_status_disabled }))
          raise subdomain_expired)
        else pure tt

  -- The test on the subdomain of a record: one that is not found is not tested.
  unfoldable pub check_found : Result Subdomain → Action (Unit {0})
  unfolding check_expired
  check_found (ok sub) = check_expired sub
  check_found (err e) = pure tt

  unfoldable pub check_record_sub : Record → Action (Unit {0})
  unfolding check_found
  check_record_sub rec = do
    sub ← attempt (first (subdomains env) (has_sub_id rec.subdomain_id))
    check_found sub

  -- `ListByUser`, `ListAll` and `ListSubdomains`
  unfoldable pub list_by_user : ℕ → Action (List Record)
  list_by_user user_id = find_desc (records env) (λ r. r.user_id == user_id)

  unfoldable pub list_all : Action (List Record)
  list_all = find_desc (records env) (λ _. true)

  unfoldable pub list_subdomains : ℕ → Action (List Subdomain)
  list_subdomains user_id =
      find_desc (subdomains env) (λ s. if ltb 0 user_id then s.user_id == user_id else true)
