-- ===== src/Record/Create.antt =====
-- CreateBundle and AddRecord of record/service.go.
use tu_dns.Prelude.{ℕ, Bool, not, ◌++◌, Option, none, some, ltb, if◌then◌else◌}
use tu_dns.Prelude.Int.{ℤ, pos, eq_ℤ, ltb_ℤ}
use tu_dns.Text.{Text, text, to_lower, to_upper, trim_space}
use tu_dns.Result.{
  Result, ok, err, bad_subdomain_name, reserved_name, no_such_domain, domain_inactive,
  type_not_allowed, subdomain_taken, no_such_subdomain, forbidden, subdomain_disabled,
  create_failed,
}
use tu_dns.Models.{Domain, Subdomain, Record, domain_status_active, subdomain_status_active}
use tu_dns.Dns.{Provider, Zone}
use tu_dns.World.{
  Env, Action, pure, raise, raise_if, map_error, attempt, lift, ask, first, count_where, create,
  transaction, subdomains, records, ◌>>=◌, ◌>>◌,
}
use tu_dns.Domain.{Vault, allows, build_provider}
use tu_dns.Domain
use tu_dns.Record.Validate.{validate_record, is_subdomain_name, is_reserved}
use tu_dns.Record.Remote.{create_remote, delete_remote}
use tu_dns.Record.{
  BundleInput, BundleResult, AddRecordInput, ttl_or, has_sub_id, has_full_domain, add_days,
  record_row, remote_input, not_owner, charge_for, check_expired,
}

module _ (env : Env) (vault : Vault) where
  unfoldable pub expiry : Domain → Action (Option ℕ)
  unfolding add_days
  expiry d =
      if ltb_ℤ (pos 0) d.subdomain_ttl_days
      then (do now ← ask env.now; pure (some (add_days now d.subdomain_ttl_days)))
      else pure none

  -- `tx.Create(&rec)`; where that fails the remote record is deleted again, as well as that goes.
  unfoldable pub record_or_cleanup : Provider → Zone → Text → Result Record → Action Record
  record_or_cleanup p zone remote_id (ok r) = pure r
  record_or_cleanup p zone remote_id (err e) = do attempt (delete_remote p zone remote_id); raise e

  -- The transaction of `CreateBundle`.
  unfoldable pub create_both :
      ℕ
      → Domain
      → Provider
      → Zone
      → Text
      → Text
      → Text
      → Text
      → ℤ
      → Text
      → Option ℕ
      → Action BundleResult
  unfolding charge_for record_or_cleanup
  create_both user_id d p zone name full rec_type value ttl line expires_at = do
    charge_for env vault user_id d.points_cost
        (text "申请 " ++ full ++ text " 并添劀" ++ rec_type ++ text " 记录")
    sub ← create (subdomains env) (record {
      id = 0;
      user_id = user_id;
      domain_id = d.id;
      name = name;
      full_domain = full;
      status = subdomain_status_active;
      expires_at = expires_at;
    })
    remote ←
        map_error create_failed (create_remote p zone (remote_input full rec_type value ttl line))
    stored ← attempt (
        create (records env)
          (record (record_row sub d.id remote.remote_id rec_type value ttl line) {
            user_id = user_id;
            name = full;
          }))
    rec ← record_or_cleanup p zone remote.remote_id stored
    pure (record { subdomain = sub; record_of = rec; charged = d.points_cost })

  -- The guards of `CreateBundle` on name, type and value.
  unfoldable pub check_bundle : Text → Text → Text → Action (Unit {0})
  check_bundle name rec_type value = do
    raise_if (not (is_subdomain_name name)) bad_subdomain_name
    raise_if (is_reserved name) reserved_name
    lift (validate_record rec_type value)

  -- The guards of `CreateBundle` on the domain.
  unfoldable pub open_domain : ℕ → Text → Action Domain
  open_domain domain_id rec_type = do
    d ← map_error (λ _. no_such_domain) (Domain.get env vault domain_id)
    raise_if (not (eq_ℤ d.status domain_status_active)) domain_inactive
    raise_if (not (allows env.letters d rec_type)) type_not_allowed
    pure d

  -- `CreateBundle`
  unfoldable pub create_bundle : ℕ → BundleInput → Action BundleResult
  unfolding check_bundle open_domain create_both expiry
  create_bundle user_id i =
      let name = to_lower env.letters (trim_space i.subdomain_name) in
      let rec_type = to_upper env.letters (trim_space i.type) in
      let value = trim_space i.value in
      do
        check_bundle name rec_type value
        d ← open_domain i.domain_id rec_type
        let full = name ++ text "." ++ d.name
        n ← count_where (subdomains env) (has_full_domain full)
        raise_if (ltb 0 n) subdomain_taken
        pz ← build_provider env vault d
        expires_at ← expiry d
        transaction env (
            create_both user_id d pz.0 pz.1 name full rec_type value (ttl_or i.ttl (pos 600)) i.line
              expires_at)

  -- The transaction of `AddRecord`.
  unfoldable pub create_one :
      ℕ → Subdomain → Domain → Provider → Zone → Text → Text → ℤ → Text → Action Record
  unfolding charge_for
  create_one user_id sub d p zone rec_type value ttl line = do
    charge_for env vault user_id d.points_cost
        (text "新增 " ++ sub.full_domain ++ text " " ++ rec_type ++ text " 记录")
    remote ←
        map_error create_failed
          (create_remote p zone (remote_input sub.full_domain rec_type value ttl line))
    create (records env) (record_row sub d.id remote.remote_id rec_type value ttl line)

  -- `AddRecord`: the record, and the points that were charged
  unfoldable pub add_record : ℕ → AddRecordInput → Bool → Action (Record × ℤ)
  unfolding check_expired create_one
  add_record user_id i is_admin = do
    sub ← map_error (λ _. no_such_subdomain) (first (subdomains env) (has_sub_id i.subdomain_id))
    raise_if (not_owner is_admin sub.user_id user_id) forbidden
    raise_if (not (eq_ℤ sub.status subdomain_status_active)) subdomain_disabled
    check_expired env vault sub
    d ← Domain.get env vault sub.domain_id
    let rec_type = to_upper env.letters (trim_space i.type)
    let value = trim_space i.value
    lift (validate_record rec_type value)
    raise_if (not (allows env.letters d rec_type)) type_not_allowed
    pz ← build_provider env vault d
    rec ←
        transaction env
          (create_one user_id sub d pz.0 pz.1 rec_type value (ttl_or i.ttl (pos 600)) i.line)
    pure (rec, if ltb_ℤ (pos 0) d.points_cost then d.points_cost else pos 0)
