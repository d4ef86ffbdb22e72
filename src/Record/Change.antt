-- ===== src/Record/Change.antt =====
-- UpdateRecord, DeleteRecord and DeleteSubdomain of record/service.go.
use tu_dns.Prelude.{ℕ, Bool, not, List, [], ◌∷◌, ◌==◌, if◌then◌else◌}
use tu_dns.Prelude.Int.{pos}
use tu_dns.Text.{is_empty, to_upper, trim_space}
use tu_dns.Result.{
  Result, ok, err, type_not_allowed, no_such_subdomain, no_such_record, forbidden, update_failed,
  delete_failed,
}
use tu_dns.Models.{Record}
use tu_dns.Dns.{Provider, Zone}
use tu_dns.World.{
  Env, Action, pure, raise_if, map_error, attempt, lift, first, find, save, delete, transaction,
  subdomains, records, ◌>>=◌, ◌>>◌,
}
use tu_dns.Domain.{Vault, allows, build_provider}
use tu_dns.Domain
use tu_dns.Record.Validate.{validate_record}
use tu_dns.Record.Remote.{update_remote, delete_remote}
use tu_dns.Record.{
  UpdateRecordInput, ttl_or, text_or, has_sub_id, has_record_id, remote_input, not_owner,
  check_expired, check_record_sub,
}

module _ (env : Env) (vault : Vault) where
  -- `UpdateRecord`
  unfoldable pub update_record : ℕ → ℕ → UpdateRecordInput → Bool → Action Record
  unfolding check_record_sub
  update_record user_id record_id i is_admin = do
    rec ← map_error (λ _. no_such_record) (first (records env) (has_record_id record_id))
    raise_if (not_owner is_admin rec.user_id user_id) forbidden
    check_record_sub env vault rec
    d ← Domain.get env vault rec.domain_id
    let rec_type = text_or (to_upper env.letters (trim_space i.type)) rec.type
    let value = text_or (trim_space i.value) rec.value
    lift (validate_record rec_type value)
    raise_if (not (allows env.letters d rec_type)) type_not_allowed
    let ttl = ttl_or (ttl_or i.ttl rec.ttl) (pos 600)
    let line = text_or i.line rec.line
    pz ← build_provider env vault d
    remote ←
        map_error update_failed
          (update_remote pz.0 pz.1 rec.remote_id (remote_input rec.name rec_type value ttl line))
    let rec' : Record = record rec {
      type = rec_type;
      value = value;
      ttl = ttl;
      line = line;
      remote_id = text_or remote.remote_id rec.remote_id;
    }
    save (records env) rec'
    pure rec'

  -- `DeleteRecord`
  unfoldable pub delete_record : ℕ → ℕ → Bool → Action (Unit {0})
  unfolding check_record_sub
  delete_record user_id record_id is_admin = do
    rec ← map_error (λ _. no_such_record) (first (records env) (has_record_id record_id))
    raise_if (not_owner is_admin rec.user_id user_id) forbidden
    check_record_sub env vault rec
    d ← Domain.get env vault rec.domain_id
    pz ← build_provider env vault d
    if is_empty rec.remote_id
        then pure tt
        else map_error delete_failed (delete_remote pz.0 pz.1 rec.remote_id)
    delete (records env) (has_record_id rec.id)

  -- The loop of `DeleteSubdomain`: an error of the platform is passed over.
  unfoldable pub delete_all : Provider → Zone → List Record → Action (Unit {0})
  delete_all p zone [] = pure tt
  delete_all p zone (rec ∷ recs) = do
    if is_empty rec.remote_id then pure (ok tt) else attempt (delete_remote p zone rec.remote_id)
    delete (records env) (has_record_id rec.id)
    delete_all p zone recs

  -- What an admin goes on after is no error.
  unfoldable pub unless_admin : Bool → Result (Unit {0}) → Action (Unit {0})
  unless_admin is_admin (ok u) = pure tt
  unless_admin is_admin (err e) = raise_if (not is_admin) e

  -- `DeleteSubdomain`
  unfoldable pub delete_subdomain : ℕ → ℕ → Bool → Action (Unit {0})
  unfolding check_expired unless_admin delete_all
  delete_subdomain user_id sub_id is_admin = do
    sub ← map_error (λ _. no_such_subdomain) (first (subdomains env) (has_sub_id sub_id))
    raise_if (not_owner is_admin sub.user_id user_id) forbidden
    checked ← attempt (check_expired env vault sub)
    unless_admin is_admin checked
    recs ← find (records env) (λ r. r.subdomain_id == sub.id)
    d ← Domain.get env vault sub.domain_id
    pz ← build_provider env vault d
    transaction env (do delete_all pz.0 pz.1 recs; delete (subdomains env) (has_sub_id sub.id))
