-- ===== src/Record/Add.antt =====
-- What `AddRecord` does, on every path.
use tu_dns.Prelude.{
  ℕ, ◌+◌, ◌≡◌, refl, sym, ap, ◌∙◌, inl, Bool, true, false, not, [], ◌∷◌, ◌++◌, some, find?, All,
  All-find?, passed_lem, if◌then◌else◌,
}
use mathlib.Core.Path.{subst}
use tu_dns.Prelude.Int.{ℤ, pos, eq_ℤ, ltb_ℤ, leb_ℤ, IsInt64}
use tu_dns.Text.{Text, to_upper, trim_space}
use tu_dns.Result.{ok, create_failed, type_not_allowed}
use tu_dns.Models.{Db, Domain, Subdomain, Record, is_expired, subdomain_status_active}
use tu_dns.Dns.{Provider, Zone, RecordInput, RemoteRecord}
use tu_dns.Points.Balance.{IsBalanced}
use tu_dns.World.{
  World, Env, Action, pure, lift, raise_if, transaction, create_call, tick, subdomains, records,
  ◌>>=◌, ◌>>◌,
}
use tu_dns.World.On.{
  On, On-bind, On-pure, On-lift, On-raise_if, On-mono, On-transaction, On-map_error, IsUntouched,
}
use tu_dns.World.Rules.{On-first, On-create}
use tu_dns.Domain.{Vault, has_domain_id, allows, build_provider}
use tu_dns.Domain.Config.{get_lem, build_provider_zone}
use tu_dns.Record.{AddRecordInput, has_sub_id, not_owner, ttl_or}
use tu_dns.Record.Guard.{
  IsDisabling, IsDisabling-IsSubdomainChange, HasNotEnded, HasNotEnded-active, key_lem,
  check_expired_lem,
}
use tu_dns.Record.Create.{create_one, add_record}
use tu_dns.Record.Validate.{validate_record}
use tu_dns.Record.Remote.{On-create_remote}
use tu_dns.Record.Spend.{IsSpentFor, IsSpentFor-IsBalanced, charge_for_lem}

abbrev pub added_type : Env → AddRecordInput → Text
added_type env i = to_upper env.letters (trim_space i.type)

-- The record that is asked for below a subdomain.
abbrev pub input_of : Env → AddRecordInput → Subdomain → RecordInput
input_of env i sub = record {
  name = sub.full_domain;
  type = added_type env i;
  value = trim_space i.value;
  ttl = if leb_ℤ i.ttl (pos 0) then pos 600 else i.ttl;
  line = i.line;
}

-- The row of a record below a subdomain, the price, and the one call of the platform.
pub record IsStored (env : Env) (user_id : ℕ) (i : AddRecordInput) (sub : Subdomain)
    (domain : Domain) (zone : Zone) (w : World) (r : Record) (w' : World) : Type 0 where
  pub middle : Db
  pub spent : IsSpentFor env w.db user_id domain.points_cost middle
  pub content : w'.db ≡ record middle { records = middle.records ++ r ∷ [] }
  pub remote : RemoteRecord
  pub row : r ≡ record {
    id = r.id;
    user_id = sub.user_id;
    domain_id = domain.id;
    subdomain_id = sub.id;
    remote_id = remote.remote_id;
    name = sub.full_domain;
    type = added_type env i;
    value = trim_space i.value;
    ttl = if leb_ℤ i.ttl (pos 0) then pos 600 else i.ttl;
    line = i.line;
  }
  pub calls : w'.calls ≡ w.calls ++ create_call zone (input_of env i sub) (ok remote) ∷ []

-- What a call that returned has found and done.
pub record IsAdded (env : Env) (user_id : ℕ) (i : AddRecordInput) (is_admin : Bool) (w : World)
    (r : Record × ℤ) (w' : World) : Type 0 where
  pub sub : Subdomain
  pub found : find? (has_sub_id i.subdomain_id) w.db.subdomains ≡ some sub
  pub permitted : not_owner is_admin sub.user_id user_id ≡ false
  pub active : eq_ℤ sub.status subdomain_status_active ≡ true
  -- The clock is read behind the lookup.
  pub in_time : HasNotEnded sub.expires_at (env.now (w.moment + 1))
  pub domain : Domain
  pub domain_found : find? (has_domain_id sub.domain_id) w.db.domains ≡ some domain
  pub value : validate_record (added_type env i) (trim_space i.value) ≡ ok tt
  pub allowed : allows env.letters domain (added_type env i) ≡ true
  pub stored :
      IsStored env user_id i sub domain
        (record { id = domain.remote_zone_id; domain = domain.name })
        w
        r.0
        w'
  pub charged : r.1 ≡ (if ltb_ℤ (pos 0) domain.points_cost then domain.points_cost else pos 0)

module _ (env : Env) (vault : Vault) where
  create_one_lem :
      (user_id : ℕ) (i : AddRecordInput) (sub : Subdomain) (d : Domain) (p : Provider) (zone : Zone)
      (w : World)
      → On
          (λ r w'. IsStored env user_id i sub d zone w r w')
          (λ e w'. Unit {0})
          (create_one env vault user_id sub d p zone
            (added_type env i)
            (trim_space i.value)
            (ttl_or i.ttl (pos 600))
            i.line
            w)
  unfolding create_one
  create_one_lem user_id i sub d p zone w = On-bind _ _ w (
      On-mono (charge_for_lem env vault user_id d.points_cost _ w)
        (λ o w1 paid. On-bind _ _ w1 (
          On-map_error create_failed _ w1 (
            On-create_remote p zone (input_of env i sub) w1
              (λ remote.
                On-create (records env) _ _
                  (λ r made. record {
                    middle = w1.db;
                    spent = paid.0;
                    content = refl;
                    remote = remote;
                    row = made.keeps;
                    calls =
                        ap (λ cs. cs ++ create_call zone (input_of env i sub) (ok remote) ∷ [])
                          paid.1;
                  })
                  (λ e. tt))
              (λ e. tt))))
        (λ e w1 _. tt))

  -- Calls that leave all as it is, before and behind the transaction.
  IsStored-from :
      (user_id : ℕ) (i : AddRecordInput) (sub : Subdomain) (d : Domain) (zone : Zone)
      (w1 w2 : World) (r : Record) (w' : World)
      → IsUntouched w1 w2
      → IsStored env user_id i sub d zone w2 r w'
      → IsStored env user_id i sub d zone w1 r (tick w')
  IsStored-from user_id i sub d zone w1 w2 r w' same s = record {
    middle = s.middle;
    spent = subst (λ t. IsSpentFor env t user_id d.points_cost s.middle) same.0 s.spent;
    content = s.content;
    remote = s.remote;
    row = s.row;
    calls =
        s.calls ∙ ap (λ cs. cs ++ create_call zone (input_of env i sub) (ok s.remote) ∷ []) same.1;
  }

  abbrev after_guards : ℕ → AddRecordInput → Subdomain → Domain → Action (Record × ℤ)
  after_guards user_id i sub d = do
    lift (validate_record (added_type env i) (trim_space i.value))
    raise_if (not (allows env.letters d (added_type env i))) type_not_allowed
    pz ← build_provider env vault d
    rec ← transaction env (
        create_one env vault user_id sub d pz.0 pz.1 (added_type env i) (trim_space i.value)
          (ttl_or i.ttl (pos 600)) i.line)
    pure (rec, if ltb_ℤ (pos 0) d.points_cost then d.points_cost else pos 0)

  -- `AddRecord` on every path. Where it returns: the subdomain exists, is active and has not ended,
  -- and is the user's unless the user is an admin; its domain exists and allows the record type, and
  -- the value passes its test; the price was paid by the user; the platform has made the record that
  -- was asked for, by the one call; and one row was added, of the subdomain and its owner, with what
  -- was asked for and the platform's id. Where it fails, the database is as before, or the subdomain
  -- is disabled, as the guard against expired ones does.
  pub add_record_lem :
      (user_id : ℕ) (i : AddRecordInput) (is_admin : Bool) (w : World)
      → On
          (λ r w'. IsAdded env user_id i is_admin w r w')
          (λ e w'. IsDisabling i.subdomain_id w.db w'.db)
          (add_record env vault user_id i is_admin w)
  unfolding add_record
  add_record_lem user_id i is_admin w = On-bind _ _ w (
      On-map_error _ _ w (
        On-first (subdomains env) _ w
          (λ sub found. On-bind _ _ _ (
            On-raise_if _ _ _
              (λ permitted. On-bind _ _ _ (
                On-raise_if _ _ _
                  (λ active. On-bind _ _ _ (
                    On-mono (check_expired_lem env vault sub (tick w))
                      (λ _ w1 live. On-bind _ _ w1 (
                        On-mono (get_lem env vault sub.domain_id w1)
                          (λ d w2 got.
                            added sub found permitted (passed_lem _ active) d w1 w2 live.0 live.1
                              got.0 (got.1.0 ∙ live.1.0, got.1.1 ∙ live.1.1))
                          (λ e w2 same2. inl (same2.0 ∙ live.1.0))))
                      (λ e w1 changed.
                        subst (λ k. IsDisabling k w.db w1.db)
                          (key_lem i.subdomain_id sub w.db.subdomains found) changed)))
                  (λ _. inl refl)))
              (λ _. inl refl)))
          (λ e _. inl refl)))
    where
      added :
          (sub : Subdomain)
          → find? (has_sub_id i.subdomain_id) w.db.subdomains ≡ some sub
          → not_owner is_admin sub.user_id user_id ≡ false
          → eq_ℤ sub.status subdomain_status_active ≡ true
          → (d : Domain) (w1 w2 : World) → is_expired sub (env.now (w.moment + 1)) ≡ false
          → IsUntouched w w1
          → find? (has_domain_id sub.domain_id) w1.db.domains ≡ some d
          → IsUntouched w w2
          → On
              (λ r w'. IsAdded env user_id i is_admin w r w')
              (λ e w'. IsDisabling i.subdomain_id w.db w'.db)
              (after_guards user_id i sub d w2)
      added sub found permitted active d w1 w2 live same1 domain_found same2 = On-bind _ _ w2 (
          On-lift _ w2
            (λ u value. On-bind _ _ w2 (
              On-raise_if _ _ w2
                (λ allowed. On-bind _ _ w2 (
                  On-mono (build_provider_zone env vault d w2)
                    (λ pz w3 (zone, same3).
                      let same : IsUntouched w w3 = (same3.0 ∙ same2.0, same3.1 ∙ same2.1) in
                      On-bind _ _ w3 (
                        On-transaction env _ w3 (
                          On-mono (create_one_lem user_id i sub d pz.0 pz.1 w3)
                            (λ r w4 stored. (
                              On-pure _ _ (record {
                                sub = sub;
                                found = found;
                                permitted = permitted;
                                active = active;
                                in_time = HasNotEnded-active sub _ live active;
                                domain = d;
                                domain_found =
                                    subst
                                      (λ (t : Db).
                                        find? (has_domain_id sub.domain_id) t.domains ≡ some d)
                                      same1.0 domain_found;
                                value = value;
                                allowed = passed_lem _ allowed;
                                stored =
                                    subst
                                      (λ (z : Zone). IsStored env user_id i sub d z w r (tick w4))
                                      zone
                                      (IsStored-from user_id i sub d pz.1 w w3 r w4 same stored);
                                charged = refl;
                              }),
                              λ e. inl same.0,
                            ))
                            (λ e w4 _. inl same.0))))
                    (λ e w3 same3. inl (same3.0 ∙ same2.0))))
                (λ _. inl same2.0)))
            (λ e _. inl same2.0))

  -- `AddRecord` keeps the books balanced, whether it returns or fails, if the prices of the domains
  -- are int64s.
  pub add_record-IsBalanced :
      (user_id : ℕ) (i : AddRecordInput) (is_admin : Bool) (w : World)
      → All (λ (d : Domain). IsInt64 d.points_cost) w.db.domains
      → IsBalanced w.db
      → On
          (λ r w'. IsBalanced w'.db)
          (λ e w'. IsBalanced w'.db)
          (add_record env vault user_id i is_admin w)
  add_record-IsBalanced user_id i is_admin w range b =
      On-mono (add_record_lem user_id i is_admin w)
        (λ r w' done.
          let stored = done.stored in
          let price =
            All-find? (λ (d : Domain). IsInt64 d.points_cost) (has_domain_id done.sub.domain_id)
              w.db.domains range done.domain_found in
          let m =
            IsSpentFor-IsBalanced env w.db user_id done.domain.points_cost stored.middle price b
              stored.spent in
          subst IsBalanced (sym stored.content)
            (record { balances = m.balances; owners = m.owners }))
        (λ e w' changed.
          subst IsBalanced (sym (IsDisabling-IsSubdomainChange i.subdomain_id w.db w'.db changed))
            (record { balances = b.balances; owners = b.owners }))
