-- ===== src/Record/Bundle/Total.antt =====
-- When `CreateBundle` returns.
use tu_dns.Prelude.{
  ℕ, ◌+◌, ◌≡◌, refl, sym, ap, ◌∙◌, Bool, true, false, not, List, [], ◌∷◌, Option, some, none, arith,
  find?, count, any, find?-none-any, find?-count_zero, ltb, if◌then◌else◌,
}
use mathlib.Core.Path.{subst}
use tu_dns.Prelude.Int.{ℤ, pos, eq_ℤ, ltb_ℤ, neg_ℤ, add64}
use tu_dns.Text.{Text, is_empty, trim_space}
use tu_dns.Result.{ok, create_failed}
use tu_dns.Models.{Db, User, Domain, Record, ledger_type_charge}
use tu_dns.Dns.{ConfigMap, Provider, Platform, Zone, RecordInput, RemoteRecord, new_provider}
use tu_dns.World.{World, Env, tick, ask, transaction, domains, subdomains, records, pure, ◌>>=◌}
use tu_dns.World.On.{
  On, On-bind, On-if, On-pure, On-ask, On-lift, On-or_raise, On-raise_if, On-mono, On-and,
  On-map_error, On-attempt, On-result, IsUntouched,
}
use tu_dns.World.Healthy.{IsHealthy, Up-first, Up-create, Up-count_where, Up-transaction}
use tu_dns.Points.{has_id, has_biz_no, charge}
use tu_dns.Points.Total.{adjust_total}
use tu_dns.Domain.{Vault, get, build_provider, decrypt_config}
use tu_dns.Record.{BundleInput, add_days, charge_for, has_full_domain, remote_input, ttl_or}
use tu_dns.Record.Create.{
  check_bundle, open_domain, expiry, create_both, record_or_cleanup, create_bundle,
}
use tu_dns.Record.Remote.{create_remote}
use tu_dns.Record.Spend.{IsSpentFor-frame, charge_for_lem}
use tu_dns.Record.Bundle.{IsOpen, IsValid, IsBundled, clean_name, clean_type, full_name}
use tu_dns.Record.Bundle.Paths.{create_bundle_lem}

-- The user can pay the price, under whatever number the payment gets.
pub record CanPay (env : Env) (d : Db) (user_id : ℕ) (cost : ℤ) : Type 0 where
  pub user : User
  pub found : find? (has_id user_id) d.users ≡ some user
  pub covered : ltb_ℤ (add64 user.points (neg_ℤ cost)) (pos 0) ≡ false
  pub fresh : (m : ℕ) → find? (has_biz_no (env.uuid m)) d.ledgers ≡ none

-- The platform of the domain is registered and configured, and makes every record.
pub record IsServed (env : Env) (vault : Vault) (d : Domain) : Type 0 where
  pub platform : Platform
  pub known : new_provider d.provider_key env.registry ≡ some platform
  pub config : ConfigMap
  pub stored : decrypt_config env vault d ≡ ok config
  pub provider : Provider
  pub configured : platform config ≡ ok provider
  pub creates :
      (m : ℕ) (zone : Zone) (i : RecordInput)
      → (r : RemoteRecord) × (provider.create_record m zone i ≡ ok r)

none_counted : {A : Type 0} (p : A → Bool) (xs : List A) → count p xs ≡ 0 → any p xs ≡ false
none_counted p xs h = find?-none-any p xs (find?-count_zero p xs h)

no_conflict : (t : List Record) → any (λ (q : Record). false) t ≡ false
no_conflict [] = refl
no_conflict (q ∷ t) = no_conflict t

module _ (env : Env) (up : IsHealthy env) (vault : Vault) (user_id : ℕ) where
  charge_for_total :
      (cost : ℤ) (remark : Text) (w : World)
      → CanPay env w.db user_id cost
      → On (λ o w'. Unit {0}) (λ e w'. ⊥) (charge_for env vault user_id cost remark w)
  unfolding charge_for charge
  charge_for_total cost remark w pays =
      On-if (ltb_ℤ (pos 0) cost) _ (pure none) w
        (λ paid.
          On-if (ltb_ℤ cost (pos 0)) _ _ w (λ negative. absurd (apart cost paid negative))
            (λ _.
              On-if (eq_ℤ cost (pos 0)) _ _ w (λ zero_cost. absurd (apart_zero cost paid zero_cost))
                (λ _. On-bind _ _ w (
                  On-ask env.uuid w (
                    On-bind _ _ _ (
                      On-mono
                        (adjust_total env up user_id (neg_ℤ cost) ledger_type_charge remark 0
                          (env.uuid w.moment) (tick w) pays.user pays.found
                          (numbered (is_empty (env.uuid w.moment))))
                        (λ l w' _. On-pure (some l) w' tt)
                        (λ e w' refused. cc (refused.1, pays.covered))))))))
        (λ _. On-pure none w tt)
    where
      apart : (c : ℤ) → ltb_ℤ (pos 0) c ≡ true → ltb_ℤ c (pos 0) ≡ true → ⊥
      apart c h k = ground arith

      apart_zero : (c : ℤ) → ltb_ℤ (pos 0) c ≡ true → eq_ℤ c (pos 0) ≡ true → ⊥
      apart_zero c h k = ground arith

      numbered :
          (empty : Bool)
          → find?
              (has_biz_no (if empty then env.uuid (w.moment + 1) else env.uuid w.moment))
              w.db.ledgers
            ≡ none
      numbered true = pays.fresh (w.moment + 1)
      numbered false = pays.fresh w.moment

  create_both_total :
      (d : Domain) (served : IsServed env vault d) (zone : Zone)
      (name full rec_type value line : Text) (ttl : ℤ) (expires_at : Option ℕ) (w : World)
      → CanPay env w.db user_id d.points_cost
      → count (has_full_domain full) w.db.subdomains ≡ 0
      → On
          (λ b w'. Unit {0})
          (λ e w'. ⊥)
          (create_both env vault user_id d served.provider zone name full rec_type value ttl line
            expires_at w)
  unfolding create_both record_or_cleanup create_remote
  create_both_total d served zone name full rec_type value line ttl expires_at w pays free =
      On-bind _ _ w (
        On-mono
          (On-and (charge_for_total d.points_cost _ w pays)
            (charge_for_lem env vault user_id d.points_cost _ w))
          (λ o w1 paid.
            let frame = IsSpentFor-frame env w.db user_id d.points_cost w1.db paid.1.0 in
            On-bind _ _ w1 (
              Up-create (subdomains env) up.subdomains w1 _
                (ap (λ (t : Db). any (has_full_domain full) t.subdomains) frame
                  ∙ none_counted (has_full_domain full) w.db.subdomains free)
                (λ sub row. On-bind _ _ _ (
                  On-map_error create_failed _ _ (
                    On-result _ _
                      (λ remote made. On-bind _ _ _ (
                        On-attempt _ _ (
                          Up-create (records env) up.records _ _ (no_conflict w1.db.records)
                            (λ r row'. On-bind _ _ _ (On-pure r _ (On-pure _ _ tt))))))
                      (λ e failed. cc (
                        failed,
                        (served.creates (w1.moment + 1) zone
                            (remote_input full rec_type value ttl line)).1,
                      )))))))
          (λ e w1 none_left. none_left.0))

  expiry_total :
      (d : Domain) (w : World) → On (λ o w'. w'.db ≡ w.db) (λ e w'. ⊥) (expiry env vault d w)
  unfolding expiry
  expiry_total d w =
      On-if (ltb_ℤ (pos 0) d.subdomain_ttl_days)
        (ask env.now >>= λ now. pure (some (add_days now d.subdomain_ttl_days))) (pure none) w
        (λ _.
          On-bind (ask env.now) (λ now. pure (some (add_days now d.subdomain_ttl_days))) w
            (On-ask env.now w
              (On-pure (some (add_days (env.now w.moment) d.subdomain_ttl_days)) (tick w) refl)))
        (λ _. On-pure none w refl)

  build_provider_total :
      (d : Domain) (served : IsServed env vault d) (w : World)
      → On
          (λ pz w'. (pz.0 ≡ served.provider) × IsUntouched w w')
          (λ e w'. ⊥)
          (build_provider env vault d w)
  unfolding build_provider
  build_provider_total d served w = On-bind _ _ w (
      On-or_raise _ _ w
        (λ platform known. On-bind _ _ w (
          On-lift _ w
            (λ config stored. On-bind _ _ w (
              On-lift _ w
                (λ p configured. On-pure _ w (
                  cc (known, served.known, stored, served.stored, configured, served.configured),
                  (refl, refl),
                ))
                (λ e bad. cc (known, served.known, stored, served.stored, bad, served.configured))))
            (λ e bad. cc (bad, served.stored))))
        (λ missing. cc (missing, served.known)))

  -- `CreateBundle` succeeds where it can: on a database that is up, with a valid name, type and value,
  -- an active domain that allows the type, a full name that no subdomain has, a user who can pay the
  -- price under fresh numbers, and a platform that is registered, configured and makes every record,
  -- it returns, and has done what a bundle is.
  pub create_bundle_total :
      (i : BundleInput) (d : Domain) (w : World)
      → IsValid env i
      → IsOpen env w.db i d
      → count (has_full_domain (full_name env i d)) w.db.subdomains ≡ 0
      → IsServed env vault d
      → CanPay env w.db user_id d.points_cost
      → On
          (λ b w'. IsBundled env user_id i w.db w.calls b w'.db w'.calls)
          (λ e w'. ⊥)
          (create_bundle env vault user_id i w)
  unfolding create_bundle check_bundle open_domain get
  create_bundle_total i d w valid opened free served pays =
      On-mono (On-and (create_bundle_lem env vault user_id i w) runs) (λ b w' done. done.0)
        (λ e w' failed. failed.1)
    where
      taken : (n : ℕ) → n ≡ 0 → ltb 0 n ≡ true → ⊥
      taken n h k = ground arith

      in_transaction :
          (p : Provider) (zone : Zone) (expires_at : Option ℕ) (w' : World)
          → p ≡ served.provider
          → w'.db ≡ w.db
          → On
              (λ b w'. Unit {0})
              (λ e w'. ⊥)
              (transaction env
                (create_both env vault user_id d p zone
                  (clean_name env i)
                  (full_name env i d)
                  (clean_type env i)
                  (trim_space i.value)
                  (ttl_or i.ttl (pos 600))
                  i.line
                  expires_at)
                w')
      in_transaction p zone expires_at w' known same = Up-transaction env up _ w' (
          subst
            (λ p.
              On (λ b w'. Unit {0}) (λ e w'. ⊥)
                (create_both env vault user_id d p zone (clean_name env i) (full_name env i d)
                  (clean_type env i) (trim_space i.value) (ttl_or i.ttl (pos 600)) i.line expires_at
                  w'))
            (sym known)
            (create_both_total d served zone (clean_name env i) (full_name env i d)
              (clean_type env i) (trim_space i.value) i.line (ttl_or i.ttl (pos 600)) expires_at w'
              (subst (λ t. CanPay env t user_id d.points_cost) (sym same) pays)
              (ap (λ (t : Db). count (has_full_domain (full_name env i d)) t.subdomains) same
                ∙ free)))

      served_runs :
          (w' : World)
          → w'.db ≡ w.db
          → On
              (λ b w'. Unit {0})
              (λ e w'. ⊥)
              ((build_provider env vault d >>= λ pz. expiry env vault d >>= λ expires_at.
                  transaction env (
                    create_both env vault user_id d pz.0 pz.1
                      (clean_name env i)
                      (full_name env i d)
                      (clean_type env i)
                      (trim_space i.value)
                      (ttl_or i.ttl (pos 600))
                      i.line
                      expires_at))
                w')
      served_runs w' same = On-bind _ _ w' (
          On-mono (build_provider_total d served w')
            (λ pz w1 (known, u1). On-bind _ _ w1 (
              On-mono (expiry_total d w1)
                (λ expires_at w2 same2.
                  in_transaction pz.0 pz.1 expires_at w2 known (same2 ∙ u1.0 ∙ same))
                (λ e w2 none_left. none_left)))
            (λ e w1 none_left. none_left))

      runs : On (λ b w'. Unit {0}) (λ e w'. ⊥) (create_bundle env vault user_id i w)
      runs = On-bind _ _ w (
          On-bind _ _ w (
            On-raise_if _ _ w
              (λ _. On-bind _ _ w (
                On-raise_if _ _ w
                  (λ _.
                    On-lift _ w
                      (λ u _. On-bind _ _ w (
                        On-bind _ _ w (
                          On-map_error _ _ w (
                            Up-first (domains env) up.domains w _ d opened.found (
                              On-bind _ _ _ (
                                On-raise_if _ _ _
                                  (λ _. On-bind _ _ _ (
                                    On-raise_if _ _ _
                                      (λ _. On-pure d _ (
                                        On-bind _ _ _ (
                                          Up-count_where (subdomains env) up.subdomains _ _ (
                                            On-bind _ _ _ (
                                              On-raise_if _ _ _ (λ _. served_runs _ refl)
                                                (λ h. taken _ free h))))))
                                      (λ h. cc (ap not opened.allowed, h))))
                                  (λ h. cc (ap not opened.active, h))))))))
                      (λ e bad. cc (valid.value, bad)))
                  (λ h. cc (valid.unreserved, h))))
              (λ h. cc (ap not valid.named, h))))
