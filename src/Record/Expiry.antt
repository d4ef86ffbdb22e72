-- ===== src/Record/Expiry.antt =====
-- The guard against expired subdomains.
use tu_dns.Prelude.{
  ℕ, ◌+◌, ◌≡◌, refl, ◌∙◌, true, false, List, arith, some, find?, find?-map_where, ==_refl,
  map_where,
}
use tu_dns.Result.{subdomain_expired}
use tu_dns.Models.{Subdomain, Record, is_expired, subdomain_status_disabled}
use tu_dns.World.{World, Env, subdomains}
use tu_dns.World.On.{On, On-bind, On-if, On-pure, On-raise, On-ask, On-attempt}
use tu_dns.World.Healthy.{IsHealthy, Up-first, Up-update}
use tu_dns.Domain.{Vault}
use tu_dns.Record.{has_sub_id, check_record_sub}

-- A subdomain that is disabled counts as not expired.
disabled_lem :
    (s : Subdomain) (now : ℕ)
    → is_expired (record s { status = subdomain_status_disabled }) now ≡ false
unfolding is_expired
disabled_lem s now = ground arith

module _ (env : Env) (up : IsHealthy env) (vault : Vault) (rec : Record) where
  passes :
      (s : Subdomain) (w : World)
      → find? (has_sub_id rec.subdomain_id) w.db.subdomains
        ≡ some (record s { status = subdomain_status_disabled })
      → On
          (λ _ w'. (w'.db ≡ w.db) × (w'.calls ≡ w.calls))
          (λ e w'. ⊥)
          (check_record_sub env vault rec w)
  unfolding check_record_sub
  passes s w found = On-bind _ _ w (
      On-attempt _ w (
        Up-first (subdomains env) up.subdomains w _ _ found (
          On-bind _ _ _ (
            On-ask env.now _ (
              On-if
                (is_expired (record s { status = subdomain_status_disabled })
                  (env.now (w.moment + 1)))
                _ _ _ (λ e. cc (disabled_lem s (env.now (w.moment + 1)), e))
                (λ _. On-pure tt _ (refl, refl)))))))

  -- Where the database is up and the record's subdomain is expired, the guard of `UpdateRecord` and
  -- `DeleteRecord` fails as expired, and the same guard passes in the state that this failure leaves:
  -- the failure has disabled the subdomain, and only an active one counts as expired.
  pub expired_once :
      (s : Subdomain) (w : World)
      → find? (has_sub_id rec.subdomain_id) w.db.subdomains ≡ some s
      → is_expired s (env.now (w.moment + 1)) ≡ true
      → On
          (λ _ w1. ⊥)
          (λ e w1.
            (e ≡ subdomain_expired)
            × On
                (λ _ w2. (w2.db ≡ w1.db) × (w2.calls ≡ w1.calls))
                (λ e w2. ⊥)
                (check_record_sub env vault rec w1))
          (check_record_sub env vault rec w)
  unfolding check_record_sub
  expired_once s w found late = On-bind _ _ w (
      On-attempt _ w (
        Up-first (subdomains env) up.subdomains w _ s found (
          On-bind _ _ _ (
            On-ask env.now _ (
              On-if (is_expired s (env.now (w.moment + 1))) _ _ _
                (λ _. On-bind _ _ _ (
                  On-attempt _ _ (
                    Up-update (subdomains env) up.subdomains _ (has_sub_id s.id) _ (
                      On-raise subdomain_expired _
                        (refl, passes s _ (after w.db.subdomains found))))))
                (λ e. cc (late, e)))))))
    where
      after :
          (t : List Subdomain)
          → find? (has_sub_id rec.subdomain_id) t ≡ some s
          → find?
              (has_sub_id rec.subdomain_id)
              (map_where (has_sub_id s.id) (λ s. record s { status = subdomain_status_disabled }) t)
            ≡ some (record s { status = subdomain_status_disabled })
      after t h =
          find?-map_where (has_sub_id rec.subdomain_id) (has_sub_id s.id) _ t (λ a. refl) h
          ∙ rw (==_refl s.id)
