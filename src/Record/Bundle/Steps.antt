-- ===== src/Record/Bundle/Steps.antt =====
-- What the steps of `CreateBundle` do.
use tu_dns.Prelude.{ℕ, ◌≡◌, refl, sym, ap, List, [], ◌∷◌, ◌++◌, Option, some, none, passed_lem}
use mathlib.Core.Path.{subst}
use tu_dns.Prelude.Int.{ℤ, pos, ltb_ℤ}
use tu_dns.Text.{Text, trim_space}
use tu_dns.Result.{Result, ok, err, create_failed}
use tu_dns.Models.{Domain}
use tu_dns.Dns.{Provider, Zone, RemoteRecord}
use tu_dns.World.{
  World, Env, Call, ask, pure, ◌>>=◌, create_call, delete_call, tick, subdomains, records,
}
use tu_dns.World.On.{
  On, On-bind, On-if, On-pure, On-raise, On-ask, On-lift, On-raise_if, On-mono, On-map_error,
  On-attempt, IsUntouched,
}
use tu_dns.World.Rules.{On-create}
use tu_dns.Domain.{Vault}
use tu_dns.Domain.Config.{get_lem}
use tu_dns.Record.{BundleInput, add_days, remote_input}
use tu_dns.Record.Create.{check_bundle, open_domain, expiry, create_both, record_or_cleanup}
use tu_dns.Record.Remote.{On-create_remote, On-delete_remote}
use tu_dns.Record.Spend.{charge_for_lem}
use tu_dns.Record.Bundle.{
  clean_name, clean_type, end_of, IsOpen, IsValid, IsMade, Left, untouched, refused, cleaned,
}

module _ (env : Env) (vault : Vault) (user_id : ℕ) where
  pub check_bundle_lem :
      (i : BundleInput) (w : World)
      → On
          (λ _ w'. IsValid env i × IsUntouched w w')
          (λ e w'. IsUntouched w w')
          (check_bundle env vault (clean_name env i) (clean_type env i) (trim_space i.value) w)
  unfolding check_bundle
  check_bundle_lem i w = On-bind _ _ w (
      On-raise_if _ _ w
        (λ named. On-bind _ _ w (
          On-raise_if _ _ w
            (λ unreserved.
              On-lift _ w
                (λ u value. (
                  record { named = passed_lem _ named; unreserved = unreserved; value = value },
                  (refl, refl),
                ))
                (λ e _. (refl, refl)))
            (λ _. (refl, refl))))
        (λ _. (refl, refl)))

  pub open_domain_lem :
      (i : BundleInput) (w : World)
      → On
          (λ d w'. IsOpen env w.db i d × IsUntouched w w')
          (λ e w'. IsUntouched w w')
          (open_domain env vault i.domain_id (clean_type env i) w)
  unfolding open_domain
  open_domain_lem i w = On-bind _ _ w (
      On-map_error _ _ w (
        On-mono (get_lem env vault i.domain_id w)
          (λ d w' got. On-bind _ _ w' (
            On-raise_if _ _ w'
              (λ active. On-bind _ _ w' (
                On-raise_if _ _ w'
                  (λ allowed. On-pure d w' (
                    record {
                      found = got.0;
                      active = passed_lem _ active;
                      allowed = passed_lem _ allowed;
                    },
                    got.1,
                  ))
                  (λ _. got.1)))
              (λ _. got.1)))
          (λ e w' u. u)))

  pub expiry_lem :
      (d : Domain) (w : World)
      → On
          (λ o w'. (o ≡ end_of env d w.moment) × IsUntouched w w')
          (λ e w'. IsUntouched w w')
          (expiry env vault d w)
  unfolding expiry
  expiry_lem d w =
      On-if (ltb_ℤ (pos 0) d.subdomain_ttl_days)
        (ask env.now >>= λ now. pure (some (add_days now d.subdomain_ttl_days))) (pure none) w
        (λ some_days.
          On-bind (ask env.now) (λ now. pure (some (add_days now d.subdomain_ttl_days))) w
            (On-ask env.now w (
              On-pure (some (add_days (env.now w.moment) d.subdomain_ttl_days)) (tick w)
                (rw some_days refl, (refl, refl)))))
        (λ no_days. On-pure none w (rw no_days refl, (refl, refl)))

  pub create_both_lem :
      (d : Domain) (p : Provider) (zone : Zone) (name full rec_type value line : Text) (ttl : ℤ)
      (expires_at : Option ℕ) (w : World)
      → On
          (λ b w'.
            IsMade env user_id d name full zone
              (remote_input full rec_type value ttl line)
              expires_at
              w.db
              w.calls
              b
              w'.db
              w'.calls)
          (λ e w'. Left w.calls w'.calls)
          (create_both env vault user_id d p zone name full rec_type value ttl line expires_at w)
  unfolding create_both record_or_cleanup
  create_both_lem d p zone name full rec_type value line ttl expires_at w = On-bind _ _ w (
      On-mono (charge_for_lem env vault user_id d.points_cost _ w)
        (λ o w1 paid. On-bind _ _ w1 (
          On-create (subdomains env) _ w1
            (λ sub sub_made. On-bind _ _ _ (
              On-map_error create_failed _ _ (
                On-create_remote p zone (remote_input full rec_type value ttl line) _
                  (λ remote. On-bind _ _ _ (
                    On-attempt _ _ (
                      On-create (records env) _ _
                        (λ rec rec_made. On-bind _ _ _ (
                          On-pure rec _ (
                            On-pure _ _ (record {
                              middle = w1.db;
                              spent = paid.0;
                              content = refl;
                              charged = refl;
                              sub = sub_made.keeps;
                              remote = remote;
                              rec = rec_made.keeps;
                              calls = grown paid.1 _;
                            }))))
                        (λ e. On-bind _ _ _ (
                          On-bind _ _ _ (
                            On-attempt _ _ (
                              On-delete_remote p zone remote.remote_id _
                                (On-raise e _ (tidied paid.1 remote (ok tt)))
                                (λ e'. On-raise e _ (tidied paid.1 remote (err e'))))))))))
                  (λ e. subst (Left w.calls) (sym (grown paid.1 _)) (refused _ _ e)))))
            (λ e. subst (Left w.calls) (sym paid.1) untouched)))
        (λ e w1 same. subst (Left w.calls) (sym same) untouched))
    where
      grown : {a b : List Call} → a ≡ b → (c : Call) → a ++ c ∷ [] ≡ b ++ c ∷ []
      grown e c = ap (λ cs. cs ++ c ∷ []) e

      tidied :
          {a : List Call}
          → a ≡ w.calls
          → (r : RemoteRecord) (x : Result (Unit {0}))
          → Left w.calls (
              (a ++ create_call zone (remote_input full rec_type value ttl line) (ok r) ∷ [])
              ++ delete_call zone r.remote_id x ∷ [])
      tidied e r x = subst (Left w.calls) (sym (grown (grown e _) _)) (cleaned _ _ r x)
