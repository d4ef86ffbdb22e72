-- ===== src/Record/Bundle/Paths.antt =====
-- `CreateBundle` on every path, and the books.
use tu_dns.Prelude.{ℕ, ◌≡◌, sym, ◌∙◌, Option, count, All, All-find?, none_above_zero}
use mathlib.Core.Path.{subst}
use tu_dns.Prelude.Int.{pos, IsInt64}
use tu_dns.Text.{Text, trim_space}
use tu_dns.Models.{Domain}
use tu_dns.Dns.{Provider, Zone}
use tu_dns.World.{World, Env, transaction, tick, subdomains}
use tu_dns.World.On.{On, On-bind, On-raise_if, On-mono, On-transaction, IsUntouched}
use tu_dns.World.Rules.{On-count_where}
use tu_dns.Domain.{Vault, has_domain_id}
use tu_dns.Domain.Config.{build_provider_zone}
use tu_dns.Record.{BundleInput, BundleResult, has_full_domain, ttl_or}
use tu_dns.Record.Create.{create_both, create_bundle}
use tu_dns.Record.Spend.{IsSpentFor-IsBalanced}
use tu_dns.Points.Balance.{IsBalanced}
use tu_dns.Record.Bundle.Steps.{check_bundle_lem, open_domain_lem, expiry_lem, create_both_lem}
use tu_dns.Record.Bundle.{
  clean_name, clean_type, full_name, zone_of, asked, end_of, IsOpen, IsValid, IsMade, IsBundled,
  Left, IsUndone, untouched, uncommitted,
}

unmoved : (w w' : World) → IsUntouched w w' → IsUndone w w'
unmoved w w' u = (u.0, subst (Left w.calls) (sym u.1) untouched)

carry : (a b c : World) → IsUntouched a b → IsUntouched b c → IsUntouched a c
carry a b c p q = (q.0 ∙ p.0, q.1 ∙ p.1)

module _ (env : Env) (vault : Vault) (user_id : ℕ) where
  pub create_bundle_lem :
      (i : BundleInput) (w : World)
      → On
          (λ b w'. IsBundled env user_id i w.db w.calls b w'.db w'.calls)
          (λ e w'. IsUndone w w')
          (create_bundle env vault user_id i w)
  unfolding create_bundle
  create_bundle_lem i w = On-bind _ _ w (
      On-mono (check_bundle_lem env vault user_id i w)
        (λ _ w1 (valid, u1). On-bind _ _ w1 (
          On-mono (open_domain_lem env vault user_id i w1)
            (λ d w2 (opened, v2).
              let u2 = carry w w1 w2 u1 v2 in
              On-bind _ _ w2 (
                On-count_where (subdomains env) _ w2
                  (On-bind _ _ _ (
                    On-raise_if _ _ _
                      (λ free. On-bind _ _ _ (
                        On-mono (build_provider_zone env vault d (tick w2))
                          (λ pz w3 (zone, v3).
                            let u3 = carry w (tick w2) w3 u2 v3 in
                            On-bind _ _ w3 (
                              On-mono (expiry_lem env vault user_id d w3)
                                (λ expires_at w4 (ends, v4).
                                  made_from d (subst (λ t. IsOpen env t i d) u1.0 opened)
                                    (rw (← u2.0) (none_above_zero _ free)) valid pz.0 pz.1 zone
                                    expires_at w3.moment ends w4 (carry w w3 w4 u3 v4))
                                (λ e w4 v4. unmoved w w4 (carry w w3 w4 u3 v4))))
                          (λ e w3 v3. unmoved w w3 (carry w (tick w2) w3 u2 v3))))
                      (λ _. unmoved w (tick w2) u2)))
                  (λ e. unmoved w (tick w2) u2)))
            (λ e w2 v2. unmoved w w2 (carry w w1 w2 u1 v2))))
        (λ e w1 u1. unmoved w w1 u1))
    where
      name : Text
      name = clean_name env i

      made_from :
          (d : Domain)
          → IsOpen env w.db i d
          → count (has_full_domain (full_name env i d)) w.db.subdomains ≡ 0
          → IsValid env i
          → (p : Provider) (zone : Zone) → zone ≡ zone_of d
          → (expires_at : Option ℕ) (m : ℕ) → expires_at ≡ end_of env d m
          → (w4 : World) → IsUntouched w w4
          → On
              (λ b w'. IsBundled env user_id i w.db w.calls b w'.db w'.calls)
              (λ e w'. IsUndone w w')
              (transaction env
                (create_both env vault user_id d p zone name
                  (full_name env i d)
                  (clean_type env i)
                  (trim_space i.value)
                  (ttl_or i.ttl (pos 600))
                  i.line
                  expires_at)
                w4)
      made_from d opened free valid p zone is_zone expires_at m is_end w4 u =
          On-transaction env _ w4 (
            On-mono
              (create_both_lem env vault user_id d p zone name (full_name env i d)
                (clean_type env i) (trim_space i.value) i.line (ttl_or i.ttl (pos 600)) expires_at
                w4)
              (λ b w5 made. (
                record {
                  valid = valid;
                  domain = d;
                  opened = opened;
                  free = free;
                  moment = m;
                  made =
                      subst
                        (λ cs.
                          IsMade env user_id d name (full_name env i d) (zone_of d) (asked env i d)
                            (end_of env d m) w.db cs b w5.db w5.calls)
                        u.1
                        (subst
                          (λ t.
                            IsMade env user_id d name (full_name env i d) (zone_of d)
                              (asked env i d) (end_of env d m) t w4.calls b w5.db w5.calls)
                          u.0 (placed b w5 made));
                },
                λ e. (
                  u.0,
                  subst (λ cs. Left cs w5.calls) u.1
                      (subst (Left w4.calls) (sym made.calls)
                        (uncommitted zone (asked env i d) made.remote)),
                ),
              ))
              (λ e w5 left. (u.0, subst (λ cs. Left cs w5.calls) u.1 left)))
        where
          placed :
              (b : BundleResult) (w5 : World)
              → IsMade env user_id d name
                  (full_name env i d)
                  zone
                  (asked env i d)
                  expires_at
                  w4.db
                  w4.calls
                  b
                  w5.db
                  w5.calls
              → IsMade env user_id d name
                  (full_name env i d)
                  (zone_of d)
                  (asked env i d)
                  (end_of env d m)
                  w4.db
                  w4.calls
                  b
                  w5.db
                  w5.calls
          placed b w5 made =
              subst
                (λ z.
                  IsMade env user_id d name (full_name env i d) z (asked env i d) (end_of env d m)
                    w4.db w4.calls b w5.db w5.calls)
                is_zone
                (subst
                  (λ e.
                    IsMade env user_id d name (full_name env i d) zone (asked env i d) e w4.db
                      w4.calls b w5.db w5.calls)
                  is_end made)

  -- `CreateBundle` keeps the books balanced, whether it returns or fails, if the prices of the
  -- domains are int64s.
  pub create_bundle-IsBalanced :
      (i : BundleInput) (w : World)
      → All (λ (d : Domain). IsInt64 d.points_cost) w.db.domains
      → IsBalanced w.db
      → On
          (λ b w'. IsBalanced w'.db)
          (λ e w'. IsBalanced w'.db)
          (create_bundle env vault user_id i w)
  create_bundle-IsBalanced i w range b =
      On-mono (create_bundle_lem i w)
        (λ r w' done.
          let made = done.made in
          let m =
            IsSpentFor-IsBalanced env w.db user_id done.domain.points_cost made.middle
              (All-find? (λ (d : Domain). IsInt64 d.points_cost) (has_domain_id i.domain_id)
                w.db.domains range done.opened.found)
              b made.spent in
          subst IsBalanced (sym made.content) (record { balances = m.balances; owners = m.owners }))
        (λ e w' undone. subst IsBalanced (sym undone.0) b)
