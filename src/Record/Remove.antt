-- ===== src/Record/Remove.antt =====
-- What `DeleteSubdomain` leaves.
use tu_dns.Prelude.{
  ℕ, ◌≡◌, refl, sym, ap, ◌∙◌, Bool, false, not, List, [], ◌∷◌, some, find?, filter, any, inl, inr,
  if◌then◌else◌,
}
use mathlib.Core.Path.{subst}
use tu_dns.Text.{is_empty}
use tu_dns.Result.{Result, ok, err}
use tu_dns.Models.{Db, Subdomain, Record}
use tu_dns.Dns.{Provider, Zone}
use tu_dns.World.{
  World, Env, Action, tick, pure, attempt, find, delete, transaction, subdomains, records, ◌>>=◌,
  ◌>>◌,
}
use tu_dns.World.On.{
  On, On-bind, On-if, On-pure, On-raise_if, On-mono, On-transaction, On-map_error, On-attempt,
}
use tu_dns.World.Rules.{On-first, On-find, On-delete}
use tu_dns.Domain.{Vault, get, build_provider}
use tu_dns.Domain.Config.{get_lem, build_provider_lem}
use tu_dns.Record.{has_sub_id, has_record_id, not_owner}
use tu_dns.Record.Change.{delete_all, unless_admin, delete_subdomain}
use tu_dns.Record.Remote.{delete_remote, On-delete_remote}
use tu_dns.Record.Guard.{IsDisabling, key_lem, check_expired_lem}
use tu_dns.Record.Left.{
  without, is_below, has_key_in, without-filter, without-keys, filter-disabled, others_kept,
}

-- What a call that returned has found and left.
pub record IsRemoved (user_id sub_id : ℕ) (is_admin : Bool) (d : Db) (d' : Db) : Type 0 where
  pub sub : Subdomain
  pub found : find? (has_sub_id sub_id) d.subdomains ≡ some sub
  pub permitted : not_owner is_admin sub.user_id user_id ≡ false
  pub no_subdomain : any (has_sub_id sub_id) d'.subdomains ≡ false
  pub no_record : any (is_below sub_id) d'.records ≡ false
  pub content : d' ≡ record d {
    subdomains = filter (λ s. not (has_sub_id sub_id s)) d.subdomains;
    records = filter (λ r. not (has_key_in (filter (is_below sub_id) d.records) r)) d.records;
  }

module _ (env : Env) (vault : Vault) where
  abbrev at_platform : Provider → Zone → Record → Action (Result (Unit {0}))
  at_platform p zone r =
      if is_empty r.remote_id then pure (ok tt) else attempt (delete_remote p zone r.remote_id)

  at_platform_lem :
      (p : Provider) (zone : Zone) (r : Record) (w : World)
      → On (λ _ w'. w'.db ≡ w.db) (λ e w'. Unit {0}) (at_platform p zone r w)
  at_platform_lem p zone r w =
      On-if (is_empty r.remote_id) (pure (ok tt)) (attempt (delete_remote p zone r.remote_id)) w
        (λ _. On-pure (ok tt) w refl)
        (λ _. On-attempt _ w (On-delete_remote p zone r.remote_id w refl (λ e. refl)))

  delete_all_lem :
      (p : Provider) (zone : Zone) (rs : List Record) (w : World)
      → On
          (λ _ w'. w'.db ≡ record w.db { records = without rs w.db.records })
          (λ e w'. Unit {0})
          (delete_all env vault p zone rs w)
  unfolding delete_all
  delete_all_lem p zone [] w = On-pure tt w refl
  delete_all_lem p zone (r ∷ rs) w = On-bind (at_platform p zone r) _ w (
      On-mono (at_platform_lem p zone r w)
        (λ _ w1 same. On-bind _ _ w1 (
          On-delete (records env) w1 (has_record_id r.id)
            (On-mono (delete_all_lem p zone rs _)
              (λ _ w2 done.
                done ∙ ap (λ (d : Db). record d { records = without (r ∷ rs) d.records }) same)
              (λ e w2 _. tt))
            (λ e. tt)))
        (λ e w1 _. tt))

  unless_admin_lem :
      (is_admin : Bool) (checked : Result (Unit {0})) (w : World)
      → On (λ _ w'. w'.db ≡ w.db) (λ e w'. w'.db ≡ w.db) (unless_admin env vault is_admin checked w)
  unfolding unless_admin
  unless_admin_lem is_admin (ok u) w = On-pure tt w refl
  unless_admin_lem is_admin (err e) w = On-raise_if _ _ w (λ _. refl) (λ _. refl)

  -- `DeleteSubdomain` behind its guards.
  abbrev removal : Subdomain → Action (Unit {0})
  removal sub = do
    recs ← find (records env) (is_below sub.id)
    d ← get env vault sub.domain_id
    pz ← build_provider env vault d
    transaction env
        (do delete_all env vault pz.0 pz.1 recs; delete (subdomains env) (has_sub_id sub.id))

  -- What the removal leaves of a database.
  abbrev removed : Subdomain → Db → Db
  removed sub d = record d {
    records = without (filter (is_below sub.id) d.records) d.records;
    subdomains = filter (λ s. not (has_sub_id sub.id s)) d.subdomains;
  }

  removal_lem :
      (sub : Subdomain) (w : World)
      → On (λ _ w'. w'.db ≡ removed sub w.db) (λ e w'. w'.db ≡ w.db) (removal sub w)
  removal_lem sub w = On-bind _ _ w (
      On-find (records env) (is_below sub.id) w
        (On-bind _ _ _ (
          On-mono (get_lem env vault sub.domain_id (tick w))
            (λ d w1 got. On-bind _ _ w1 (
              On-mono (build_provider_lem env vault d w1)
                (λ pz w2 same2.
                  let same : w2.db ≡ w.db = same2.0 ∙ got.1.0 in
                  On-transaction env _ w2 (
                    On-bind _ _ w2 (
                      On-mono (delete_all_lem pz.0 pz.1 (filter (is_below sub.id) w.db.records) w2)
                        (λ _ w3 done.
                          On-delete (subdomains env) w3 (has_sub_id sub.id)
                            (
                              ap
                                  (λ (d : Db). record d {
                                    subdomains =
                                        filter (λ s. not (has_sub_id sub.id s)) d.subdomains;
                                  })
                                  (done
                                    ∙ ap
                                        (λ (d : Db). record d {
                                          records =
                                              without (filter (is_below sub.id) w.db.records)
                                                d.records;
                                        })
                                        same),
                              λ e. same,
                            )
                            (λ e. same))
                        (λ e w3 _. same))))
                (λ e w2 same2. same2.0 ∙ got.1.0)))
            (λ e w1 same. same.0)))
        (λ e. refl))

  -- A removal leaves the same where the subdomain was disabled before.
  removed-disabled :
      (sub : Subdomain) (d d2 : Db)
      → IsDisabling sub.id d d2
      → removed sub d2 ≡ record d {
        subdomains = filter (λ s. not (has_sub_id sub.id s)) d.subdomains;
        records = filter (λ r. not (has_key_in (filter (is_below sub.id) d.records) r)) d.records;
      }
  removed-disabled sub d d2 changed =
      gone d2 changed
      ∙ ap
          (λ rs. record d {
            subdomains = filter (λ s. not (has_sub_id sub.id s)) d.subdomains;
            records = rs;
          })
          (without-keys (filter (is_below sub.id) d.records) d.records)
    where
      gone : (d2 : Db) → IsDisabling sub.id d d2 → removed sub d2 ≡ removed sub d
      gone d2 (inl same) = ap (removed sub) same
      gone d2 (inr disabled) =
          ap (removed sub) disabled
          ∙ ap (λ ss. record (removed sub d) { subdomains = ss })
              (filter-disabled sub.id d.subdomains)

  IsRemoved-removed :
      (user_id sub_id : ℕ) (is_admin : Bool) (d d' : Db) (sub : Subdomain) (d2 : Db)
      → find? (has_sub_id sub_id) d.subdomains ≡ some sub
      → not_owner is_admin sub.user_id user_id ≡ false
      → IsDisabling sub.id d d2
      → d' ≡ removed sub d2
      → IsRemoved user_id sub_id is_admin d d'
  IsRemoved-removed user_id sub_id is_admin d d' sub d2 found permitted changed done =
      let e = done ∙ removed-disabled sub d d2 changed in
      let key = key_lem sub_id sub d.subdomains found in
      record {
        sub = sub;
        found = found;
        permitted = permitted;
        no_subdomain =
            subst (λ k. any (has_sub_id k) d'.subdomains ≡ false) key
              (ap (λ (d : Db). any (has_sub_id sub.id) d.subdomains) e
                ∙ others_kept (has_sub_id sub.id) d.subdomains);
        no_record =
            subst (λ k. any (is_below k) d'.records ≡ false) key
              (ap (λ (d : Db). any (is_below sub.id) d.records) e
                ∙ ap (any (is_below sub.id))
                    (sym (without-keys (filter (is_below sub.id) d.records) d.records))
                ∙ without-filter (is_below sub.id) d.records);
        content =
            subst
              (λ k. d' ≡ record d {
                subdomains = filter (λ s. not (has_sub_id k s)) d.subdomains;
                records =
                    filter (λ r. not (has_key_in (filter (is_below k) d.records) r)) d.records;
              })
              key e;
      }

  -- `DeleteSubdomain`: where it returns, the subdomain existed and was the user's unless the user is an
  -- admin; the rows with its key and those with the key of a record of it are gone, whatever the
  -- platform answered, so that neither it nor any record of it is left; and all else is as before.
  -- Where it fails, the database is as before, or the subdomain is disabled, as the guard against
  -- expired ones does.
  pub delete_subdomain_lem :
      (user_id sub_id : ℕ) (is_admin : Bool) (w : World)
      → On
          (λ _ w'. IsRemoved user_id sub_id is_admin w.db w'.db)
          (λ e w'. IsDisabling sub_id w.db w'.db)
          (delete_subdomain env vault user_id sub_id is_admin w)
  unfolding delete_subdomain
  delete_subdomain_lem user_id sub_id is_admin w = On-bind _ _ w (
      On-map_error _ _ w (
        On-first (subdomains env) _ w
          (λ sub found. On-bind _ _ _ (
            On-raise_if _ _ _
              (λ permitted. On-bind _ _ _ (
                On-attempt _ _ (
                  On-mono (check_expired_lem env vault sub (tick w))
                    (λ _ w1 same.
                      On-bind _ _ w1 (admitted (ok tt) sub found permitted w1 (inl same.1.0)))
                    (λ e w1 changed.
                      On-bind _ _ w1 (admitted (err e) sub found permitted w1 changed)))))
              (λ _. inl refl)))
          (λ e _. inl refl)))
    where
      keyed :
          (sub : Subdomain)
          → find? (has_sub_id sub_id) w.db.subdomains ≡ some sub
          → (w1 : World) → IsDisabling sub.id w.db w1.db
          → IsDisabling sub_id w.db w1.db
      keyed sub found w1 changed =
          subst (λ k. IsDisabling k w.db w1.db) (key_lem sub_id sub w.db.subdomains found) changed

      admitted :
          (checked : Result (Unit {0})) (sub : Subdomain)
          → find? (has_sub_id sub_id) w.db.subdomains ≡ some sub
          → not_owner is_admin sub.user_id user_id ≡ false
          → (w1 : World) → IsDisabling sub.id w.db w1.db
          → On
              (λ _ w2.
                On
                  (λ _ w'. IsRemoved user_id sub_id is_admin w.db w'.db)
                  (λ e w'. IsDisabling sub_id w.db w'.db)
                  (removal sub w2))
              (λ e w'. IsDisabling sub_id w.db w'.db)
              (unless_admin env vault is_admin checked w1)
      admitted checked sub found permitted w1 changed =
          On-mono (unless_admin_lem is_admin checked w1)
            (λ _ w2 same2.
              let changed2 = subst (IsDisabling sub.id w.db) (sym same2) changed in
              On-mono (removal_lem sub w2)
                (λ _ w3 done.
                  IsRemoved-removed user_id sub_id is_admin w.db w3.db sub w2.db found permitted
                    changed2 done)
                (λ e w3 same.
                  keyed sub found w3 (subst (IsDisabling sub.id w.db) (sym same) changed2)))
            (λ e w2 same. keyed sub found w2 (subst (IsDisabling sub.id w.db) (sym same) changed))
