-- ===== src/Record/Guard.antt =====
-- The guard against expired subdomains, which may disable one.
use tu_dns.Prelude.{
  ℕ, ◌≤◌, ◌≡◌, refl, sym, ◌⊎◌, inl, inr, arith, true, false, ◌&&◌, List, Option, none, some, find?,
  find?-holds, ==_iff, map_where,
}
use mathlib.Core.Path.{subst}
use tu_dns.Prelude.Int.{eq_ℤ}
use tu_dns.Result.{subdomain_expired}
use tu_dns.Models.{
  Db, Subdomain, is_expired, before_now, subdomain_status_active, subdomain_status_disabled,
}
use tu_dns.World.{World, Env, pure, subdomains}
use tu_dns.World.On.{On, On-bind, On-if, On-pure, On-raise, On-ask, On-attempt, IsUntouched}
use tu_dns.World.Rules.{On-update}
use tu_dns.Domain.{Vault}
use tu_dns.Record.{has_sub_id, check_expired}

-- At most the subdomains have changed.
abbrev pub IsSubdomainChange : Db → Db → Type 0
IsSubdomainChange d d' = d' ≡ record d { subdomains = d'.subdomains }

-- At most the rows of one subdomain have changed, to disabled ones.
abbrev pub IsDisabling : ℕ → Db → Db → Type 0
IsDisabling id d d' =
    (d' ≡ d)
    ⊎ (d' ≡ record d {
      subdomains =
          map_where (has_sub_id id) (λ s. record s { status = subdomain_status_disabled })
            d.subdomains;
    })

pub IsDisabling-IsSubdomainChange :
    (id : ℕ) (d d' : Db) → IsDisabling id d d' → IsSubdomainChange d d'
IsDisabling-IsSubdomainChange id d d' (inl same) = subst (IsSubdomainChange d) (sym same) refl
IsDisabling-IsSubdomainChange id d d' (inr disabled) =
    subst (IsSubdomainChange d) (sym disabled) refl

-- The end of a subdomain, if it has one, has not passed.
abbrev pub HasNotEnded : Option ℕ → ℕ → Type 0
HasNotEnded none now = Unit
HasNotEnded (some end) now = now ≤ end

pub HasNotEnded-active :
    (sub : Subdomain) (now : ℕ)
    → is_expired sub now ≡ false
    → eq_ℤ sub.status subdomain_status_active ≡ true
    → HasNotEnded sub.expires_at now
unfolding is_expired
HasNotEnded-active sub now h active = go sub.expires_at (rw active at h)
  where
    go : (end : Option ℕ) → (before_now end now && true) ≡ false → HasNotEnded end now
    go none h = tt
    go (some end) h = ground arith

-- The subdomain that is found under a key has it.
pub key_lem :
    (k : ℕ) (sub : Subdomain) (t : List Subdomain) → find? (has_sub_id k) t ≡ some sub → sub.id ≡ k
key_lem k sub t found = (==_iff sub.id k).0 (find?-holds (has_sub_id k) t found)

module _ (env : Env) (vault : Vault) where
  -- The guard against expired subdomains passes where the subdomain has not expired and then leaves
  -- all as it is; it may have disabled the subdomain where it does not.
  pub check_expired_lem :
      (sub : Subdomain) (w : World)
      → On
          (λ _ w'. (is_expired sub (env.now w.moment) ≡ false) × IsUntouched w w')
          (λ e w'. IsDisabling sub.id w.db w'.db)
          (check_expired env vault sub w)
  unfolding check_expired
  check_expired_lem sub w = On-bind _ _ w (
      On-ask env.now w (
        On-if (is_expired sub (env.now w.moment)) _ (pure tt) _
          (λ _. On-bind _ _ _ (
            On-attempt _ _ (
              On-update (subdomains env) _ _ _ (On-raise subdomain_expired _ (inr refl))
                (λ e. On-raise subdomain_expired _ (inl refl)))))
          (λ live. On-pure tt _ (live, (refl, refl)))))
