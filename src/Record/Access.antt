-- ===== src/Record/Access.antt =====
-- Who may change what.
use tu_dns.Prelude.{ℕ, ◌≡◌, refl, sym, ap, ◌∙◌, true, false, not, some, find?, ◌==◌}
use mathlib.Core.Option.{some-injective}
use tu_dns.Result.{Result}
use tu_dns.Models.{Subdomain, Record}
use tu_dns.World.{World, Env, subdomains, records}
use tu_dns.World.On.{On, On-bind, On-raise_if, On-map_error, IsUntouched}
use tu_dns.World.Rules.{On-first}
use tu_dns.Domain.{Vault}
use tu_dns.Record.{AddRecordInput, UpdateRecordInput, has_sub_id, has_record_id, not_owner}
use tu_dns.Record.Change.{update_record, delete_record, delete_subdomain}
use tu_dns.Record.Create.{add_record}

-- The call fails and changes nothing.
abbrev pub Denied : {A : Type 0} → World → (World → Result A × World) → Type 0
Denied w m = On (λ _ w'. ⊥) (λ e w'. IsUntouched w w') (m w)

module _ (env : Env) (vault : Vault) (w : World) (user_id : ℕ) where
  -- A subdomain of another user: `AddRecord` and `DeleteSubdomain` of a user who is no admin fail, and
  -- neither the database nor a platform is changed.
  pub subdomain-Denied :
      (sub : Subdomain) (i : AddRecordInput)
      → find? (has_sub_id i.subdomain_id) w.db.subdomains ≡ some sub
      → (sub.user_id == user_id) ≡ false
      → Denied w (add_record env vault user_id i false)
        × Denied w (delete_subdomain env vault user_id i.subdomain_id false)
  unfolding add_record delete_subdomain
  subdomain-Denied sub i found other = (
    On-bind _ _ w (
        On-map_error _ _ w (
          On-first (subdomains env) _ w
            (λ s e. On-bind _ _ _ (On-raise_if _ _ _ (λ h. cc (owned s e, h)) (λ _. (refl, refl))))
            (λ e _. (refl, refl)))),
    On-bind _ _ w (
        On-map_error _ _ w (
          On-first (subdomains env) _ w
            (λ s e. On-bind _ _ _ (On-raise_if _ _ _ (λ h. cc (owned s e, h)) (λ _. (refl, refl))))
            (λ e _. (refl, refl)))),
  )
    where
      owned :
          (s : Subdomain)
          → find? (has_sub_id i.subdomain_id) w.db.subdomains ≡ some s
          → not_owner false s.user_id user_id ≡ true
      owned s e =
          ap (λ (s : Subdomain). not_owner false s.user_id user_id)
            (some-injective s sub (sym e ∙ found))
          ∙ ap not other

  -- A record of another user: `UpdateRecord` and `DeleteRecord` of a user who is no admin fail, and
  -- neither the database nor a platform is changed.
  pub record-Denied :
      (rec : Record) (record_id : ℕ) (i : UpdateRecordInput)
      → find? (has_record_id record_id) w.db.records ≡ some rec
      → (rec.user_id == user_id) ≡ false
      → Denied w (update_record env vault user_id record_id i false)
        × Denied w (delete_record env vault user_id record_id false)
  unfolding update_record delete_record
  record-Denied rec record_id i found other = (
    On-bind _ _ w (
        On-map_error _ _ w (
          On-first (records env) _ w
            (λ r e. On-bind _ _ _ (On-raise_if _ _ _ (λ h. cc (owned r e, h)) (λ _. (refl, refl))))
            (λ e _. (refl, refl)))),
    On-bind _ _ w (
        On-map_error _ _ w (
          On-first (records env) _ w
            (λ r e. On-bind _ _ _ (On-raise_if _ _ _ (λ h. cc (owned r e, h)) (λ _. (refl, refl))))
            (λ e _. (refl, refl)))),
  )
    where
      owned :
          (r : Record)
          → find? (has_record_id record_id) w.db.records ≡ some r
          → not_owner false r.user_id user_id ≡ true
      owned r e =
          ap (λ (r : Record). not_owner false r.user_id user_id)
            (some-injective r rec (sym e ∙ found))
          ∙ ap not other
