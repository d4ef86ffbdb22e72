-- ===== src/Server/Sound/Names.antt =====
-- Domains, subdomains and records under the invariant of the database.
use tu_dns.Prelude.{ℕ, refl, sym, Bool, List, [], ◌∷◌, ◌==◌, All-find?, All-append, All-filter}
use mathlib.Core.Path.{subst}
use tu_dns.Prelude.Int.{IsInt64}
use tu_dns.Text.{Text, is_empty}
use tu_dns.Result.{Result, ok, err}
use tu_dns.Gorm.{All-put_row}
use tu_dns.Dns.{Provider, Zone, RecordInput, ConfigMap}
use tu_dns.Models.{Record, Subdomain, Domain}
use tu_dns.Models.Schema.{domain_schema}
use tu_dns.World.{Env, domains}
use tu_dns.World.On.{On-if, On-bind, On-pure, On-mono}
use tu_dns.World.Rules.{On-create, On-save, On-delete}
use tu_dns.World.Preserves.{Preserves, Preserves-On, Preserves-if, Preserves-then}
use tu_dns.Secret.{Cipher, encrypt}
use tu_dns.Domain.{
  Vault, SaveInput, filled, has_domain_id, build_provider, list_public, get, check_provider,
  list_zones, written, old_row, new_ciphertext, save_domain, delete_domain,
}
use tu_dns.Domain
use tu_dns.Record.{
  BundleInput, AddRecordInput, UpdateRecordInput, check_expired, check_found, check_record_sub,
  list_by_user, list_all, list_subdomains,
}
use tu_dns.Record.Remote.{update_remote, delete_remote}
use tu_dns.Record.Create.{create_bundle, add_record}
use tu_dns.Record.Change.{update_record, delete_record, delete_all, unless_admin, delete_subdomain}
use tu_dns.Record.Bundle.Paths.{create_bundle_lem}
use tu_dns.Record.Guard.{IsDisabling-IsSubdomainChange}
use tu_dns.Record.Add.{add_record_lem}
use tu_dns.Server.Sound.{IsSound, IsSound-same, IsSound-spent, IsSound-domains, sound_rules}

module _ (p : Provider) (zone : Zone) where
  update_remote-IsSound :
      (id : Text) (i : RecordInput) → Preserves IsSound (update_remote p zone id i)
  unfolding update_remote
  update_remote-IsSound id i = record { run = λ w h. h }

  delete_remote-IsSound : (id : Text) → Preserves IsSound (delete_remote p zone id)
  unfolding delete_remote
  delete_remote-IsSound id = record { run = λ w h. h }

encrypt-IsSound :
    (cipher : Cipher) (secret plaintext : Text)
    → Preserves IsSound (encrypt cipher secret plaintext)
unfolding encrypt
encrypt-IsSound cipher secret plaintext = search sound_rules depth 20

module _ (env : Env) (vault : Vault) where
  get-IsSound : (id : ℕ) → Preserves IsSound (get env vault id)
  unfolding get
  get-IsSound id = search sound_rules depth 20

  build_provider-IsSound : (d : Domain) → Preserves IsSound (build_provider env vault d)
  unfolding build_provider
  build_provider-IsSound d = search sound_rules depth 20

  check_expired-IsSound : (sub : Subdomain) → Preserves IsSound (check_expired env vault sub)
  unfolding check_expired
  check_expired-IsSound sub = search sound_rules depth 20

  check_found-IsSound : (r : Result Subdomain) → Preserves IsSound (check_found env vault r)
  unfolding check_found
  check_found-IsSound (ok sub) = check_expired-IsSound sub
  check_found-IsSound (err e) = search sound_rules depth 20

  check_record_sub-IsSound : (rec : Record) → Preserves IsSound (check_record_sub env vault rec)
  unfolding check_record_sub
  check_record_sub-IsSound rec = search (sound_rules, check_found-IsSound) depth 20

  ruleset name_rules = (
    sound_rules, get-IsSound, build_provider-IsSound, check_record_sub-IsSound,
    check_expired-IsSound, update_remote-IsSound, delete_remote-IsSound,
  )

  pub update_record-IsSound :
      (user_id id : ℕ) (i : UpdateRecordInput) (is_admin : Bool)
      → Preserves IsSound (update_record env vault user_id id i is_admin)
  unfolding update_record
  update_record-IsSound user_id id i is_admin = search name_rules depth 30

  pub delete_record-IsSound :
      (user_id id : ℕ) (is_admin : Bool)
      → Preserves IsSound (delete_record env vault user_id id is_admin)
  unfolding delete_record
  delete_record-IsSound user_id id is_admin = search name_rules depth 30

  delete_all-IsSound :
      (p : Provider) (zone : Zone) (rs : List Record)
      → Preserves IsSound (delete_all env vault p zone rs)
  unfolding delete_all
  delete_all-IsSound p zone [] = search name_rules depth 30
  delete_all-IsSound p zone (r ∷ rs) =
      Preserves-then _ _
        (Preserves-if (is_empty r.remote_id) _ _ (search name_rules) (search name_rules))
        (Preserves-then _ _ (search name_rules) (delete_all-IsSound p zone rs))

  unless_admin-IsSound :
      (is_admin : Bool) (r : Result (Unit {0}))
      → Preserves IsSound (unless_admin env vault is_admin r)
  unfolding unless_admin
  unless_admin-IsSound is_admin (ok u) = search name_rules
  unless_admin-IsSound is_admin (err e) = search name_rules

  pub delete_subdomain-IsSound :
      (user_id id : ℕ) (is_admin : Bool)
      → Preserves IsSound (delete_subdomain env vault user_id id is_admin)
  unfolding delete_subdomain
  delete_subdomain-IsSound user_id id is_admin =
      search (name_rules, delete_all-IsSound, unless_admin-IsSound) depth 30

  pub list_by_user-IsSound : (user_id : ℕ) → Preserves IsSound (list_by_user env vault user_id)
  unfolding list_by_user
  list_by_user-IsSound user_id = search sound_rules

  pub list_all-IsSound : Preserves IsSound (list_all env vault)
  unfolding list_all
  list_all-IsSound = search sound_rules

  pub list_subdomains-IsSound :
      (user_id : ℕ) → Preserves IsSound (list_subdomains env vault user_id)
  unfolding list_subdomains
  list_subdomains-IsSound user_id = search sound_rules

  pub list_public-IsSound : Preserves IsSound (list_public env vault)
  unfolding list_public
  list_public-IsSound = search sound_rules

  pub list_domains-IsSound : Preserves IsSound (Domain.list_all env vault)
  unfolding Domain.list_all
  list_domains-IsSound = search sound_rules

  pub check_provider-IsSound :
      (key : Text) (config : ConfigMap) → Preserves IsSound (check_provider env vault key config)
  unfolding check_provider
  check_provider-IsSound key config = search sound_rules depth 20

  pub list_zones-IsSound :
      (key : Text) (config : ConfigMap) → Preserves IsSound (list_zones env vault key config)
  unfolding list_zones
  list_zones-IsSound key config = search sound_rules depth 20

  pub create_bundle-IsSound :
      (user_id : ℕ) (i : BundleInput) → Preserves IsSound (create_bundle env vault user_id i)
  create_bundle-IsSound user_id i = Preserves-On _ λ w s.
      On-mono (create_bundle_lem env vault user_id i w)
        (λ b w' done.
          let made = done.made in
          let price =
            All-find? (λ (d : Domain). IsInt64 d.points_cost) (has_domain_id i.domain_id)
              w.db.domains s.prices done.opened.found in
          let m =
            IsSound-spent env w.db user_id done.domain.points_cost made.middle price s made.spent in
          subst IsSound (sym made.content)
            (IsSound-same made.middle _ refl refl refl refl refl refl m))
        (λ e w' undone. subst IsSound (sym undone.0) s)

  pub add_record-IsSound :
      (user_id : ℕ) (i : AddRecordInput) (is_admin : Bool)
      → Preserves IsSound (add_record env vault user_id i is_admin)
  add_record-IsSound user_id i is_admin = Preserves-On _ λ w s.
      On-mono (add_record_lem env vault user_id i is_admin w)
        (λ r w' done.
          let stored = done.stored in
          let price =
            All-find? (λ (d : Domain). IsInt64 d.points_cost) (has_domain_id done.sub.domain_id)
              w.db.domains s.prices done.domain_found in
          let m =
            IsSound-spent env w.db user_id done.domain.points_cost stored.middle price s
              stored.spent in
          subst IsSound (sym stored.content)
            (IsSound-same stored.middle _ refl refl refl refl refl refl m))
        (λ e w' changed.
          subst IsSound (sym (IsDisabling-IsSubdomainChange i.subdomain_id w.db w'.db changed))
            (IsSound-same w.db _ refl refl refl refl refl refl s))

  -- The domains, where the row that is written has an int64 for its price.
  written-IsSound :
      (id : ℕ) (d : Domain) → IsInt64 d.points_cost → Preserves IsSound (written env vault id d)
  written-IsSound id d price = Preserves-On _ λ w s.
      On-if (id == 0) _ _ w
        (λ _.
          On-create (domains env) d w
            (λ d' made.
              IsSound-domains w.db _
                (All-append _ w.db.domains (d' ∷ []) s.prices
                  (subst (λ (d : Domain). IsInt64 d.points_cost) (sym made.keeps) price, tt))
                s)
            (λ e. s))
        (λ _. On-bind _ _ w (
          On-save (domains env) w d
            (On-pure d _ (
              IsSound-domains w.db _
                (All-put_row domain_schema (λ (d : Domain). IsInt64 d.points_cost) d w.db.domains
                  price s.prices)
                s))
            (λ e. s)))

  old_row-IsSound : (id : ℕ) → Preserves IsSound (old_row env vault id)
  old_row-IsSound id = search sound_rules

  new_ciphertext-IsSound :
      (id : ℕ) (config : ConfigMap) (d : Domain)
      → Preserves IsSound (new_ciphertext env vault id config d)
  new_ciphertext-IsSound id config d = search (sound_rules, encrypt-IsSound) depth 20

  pub save_domain-IsSound :
      (id : ℕ) (i : SaveInput)
      → IsInt64 i.points_cost
      → Preserves IsSound (save_domain env vault id i)
  unfolding save_domain
  save_domain-IsSound id i price =
      search
        (
          sound_rules,
          old_row-IsSound,
          new_ciphertext-IsSound,
          λ (name c : Text) (d : Domain). written-IsSound id (filled i name c d) price,
        )
        depth 20

  pub delete_domain-IsSound : (id : ℕ) → Preserves IsSound (delete_domain env vault id)
  unfolding delete_domain
  delete_domain-IsSound id = Preserves-On _ λ w s.
      On-delete (domains env) w (has_domain_id id)
        (IsSound-domains w.db _ (All-filter _ _ w.db.domains s.prices) s) (λ e. s)
