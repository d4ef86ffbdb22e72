-- ===== src/Domain/Config.antt =====
-- What the lookups of the domain service give and leave, and the round trip of a configuration.
use tu_dns.Prelude.{
  ℕ, ◌≡◌, refl, ap, ◌∙◌, false, some, find?, find?-appended, ◌==◌, ==_refl, ltb, ◌||◌,
}
use tu_dns.Gorm.{find?-put_row}
use tu_dns.Models.Schema.{domain_schema}
use tu_dns.Text.{Text, is_empty, to_lower, trim_space}
use tu_dns.Result.{Error, ok, missing_domain_fields}
use tu_dns.Models.{Domain}
use tu_dns.Secret.{decrypt}
use tu_dns.Secret.RoundTrip.{decrypt-encrypt}
use tu_dns.World.{World, Env, Action, domains, first, create, save, pure, raise, tick, ◌>>=◌}
use tu_dns.World.On.{
  On, On-bind, On-if, On-pure, On-raise, On-lift, On-or_raise, On-mono, IsUntouched,
}
use tu_dns.World.Rules.{On-first, On-create, On-save}
use tu_dns.Domain.{
  Vault, blank_domain, SaveInput, has_domain_id, filled, get, save_domain, decrypt_config,
  build_provider, no_entries, old_row, new_ciphertext, written, config_of,
}

module _ (env : Env) (vault : Vault) where
  pub get_lem :
      (id : ℕ) (w : World)
      → On
          (λ d w'. (find? (has_domain_id id) w.db.domains ≡ some d) × IsUntouched w w')
          (λ e w'. IsUntouched w w')
          (get env vault id w)
  unfolding get
  get_lem id w = On-first (domains env) _ w (λ d found. (found, (refl, refl))) (λ e _. (refl, refl))

  -- The zone at the platform is that of the domain's row.
  pub build_provider_zone :
      (d : Domain) (w : World)
      → On
          (λ pz w'. (pz.1 ≡ record { id = d.remote_zone_id; domain = d.name }) × IsUntouched w w')
          (λ e w'. IsUntouched w w')
          (build_provider env vault d w)
  unfolding build_provider
  build_provider_zone d w = On-bind _ _ w (
      On-or_raise _ _ w
        (λ platform _. On-bind _ _ w (
          On-lift _ w
            (λ config _.
              On-bind _ _ w
                (On-lift _ w (λ p _. On-pure _ w (refl, (refl, refl))) (λ e _. (refl, refl))))
            (λ e _. (refl, refl))))
        (λ _. (refl, refl)))

  pub build_provider_lem :
      (d : Domain) (w : World)
      → On (λ pz w'. IsUntouched w w') (λ e w'. IsUntouched w w') (build_provider env vault d w)
  build_provider_lem d w = On-mono (build_provider_zone d w) (λ pz w' r. r.1) (λ e w' same. same)

  -- The configuration that `Save` has stored for a domain is the one that `DecryptConfig` gives back:
  -- after a call with a configuration that returned, the domain that it returned is the row of the
  -- table under its id, and decrypting that row's ciphertext under the same secret yields the
  -- configuration.
  pub decrypt_config-save :
      (id : ℕ) (i : SaveInput) (w : World)
      → no_entries i.config ≡ false
      → On
          (λ d w'.
            (find? (has_domain_id d.id) w'.db.domains ≡ some d)
            × (decrypt_config env vault d ≡ ok i.config))
          (λ e w'. Unit {0})
          (save_domain env vault id i w)
  unfolding save_domain decrypt_config
  decrypt_config-save id i w given =
      On-if (is_empty name || is_empty i.provider_key) (raise missing_domain_fields) rest w
        (λ _. On-raise missing_domain_fields w tt)
        (λ _. On-bind (old_row env vault id) after w (kept_by_old w))
    where
      name : Text
      name = to_lower env.letters (trim_space i.name)

      after : Domain → Action Domain
      after d =
          new_ciphertext env vault id i.config d >>= λ c. written env vault id (filled i name c d)

      rest : Action Domain
      rest = old_row env vault id >>= after

      Preserves : Domain → World → Type 0
      Preserves d w' =
          (find? (has_domain_id d.id) w'.db.domains ≡ some d)
          × (decrypt_config env vault d ≡ ok i.config)

      Fails : Error → World → Type 0
      Fails e w' = Unit {0}

      opens :
          (c : Text)
          → decrypt vault.cipher vault.secret_key c ≡ ok (vault.marshal_map i.config)
          → config_of env vault (decrypt vault.cipher vault.secret_key c) ≡ ok i.config
      opens c e = rw e (rw (vault.marshal_map-nonempty i.config) (vault.unmarshal-marshal i.config))

      writes :
          (d : Domain) (w' : World)
          → decrypt_config env vault d ≡ ok i.config
          → On Preserves Fails (written env vault id d w')
      writes d w' e =
          On-if (id == 0) (create (domains env) d) (save (domains env) d >>= λ _. pure d) w'
            (λ _.
              On-create (domains env) d w'
                (λ d' made. (
                  find?-appended (has_domain_id d'.id) d' w'.db.domains made.new_id (==_refl d'.id),
                  ap
                        (λ (d : Domain).
                          config_of env vault
                            (decrypt vault.cipher vault.secret_key d.config_ciphertext))
                        made.keeps
                      ∙ e,
                ))
                (λ e. tt))
            (λ _.
              On-bind (save (domains env) d) (λ _. pure d) w'
                (On-save (domains env) w' d
                  (On-pure d _ (find?-put_row domain_schema d w'.db.domains, e)) (λ e. tt)))

      keeps : (d : Domain) (w' : World) → On Preserves Fails (after d w')
      keeps d w' = On-bind (new_ciphertext env vault id i.config d) _ w' (
          rw given (
            On-mono (decrypt-encrypt vault.cipher vault.secret_key (vault.marshal_map i.config) w')
              (λ c w'' r. writes (filled i name c d) w'' (opens c r.0)) (λ e w'' _. tt)))

      kept_by_old :
          (w : World) → On (λ d w'. On Preserves Fails (after d w')) Fails (old_row env vault id w)
      kept_by_old w =
          On-if (ltb 0 id) (first (domains env) (has_domain_id id)) (pure blank_domain) w
            (λ _. On-first (domains env) (has_domain_id id) w (λ d _. keeps d (tick w)) (λ e _. tt))
            (λ _. On-pure blank_domain w (keeps blank_domain w))
