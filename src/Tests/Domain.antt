-- ===== src/Tests/Domain.antt =====
-- Secrets and domains: the theorems at concrete inputs.
use tu_dns.Prelude.{find?, some, ◌≡◌, refl, [], ◌∷◌}
use tu_dns.Prelude.Int.{pos}
use tu_dns.Text.{text}
use tu_dns.Result.{ok}
use tu_dns.Secret.{encrypt, decrypt}
use tu_dns.Secret.RoundTrip.{decrypt-encrypt}
use tu_dns.Domain.{has_domain_id, SaveInput, save_domain, decrypt_config}
use tu_dns.Domain.Config.{decrypt_config-save}
use tu_dns.World.On.{On}
use tu_dns.Tests.Base.{env, start}
use tu_dns.Tests.Vault.{vault}

decrypt-encrypt_example :
    On
      (λ c w'. (decrypt vault.cipher (text "k") c ≡ ok (text "token")) × (w'.db ≡ start.db))
      (λ e w'. w'.db ≡ start.db)
      (encrypt vault.cipher (text "k") (text "token") start)
decrypt-encrypt_example = decrypt-encrypt vault.cipher (text "k") (text "token") start

abbrev input : SaveInput
input = record {
  name = text "New.com";
  provider_key = text "mem";
  remote_zone_id = text "z2";
  config = (text "token", text "t") ∷ [];
  record_types = [];
  points_cost = pos 1;
  description = [];
  subdomain_ttl_days = pos 0;
  status = pos 0;
}

decrypt_config-save_example :
    On
      (λ d w'.
        (find? (has_domain_id d.id) w'.db.domains ≡ some d)
        × (decrypt_config env vault d ≡ ok input.config))
      (λ e w'. Unit {0})
      (save_domain env vault 0 input start)
decrypt_config-save_example = decrypt_config-save env vault 0 input start refl
