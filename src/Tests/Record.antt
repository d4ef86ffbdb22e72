-- ===== src/Tests/Record.antt =====
-- Subdomains and records: the theorems at concrete inputs.
use tu_dns.Prelude.{◌∷◌, none, ◌≡◌, refl, [], false}
use tu_dns.Prelude.Int.{pos}
use tu_dns.Text.{text, to_lower, to_upper, trim_space}
use tu_dns.Result.{subdomain_expired}
use tu_dns.Models.{is_expired}
use tu_dns.World.{World}
use tu_dns.World.On.{On}
use tu_dns.Record.{BundleInput, AddRecordInput, UpdateRecordInput, check_record_sub}
use tu_dns.Record.Change.{update_record, delete_record, delete_subdomain}
use tu_dns.Record.Create.{create_bundle, add_record}
use tu_dns.Record.Bundle.{IsBundled}
use tu_dns.Record.Guard.{IsDisabling}
use tu_dns.Record.Add.{IsAdded, add_record_lem}
use tu_dns.Record.Remove.{IsRemoved, delete_subdomain_lem}
use tu_dns.Record.Access.{record-Denied, Denied, subdomain-Denied}
use tu_dns.Record.Expiry.{expired_once}
use tu_dns.Tests.Base.{env, healthy, start, db, home, address}
use tu_dns.Tests.Vault.{vault}
use tu_dns.Tests.Base.{zone, ann, platform, provider}
use tu_dns.Record.Bundle.{IsValid, IsOpen}
use tu_dns.Record.Bundle.Total.{IsServed, CanPay, create_bundle_total}
use tu_dns.Record.Validate.{is_subdomain_name, is_reserved, validate_record}
use tu_dns.Domain.{allows, decrypt_config}
use tu_dns.Dns.{new_provider}
use tu_dns.Prelude.Int.{add64, neg_ℤ}

abbrev bundle : BundleInput
bundle = record {
  domain_id = 1;
  subdomain_name = text "Blog";
  type = text "a";
  value = text "1.2.3.4";
  ttl = pos 0;
  line = [];
}

abbrev addition : AddRecordInput
addition = record { subdomain_id = 1; type = text "TXT"; value = text "v"; ttl = pos 0; line = [] }

subdomain-Denied_example :
    Denied start (add_record env vault 2 addition false)
    × Denied start (delete_subdomain env vault 2 1 false)
subdomain-Denied_example = subdomain-Denied env vault start 2 home addition refl refl

abbrev change : UpdateRecordInput
change = record { type = text "TXT"; value = text "v"; ttl = pos 0; line = [] }

expired_once_example :
    On
      (λ _ w1. ⊥)
      (λ e w1.
        (e ≡ subdomain_expired)
        × On
            (λ _ w2. (w2.db ≡ w1.db) × (w2.calls ≡ w1.calls))
            (λ e w2. ⊥)
            (check_record_sub env vault address w1))
      (check_record_sub env vault address start)
unfolding is_expired
expired_once_example = expired_once env healthy vault address home start refl refl

-- Ann's subdomain, without an end.
abbrev lasting : World
lasting = record start { db = record db { subdomains = record home { expires_at = none } ∷ [] } }

add_record_lem_example :
    On
      (λ r w'. IsAdded env 1 addition false lasting r w')
      (λ e w'. IsDisabling addition.subdomain_id lasting.db w'.db)
      (add_record env vault 1 addition false lasting)
add_record_lem_example = add_record_lem env vault 1 addition false lasting

delete_subdomain_lem_example :
    On
      (λ _ w'. IsRemoved 1 1 false lasting.db w'.db)
      (λ e w'. IsDisabling 1 lasting.db w'.db)
      (delete_subdomain env vault 1 1 false lasting)
delete_subdomain_lem_example = delete_subdomain_lem env vault 1 1 false lasting

bundle-IsValid : IsValid env bundle
unfolding is_subdomain_name is_reserved validate_record to_lower to_upper trim_space
bundle-IsValid = record { named = refl; unreserved = refl; value = refl }

bundle-IsOpen : IsOpen env start.db bundle zone
unfolding allows to_upper trim_space
bundle-IsOpen = record { found = refl; active = refl; allowed = refl }

zone-IsServed : IsServed env vault zone
unfolding decrypt_config new_provider
zone-IsServed = record {
  platform = platform;
  known = refl;
  config = [];
  stored = refl;
  provider = provider;
  configured = refl;
  creates = λ m z i. (_, refl);
}

ann-CanPay : CanPay env start.db 1 zone.points_cost
unfolding add64 neg_ℤ
ann-CanPay = record { user = ann; found = refl; covered = refl; fresh = λ m. refl }

create_bundle_total_example :
    On
      (λ b w'. IsBundled env 1 bundle start.db start.calls b w'.db w'.calls)
      (λ e w'. ⊥)
      (create_bundle env vault 1 bundle start)
unfolding to_lower trim_space
create_bundle_total_example =
    create_bundle_total env healthy vault 1 bundle zone start bundle-IsValid bundle-IsOpen refl
      zone-IsServed ann-CanPay

record-Denied_example :
    Denied start (update_record env vault 2 1 change false)
    × Denied start (delete_record env vault 2 1 false)
record-Denied_example = record-Denied env vault start 2 address 1 change refl refl
