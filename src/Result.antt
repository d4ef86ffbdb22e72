-- ===== src/Result.antt =====
-- Errors as values. A constructor of `Error` is an error that a service makes; `not_found` is
-- gorm.ErrRecordNotFound, `database` any other error of a gorm call, `upstream` an error of a DNS
-- platform, `crypto` an error of a hash, cipher or random source, each with the code that it has.
use tu_dns.Text.{Text}
use tu_dns.Prelude.{ℕ, ◌≡◌, ap, sym}

pub data Error : Type 0 where
  not_found : Error
  database upstream crypto : ℕ → Error
  insufficient invalid_cost : Error
  points_not_positive empty_code invalid_code code_disabled : Error
  code_expired code_used_up already_redeemed : Error
  missing_out_trade_no bad_signature pay_disabled amount_too_small mock_forbidden : Error
  bad_subdomain_name reserved_name no_such_domain domain_inactive type_not_allowed : Error
  subdomain_taken no_such_subdomain no_such_record forbidden subdomain_disabled : Error
  subdomain_expired missing_type_or_value not_ipv4 not_ipv6 value_too_long : Error
  unsupported_type unknown_platform missing_domain_fields missing_config : Error
  create_failed update_failed delete_failed : Error → Error
  short_credentials user_exists invalid_credentials user_disabled short_password : Error
  wrong_password invalid_api_key invalid_role cannot_disable_admin zero_delta : Error
  not_installed not_logged_in no_such_user login_expired admin_required : Error
  bad_parameters missing_key_name missing_hook_fields bad_expiry no_such_order : Error
  platform_config ambiguous_record record_not_found invalid_zone_id no_record_id no_record_line :
      Error
  http_status : ℕ → Error
  platform_refused : Text → Error
  panic : Error

pub data Result {ℓ} (A : Type ℓ) : Type ℓ where
  ok : A → Result A
  err : Error → Result A

module _ {ℓ} {A : Type ℓ} where
  ok_or : A → Result A → A
  ok_or d (ok a) = a
  ok_or d (err e) = d

  pub ok-injective : (a b : A) → ok a ≡ ok b → a ≡ b
  unfolding ok_or
  ok-injective a b e = ap (ok_or a) e

  pub ok-injective_rev : (a b : A) → ok a ≡ ok b → b ≡ a
  ok-injective_rev a b e = sym (ok-injective a b e)
