-- ===== src/Domain.antt =====
-- domain/service.go: the domains that are offered, each with its platform, price and record types.
pub mod Config
use tu_dns.Prelude.{
  ℕ, ◌≡◌, Bool, true, false, not, ◌&&◌, ◌||◌, List, [], ◌∷◌, map, Option, none, some, ltb, ◌==◌,
  any, if◌then◌else◌,
}
use tu_dns.Prelude.Int.{ℤ, pos, eq_ℤ}
use tu_dns.Text.{Text, text, text_eq, is_empty, to_lower, to_upper, trim_space, split, Letters}
use tu_dns.Result.{
  Error, Result, ok, err, not_found, unknown_platform, missing_domain_fields, missing_config,
}
use tu_dns.Models.{Domain, domain_status_active}
use tu_dns.Dns.{Zone, ConfigMap, Provider, Platform, new_provider}
use tu_dns.Secret.{Cipher, encrypt, decrypt}
use tu_dns.World.{
  Env, Action, pure, raise, raise_if, or_raise, lift, ask, first, find_desc, create, save, delete,
  domains, ◌>>=◌, ◌>>◌,
}

-- The secret of the configuration file, and what the service uses of encoding/json.
pub record Vault : Type 0 where
  pub cipher : Cipher
  pub secret_key : Text
  pub marshal_map : ConfigMap → Text
  pub unmarshal_map : Text → Result ConfigMap
  pub unmarshal-marshal : (m : ConfigMap) → unmarshal_map (marshal_map m) ≡ ok m
  pub marshal_map-nonempty : (m : ConfigMap) → is_empty (marshal_map m) ≡ false

pub record SaveInput : Type 0 where
  pub name : Text
  pub provider_key : Text
  pub remote_zone_id : Text
  pub config : ConfigMap
  pub record_types : Text
  pub points_cost : ℤ
  pub description : Text
  pub subdomain_ttl_days : ℤ
  pub status : ℤ

abbrev pub has_domain_id : ℕ → Domain → Bool
has_domain_id k d = d.id == k

-- `var d models.Domain`
abbrev pub blank_domain : Domain
blank_domain = record {
  id = 0;
  name = [];
  provider_key = [];
  remote_zone_id = [];
  config_ciphertext = [];
  record_types = [];
  points_cost = pos 0;
  description = [];
  subdomain_ttl_days = pos 0;
  status = pos 0;
}

abbrev no_entries : ConfigMap → Bool
no_entries [] = true
no_entries (x ∷ m) = false

-- The fields that `Save` sets from its input, with the defaults for the types and the status.
abbrev pub filled : SaveInput → Text → Text → Domain → Domain
filled i name ciphertext d = record {
  id = d.id;
  name = name;
  provider_key = i.provider_key;
  remote_zone_id = i.remote_zone_id;
  config_ciphertext = ciphertext;
  record_types = if is_empty i.record_types then text "A,AAAA,CNAME,TXT" else i.record_types;
  points_cost = i.points_cost;
  description = i.description;
  subdomain_ttl_days = i.subdomain_ttl_days;
  status = if eq_ℤ i.status (pos 0) then domain_status_active else i.status;
}

abbrev clean_types : Letters → List Text → List Text
clean_types l [] = []
clean_types l (t ∷ ts) =
    let t' = to_upper l (trim_space t) in
    if is_empty t' then clean_types l ts else t' ∷ clean_types l ts

-- `AllowedTypes`: the keys of the map
unfoldable pub allowed_types : Letters → Domain → List Text
unfolding to_upper trim_space split
allowed_types l d = clean_types l (split b',' d.record_types)

unfoldable pub allows : Letters → Domain → Text → Bool
unfolding allowed_types
allows l d t = any (λ a. text_eq a t) (allowed_types l d)

module _ (env : Env) (vault : Vault) where
  -- `ListPublic` and `ListAll`
  unfoldable pub list_public : Action (List Domain)
  list_public = find_desc (domains env) (λ d. eq_ℤ d.status domain_status_active)

  unfoldable pub list_all : Action (List Domain)
  list_all = find_desc (domains env) (λ _. true)

  -- `Get`
  unfoldable pub get : ℕ → Action Domain
  get id = first (domains env) (has_domain_id id)

  abbrev pub old_row : ℕ → Action Domain
  old_row id = if ltb 0 id then first (domains env) (has_domain_id id) else pure blank_domain

  abbrev pub new_ciphertext : ℕ → ConfigMap → Domain → Action Text
  new_ciphertext id config d =
      if not (no_entries config)
      then encrypt vault.cipher vault.secret_key (vault.marshal_map config)
      else if id == 0
      then raise missing_config
      else pure d.config_ciphertext

  abbrev pub written : ℕ → Domain → Action Domain
  written id d = if id == 0 then create (domains env) d else do save (domains env) d; pure d

  -- `Save`
  unfoldable pub save_domain : ℕ → SaveInput → Action Domain
  unfolding encrypt to_lower trim_space
  save_domain id i =
      let name = to_lower env.letters (trim_space i.name) in
      if is_empty name || is_empty i.provider_key then raise missing_domain_fields else do
        d ← old_row id
        ciphertext ← new_ciphertext id i.config d
        written id (filled i name ciphertext d)

  -- `Delete`
  unfoldable pub delete_domain : ℕ → Action (Unit {0})
  delete_domain id = delete (domains env) (has_domain_id id)

  abbrev config_of : Result Text → Result ConfigMap
  config_of (err e) = err e
  config_of (ok plain) = if is_empty plain then ok [] else vault.unmarshal_map plain

  -- `DecryptConfig`
  unfoldable pub decrypt_config : Domain → Result ConfigMap
  unfolding decrypt
  decrypt_config d = config_of (decrypt vault.cipher vault.secret_key d.config_ciphertext)

  -- `BuildProvider`
  unfoldable pub build_provider : Domain → Action (Provider × Zone)
  unfolding decrypt_config new_provider
  build_provider d = do
    platform ← or_raise (new_provider d.provider_key env.registry) unknown_platform
    config ← lift (decrypt_config d)
    p ← lift (platform config)
    pure (p, record { id = d.remote_zone_id; domain = d.name })

  -- `CheckProvider`
  unfoldable pub check_provider : Text → ConfigMap → Action (Unit {0})
  unfolding new_provider
  check_provider key config = do
    platform ← or_raise (new_provider key env.registry) unknown_platform
    p ← lift (platform config)
    checked ← ask p.check
    lift checked

  -- `ListZones`
  unfoldable pub list_zones : Text → ConfigMap → Action (List Zone)
  unfolding new_provider
  list_zones key config = do
    platform ← or_raise (new_provider key env.registry) unknown_platform
    p ← lift (platform config)
    zones ← ask p.list_zones
    lift zones
