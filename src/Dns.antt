-- ===== src/Dns.antt =====
-- dns/provider.go: the types of the interface `Provider` and the registry of platforms. What a
-- platform answers is not the program's, so a provider is a record of functions; the first argument
-- of a remote call numbers the call, since a platform need not answer alike twice.
use tu_dns.Prelude.{ℕ, List, [], ◌∷◌, Option, none, some, if◌then◌else◌}
use tu_dns.Prelude.Int.{ℤ}
use tu_dns.Text.{Text, text_eq}
use tu_dns.Result.{Result}

pub record Zone : Type 0 where
  pub id : Text
  pub domain : Text

pub record RecordInput : Type 0 where
  pub name : Text
  pub type : Text
  pub value : Text
  pub ttl : ℤ
  pub line : Text

-- `dns.Record`
pub record RemoteRecord : Type 0 where
  pub remote_id : Text
  pub name : Text
  pub type : Text
  pub value : Text
  pub ttl : ℤ
  pub line : Text

abbrev pub ConfigMap : Type 0
ConfigMap = List (Text × Text)

-- A provider behind `Configure`.
pub record Provider : Type 0 where
  pub check : ℕ → Result (Unit {0})
  pub list_zones : ℕ → Result (List Zone)
  pub create_record : ℕ → Zone → RecordInput → Result RemoteRecord
  pub update_record : ℕ → Zone → Text → RecordInput → Result RemoteRecord
  pub delete_record : ℕ → Zone → Text → Result (Unit {0})

-- A platform: `Configure` of the provider that its factory makes.
abbrev pub Platform : Type 0
Platform = ConfigMap → Result Provider

abbrev pub Registry : Type 0
Registry = List (Text × Platform)

-- `Register`: a later entry under the same key takes the place of an earlier one.
unfoldable pub register : Text → Platform → Registry → Registry
register key p [] = (key, p) ∷ []
register key p ((j, q) ∷ r) = if text_eq j key then (key, p) ∷ r else (j, q) ∷ register key p r

-- `New`
unfoldable pub new_provider : Text → Registry → Option Platform
new_provider key [] = none
new_provider key ((j, q) ∷ r) = if text_eq j key then some q else new_provider key r
