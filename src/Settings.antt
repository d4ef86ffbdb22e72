-- ===== src/Settings.antt =====
-- config/settings.go: settings under a key, in a table of the database.
pub mod Laws
use tu_dns.Prelude.{Bool, true, List, [], ◌∷◌, map, if◌then◌else◌}
use tu_dns.Text.{Text, text_eq}
use tu_dns.Result.{Error, Result, ok, err}
use tu_dns.Models.{Setting}
use tu_dns.World.{Env, Action, pure, raise, attempt, first, find, upsert, settings, ◌>>=◌}
use tu_dns.Points.{is_not_found}

abbrev pub has_key : Text → Setting → Bool
has_key key s = text_eq s.key key

abbrev pub setting_row : Text → Text → Setting
setting_row key value = record { id = 0; key = key; value = value }

-- A missing key reads as the empty text.
unfoldable pub value_or_empty : Result Setting → Action Text
unfolding is_not_found
value_or_empty (ok item) = pure item.value
value_or_empty (err e) = if is_not_found e then pure [] else raise e

module _ (env : Env) where
  -- `SettingsStore.Get`
  unfoldable pub get : Text → Action Text
  unfolding value_or_empty
  get key = do item ← attempt (first (settings env) (has_key key)); value_or_empty item

  -- `SettingsStore.Set`
  unfoldable pub set : Text → Text → Action (Unit {0})
  set key value =
      upsert (settings env) (has_key key) (λ s. record s { value = value }) (setting_row key value)

  -- `SettingsStore.GetAll`: the entries of the map, in the order of the rows
  unfoldable pub get_all : Action (List (Text × Text))
  get_all = do
    items ← find (settings env) (λ _. true)
    pure (map (λ (s : Setting). (s.key, s.value)) items)
