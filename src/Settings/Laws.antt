-- ===== src/Settings/Laws.antt =====
-- Reading after writing a setting.
use tu_dns.Prelude.{
  ℕ, ◌≡◌, refl, sym, ap, ◌∙◌, inl, inr, Bool, true, false, List, [], ◌∷◌, ◌++◌, none, some, arith,
  find?, any, map_where, if◌then◌else◌, Bool-cases, Option-cases,
}
use mathlib.Core.Option.{some-injective}
use tu_dns.Text.{Text, text_eq}
use tu_dns.Text.Laws.{text_eq_refl, text_eq_sound}
use tu_dns.Models.{Setting}
use tu_dns.World.{World, Env, settings}
use tu_dns.World.On.{On, On-bind, On-if, On-pure, On-raise, On-attempt, On-mono}
use tu_dns.World.Rules.{On-first, On-upsert}
use tu_dns.World.Healthy.{IsHealthy, Up-first, Up-first_missing}
use tu_dns.Points.{is_not_found}
use tu_dns.Points.Adjust.{is_not_found_sound}
use tu_dns.Settings.{has_key, setting_row, value_or_empty, get, set}

-- The value under a key, by the content of the table.
abbrev pub value_of : Text → List Setting → Text
value_of key [] = []
value_of key (s ∷ t) = if has_key key s then s.value else value_of key t

value_of-found :
    (key : Text) (t : List Setting) {s : Setting}
    → find? (has_key key) t ≡ some s
    → s.value ≡ value_of key t
value_of-found key [] e = cc
value_of-found key (r ∷ t) {s} e = elim (Bool-cases (has_key key r)) [
  | inl hit ↦ rw hit (ap (λ (s : Setting). s.value) (sym (some-injective r s (rw hit at e))))
  | inr miss ↦ rw miss (value_of-found key t (rw miss at e))
]

value_of-missing :
    (key : Text) (t : List Setting) → find? (has_key key) t ≡ none → [] ≡ value_of key t
value_of-missing key [] e = refl
value_of-missing key (r ∷ t) e = ground (arith, value_of-missing key t)

pub get_lem :
    (env : Env) (key : Text) (w : World)
    → On
        (λ v w'. (v ≡ value_of key w.db.settings) × (w'.db ≡ w.db))
        (λ e w'. w'.db ≡ w.db)
        (get env key w)
unfolding get value_or_empty
get_lem env key w = On-bind _ _ w (
    On-attempt _ w (
      On-first (settings env) (has_key key) w
        (λ s found. On-pure s.value _ (value_of-found key w.db.settings found, refl))
        (λ e missing.
          On-if (is_not_found e) _ _ _
            (λ h.
              On-pure [] _
                (value_of-missing key w.db.settings (missing (is_not_found_sound e h)), refl))
            (λ h. On-raise e _ refl))))

-- On a database that is up, `Get` returns.
pub get_total :
    (env : Env) (up : IsHealthy env) (key : Text) (w : World)
    → On (λ v w'. (v ≡ value_of key w.db.settings) × (w'.db ≡ w.db)) (λ e w'. ⊥) (get env key w)
unfolding get value_or_empty is_not_found
get_total env up key w = On-bind _ _ w (
    On-attempt _ w (elim (Option-cases (find? (has_key key) w.db.settings)) [
      | inl missing ↦
          Up-first_missing (settings env) up.settings w (has_key key) missing
            (On-pure [] _ (value_of-missing key w.db.settings missing, refl))
      | inr (s, found) ↦
          Up-first (settings env) up.settings w (has_key key) s found
            (On-pure s.value _ (value_of-found key w.db.settings found, refl))
    ]))

-- The table after `Set`, where the key was there and where it was not.
value_of-changed :
    (key v : Text) (t : List Setting)
    → any (has_key key) t ≡ true
    → value_of key (map_where (has_key key) (λ s. record s { value = v }) t) ≡ v
value_of-changed key v [] h = cc
value_of-changed key v (s ∷ t) h = elim (Bool-cases (has_key key s)) [
  | inl hit ↦ rw hit (rw hit refl)
  | inr miss ↦ rw miss (rw miss (value_of-changed key v t (rw miss at h)))
]

value_of-added :
    (key v : Text) (k : ℕ) (t : List Setting)
    → any (has_key key) t ≡ false
    → value_of key (t ++ record (setting_row key v) { id = k } ∷ []) ≡ v
value_of-added key v k [] h = rw (text_eq_refl key)
value_of-added key v k (s ∷ t) h = elim (Bool-cases (has_key key s)) [
  | inl hit ↦ cc (rw hit at h)
  | inr miss ↦ rw miss (value_of-added key v k t (rw miss at h))
]

-- Another key reads as before.
other_key :
    (key key' : Text) (s : Setting)
    → text_eq key key' ≡ false
    → has_key key s ≡ true
    → has_key key' s ≡ false
other_key key key' s apart hit = elim (Bool-cases (has_key key' s)) [
  | inl both ↦ cc (ap (λ k. text_eq k key') (text_eq_sound s.key key hit), apart)
  | inr one ↦ one
]

value_of-changed_other :
    (key key' v : Text) (t : List Setting)
    → text_eq key key' ≡ false
    → value_of key' (map_where (has_key key) (λ s. record s { value = v }) t) ≡ value_of key' t
value_of-changed_other key key' v [] apart = refl
value_of-changed_other key key' v (s ∷ t) apart = elim (Bool-cases (has_key key s)) [
  | inl hit ↦
      let other = other_key key key' s apart hit in
      rw hit (rw other (value_of-changed_other key key' v t apart))
  | inr miss ↦
      rw miss (
        ap (λ x. if has_key key' s then s.value else x) (value_of-changed_other key key' v t apart))
]

value_of-added_other :
    (key key' v : Text) (k : ℕ) (t : List Setting)
    → text_eq key key' ≡ false
    → value_of key' (t ++ record (setting_row key v) { id = k } ∷ []) ≡ value_of key' t
value_of-added_other key key' v k [] apart = rw apart
value_of-added_other key key' v k (s ∷ t) apart = elim (Bool-cases (has_key key' s)) [
  | inl mine ↦ rw mine
  | inr not_mine ↦ rw not_mine (value_of-added_other key key' v k t apart)
]

-- After a `Set` that returned, a `Get` that returns gives the value that was set under its key, and
-- under every other key what it gave before; neither call changes more. A `Set` that fails changes
-- nothing.
pub get-set :
    (env : Env) (key value key' : Text) (w : World)
    → On
        (λ _ w1.
          On
            (λ v w2.
              (v ≡ (if text_eq key key' then value else value_of key' w.db.settings))
              × (w2.db ≡ w1.db))
            (λ e w2. w2.db ≡ w1.db)
            (get env key' w1))
        (λ e w1. w1.db ≡ w.db)
        (set env key value w)
unfolding set
get-set env key value key' w =
    On-upsert (settings env) w (has_key key) _ (setting_row key value)
      (λ old.
        On-mono (get_lem env key' _) (λ v w2 r. (r.0 ∙ changed (text_eq key key') refl old, r.1))
          (λ e w2 r. r))
      (λ new k.
        On-mono (get_lem env key' _) (λ v w2 r. (r.0 ∙ added (text_eq key key') refl k new, r.1))
          (λ e w2 r. r))
      (λ e. refl)
  where
    changed :
        (b : Bool)
        → text_eq key key' ≡ b
        → any (has_key key) w.db.settings ≡ true
        → value_of key' (map_where (has_key key) (λ s. record s { value = value }) w.db.settings)
          ≡ (if b then value else value_of key' w.db.settings)
    changed true e old =
        ap
          (λ k.
            value_of k (map_where (has_key key) (λ s. record s { value = value }) w.db.settings))
          (sym (text_eq_sound key key' e))
        ∙ value_of-changed key value w.db.settings old
    changed false e old = value_of-changed_other key key' value w.db.settings e

    added :
        (b : Bool)
        → text_eq key key' ≡ b
        → (k : ℕ) → any (has_key key) w.db.settings ≡ false
        → value_of key' (w.db.settings ++ record (setting_row key value) { id = k } ∷ [])
          ≡ (if b then value else value_of key' w.db.settings)
    added true e k new =
        ap (λ j. value_of j (w.db.settings ++ record (setting_row key value) { id = k } ∷ []))
          (sym (text_eq_sound key key' e))
        ∙ value_of-added key value k w.db.settings new
    added false e k new = value_of-added_other key key' value k w.db.settings e
