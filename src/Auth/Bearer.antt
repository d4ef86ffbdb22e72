-- ===== src/Auth/Bearer.antt =====
-- Whom the guard of the server lets in.
use tu_dns.Prelude.{
  ℕ, ◌≡◌, refl, sym, Bool, Bool-cases, map_where, true, ◌&&◌, ◌||◌, ◌⊎◌, inl, inr, List, [], ◌∷◌,
  some, arith, find?, filter, any, ◌==◌, ==_refl, passed_lem,
}
use tu_dns.Text.{Text, text, trim_space, trim_prefix}
use tu_dns.Result.{Result, ok, err, invalid_api_key}
use mathlib.Core.Path.{subst}
use tu_dns.Models.{Db, User, ApiKey}
use tu_dns.Points.{has_id}
use tu_dns.World.{World, Env, tick, users, api_keys}
use tu_dns.World.On.{
  On, On-bind, On-if, On-pure, On-raise, On-ask, On-raise_if, On-mono, On-map_error, On-attempt,
  IsUntouched,
}
use tu_dns.World.Rules.{On-first, On-find, On-update}
use tu_dns.Auth.{
  Security, Claims, is_active, has_key_id, use_key, try_keys, authenticate, claimed_user,
  token_user, bearer_auth,
}

-- The same keys in the same order, each with all that it had but the time of its last use.
abbrev pub AreUsed : List ApiKey → List ApiKey → Type 0
AreUsed [] [] = Unit
AreUsed [] (k' ∷ ks') = ⊥
AreUsed (k ∷ ks) [] = ⊥
AreUsed (k ∷ ks) (k' ∷ ks') = (k' ≡ record k { last_used_at = k'.last_used_at }) × AreUsed ks ks'

-- Nothing has changed but the times of use of API keys.
abbrev pub IsKeyUse : World → World → Type 0
IsKeyUse w w' =
    (w'.db ≡ record w.db { api_keys = w'.db.api_keys })
    × (AreUsed w.db.api_keys w'.db.api_keys × (w'.calls ≡ w.calls))

AreUsed-same : (ks : List ApiKey) → AreUsed ks ks
AreUsed-same [] = tt
AreUsed-same (k ∷ ks) = (refl, AreUsed-same ks)

AreUsed-map_where :
    (p : ApiKey → Bool) (now : ℕ) (ks : List ApiKey)
    → AreUsed ks (map_where p (λ k. record k { last_used_at = some now }) ks)
AreUsed-map_where p now [] = tt
AreUsed-map_where p now (k ∷ ks) = elim (Bool-cases (p k)) [
  | inl y ↦ rw y (refl, AreUsed-map_where p now ks)
  | inr n ↦ rw n (refl, AreUsed-map_where p now ks)
]

-- A state that has not changed is one.
pub IsKeyUse-untouched : (w w' : World) → IsUntouched w w' → IsKeyUse w w'
IsKeyUse-untouched w w' same = (
  rw same.0 refl,
  (
    subst (λ (d : Db). AreUsed w.db.api_keys d.api_keys) (sym same.0) (AreUsed-same w.db.api_keys),
    same.1,
  ),
)

module _ (env : Env) (security : Security) where
  -- The key is one that vouches for the user `id` with the token.
  abbrev pub vouches : Text → ℕ → ApiKey → Bool
  vouches token id k = security.compare k.key_hash token && k.user_id == id

  -- The token is a signed one for the user `id`, or it fits an enabled key of that user.
  abbrev pub IsVouched : Text → ℕ → List ApiKey → Type 0
  IsVouched token id keys =
      ((c : Claims) × ((now : ℕ) × ((security.verify security.secret_key now token ≡ ok c)
            × (c.user_id ≡ id))))
      ⊎ (any (λ k. k.enabled && vouches token id k) keys ≡ true)

  -- An active user of the database; nothing but the keys' times of use has changed.
  abbrev pub IsActiveUser : World → ℕ → User → World → Type 0
  IsActiveUser w id u w' =
      (find? (has_id id) w.db.users ≡ some u) × (is_active u ≡ true) × IsKeyUse w w'

  any-filter :
      (f : ApiKey → Bool) (ks : List ApiKey)
      → any f (filter (λ k. k.enabled) ks) ≡ true
      → any (λ k. k.enabled && f k) ks ≡ true
  any-filter f [] h = h
  any-filter f (k ∷ ks) h = ground (arith, any-filter f ks)

  use_key_lem :
      (k : ApiKey) (w : World)
      → On
          (λ u w'. IsActiveUser w k.user_id u w')
          (λ e w'. IsUntouched w w')
          (use_key env security k w)
  unfolding use_key
  use_key_lem k w = On-bind _ _ w (
      On-first (users env) _ w
        (λ u found. On-bind _ _ _ (
          On-raise_if _ _ _
            (λ active. On-bind _ _ _ (
              On-ask env.now _ (
                On-bind _ _ _ (
                  On-attempt _ _ (
                    On-update (api_keys env) _ _ _
                      (On-pure u _ (
                        found,
                        passed_lem _ active,
                        (refl, (AreUsed-map_where (has_key_id env security k.id) _ _, refl)),
                      ))
                      (λ e.
                        On-pure u _
                          (found, passed_lem _ active, (refl, (AreUsed-same _, refl)))))))))
            (λ _. (refl, refl))))
        (λ e _. (refl, refl)))

  try_keys_lem :
      (token : Text) (ks : List ApiKey) (w : World)
      → On
          (λ u w'. (id : ℕ) × ((any (vouches token id) ks ≡ true) × IsActiveUser w id u w'))
          (λ e w'. IsUntouched w w')
          (try_keys env security token ks w)
  unfolding try_keys
  try_keys_lem token [] w = On-raise invalid_api_key w (refl, refl)
  try_keys_lem token (k ∷ ks) w =
      On-if (security.compare k.key_hash token) (use_key env security k)
        (try_keys env security token ks) w
        (λ fits.
          On-mono (use_key_lem k w) (λ u w' r. (k.user_id, (rw (fits, ==_refl k.user_id) refl, r)))
            (λ e w' same. same))
        (λ _.
          On-mono (try_keys_lem token ks w)
            (λ u w' (id, (some_key, r)). (id, (later (vouches token id k) some_key, r)))
            (λ e w' same. same))
    where
      later : {c : Bool} (b : Bool) → c ≡ true → (b || c) ≡ true
      later b h = ground arith

  authenticate_lem :
      (token : Text) (w : World)
      → On
          (λ u w'. (id : ℕ) × (IsVouched token id w.db.api_keys × IsActiveUser w id u w'))
          (λ e w'. IsUntouched w w')
          (authenticate env security token w)
  unfolding authenticate
  authenticate_lem token w = On-bind _ _ w (
      On-find (api_keys env) _ w
        (On-mono (try_keys_lem token (filter (λ k. k.enabled) w.db.api_keys) (tick w))
          (λ u w' (id, (some_key, r)).
            (id, (inr (any-filter (vouches token id) w.db.api_keys some_key), r)))
          (λ e w' same. same))
        (λ e. (refl, refl)))

  token_user_lem :
      (token : Text) (now : ℕ) (c : Result Claims) (w : World)
      → security.verify security.secret_key now token ≡ c
      → On
          (λ u w'. (id : ℕ) × (IsVouched token id w.db.api_keys × IsActiveUser w id u w'))
          (λ e w'. IsUntouched w w')
          (token_user env security token c w)
  unfolding token_user claimed_user
  token_user_lem token now (ok c) w signed = On-bind _ _ w (
      On-map_error _ _ w (
        On-first (users env) _ w
          (λ u found. On-bind _ _ _ (
            On-raise_if _ _ _
              (λ active. On-pure u _ (
                c.user_id,
                (
                  inl (c, (now, (signed, refl))),
                  (found, passed_lem _ active, (refl, (AreUsed-same _, refl))),
                ),
              ))
              (λ _. (refl, refl))))
          (λ e _. (refl, refl))))
  token_user_lem token now (err e) w signed = On-map_error _ _ w (authenticate_lem token w)

  -- Whom `BearerAuth` lets in: only an active user of the database, for whom the header's token
  -- vouches, as a token that was signed under the secret for that user's id or as one that fits an
  -- enabled key of that user. It changes nothing but the times of use of keys, and where it turns the
  -- request away, nothing at all.
  pub bearer_auth_lem :
      (installed : Bool) (header : Text) (w : World)
      → On
          (λ u w'.
            (id : ℕ) × (IsVouched
                (trim_space (trim_prefix header (text "Bearer ")))
                id
                w.db.api_keys
              × IsActiveUser w id u w'))
          (λ e w'. IsUntouched w w')
          (bearer_auth env security installed header w)
  unfolding bearer_auth
  bearer_auth_lem installed header w = On-bind _ _ w (
      On-raise_if _ _ w
        (λ _. On-bind _ _ w (
          On-raise_if _ _ w
            (λ _. On-bind _ _ w (
              On-ask env.now w (
                token_user_lem (trim_space (trim_prefix header (text "Bearer "))) (env.now w.moment)
                  _ (tick w) refl)))
            (λ _. (refl, refl))))
        (λ _. (refl, refl)))
