-- ===== src/Server/Guards.antt =====
-- Which requests the guards of the routes let through to their handlers.
use tu_dns.Prelude.{
  ℕ, ◌≡◌, refl, ◌⊎◌, inl, inr, Bool, true, false, not, ◌&&◌, ◌||◌, arith, passed_lem,
}
use tu_dns.Text.{Text, text, text_eq, trim_space, trim_prefix}
use tu_dns.Result.{Error, Result, ok}
use tu_dns.Models.{User, role_admin}
use tu_dns.World.{World, Action, pure, attempt, ◌>>=◌}
use tu_dns.World.On.{On, returns, raises, On-bind, On-pure, On-raise_if, On-mono, IsUntouched}
use tu_dns.Auth.{admin_only}
use tu_dns.Auth.Bearer.{IsVouched, IsActiveUser, IsKeyUse, IsKeyUse-untouched, bearer_auth_lem}
use tu_dns.Server.{App, Answer, just}
use tu_dns.Server.Router.{
  UserRequest, AdminRequest, user_route, admin_route, Caller, require_installed, authorize,
  authorize_admin, pass, guard, refusal, handle_user, handle_admin, serve,
}

module _ (app : App) (c : Caller) where
  abbrev pub bearer : Text
  bearer = trim_space (trim_prefix c.header (text "Bearer "))

  -- The caller is the user: the system is installed, and the caller's token vouches for an active user.
  pub record IsCaller (w : World) (u : User) (w' : World) : Type 0 where
    pub installed : (c.locked && c.connected) ≡ true
    pub id : ℕ
    pub vouched : IsVouched app.env app.security bearer id w.db.api_keys
    pub active : IsActiveUser app.env app.security w id u w'

  both_set : (a b : Bool) → (not a || not b) ≡ false → (a && b) ≡ true
  both_set a b h = ground arith

  authorize_lem :
      (w : World) → On (λ u w'. IsCaller w u w') (λ e w'. IsUntouched w w') (authorize app c w)
  unfolding authorize require_installed
  authorize_lem w = On-bind _ _ w (
      On-raise_if _ _ w
        (λ present.
          On-mono (bearer_auth_lem app.env app.security c.connected c.header w)
            (λ u w' r. record {
              installed = both_set c.locked c.connected present;
              id = r.0;
              vouched = r.1.0;
              active = r.1.1;
            })
            (λ e w' same. same))
        (λ _. (refl, refl)))

  authorize_admin_lem :
      (w : World)
      → On
          (λ u w'. IsCaller w u w' × (text_eq u.role role_admin ≡ true))
          (λ e w'. IsKeyUse w w')
          (authorize_admin app c w)
  unfolding authorize_admin admin_only
  authorize_admin_lem w = On-bind _ _ w (
      On-mono (authorize_lem w)
        (λ u w' who. On-bind _ _ w' (
          On-raise_if _ _ w' (λ is_admin. On-pure u w' (who, passed_lem _ is_admin))
            (λ _. who.active.2)))
        (λ e w' same. IsKeyUse-untouched w w' same))

module _ (app : App) where
  -- The answer is that of a guard to some error, and `Q` holds of the state.
  abbrev pub IsRefused : (World → Type 0) → Result Answer × World → Type 0
  IsRefused Q x = (e : Error) × ((x.0 ≡ ok (just (refusal app e))) × Q x.1)

  -- What is known of a guarded request: it was refused, or its handler has answered it.
  On-guard :
      {A : Type 0} {P : A → World → Type 0} {Q : World → Type 0} (m : Action A)
      (f : A → Action Answer) (w : World)
      → On P (λ e w'. Q w') (m w)
      → IsRefused Q (guard app m f w)
        ⊎ ((a : A) × ((w' : World) × (P a w' × (guard app m f w ≡ f a w'))))
  unfolding guard attempt ◌>>=◌ pure
  On-guard {A} {P} {Q} m f w o = go (m w) o
    where
      go :
          (x : Result A × World)
          → On P (λ e w'. Q w') x
          → IsRefused Q (pass app f x.0 x.1)
            ⊎ ((a : A) × ((w' : World) × (P a w' × (pass app f x.0 x.1 ≡ f a w'))))
      go x (returns {a} {w = w'} p) = inr (a, (w', (p, refl)))
      go x (raises {e} {w = w'} q) = inl (e, (refl, q))

  -- A route behind AdminOnly: the request is refused, with nothing changed but the times of use of
  -- keys; or the caller is an active user whose role is admin, for whom the token vouches, and what has
  -- happened after that is what the route's handler does.
  pub serve_admin_lem :
      (c : Caller) (req : AdminRequest) (w : World)
      → IsRefused (IsKeyUse w) (serve app c (admin_route req) w)
        ⊎ ((u : User) × ((w' : World) × ((IsCaller app c w u w'
                  × (text_eq u.role role_admin ≡ true))
                × (serve app c (admin_route req) w ≡ handle_admin app u req w'))))
  unfolding serve
  serve_admin_lem c req w = On-guard (authorize_admin app c) _ w (authorize_admin_lem app c w)

  -- A route behind BearerAuth: the request is refused, with nothing changed at all; or the caller is an
  -- active user, for whom the token vouches, and what has happened after that is what the route's
  -- handler does for that user.
  pub serve_user_lem :
      (c : Caller) (req : UserRequest) (w : World)
      → IsRefused (IsUntouched w) (serve app c (user_route req) w)
        ⊎ ((u : User) × ((w' : World) × (IsCaller app c w u w'
                × (serve app c (user_route req) w ≡ handle_user app u c.ip req w'))))
  unfolding serve
  serve_user_lem c req w = On-guard (authorize app c) _ w (authorize_lem app c w)
