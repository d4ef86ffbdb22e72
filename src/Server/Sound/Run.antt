-- ===== src/Server/Sound/Run.antt =====
-- Any sequence of requests under the invariant of the database.
use tu_dns.Result.{Result, ok, err}
use tu_dns.Models.{Db}
use tu_dns.World.{World, Action}
use tu_dns.World.Preserves.{Preserves, Preserves-bind, Preserves-attempt, Preserves-pure}
use tu_dns.Auth.{admin_only}
use tu_dns.Server.{App, Answer}
use tu_dns.Server.Router.{
  ApiRequest, open_route, user_route, admin_route, Caller, require_installed, authorize,
  authorize_admin, pass, guard, serve,
}
use tu_dns.Server.Sound.Accounts.{bearer_auth-IsSound}
use tu_dns.Server.Sound.Handlers.{handle_public-IsSound, handle_user-IsSound}
use tu_dns.Server.Sound.Console.{IsDecoded, handle_admin-IsSound}
use tu_dns.Server.Sound.{IsSound, sound_rules}

-- The numbers of a request's body fit their types.
abbrev pub IsRequest : ApiRequest → Type 0
IsRequest (admin_route req) = IsDecoded req
IsRequest req = Unit

-- What requests, one after another, make of a state.
pub data Served (app : App) (w : World) : World → Type 0 where
  unserved : Served app w w
  served :
      (before : World) (c : Caller) (req : ApiRequest)
      → IsRequest req
      → Served app w before
      → Served app w (serve app c req before).1

module _ (app : App) {P : Db → Type 0} {A : Type 0} where
  Preserves-pass :
      (f : A → Action Answer) (r : Result A)
      → ((a : A) → Preserves P (f a))
      → Preserves P (pass app f r)
  Preserves-pass f (ok a) k = k a
  Preserves-pass f (err e) k = Preserves-pure _

  Preserves-guard :
      (m : Action A) (f : A → Action Answer)
      → Preserves P m
      → ((a : A) → Preserves P (f a))
      → Preserves P (guard app m f)
  unfolding guard
  Preserves-guard m f k kf = Preserves-bind _ _ (Preserves-attempt m k) (λ r. Preserves-pass f r kf)

module _ (app : App) (c : Caller) where
  require_installed-IsSound : Preserves IsSound (require_installed app c)
  unfolding require_installed
  require_installed-IsSound = search sound_rules

  authorize-IsSound : Preserves IsSound (authorize app c)
  unfolding authorize require_installed
  authorize-IsSound = search (sound_rules, bearer_auth-IsSound) depth 10

  authorize_admin-IsSound : Preserves IsSound (authorize_admin app c)
  unfolding authorize_admin admin_only
  authorize_admin-IsSound = search (sound_rules, authorize-IsSound) depth 10

  serve-IsSound : (req : ApiRequest) → IsRequest req → Preserves IsSound (serve app c req)
  unfolding serve
  serve-IsSound (open_route req) h =
      Preserves-guard app _ _ require_installed-IsSound (λ _. handle_public-IsSound app req)
  serve-IsSound (user_route req) h =
      Preserves-guard app _ _ authorize-IsSound (λ u. handle_user-IsSound app u c.ip req)
  serve-IsSound (admin_route req) h =
      Preserves-guard app _ _ authorize_admin-IsSound (λ u. handle_admin-IsSound app u req h)

-- Requests of any callers, one after another, keep the database sound: every user's points are not
-- negative and are the sum of the user's entries, every code counts its uses and stays within its
-- limit, and no user has used a code twice, if that was so before and the numbers of the bodies fit
-- the types that they are decoded into.
pub Served-IsSound : (app : App) (w w' : World) → Served app w w' → IsSound w.db → IsSound w'.db
Served-IsSound app w w' unserved s = s
Served-IsSound app w w' (served before c req h requests) s =
    (serve-IsSound app c req h).run before (Served-IsSound app w before requests s)
