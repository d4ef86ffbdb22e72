-- ===== src/Tests/Routes.antt =====
-- Requests to the routes: the theorems at concrete inputs.
use tu_dns.Prelude.{◌≡◌, ◌⊎◌, refl, arith, [], ◌++◌, some, true}
use tu_dns.Prelude.Int.{pos}
use tu_dns.Text.{Text, text, text_eq, has_prefix, trim_prefix}
use tu_dns.Result.{ok, err, bad_expiry}
use tu_dns.Models.{User, role_admin}
use tu_dns.World.{
  World, attempt, raise_if, ask, map_error, first, pure, transaction, count_where, update, create,
  ◌>>=◌,
}
use tu_dns.Auth.{to_user_view}
use tu_dns.World.On.{IsUntouched}
use tu_dns.Server.{App, just, success, gained, user_view}
use tu_dns.Server.Accounts.{handle_redeem, handle_admin_adjust_points}
use tu_dns.Server.Router.{
  Caller, UserRequest, AdminRequest, user_route, admin_route, redeem_code, change_points, serve,
  authorize, authorize_admin, handle_user, handle_admin,
}
use tu_dns.Auth.Bearer.{IsKeyUse}
use tu_dns.Server.Guards.{IsCaller, IsRefused, serve_admin_lem, serve_user_lem}
use tu_dns.Server.Sound.{IsSound}
use tu_dns.Server.Sound.Run.{unserved, served, Served-IsSound}
use tu_dns.Tests.Base.{env, start, ann, db, db-IsBalanced}
use tu_dns.Tests.Vault.{vault}
use tu_dns.Tests.Auth.{security, write_claims}
use tu_dns.Tests.Payment.{pay}
use tu_dns.Tests.Webhook.{http}
use tu_dns.Tests.Redeem.{gift-IsCounted}

abbrev app : App
app = record {
  env = env;
  security = security;
  vault = vault;
  pay = pay;
  http = http;
  event_json = λ e. text "{}";
  parse_time = λ s. err bad_expiry;
}

abbrev token_of : Text → Text
token_of name = write_claims (record {
  user_id = 2;
  username = name;
  role = role_admin;
  expires_at = 10;
  issued_at = 1;
  subject = name;
})

-- Bob, who is an administrator.
abbrev caller : Caller
caller = record {
  locked = true;
  connected = true;
  header = text "Bearer " ++ token_of (text "bob");
  ip = text "10.0.0.1";
}

abbrev gift_request : UserRequest
gift_request = redeem_code (some (text "gift"))

abbrev points_request : AdminRequest
points_request = change_points (text "1") (some (record { delta = pos 5; remark = [] }))

db-IsSound : IsSound db
db-IsSound = record {
  balanced = db-IsBalanced;
  counted = gift-IsCounted;
  gifts = ((omega arith, omega arith), tt);
  orders = ((omega arith, omega arith), tt);
  prices = ((omega arith, omega arith), tt);
}

abbrev after_gift : World
after_gift = (serve app caller (user_route gift_request) start).1

abbrev after_both : World
after_both = (serve app caller (admin_route points_request) after_gift).1

Served-IsSound_example : IsSound after_both.db
Served-IsSound_example =
    Served-IsSound app start after_both
      (served after_gift caller (admin_route points_request) (omega arith, omega arith)
        (served start caller (user_route gift_request) tt unserved))
      db-IsSound

serve_admin_lem_example :
    IsRefused app (IsKeyUse start) (serve app caller (admin_route points_request) start)
    ⊎ ((u : User) × ((w' : World) × ((IsCaller app caller start u w'
              × (text_eq u.role role_admin ≡ true))
            × (serve app caller (admin_route points_request) start
                ≡ handle_admin app u points_request w'))))
serve_admin_lem_example = serve_admin_lem app caller points_request start

serve_user_lem_example :
    IsRefused app (IsUntouched start) (serve app caller (user_route gift_request) start)
    ⊎ ((u : User) × ((w' : World) × (IsCaller app caller start u w'
            × (serve app caller (user_route gift_request) start
                ≡ handle_user app u caller.ip gift_request w'))))
serve_user_lem_example = serve_user_lem app caller gift_request start

-- The requests are served.
gift_is_served :
    (serve app caller (user_route gift_request) start).0 ≡ ok (just (success (gained (pos 5))))
unfolding serve ◌>>=◌ attempt authorize raise_if has_prefix ask trim_prefix map_error first pure
    handle_redeem transaction count_where update create
gift_is_served = refl

points_are_changed :
    (serve app caller (admin_route points_request) start).0
    ≡ ok (just (success (user_view (to_user_view (record ann { points = pos 15 })))))
unfolding serve ◌>>=◌ attempt authorize_admin raise_if has_prefix ask trim_prefix map_error first
    pure handle_admin_adjust_points transaction count_where update create
points_are_changed = refl
