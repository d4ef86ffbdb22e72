-- ===== src/Auth.antt =====
-- auth/service.go, auth/password.go, auth/jwt.go and auth/apikey.go, and the guards of
-- server/auth_middleware.go.
pub mod Login
pub mod Bearer
use tu_dns.Prelude.{
  ℕ, ◌+◌, ◌*◌, ◌/◌, ◌<◌, ◌≡◌, Bool, true, false, not, ◌&&◌, ◌||◌, List, [], ◌∷◌, Option, some, none,
  ltb, leb, ◌==◌, length, take, drop, if◌then◌else◌,
}
use tu_dns.Prelude.Int.{ℤ, pos, eq_ℤ, leb_ℤ, mul64, ◌+ℤ◌, pos_part}
use tu_dns.Text.{Text, text, text_eq, is_empty, byte_len, trim_space, has_prefix, trim_prefix}
use tu_dns.Result.{
  Error, Result, ok, err, not_found, short_credentials, user_exists, invalid_credentials,
  user_disabled, short_password, wrong_password, invalid_api_key, not_installed, not_logged_in,
  no_such_user, login_expired, admin_required, panic,
}
use tu_dns.Models.{User, ApiKey, role_user, role_admin, user_status_active}
use tu_dns.Points.{is_not_found, has_id}
use tu_dns.World.{
  Env, Action, pure, raise, raise_if, map_error, attempt, ask, lift, first, count_where, find,
  find_desc, create, update, users, api_keys, ◌>>=◌, ◌>>◌,
}

-- `Claims`: the times are NumericDates, in seconds.
pub record Claims : Type 0 where
  pub user_id : ℕ
  pub username : Text
  pub role : Text
  pub expires_at : ℕ
  pub issued_at : ℕ
  pub subject : Text

-- What the services use of bcrypt and golang-jwt, and the configuration's secret and lifetime.
-- `sign` is `NewWithClaims(HS256, …).SignedString`, `verify` is `ParseWithClaims` with the HS256 test,
-- at a time.
pub record Security : Type 0 where
  pub hash : ℕ → Text → Result Text
  pub compare : Text → Text → Bool
  pub compare-hash : (m : ℕ) (p h : Text) → hash m p ≡ ok h → compare h p ≡ true
  pub sign : Text → Claims → Result Text
  pub verify : Text → ℕ → Text → Result Claims
  pub verify-sign :
      (secret token : Text) (c : Claims) (now : ℕ)
      → sign secret c ≡ ok token
      → now < c.expires_at * 1000000000
      → verify secret now token ≡ ok c
  pub secret_key : Text
  pub token_ttl_hours : ℤ

-- `UserView`
pub record UserView : Type 0 where
  pub id : ℕ
  pub username : Text
  pub email : Text
  pub role : Text
  pub status : ℤ
  pub points : ℤ

abbrev pub to_user_view : User → UserView
to_user_view u = record {
  id = u.id;
  username = u.username;
  email = u.email;
  role = u.role;
  status = u.status;
  points = u.points;
}

pub record TokenResult : Type 0 where
  pub token : Text
  pub expires_at : ℕ
  pub user : UserView

abbrev pub has_username : Text → User → Bool
has_username name u = text_eq u.username name

abbrev pub is_active : User → Bool
is_active u = eq_ℤ u.status user_status_active

-- The time that `ttlHours` after `now` is, and the second that it falls in.
unfoldable pub add_hours : ℕ → ℤ → ℕ
unfolding mul64 ◌+ℤ◌
add_hours now hours = pos_part (pos now +ℤ mul64 hours (pos 3600000000000))

unfoldable pub seconds : ℕ → ℕ
seconds t = t / 1000000000

abbrev pub claims_of : User → ℕ → ℕ → Claims
claims_of u exp now = record {
  user_id = u.id;
  username = u.username;
  role = u.role;
  expires_at = seconds exp;
  issued_at = seconds now;
  subject = u.username;
}

abbrev pub new_user : Text → Text → Text → Text → User
new_user username email hash role = record {
  id = 0;
  username = username;
  email = email;
  password_hash = hash;
  role = role;
  status = user_status_active;
  points = pos 0;
}

-- `IsAPIKey` and `validateKey`
abbrev is_hex : ℕ → Bool
is_hex c = (leb b'0' c && leb c b'9') || (leb b'a' c && leb c b'f') || (leb b'A' c && leb c b'F')

abbrev all_hex : Text → Bool
all_hex [] = true
all_hex (c ∷ s) = is_hex c && all_hex s

unfoldable pub is_api_key : Text → Bool
unfolding byte_len
is_api_key token = let raw = trim_prefix token (text "tud_") in byte_len raw == 64 && all_hex raw

unfoldable pub validate_key : Text → Bool
unfolding byte_len
validate_key token = not (ltb (byte_len token) 32) && all_hex (take 32 token)

module _ (env : Env) (security : Security) where
  -- `HashPassword`
  unfoldable pub hash_password : Text → Action Text
  hash_password password = do hashed ← ask (λ m. security.hash m password); lift hashed

  -- `IssueToken`, from the configured lifetime: the token and the time until which it holds
  unfoldable pub issue_token : User → Action (Text × ℕ)
  unfolding add_hours seconds
  issue_token u = do
    start ← ask env.now
    let hours = if leb_ℤ security.token_ttl_hours (pos 0) then pos 72 else security.token_ttl_hours
    let exp = add_hours start hours
    now ← ask env.now
    token ← lift (security.sign security.secret_key (claims_of u exp now))
    pure (token, exp)

  -- `issue`
  unfoldable pub issue : User → Action TokenResult
  unfolding issue_token
  issue u = do
    t ← issue_token u
    pure (record { token = t.0; expires_at = t.1; user = to_user_view u })

  -- `Register`
  unfoldable pub register_user : Text → Text → Text → Action TokenResult
  unfolding hash_password issue byte_len trim_space
  register_user username password email =
      let name = trim_space username in
      do
        raise_if (ltb (byte_len name) 3 || ltb (byte_len password) 6) short_credentials
        n ← count_where (users env) (has_username name)
        raise_if (ltb 0 n) user_exists
        hash ← hash_password password
        u ← create (users env) (new_user name (trim_space email) hash role_user)
        issue u

  abbrev hide_missing : Error → Error
  hide_missing e = if is_not_found e then invalid_credentials else e

  -- `Login`
  unfoldable pub login : Text → Text → Action TokenResult
  unfolding issue trim_space is_not_found
  login username password = do
    u ← map_error hide_missing (first (users env) (has_username (trim_space username)))
    raise_if (not (is_active u)) user_disabled
    raise_if (not (security.compare u.password_hash password)) invalid_credentials
    issue u

  -- `GetUser`
  unfoldable pub get_user : ℕ → Action User
  get_user id = first (users env) (has_id id)

  -- `ChangePassword`
  unfoldable pub change_password : ℕ → Text → Text → Action (Unit {0})
  unfolding hash_password byte_len
  change_password user_id old_pwd new_pwd = do
    raise_if (ltb (byte_len new_pwd) 6) short_password
    u ← first (users env) (has_id user_id)
    raise_if (not (security.compare u.password_hash old_pwd)) wrong_password
    hash ← hash_password new_pwd
    update (users env) (has_id u.id) (λ v. record v { password_hash = hash })

  -- `CreateAdmin`
  unfoldable pub create_admin : Text → Text → Text → Action User
  unfolding hash_password trim_space
  create_admin username password email = do
    hash ← hash_password password
    create (users env) (new_user (trim_space username) (trim_space email) hash role_admin)

  -- `generateKey`: an error of the random source gives the empty key.
  abbrev key_of : Result Text → Text
  key_of (ok digits) = digits
  key_of (err e) = []

  -- `ApiKeyService.Create`: `raw[:8]` panics on the empty key.
  unfoldable pub create_key : ℕ → Text → Action (Text × ApiKey)
  unfolding byte_len
  create_key user_id name = do
    drawn ← ask (λ m. env.random_hex m 32)
    let raw = key_of drawn
    raise_if (ltb (byte_len raw) 8) panic
    hashed ← ask (λ m. security.hash m raw)
    hash ← lift hashed
    key ← create (api_keys env) (record {
      id = 0;
      user_id = user_id;
      name = name;
      key_prefix = take 8 raw;
      key_hash = hash;
      last_used_at = none;
      last_ip = [];
      enabled = true;
    })
    pure (raw, key)

  abbrev pub owned_by : ℕ → ApiKey → Bool
  owned_by user_id k = if ltb 0 user_id then k.user_id == user_id else true

  -- `ApiKeyService.List`: the hash is not selected.
  abbrev without_hash : List ApiKey → List ApiKey
  without_hash [] = []
  without_hash (k ∷ ks) = record k { key_hash = [] } ∷ without_hash ks

  unfoldable pub list_keys : ℕ → Action (List ApiKey)
  list_keys user_id = do
    keys ← find_desc (api_keys env) (owned_by user_id)
    pure (without_hash keys)

  abbrev pub has_key_id : ℕ → ApiKey → Bool
  has_key_id id k = k.id == id

  -- `Revoke`
  unfoldable pub revoke : ℕ → ℕ → Action (Unit {0})
  revoke user_id key_id =
      update (api_keys env) (λ k. has_key_id key_id k && owned_by user_id k)
        (λ k. record k { enabled = false })

  -- A key that fits: the user is looked up, and the time of use is written, as well as that goes.
  unfoldable pub use_key : ApiKey → Action User
  use_key k = do
    u ← first (users env) (has_id k.user_id)
    raise_if (not (is_active u)) user_disabled
    now ← ask env.now
    attempt (update (api_keys env) (has_key_id k.id) (λ q. record q { last_used_at = some now }))
    pure u

  unfoldable pub try_keys : Text → List ApiKey → Action User
  unfolding use_key
  try_keys token [] = raise invalid_api_key
  try_keys token (k ∷ ks) =
      let rest = try_keys token ks in if security.compare k.key_hash token then use_key k else rest

  -- `Authenticate`
  unfoldable pub authenticate : Text → Action User
  unfolding try_keys
  authenticate token = do keys ← find (api_keys env) (λ k. k.enabled); try_keys token keys

  -- The user of a token that is a valid JWT.
  unfoldable pub claimed_user : Claims → Action User
  claimed_user c = do
    u ← map_error (λ _. no_such_user) (first (users env) (has_id c.user_id))
    raise_if (not (is_active u)) user_disabled
    pure u

  unfoldable pub token_user : Text → Result Claims → Action User
  unfolding claimed_user authenticate
  token_user token (ok c) = claimed_user c
  token_user token (err e) = map_error (λ _. login_expired) (authenticate token)

  -- `BearerAuth`, with whether there is a database: the user whose id, name and role the context gets.
  unfoldable pub bearer_auth : Bool → Text → Action User
  unfolding token_user trim_space
  bearer_auth installed header = do
    raise_if (not installed) not_installed
    raise_if (is_empty header || not (has_prefix header (text "Bearer "))) not_logged_in
    let token = trim_space (trim_prefix header (text "Bearer "))
    now ← ask env.now
    token_user token (security.verify security.secret_key now token)

-- `AdminOnly`, on the role that `BearerAuth` has put into the context.
unfoldable pub admin_only : Text → Action (Unit {0})
admin_only role = raise_if (not (text_eq role role_admin)) admin_required
