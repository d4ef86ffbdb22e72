-- ===== src/Tests/Auth.antt =====
-- Users, keys and notifications: the theorems at concrete inputs.
use tu_dns.Prelude.{
  ℕ, ◌+◌, ◌⊎◌, ◌≡◌, refl, ap, ◌∙◌, List, [], ◌∷◌, none, some, find?, map_where, count, true,
}
use tu_dns.Prelude.Int.{pos}
use tu_dns.Text.{Text, text, text_eq, trim_space, trim_prefix}
use tu_dns.Text.Laws.{text_eq_refl}
use tu_dns.Result.{Result, ok, err, login_expired, ok-injective, ok-injective_rev}
use tu_dns.Models.{User}
use tu_dns.World.On.{On, IsUntouched}
use tu_dns.Points.{has_id}
use tu_dns.Auth.{
  Security, Claims, login, register_user, change_password, bearer_auth, has_username, is_active,
  to_user_view,
}
use tu_dns.Auth.Login.{IsTokenOf, IsUnsigned, login_lem, login-register_user, change_password_lem}
use tu_dns.Auth.Bearer.{IsVouched, IsActiveUser, bearer_auth_lem}
use tu_dns.Admin.{UpdateUserInput, update_user}
use tu_dns.Admin.Users.{IsUserUpdate, update_user_lem}
use tu_dns.Notification.{is_unread_for, mark_all_read, unread_count}
use tu_dns.Notification.Read.{unread_count-mark_all_read}
use tu_dns.Tests.Vault.{write_then, read_texts, read-write_then}
use tu_dns.Tests.Base.{env, healthy, start}

-- A token is its claims, written out.
abbrev pub write_claims : Claims → Text
write_claims c =
    c.user_id
    ∷ c.expires_at
    ∷ c.issued_at
    ∷ write_then c.username (write_then c.role (write_then c.subject []))

abbrev pub with_texts : ℕ → ℕ → ℕ → List Text → Result Claims
with_texts id exp iat (a ∷ b ∷ c ∷ ts) = ok (record {
  user_id = id;
  username = a;
  role = b;
  expires_at = exp;
  issued_at = iat;
  subject = c;
})
with_texts id exp iat ts = err login_expired

abbrev pub read_claims : Text → Result Claims
read_claims (id ∷ exp ∷ iat ∷ s) = with_texts id exp iat (read_texts s)
read_claims s = err login_expired

read-write_claims : (c : Claims) → read_claims (write_claims c) ≡ ok c
read-write_claims c = ap (with_texts c.user_id c.expires_at c.issued_at) (
    read-write_then c.username (write_then c.role (write_then c.subject []))
    ∙ ap (λ ts. c.username ∷ ts)
        (read-write_then c.role (write_then c.subject [])
          ∙ ap (λ ts. c.role ∷ ts) (read-write_then c.subject [])))

pub fits_itself : (p h : Text) → ok p ≡ ok h → text_eq h p ≡ true
fits_itself p h e = rw (ok-injective p h e) (text_eq_refl h)

pub read-signed :
    (c : Claims) (token : Text) → ok (write_claims c) ≡ ok token → read_claims token ≡ ok c
read-signed c token e =
    ap read_claims (ok-injective_rev (write_claims c) token e) ∙ read-write_claims c

-- A hash that is the password.
abbrev pub security : Security
security = record {
  hash = λ m p. ok p;
  compare = λ h p. text_eq h p;
  compare-hash = λ m p h e. fits_itself p h e;
  sign = λ secret c. ok (write_claims c);
  verify = λ secret now token. read_claims token;
  verify-sign = λ secret token c now e early. read-signed c token e;
  secret_key = text "s";
  token_ttl_hours = pos 72;
}

login_lem_example :
    On
      (λ t w'.
        (u : User) × (find? (has_username (trim_space (text " ann"))) start.db.users ≡ some u)
        × (is_active u ≡ true)
        × (security.compare u.password_hash (text "secret1") ≡ true)
        × IsTokenOf env security (start.moment + 1) u t
        × (t.user ≡ to_user_view u)
        × IsUntouched start w')
      (λ e w'. IsUntouched start w')
      (login env security (text " ann") (text "secret1") start)
login_lem_example = login_lem env security (text " ann") (text "secret1") start

login-register_user_example :
    On
      (λ t w'.
        On
          (λ t' w''. t'.user ≡ t.user)
          (λ e w''. IsUnsigned env security e)
          (login env security (text "carl") (text "secret3") w'))
      (λ e w'. Unit {0})
      (register_user env security (text "carl") (text "secret3") (text "c@ex.com") start)
login-register_user_example =
    login-register_user env security healthy (text "carl") (text "secret3") (text "c@ex.com") start

change_password_lem_example :
    On
      (λ _ w'.
        (u : User) × (find? (has_id 1) start.db.users ≡ some u)
        × (security.compare u.password_hash (text "secret1") ≡ true)
        × ((hash : Text) × (security.compare hash (text "secret9") ≡ true)
            × (w'.db ≡ record start.db {
              users =
                  map_where (has_id u.id) (λ v. record v { password_hash = hash }) start.db.users;
            })))
      (λ e w'. w'.db ≡ start.db)
      (change_password env security 1 (text "secret1") (text "secret9") start)
change_password_lem_example =
    change_password_lem env security 1 (text "secret1") (text "secret9") start

bearer_auth_lem_example :
    On
      (λ u w'.
        (id : ℕ) × (IsVouched env security
            (trim_space (trim_prefix (text "Bearer key") (text "Bearer ")))
            id
            start.db.api_keys
          × IsActiveUser env security start id u w'))
      (λ e w'. IsUntouched start w')
      (bearer_auth env security true (text "Bearer key") start)
bearer_auth_lem_example = bearer_auth_lem env security true (text "Bearer key") start

abbrev demotion : UpdateUserInput
demotion = record {
  username = none;
  email = none;
  role = some (text "user");
  status = some (pos 1);
}

update_user_lem_example :
    On
      (λ v w'. IsUserUpdate 2 demotion start.db w'.db × (find? (has_id 2) w'.db.users ≡ some v))
      (λ e w'. (w'.db ≡ start.db) ⊎ IsUserUpdate 2 demotion start.db w'.db)
      (update_user env 2 demotion start)
update_user_lem_example = update_user_lem env 2 demotion start

unread_count-mark_all_read_example :
    On
      (λ _ w'.
        On (λ n _. n ≡ 0) (λ e _. Unit {0}) (unread_count env 1 w')
        × On
            (λ n _. n ≡ count (is_unread_for 2) start.db.notifications)
            (λ e _. Unit {0})
            (unread_count env 2 w'))
      (λ e w'. w'.db ≡ start.db)
      (mark_all_read env 1 start)
unread_count-mark_all_read_example = unread_count-mark_all_read env 1 2 start refl
