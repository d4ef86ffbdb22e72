-- ===== src/Auth/Login.antt =====
-- Registration, login and change of password of auth/service.go.
use tu_dns.Prelude.{
  ℕ, ◌+◌, ◌*◌, if◌then◌else◌, arith, ◌<◌, ◌≡◌, refl, sym, ap, ◌∙◌, true, not, [], ◌∷◌, ◌++◌, some,
  none, find?, count, find?-append, find?-count_zero, map_where, passed_lem, none_above_zero,
}
use tu_dns.Prelude.Int.{ℤ, pos, negsuc, ltb_ℤ, leb_ℤ}
use tu_dns.Text.{Text, trim_space}
use tu_dns.Text.Laws.{text_eq_refl}
use tu_dns.Result.{Error, ok, err}
use tu_dns.Models.{Db, User, role_user}
use tu_dns.Points.{has_id}
use tu_dns.World.{World, Env, tick, users}
use tu_dns.World.On.{
  On, On-bind, On-pure, On-ask, On-lift, On-raise_if, On-mono, On-map_error, IsUntouched,
}
use tu_dns.World.Rules.{On-first, On-create, On-count_where, On-update}
use tu_dns.World.Healthy.{IsHealthy, Up-first}
use tu_dns.Auth.{
  Security, Claims, TokenResult, add_hours, to_user_view, has_username, is_active, claims_of,
  new_user, hash_password, issue_token, issue, register_user, login, change_password,
}

-- The lifetime of a token in hours: 72 where none is configured.
abbrev pub lifetime : Security → ℤ
lifetime security =
    if ltb_ℤ (pos 0) security.token_ttl_hours then security.token_ttl_hours else pos 72

-- A token that is issued to the user by the calls from `m` on: it expires the lifetime after the time
-- of the first of them, it is the signature of the user's id, name and role with that time, and until
-- then the server reads these back from it.
abbrev pub IsTokenOf : Env → Security → ℕ → User → TokenResult → Type 0
IsTokenOf env security m u t =
    let claims = claims_of u t.expires_at (env.now (m + 1)) in
    (t.expires_at ≡ add_hours (env.now m) (lifetime security))
    × ((security.sign security.secret_key claims ≡ ok t.token)
        × ((now : ℕ)
            → now < claims.expires_at * 1000000000
            → security.verify security.secret_key now t.token ≡ ok claims))

module _ (env : Env) (security : Security) where
  -- The error is one of signing a token.
  abbrev pub IsUnsigned : Error → Type 0
  IsUnsigned e = (c : Claims) × (security.sign security.secret_key c ≡ err e)

  lifetime_lem :
      (h : ℤ) → (if leb_ℤ h (pos 0) then pos 72 else h) ≡ (if ltb_ℤ (pos 0) h then h else pos 72)
  lifetime_lem (pos n) = ground arith
  lifetime_lem (negsuc n) = ground arith

  issue_lem :
      (u : User) (w : World)
      → On
          (λ t w'.
            IsTokenOf env security w.moment u t × (t.user ≡ to_user_view u) × IsUntouched w w')
          (λ e w'. IsUnsigned e × IsUntouched w w')
          (issue env security u w)
  unfolding issue issue_token
  issue_lem u w = On-bind _ _ w (
      On-bind _ _ w (
        On-ask env.now w (
          On-bind _ _ _ (
            On-ask env.now _ (
              On-bind _ _ _ (
                On-lift _ _
                  (λ token signed. On-pure _ _ (
                    On-pure _ _ (
                      (
                        ap (add_hours (env.now w.moment)) (lifetime_lem security.token_ttl_hours),
                        (
                          signed,
                          λ now early.
                              security.verify-sign security.secret_key token _ now signed early,
                        ),
                      ),
                      refl,
                      (refl, refl),
                    )))
                  (λ e failed. ((_, failed), (refl, refl)))))))))

  hash_password_lem :
      (p : Text) (w : World)
      → On
          (λ h w'. (security.compare h p ≡ true) × IsUntouched w w')
          (λ e w'. IsUntouched w w')
          (hash_password env security p w)
  unfolding hash_password
  hash_password_lem p w = On-bind _ _ w (
      On-ask (λ m. security.hash m p) w
        (On-lift _ _ (λ h made. (security.compare-hash w.moment p h made, (refl, refl)))
          (λ e _. (refl, refl))))

  -- `Login`, on every path: nothing is changed; and where it returns, an active user has the trimmed
  -- name, the password fits that user's hash, and the token is the one that is signed for that user with the
  -- configured lifetime, which the server reads back until it expires.
  pub login_lem :
      (username password : Text) (w : World)
      → On
          (λ t w'.
            (u : User) × (find? (has_username (trim_space username)) w.db.users ≡ some u)
            × (is_active u ≡ true)
            × (security.compare u.password_hash password ≡ true)
            × IsTokenOf env security (w.moment + 1) u t
            × (t.user ≡ to_user_view u)
            × IsUntouched w w')
          (λ e w'. IsUntouched w w')
          (login env security username password w)
  unfolding login
  login_lem username password w = On-bind _ _ w (
      On-map_error _ _ w (
        On-first (users env) _ w
          (λ u found. On-bind _ _ _ (
            On-raise_if _ _ _
              (λ active. On-bind _ _ _ (
                On-raise_if _ _ _
                  (λ fits.
                    On-mono (issue_lem u (tick w))
                      (λ t w' r. (u, found, passed_lem _ active, passed_lem _ fits, r.0, r.1, r.2))
                      (λ e w' failed. failed.1))
                  (λ _. (refl, refl))))
              (λ _. (refl, refl))))
          (λ e _. (refl, refl))))

  -- The row of a new user, who has the name and the password.
  record IsRegistered (d : Db) (name password : Text) (u : User) (d' : Db) : Type 0 where
    pub free : find? (has_username name) d.users ≡ none
    pub named : u.username ≡ name
    pub role : u.role ≡ role_user
    pub active : is_active u ≡ true
    pub fits : security.compare u.password_hash password ≡ true
    pub content : d' ≡ record d { users = d.users ++ u ∷ [] }

  register_user_lem :
      (username password email : Text) (w : World)
      → On
          (λ t w'.
            (u : User) × (t.user ≡ to_user_view u)
            × IsRegistered w.db (trim_space username) password u w'.db)
          (λ e w'. Unit {0})
          (register_user env security username password email w)
  unfolding register_user
  register_user_lem username password email w = On-bind _ _ w (
      On-raise_if _ _ w
        (λ long. On-bind _ _ w (
          On-count_where (users env) _ w
            (On-bind _ _ _ (
              On-raise_if _ _ _
                (λ free. On-bind _ _ _ (
                  On-mono (hash_password_lem password (tick w))
                    (λ hash w1 hashed. On-bind _ _ w1 (
                      On-create (users env) _ w1
                        (λ u made.
                          On-mono (issue_lem u _)
                            (λ t w2 r. (
                              u,
                              r.1,
                              registered w w1 w2 hash u (none_above_zero _ free) hashed made.keeps
                                  r.2.0,
                            ))
                            (λ e w2 _. tt))
                        (λ e. tt)))
                    (λ e w1 _. tt)))
                (λ _. tt)))
            (λ e. tt)))
        (λ _. tt))
    where
      name : Text
      name = trim_space username

      registered :
          (w w1 w2 : World) (hash : Text) (u : User)
          → count (has_username name) w.db.users ≡ 0
          → (security.compare hash password ≡ true) × IsUntouched (tick w) w1
          → u ≡ record (new_user name (trim_space email) hash role_user) { id = u.id }
          → w2.db ≡ record w1.db { users = w1.db.users ++ u ∷ [] }
          → IsRegistered w.db name password u w2.db
      registered w w1 w2 hash u free hashed row content = record {
        free = find?-count_zero (has_username name) w.db.users free;
        named = ap (λ (u : User). u.username) row;
        role = ap (λ (u : User). u.role) row;
        active = ap is_active row;
        fits = ap (λ (u : User). security.compare u.password_hash password) row ∙ hashed.0;
        content = content ∙ ap (λ (d : Db). record d { users = d.users ++ u ∷ [] }) hashed.1.0;
      }

  -- A user who has registered can log in: in the state that `Register` leaves where it returns,
  -- `Login` with the same name and password returns the same user, if the database is up. It can
  -- fail only as the signing of the new token fails.
  pub login-register_user :
      (healthy : IsHealthy env) (username password email : Text) (w : World)
      → On
          (λ t w'.
            On
              (λ t' w''. t'.user ≡ t.user)
              (λ e w''. IsUnsigned e)
              (login env security username password w'))
          (λ e w'. Unit {0})
          (register_user env security username password email w)
  unfolding login
  login-register_user healthy username password email w =
      On-mono (register_user_lem username password email w)
        (λ t w' (u, view, new). On-bind _ _ w' (
          On-map_error _ _ w' (
            Up-first (users env) healthy.users w' _ u (found w' u new) (
              On-bind _ _ _ (
                On-raise_if _ _ _
                  (λ _. On-bind _ _ _ (
                    On-raise_if _ _ _
                      (λ _.
                        On-mono (issue_lem u (tick w')) (λ t' w'' r. r.1 ∙ sym view)
                          (λ e w'' failed. failed.0))
                      (λ h. cc (ap not new.fits, h))))
                  (λ h. cc (ap not new.active, h)))))))
        (λ e w' _. tt)
    where
      name : Text
      name = trim_space username

      found :
          (w' : World) (u : User)
          → IsRegistered w.db name password u w'.db
          → find? (has_username name) w'.db.users ≡ some u
      found w' u new =
          ap (λ (d : Db). find? (has_username name) d.users) new.content
          ∙ find?-append (has_username name) w.db.users (u ∷ []) new.free
          ∙ rw (new.named, text_eq_refl name) refl

  -- `ChangePassword`: where it returns, the old password fitted the user's hash, and the rows of the
  -- user, and no others, have a new hash, which the new password fits. Where it fails, the database is
  -- as before.
  pub change_password_lem :
      (user_id : ℕ) (old_pwd new_pwd : Text) (w : World)
      → On
          (λ _ w'.
            (u : User) × (find? (has_id user_id) w.db.users ≡ some u)
            × (security.compare u.password_hash old_pwd ≡ true)
            × ((hash : Text) × (security.compare hash new_pwd ≡ true)
                × (w'.db ≡ record w.db {
                  users =
                      map_where (has_id u.id) (λ v. record v { password_hash = hash }) w.db.users;
                })))
          (λ e w'. w'.db ≡ w.db)
          (change_password env security user_id old_pwd new_pwd w)
  unfolding change_password
  change_password_lem user_id old_pwd new_pwd w = On-bind _ _ w (
      On-raise_if _ _ w
        (λ long. On-bind _ _ w (
          On-first (users env) _ w
            (λ u found. On-bind _ _ _ (
              On-raise_if _ _ _
                (λ fits. On-bind _ _ _ (
                  On-mono (hash_password_lem new_pwd (tick w))
                    (λ hash w1 hashed.
                      On-update (users env) w1 _ _
                        (
                          u,
                          found,
                          passed_lem _ fits,
                          (
                            hash,
                            hashed.0,
                            ap
                                (λ (d : Db). record d {
                                  users =
                                      map_where (has_id u.id)
                                        (λ v. record v { password_hash = hash }) d.users;
                                })
                                hashed.1.0,
                          ),
                        )
                        (λ e. hashed.1.0))
                    (λ e w1 same. same.0)))
                (λ _. refl)))
            (λ e _. refl)))
        (λ _. refl))
