-- ===== src/Server/Sound/Accounts.antt =====
-- Users, API keys, notifications and logs under the invariant of the database.
use tu_dns.Prelude.{
  ℕ, ◌≡◌, refl, sym, ap, ◌∙◌, inl, inr, Bool, true, false, List, [], ◌∷◌, ◌++◌, arith, any,
  map_where, All, All-append, All-map, All-map_where, any-map_where, any-append, ◌==◌, ==_iff,
  Bool-cases,
}
use tu_dns.Prelude.Int.{ℤ, pos, IsInt64, int_laws}
use tu_dns.Text.{Text}
use tu_dns.Models.{Db, User, PointsLedger, ApiKey}
use tu_dns.World.{Env, users, create, update}
use tu_dns.World.On.{On-bind, On-mono, On-raise_if, On-transaction}
use tu_dns.World.Rules.{On-create, On-update, On-first}
use tu_dns.World.Preserves.{Preserves, Preserves-On, Preserves-if}
use tu_dns.Points.{has_id}
use tu_dns.Points
use tu_dns.Points.Balance.{HasBalance, total}
use tu_dns.Points.Adjust.{adjust_lem}
use tu_dns.Result.{Result, ok, err}
use tu_dns.Auth.{
  Security, Claims, new_user, hash_password, issue, issue_token, register_user, create_admin, login,
  get_user, change_password, create_key, list_keys, revoke, use_key, try_keys, authenticate,
  claimed_user, token_user, bearer_auth,
}
use tu_dns.Admin.{
  UpdateUserInput, updated, list_users, update_user, adjust_points, reset_password, list_logs,
  write_log,
}
use tu_dns.Notification.{list_notifications, unread_count, mark_read, mark_all_read}
use tu_dns.Server.Sound.{IsSound, IsSound-Adjusted, sound_rules}

-- A user without entries.
total_zero :
    (k : ℕ) (us : List User) (ls : List PointsLedger)
    → All (λ l. any (has_id l.user_id) us ≡ true) ls
    → any (has_id k) us ≡ false
    → total k ls ≡ pos 0
total_zero k us [] h e = refl
total_zero k us (l ∷ ls) h e = rw (other l h.0) (rw (total_zero k us ls h.1 e) (omega int_laws))
  where
    other : (l : PointsLedger) → any (has_id l.user_id) us ≡ true → (l.user_id == k) ≡ false
    other l known = elim (Bool-cases (l.user_id == k)) [
      | inl same ↦ cc ((==_iff l.user_id k).0 same, known, e)
      | inr differs ↦ differs
    ]

module _ (d : Db) (s : IsSound d) where
  -- A new user, whose points are zero.
  IsSound-new_user :
      (u : User)
      → u.points ≡ pos 0
      → any (λ v. v.id == u.id) d.users ≡ false
      → IsSound (record d { users = d.users ++ u ∷ [] })
  IsSound-new_user u zero_points fresh = record {
    balanced = record {
      balances = All-append (HasBalance d.ledgers) d.users (u ∷ []) s.balanced.balances (
        (
          zero_points ∙ sym (total_zero u.id d.users d.ledgers s.balanced.owners fresh),
          rw zero_points (omega arith),
          rw zero_points (omega arith),
        ),
        tt,
      );
      owners =
          All-map _ _ (λ l h. rw (any-append (has_id l.user_id) d.users (u ∷ []), h)) d.ledgers
            s.balanced.owners;
    };
    counted = s.counted;
    gifts = s.gifts;
    orders = s.orders;
    prices = s.prices;
  }

  -- Columns of users other than the id and the points.
  IsSound-changed_users :
      (p : User → Bool) (f : User → User)
      → ((u : User) → (f u).id ≡ u.id)
      → ((u : User) → (f u).points ≡ u.points)
      → IsSound (record d { users = map_where p f d.users })
  IsSound-changed_users p f ids points = record {
    balanced = record {
      balances =
          All-map_where (HasBalance d.ledgers) (HasBalance d.ledgers) p f
            (λ u _ h. rw (ids u, points u) h) (λ u _ h. h) d.users s.balanced.balances;
      owners =
          All-map _ _
            (λ l h.
              any-map_where (has_id l.user_id) p f d.users (λ u. ap (λ k. k == l.user_id) (ids u))
              ∙ h)
            d.ledgers s.balanced.owners;
    };
    counted = s.counted;
    gifts = s.gifts;
    orders = s.orders;
    prices = s.prices;
  }

module _ (env : Env) where
  new_user-IsSound : (u : User) → u.points ≡ pos 0 → Preserves IsSound (create (users env) u)
  new_user-IsSound u zero_points = Preserves-On _ λ w s.
      On-create (users env) u w
        (λ v made.
          IsSound-new_user w.db s v (ap (λ (u : User). u.points) made.keeps ∙ zero_points)
            made.new_id)
        (λ e. s)

  changed_users-IsSound :
      (p : User → Bool) (f : User → User)
      → ((u : User) → (f u).id ≡ u.id)
      → ((u : User) → (f u).points ≡ u.points)
      → Preserves IsSound (update (users env) p f)
  changed_users-IsSound p f ids points =
      Preserves-On _
        λ w s. On-update (users env) w p f (IsSound-changed_users w.db s p f ids points) (λ e. s)

  pub list_points-IsSound :
      (user_id : ℕ) (page size : ℤ) → Preserves IsSound (Points.list env user_id page size)
  unfolding Points.list
  list_points-IsSound user_id page size = search sound_rules depth 10

  pub list_users-IsSound : (page size : ℤ) → Preserves IsSound (list_users env page size)
  unfolding list_users
  list_users-IsSound page size = search sound_rules depth 10

  pub list_logs-IsSound : (page size : ℤ) → Preserves IsSound (list_logs env page size)
  unfolding list_logs
  list_logs-IsSound page size = search sound_rules depth 10

  pub write_log-IsSound :
      (user_id admin_id : ℕ) (action typ id ip message : Text)
      → Preserves IsSound (write_log env user_id admin_id action typ id ip message)
  unfolding write_log
  write_log-IsSound user_id admin_id action typ id ip message = search sound_rules depth 10

  pub update_user-IsSound :
      (id : ℕ) (i : UpdateUserInput) → Preserves IsSound (update_user env id i)
  unfolding update_user
  update_user-IsSound id i =
      search
        (
          sound_rules,
          λ (k : ℕ). changed_users-IsSound (has_id k) (updated i) (λ u. refl) (λ u. refl),
        )
        depth 20

  pub adjust_points-IsSound :
      (admin_id user_id : ℕ) (delta : ℤ) (remark : Text)
      → IsInt64 delta
      → Preserves IsSound (adjust_points env admin_id user_id delta remark)
  unfolding adjust_points
  adjust_points-IsSound admin_id user_id delta remark range = Preserves-On _ λ w s. On-bind _ _ w (
      On-raise_if _ _ w
        (λ _. On-bind _ _ w (
          On-transaction env _ w (
            On-mono (adjust_lem env user_id delta _ remark admin_id [] w)
              (λ l w' done.
                let s' = IsSound-Adjusted env w.db user_id delta _ l w'.db range s done in
                (On-first (users env) _ _ (λ u _. s') (λ e _. s'), λ e. s))
              (λ e w' _. s))))
        (λ _. s))

  pub list_notifications-IsSound :
      (user_id : ℕ) (page size : ℤ) → Preserves IsSound (list_notifications env user_id page size)
  unfolding list_notifications
  list_notifications-IsSound user_id page size = search sound_rules depth 10

  pub unread_count-IsSound : (user_id : ℕ) → Preserves IsSound (unread_count env user_id)
  unfolding unread_count
  unread_count-IsSound user_id = search sound_rules

  pub mark_read-IsSound : (user_id id : ℕ) → Preserves IsSound (mark_read env user_id id)
  unfolding mark_read
  mark_read-IsSound user_id id = search sound_rules

  pub mark_all_read-IsSound : (user_id : ℕ) → Preserves IsSound (mark_all_read env user_id)
  unfolding mark_all_read
  mark_all_read-IsSound user_id = search sound_rules

module _ (env : Env) (security : Security) where
  hash_password-IsSound :
      (password : Text) → Preserves IsSound (hash_password env security password)
  unfolding hash_password
  hash_password-IsSound password = search sound_rules depth 10

  issue-IsSound : (u : User) → Preserves IsSound (issue env security u)
  unfolding issue issue_token
  issue-IsSound u = search sound_rules depth 20

  set_password-IsSound :
      (id : ℕ) (hash : Text)
      → Preserves IsSound (update (users env) (has_id id) (λ v. record v { password_hash = hash }))
  set_password-IsSound id hash =
      changed_users-IsSound env (has_id id) (λ v. record v { password_hash = hash }) (λ u. refl)
        (λ u. refl)

  created_user-IsSound :
      (name email hash role : Text)
      → Preserves IsSound (create (users env) (new_user name email hash role))
  created_user-IsSound name email hash role =
      new_user-IsSound env (new_user name email hash role) refl

  pub register_user-IsSound :
      (name password email : Text)
      → Preserves IsSound (register_user env security name password email)
  unfolding register_user
  register_user-IsSound name password email =
      search (sound_rules, hash_password-IsSound, issue-IsSound, created_user-IsSound) depth 20

  pub create_admin-IsSound :
      (name password email : Text)
      → Preserves IsSound (create_admin env security name password email)
  unfolding create_admin
  create_admin-IsSound name password email =
      search (sound_rules, hash_password-IsSound, created_user-IsSound) depth 20

  pub login-IsSound : (name password : Text) → Preserves IsSound (login env security name password)
  unfolding login
  login-IsSound name password = search (sound_rules, issue-IsSound) depth 20

  pub get_user-IsSound : (id : ℕ) → Preserves IsSound (get_user env security id)
  unfolding get_user
  get_user-IsSound id = search sound_rules

  pub change_password-IsSound :
      (id : ℕ) (old new : Text) → Preserves IsSound (change_password env security id old new)
  unfolding change_password
  change_password-IsSound id old new =
      search (sound_rules, hash_password-IsSound, set_password-IsSound) depth 20

  pub reset_password-IsSound :
      (id : ℕ) (new : Text) → Preserves IsSound (reset_password env security id new)
  unfolding reset_password
  reset_password-IsSound id new =
      search (sound_rules, hash_password-IsSound, set_password-IsSound) depth 20

  pub create_key-IsSound :
      (id : ℕ) (name : Text) → Preserves IsSound (create_key env security id name)
  unfolding create_key
  create_key-IsSound id name = search sound_rules depth 20

  pub list_keys-IsSound : (id : ℕ) → Preserves IsSound (list_keys env security id)
  unfolding list_keys
  list_keys-IsSound id = search sound_rules depth 10

  pub revoke-IsSound : (user_id id : ℕ) → Preserves IsSound (revoke env security user_id id)
  unfolding revoke
  revoke-IsSound user_id id = search sound_rules

  use_key-IsSound : (k : ApiKey) → Preserves IsSound (use_key env security k)
  unfolding use_key
  use_key-IsSound k = search sound_rules depth 20

  try_keys-IsSound :
      (token : Text) (ks : List ApiKey) → Preserves IsSound (try_keys env security token ks)
  unfolding try_keys
  try_keys-IsSound token [] = search sound_rules
  try_keys-IsSound token (k ∷ ks) =
      Preserves-if (security.compare k.key_hash token) _ _ (use_key-IsSound k)
        (try_keys-IsSound token ks)

  authenticate-IsSound : (token : Text) → Preserves IsSound (authenticate env security token)
  unfolding authenticate
  authenticate-IsSound token = search (sound_rules, try_keys-IsSound) depth 10

  token_user-IsSound :
      (token : Text) (r : Result Claims) → Preserves IsSound (token_user env security token r)
  unfolding token_user claimed_user
  token_user-IsSound token (ok c) = search sound_rules depth 20
  token_user-IsSound token (err e) = search (sound_rules, authenticate-IsSound) depth 10

  pub bearer_auth-IsSound :
      (connected : Bool) (header : Text)
      → Preserves IsSound (bearer_auth env security connected header)
  unfolding bearer_auth
  bearer_auth-IsSound connected header = search (sound_rules, token_user-IsSound) depth 20
