-- ===== src/Admin.antt =====
-- admin/service.go: the users and the log, for an administrator.
pub mod Users
use tu_dns.Prelude.{
  ℕ, Bool, true, false, not, ◌&&◌, ◌||◌, List, [], Option, some, none, ltb, ◌==◌, if◌then◌else◌,
}
use tu_dns.Prelude.Int.{ℤ, pos, eq_ℤ}
use tu_dns.Text.{Text, text_eq, byte_len}
use tu_dns.Result.{Error, Result, invalid_role, cannot_disable_admin, zero_delta, short_password}
use tu_dns.Models.{User, OperationLog, role_user, role_admin, role_premium, ledger_type_admin}
use tu_dns.Page.{clamp_page, clamp_size, offset}
use tu_dns.Points.{has_id, adjust}
use tu_dns.Auth.{Security, hash_password}
use tu_dns.World.{
  Env, Action, pure, raise_if, attempt, first, count_where, find_page, create, update, transaction,
  users, logs, ◌>>=◌, ◌>>◌,
}

pub record UpdateUserInput : Type 0 where
  pub username : Option Text
  pub email : Option Text
  pub role : Option Text
  pub status : Option ℤ

abbrev given : {A : Type 0} → A → Option A → A
given old none = old
given old (some new) = new

abbrev is_given : {A : Type 0} → Option A → Bool
is_given none = false
is_given (some a) = true

-- The row after `Updates(updates)`.
abbrev pub updated : UpdateUserInput → User → User
updated i u = record u {
  username = given u.username i.username;
  email = given u.email i.email;
  role = given u.role i.role;
  status = given u.status i.status;
}

abbrev pub is_role : Text → Bool
is_role r = text_eq r role_user || text_eq r role_admin || text_eq r role_premium

abbrev pub bad_role : Option Text → Bool
bad_role none = false
bad_role (some r) = not (is_role r)

abbrev pub disables_admin : User → Option ℤ → Bool
disables_admin u none = false
disables_admin u (some status) = text_eq u.role role_admin && not (eq_ℤ status (pos 1))

-- `len(updates) == 0`
abbrev is_empty_update : UpdateUserInput → Bool
is_empty_update i =
    not (is_given i.username || is_given i.email || is_given i.role || is_given i.status)

module _ (env : Env) where
  -- `ListUsers`
  unfoldable pub list_users : ℤ → ℤ → Action (List User × ℕ)
  list_users page page_size = do
    let page = clamp_page page
    let size = clamp_size 100 page_size
    total ← count_where (users env) (λ _. true)
    items ← find_page (users env) (λ _. true) (offset page size) size
    pure (items, total)

  -- `UpdateUser`
  unfoldable pub update_user : ℕ → UpdateUserInput → Action User
  update_user id i = do
    u ← first (users env) (has_id id)
    raise_if (bad_role i.role) invalid_role
    raise_if (disables_admin u i.status) cannot_disable_admin
    if is_empty_update i
        then pure u
        else (do update (users env) (has_id u.id) (updated i); first (users env) (has_id id))

  -- `AdjustPoints`
  unfoldable pub adjust_points : ℕ → ℕ → ℤ → Text → Action User
  unfolding adjust
  adjust_points admin_id user_id delta remark = do
    raise_if (eq_ℤ delta (pos 0)) zero_delta
    transaction env (adjust env user_id delta ledger_type_admin remark admin_id [])
    first (users env) (has_id user_id)

  -- `ResetPassword`
  unfoldable pub reset_password : Security → ℕ → Text → Action (Unit {0})
  unfolding hash_password byte_len
  reset_password security user_id new_pass = do
    raise_if (ltb (byte_len new_pass) 6) short_password
    hash ← hash_password env security new_pass
    update (users env) (has_id user_id) (λ v. record v { password_hash = hash })

  -- `ListLogs`
  unfoldable pub list_logs : ℤ → ℤ → Action (List OperationLog × ℕ)
  list_logs page page_size = do
    let page = clamp_page page
    let size = clamp_size 100 page_size
    total ← count_where (logs env) (λ _. true)
    items ← find_page (logs env) (λ _. true) (offset page size) size
    pure (items, total)

  -- `WriteLog`: an error is dropped.
  unfoldable pub write_log : ℕ → ℕ → Text → Text → Text → Text → Text → Action (Unit {0})
  write_log user_id admin_id action target_type target_id ip message = do
    attempt (
        create (logs env) (record {
          id = 0;
          user_id = user_id;
          admin_id = admin_id;
          action = action;
          target_type = target_type;
          target_id = target_id;
          ip = ip;
          message = message;
        }))
    pure tt
