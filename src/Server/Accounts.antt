-- ===== src/Server/Accounts.antt =====
-- server/handlers_auth.go, handlers_apikey.go, handlers_notification.go and handlers_points.go, and the
-- handlers of handlers_admin.go on users, points and logs. The first user id of a handler is
-- `CurrentUserID`; a path parameter and a query parameter are texts.
use tu_dns.Prelude.{ℕ, [], map, Option, none, some, if◌then◌else◌}
use tu_dns.Prelude.Int.{ℤ, pos}
use tu_dns.Text.{Text, is_empty}
use tu_dns.Result.{missing_key_name, no_such_user}
use tu_dns.World.{Action, pure}
use tu_dns.Auth.{
  to_user_view, register_user, login, get_user, change_password, create_key, list_keys, revoke,
}
use tu_dns.Admin.{
  UpdateUserInput, list_users, update_user, adjust_points, reset_password, list_logs,
}
use tu_dns.Notification.{list_notifications, unread_count, mark_read, mark_all_read}
use tu_dns.Points
use tu_dns.Redeem.{redeem}
use tu_dns.Server.Params.{parse_uint, page_of}
use tu_dns.Server.{
  App, Answer, token, user_view, user_page, key_list, new_key, notification_page, unread,
  ledger_page, log_page, gained, just, bad_request, unauthorized, server_error, reply, bind_json,
  const_done,
}

pub record RegisterInput : Type 0 where
  pub username : Text
  pub password : Text
  pub email : Text

pub record LoginInput : Type 0 where
  pub username : Text
  pub password : Text

pub record PasswordInput : Type 0 where
  pub old_password : Text
  pub new_password : Text

pub record DeltaInput : Type 0 where
  pub delta : ℤ
  pub remark : Text

module _ (app : App) where
  unfoldable pub handle_register : Option RegisterInput → Action Answer
  unfolding register_user reply bind_json
  handle_register req = bind_json req λ i.
      reply bad_request token (register_user app.env app.security i.username i.password i.email)

  unfoldable pub handle_login : Option LoginInput → Action Answer
  unfolding login reply bind_json
  handle_login req =
      bind_json req λ i. reply bad_request token (login app.env app.security i.username i.password)

  unfoldable pub handle_me : ℕ → Action Answer
  unfolding get_user reply
  handle_me uid =
      reply (λ _. unauthorized no_such_user) (λ u. user_view (to_user_view u))
        (get_user app.env app.security uid)

  unfoldable pub handle_change_password : ℕ → Option PasswordInput → Action Answer
  unfolding change_password reply bind_json
  handle_change_password uid req = bind_json req λ i.
      reply bad_request const_done
        (change_password app.env app.security uid i.old_password i.new_password)

  unfoldable pub handle_list_api_keys : ℕ → Action Answer
  unfolding list_keys reply
  handle_list_api_keys uid = reply server_error key_list (list_keys app.env app.security uid)

  abbrev name_of : Option Text → Text
  name_of none = []
  name_of (some name) = name

  -- A body that does not bind and an empty name are answered alike.
  unfoldable pub handle_create_api_key : ℕ → Option Text → Action Answer
  unfolding create_key reply
  handle_create_api_key uid req =
      if is_empty (name_of req)
      then pure (just (bad_request missing_key_name))
      else reply server_error (λ k. new_key k.0 k.1)
          (create_key app.env app.security uid (name_of req))

  unfoldable pub handle_revoke_api_key : ℕ → Text → Action Answer
  unfolding revoke reply parse_uint
  handle_revoke_api_key uid id =
      reply server_error const_done (revoke app.env app.security uid (parse_uint id))

  unfoldable pub handle_admin_list_api_keys : Action Answer
  unfolding list_keys reply
  handle_admin_list_api_keys = reply server_error key_list (list_keys app.env app.security 0)

  unfoldable pub handle_admin_revoke_api_key : Text → Action Answer
  unfolding revoke reply parse_uint
  handle_admin_revoke_api_key id =
      reply server_error const_done (revoke app.env app.security 0 (parse_uint id))

  unfoldable pub handle_list_notifications : ℕ → Option Text → Action Answer
  unfolding list_notifications reply page_of
  handle_list_notifications uid page =
      reply server_error (λ r. notification_page r.0 r.1 (page_of page))
        (list_notifications app.env uid (page_of page) (pos 20))

  unfoldable pub handle_unread_count : ℕ → Action Answer
  unfolding unread_count reply
  handle_unread_count uid = reply server_error unread (unread_count app.env uid)

  unfoldable pub handle_mark_read : ℕ → Text → Action Answer
  unfolding mark_read reply parse_uint
  handle_mark_read uid id = reply server_error const_done (mark_read app.env uid (parse_uint id))

  unfoldable pub handle_mark_all_read : ℕ → Action Answer
  unfolding mark_all_read reply
  handle_mark_all_read uid = reply server_error const_done (mark_all_read app.env uid)

  unfoldable pub handle_my_points : ℕ → Option Text → Action Answer
  unfolding Points.list reply page_of
  handle_my_points uid page =
      reply server_error (λ r. ledger_page r.0 r.1 (page_of page))
        (Points.list app.env uid (page_of page) (pos 20))

  unfoldable pub handle_redeem : ℕ → Option Text → Action Answer
  unfolding redeem reply bind_json
  handle_redeem uid req = bind_json req λ code. reply bad_request gained (redeem app.env uid code)

  unfoldable pub handle_admin_users : Option Text → Action Answer
  unfolding list_users reply page_of
  handle_admin_users page =
      reply server_error (λ r. user_page (map to_user_view r.0) r.1 (page_of page))
        (list_users app.env (page_of page) (pos 20))

  unfoldable pub handle_admin_update_user : Text → Option UpdateUserInput → Action Answer
  unfolding update_user reply bind_json parse_uint
  handle_admin_update_user id req = bind_json req λ i.
      reply bad_request (λ u. user_view (to_user_view u)) (update_user app.env (parse_uint id) i)

  unfoldable pub handle_admin_adjust_points : ℕ → Text → Option DeltaInput → Action Answer
  unfolding adjust_points reply bind_json parse_uint
  handle_admin_adjust_points uid id req = bind_json req λ i.
      reply bad_request (λ u. user_view (to_user_view u))
        (adjust_points app.env uid (parse_uint id) i.delta i.remark)

  unfoldable pub handle_admin_reset_password : Text → Option Text → Action Answer
  unfolding reset_password reply bind_json parse_uint
  handle_admin_reset_password id req = bind_json req λ password.
      reply bad_request const_done (reset_password app.env app.security (parse_uint id) password)

  unfoldable pub handle_admin_points : Option Text → Action Answer
  unfolding Points.list reply page_of
  handle_admin_points page =
      reply server_error (λ r. ledger_page r.0 r.1 (page_of page))
        (Points.list app.env 0 (page_of page) (pos 20))

  unfoldable pub handle_admin_logs : Option Text → Action Answer
  unfolding list_logs reply page_of
  handle_admin_logs page =
      reply server_error (λ r. log_page r.0 r.1 (page_of page))
        (list_logs app.env (page_of page) (pos 20))
