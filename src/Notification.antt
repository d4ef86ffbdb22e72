-- ===== src/Notification.antt =====
-- notification/service.go: the notifications of a user.
pub mod Read
use tu_dns.Prelude.{ℕ, Bool, true, false, not, ◌&&◌, List, ◌==◌}
use tu_dns.Prelude.Int.{ℤ}
use tu_dns.Text.{Text}
use tu_dns.Models.{Notification}
use tu_dns.Page.{clamp_page, clamp_size, offset}
use tu_dns.World.{
  Env, Action, pure, count_where, find_page, create, update, notifications, ◌>>=◌, ◌>>◌,
}

abbrev pub is_for : ℕ → Notification → Bool
is_for user_id n = n.user_id == user_id

abbrev pub is_unread_for : ℕ → Notification → Bool
is_unread_for user_id n = is_for user_id n && not n.read

abbrev pub mark : Notification → Notification
mark n = record n { read = true }

module _ (env : Env) where
  -- `Create`
  unfoldable pub create_notification : ℕ → Text → Text → Text → Action (Unit {0})
  create_notification user_id title content link = do
    create (notifications env) (record {
      id = 0;
      user_id = user_id;
      title = title;
      content = content;
      read = false;
      link = link;
    })
    pure tt

  -- `List`
  unfoldable pub list_notifications : ℕ → ℤ → ℤ → Action (List Notification × ℕ)
  list_notifications user_id page page_size = do
    let page = clamp_page page
    let size = clamp_size 50 page_size
    total ← count_where (notifications env) (is_for user_id)
    items ← find_page (notifications env) (is_for user_id) (offset page size) size
    pure (items, total)

  -- `MarkRead`
  unfoldable pub mark_read : ℕ → ℕ → Action (Unit {0})
  mark_read user_id id = update (notifications env) (λ n. n.id == id && is_for user_id n) mark

  -- `MarkAllRead`
  unfoldable pub mark_all_read : ℕ → Action (Unit {0})
  mark_all_read user_id = update (notifications env) (is_unread_for user_id) mark

  -- `UnreadCount`
  unfoldable pub unread_count : ℕ → Action ℕ
  unread_count user_id = count_where (notifications env) (is_unread_for user_id)
