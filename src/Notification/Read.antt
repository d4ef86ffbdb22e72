-- ===== src/Notification/Read.antt =====
-- What marking notifications as read does to the counts.
use tu_dns.Prelude.{ℕ, ◌≡◌, refl, false, List, [], ◌∷◌, arith, count, map_where, ◌==◌}
use tu_dns.Models.{Notification}
use tu_dns.World.{World, Env, notifications}
use tu_dns.World.On.{On}
use tu_dns.World.Rules.{On-update, On-count_where}
use tu_dns.Notification.{is_unread_for, mark, mark_all_read, unread_count}

none_unread :
    (k : ℕ) (ns : List Notification)
    → count (is_unread_for k) (map_where (is_unread_for k) mark ns) ≡ 0
none_unread k [] = refl
none_unread k (n ∷ ns) = ground (arith, none_unread k ns)

others_unread :
    (k j : ℕ) (ns : List Notification)
    → (k == j) ≡ false
    → count (is_unread_for j) (map_where (is_unread_for k) mark ns) ≡ count (is_unread_for j) ns
others_unread k j [] h = refl
others_unread k j (n ∷ ns) h = ground (arith, others_unread k j ns h)

-- After `MarkAllRead` has returned, `UnreadCount` gives 0 for the user, and for any other user what
-- it gave before, where the counts return.
pub unread_count-mark_all_read :
    (env : Env) (user_id other : ℕ) (w : World)
    → (user_id == other) ≡ false
    → On
        (λ _ w'.
          On (λ n _. n ≡ 0) (λ e _. Unit {0}) (unread_count env user_id w')
          × On
              (λ n _. n ≡ count (is_unread_for other) w.db.notifications)
              (λ e _. Unit {0})
              (unread_count env other w'))
        (λ e w'. w'.db ≡ w.db)
        (mark_all_read env user_id w)
unfolding mark_all_read unread_count
unread_count-mark_all_read env user_id other w differs =
    On-update (notifications env) w (is_unread_for user_id) mark
      (
        On-count_where (notifications env) _ _ (none_unread user_id w.db.notifications) (λ e. tt),
        On-count_where (notifications env) _ _
            (others_unread user_id other w.db.notifications differs) (λ e. tt),
      )
      (λ e. refl)
