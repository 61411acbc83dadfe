-- ===== src/Handlers/Inbox.antt =====
-- handlers/notifications.rs: a user's own notifications.
use rsmc_engine.Base.{
  ℕ, Bool, not, ◌&&◌, ◌||◌, some, List, ◌==◌, ltb, is_some, select, take, order_by, count_where,
  update_where,
}
use rsmc_engine.Models.{Notification, NotificationQuery, notification_limit}
use rsmc_engine.Db.{Db, Sql, rows}
use rsmc_engine.App.{M, ◌>>=◌, now, query, execute}
use rsmc_engine.Services.Access.{AuthUser}

abbrev pub is_unread : (user_id : ℕ) → Notification → Bool
is_unread u n = n.user_id == u && not (is_some n.read_at)

unfoldable pub list : AuthUser → NotificationQuery → M (List Notification)
list user q = query (λ d. take (notification_limit q) (
    order_by (λ a b. ltb b.created_at a.created_at)
      (select (λ n. n.user_id == user.id && (not q.unread_only || not (is_some n.read_at)))
        d.notifications)))

unfoldable pub unread_count : AuthUser → M ℕ
unread_count user = query (λ d. count_where (is_unread user.id) d.notifications)

abbrev read_where : (Notification → Bool) → (at : ℕ) → Db → Sql (Unit {0})
read_where p at d = rows tt (record d {
  notifications = update_where p (λ n. record n { read_at = some at }) d.notifications;
})

unfoldable pub mark_read : AuthUser → (id : ℕ) → M (Unit {0})
mark_read user id = do at ← now; execute (read_where (λ n. n.id == id && is_unread user.id n) at)

unfoldable pub mark_all_read : AuthUser → M (Unit {0})
mark_all_read user = do at ← now; execute (read_where (is_unread user.id) at)
