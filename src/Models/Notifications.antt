-- ===== src/Models/Notifications.antt =====
-- models/notification.rs. The payload holds the keys that the engine writes: a channel and an
-- actor always, a message for all kinds but an invite.
use rsmc_engine.Base.{ℕ, Bool, Option}
use rsmc_engine.Base.Int.{ℤ, pos, clamp, pos_part}

pub data NotificationKind : Type 0 where
  mention direct_message channel_invite thread_reply : NotificationKind

pub record Payload : Type 0 where
  pub channel_id : ℕ
  pub message_id : Option ℕ
  pub actor_id : ℕ

pub record Notification : Type 0 where
  pub id : ℕ
  pub user_id : ℕ
  pub kind : NotificationKind
  pub payload : Payload
  pub read_at : Option ℕ
  pub created_at : ℕ

pub record NotificationQuery : Type 0 where
  pub unread_only : Bool
  pub limit : ℤ

-- `NotificationQuery::clamped_limit`
unfoldable pub notification_limit : NotificationQuery → ℕ
notification_limit q = pos_part (clamp (pos 1) (pos 200) q.limit)
