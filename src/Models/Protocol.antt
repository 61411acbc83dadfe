-- ===== src/Models/Protocol.antt =====
-- models/ws_protocol.rs: the frames that clients send and the events that the server pushes; and
-- the routed event of services/events.rs, which travels between instances.
use rsmc_engine.Base.{ℕ, Bool, Text}
use rsmc_engine.Models.Messages.{MessageView}
use rsmc_engine.Models.Notifications.{Notification}
use Prim.Native.String.{String}

pub data ClientEvent : Type 0 where
  subscribe unsubscribe typing : ℕ → ClientEvent
  ping : ClientEvent

-- Fields in the source's order: the channel first.
pub data ServerEvent : Type 0 where
  message_created message_updated : ℕ → MessageView → ServerEvent
  message_deleted : ℕ → ℕ → ServerEvent
  reaction_added reaction_removed : ℕ → ℕ → Text → ℕ → ServerEvent
  typing : ℕ → ℕ → ServerEvent
  read : ℕ → ℕ → ℕ → ServerEvent
  presence : ℕ → Bool → ℕ → ServerEvent
  notification : Notification → ServerEvent
  pong : ServerEvent
  error : String → ServerEvent

pub record Presence : Type 0 where
  pub user_id : ℕ
  pub online : Bool
  pub last_seen : ℕ

pub data RoutedEvent : Type 0 where
  channel user : ℕ → ServerEvent → RoutedEvent
