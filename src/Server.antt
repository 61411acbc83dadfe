-- ===== src/Server.antt =====
-- lib.rs (`build_router`), ws/handler.rs, services/pubsub.rs: the calls that reach one instance,
-- served one after the other, each to its end.
pub mod Frames
pub mod Rooms
pub mod Sockets
pub mod Sessions
pub mod Runs
pub mod Access
pub mod Rollback
pub mod Undo
pub mod History
pub mod Recipients
pub mod Cursor
pub mod Storing
pub mod Sending
pub mod Requests
pub mod Accounts
pub mod Resources
use rsmc_engine.Base.{ℕ, Bool, Option, List, [], ◌∷◌}
use rsmc_engine.Models.{
  SendMessageRequest, EditMessageRequest, ReactionRequest, HistoryQuery, CreateChannelRequest,
  UpdateChannelRequest, NotificationQuery, ClientEvent, RoutedEvent,
}
use rsmc_engine.App.{Env, World, is_err}
use rsmc_engine.Error.{Result}
use rsmc_engine.Services.Access.{AuthUser}
use rsmc_engine.Services.Events.{dispatch_remote}
use rsmc_engine.Handlers.Messages.{
  send_message, history, thread, edit_message, delete_message, add_reaction, remove_reaction,
}
use rsmc_engine.Handlers.Channels.{
  create_channel, create_direct, mark_read, list_receipts, list_channels, get_channel,
  update_channel, list_members, add_member, remove_member,
}
use rsmc_engine.Handlers.Inbox
use rsmc_engine.Handlers.Presence.{get_presence, bulk_presence}
use rsmc_engine.Ws.{open_socket, close_socket, handle_client_frame}

-- A request of an authenticated user, a step of a socket, or an event that Redis brings.
pub data Call : Type 0 where
  send : AuthUser → (channel_id : ℕ) → SendMessageRequest → Call
  page : AuthUser → (channel_id : ℕ) → HistoryQuery → Call
  replies : AuthUser → (message_id : ℕ) → Call
  edit : AuthUser → (message_id : ℕ) → EditMessageRequest → Call
  delete : AuthUser → (message_id : ℕ) → Call
  react : AuthUser → (message_id : ℕ) → ReactionRequest → Call
  unreact : AuthUser → (message_id : ℕ) → ReactionRequest → Call
  create : AuthUser → CreateChannelRequest → Call
  create_dm : AuthUser → (user_id : ℕ) → Call
  read : AuthUser → (channel_id : ℕ) → Call
  receipts : AuthUser → (channel_id : ℕ) → Call
  channels : AuthUser → Call
  channel : AuthUser → (channel_id : ℕ) → Call
  update : AuthUser → (channel_id : ℕ) → UpdateChannelRequest → Call
  members : AuthUser → (channel_id : ℕ) → Call
  invite : AuthUser → (channel_id user_id : ℕ) → Call
  expel : AuthUser → (channel_id user_id : ℕ) → Call
  inbox : AuthUser → NotificationQuery → Call
  inbox_count : AuthUser → Call
  inbox_read : AuthUser → (notification_id : ℕ) → Call
  inbox_clear : AuthUser → Call
  seen : (user_id : ℕ) → Call
  seen_all : (user_ids : List ℕ) → Call
  connect : (user_id tx : ℕ) → Call
  disconnect : (user_id session_id : ℕ) → Call
  frame : (user_id session_id : ℕ) → Option ClientEvent → Call
  remote : RoutedEvent → Call

-- Whether a call failed, and the state that it leaves.
abbrev pub outcome : {A : Type 0} → Result A × World → Bool × World
outcome (r, w) = (is_err r, w)

unfoldable pub serve : Call → Env → World → Bool × World
serve (Call.send user c req) e w = outcome (send_message user c req e w)
serve (Call.page user c q) e w = outcome (history user c q e w)
serve (Call.replies user m) e w = outcome (thread user m e w)
serve (Call.edit user m req) e w = outcome (edit_message user m req e w)
serve (Call.delete user m) e w = outcome (delete_message user m e w)
serve (Call.react user m req) e w = outcome (add_reaction user m req e w)
serve (Call.unreact user m req) e w = outcome (remove_reaction user m req e w)
serve (Call.create user req) e w = outcome (create_channel user req e w)
serve (Call.create_dm user u) e w = outcome (create_direct user u e w)
serve (Call.read user c) e w = outcome (mark_read user c e w)
serve (Call.receipts user c) e w = outcome (list_receipts user c e w)
serve (Call.channels user) e w = outcome (list_channels user e w)
serve (Call.channel user c) e w = outcome (get_channel user c e w)
serve (Call.update user c req) e w = outcome (update_channel user c req e w)
serve (Call.members user c) e w = outcome (list_members user c e w)
serve (Call.invite user c u) e w = outcome (add_member user c u e w)
serve (Call.expel user c u) e w = outcome (remove_member user c u e w)
serve (Call.inbox user q) e w = outcome (Inbox.list user q e w)
serve (Call.inbox_count user) e w = outcome (Inbox.unread_count user e w)
serve (Call.inbox_read user n) e w = outcome (Inbox.mark_read user n e w)
serve (Call.inbox_clear user) e w = outcome (Inbox.mark_all_read user e w)
serve (Call.seen u) e w = outcome (get_presence u e w)
serve (Call.seen_all us) e w = outcome (bulk_presence us e w)
serve (Call.connect u tx) e w = outcome (open_socket u tx e w)
serve (Call.disconnect u s) e w = outcome (close_socket u s e w)
serve (Call.frame u s f) e w = outcome (handle_client_frame u s f e w)
serve (Call.remote r) e w = outcome (dispatch_remote r e w)

unfoldable pub run : List Call → Env → World → World
unfolding serve
run [] e w = w
run (c ∷ cs) e w = run cs e (serve c e w).1
