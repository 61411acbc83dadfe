-- ===== src/Handlers/Messages.antt =====
-- handlers/messages.rs: sending, history, threads, editing, deleting, reactions.
pub mod Enrich
pub mod Store
pub mod Alerts
pub mod Threads
pub mod Order
pub mod Pages
pub mod Grouping
use rsmc_engine.Base.{
  ℕ, Bool, true, false, not, ◌&&◌, ◌||◌, Option, none, some, List, [], ◌∷◌, ◌++◌, map, ◌==◌,
  if◌then◌else◌, Text, is_blank, is_some, find, select, update_where, delete_where, any, length,
  take, last, order_by, ltb,
}
use rsmc_engine.Error.{bad_request, not_found, forbidden, validation}
use rsmc_engine.Models.{
  Message, MessageView, SendMessageRequest, EditMessageRequest, ReactionRequest, HistoryQuery,
  HistoryResponse, clamped_limit, valid_send, valid_edit, valid_reaction, Permission,
  message_created, message_updated, message_deleted, reaction_added, reaction_removed, Reaction,
  ServerEvent,
}
use rsmc_engine.Db.{Db, Sql, rows}
use rsmc_engine.App.{
  M, pure, fail, ◌>>=◌, ◌>>◌, or_fail, fail_if, when, new_v4, now, execute, query, transaction,
  for_each,
}
use rsmc_engine.Services.Access.{AuthUser, require, require_member, require_channel_admin}
use rsmc_engine.Services.Events.{emit_channel}
use Enrich.{enrich, enrich_one}
use Store.{
  store_message, parent_in_channel, with_id, is_live, newer, set_content, soft_delete,
  add_reaction_row, remove_reaction_row, mark_channel_read, is_reply_to,
}
use Alerts.{dispatch_notifications}

abbrev pub no_attachments : List ℕ → Bool
no_attachments [] = true
no_attachments (a ∷ as') = false

-- If replying, the parent must stand in this channel.
unfoldable pub check_parent : (channel_id : ℕ) → Option ℕ → M (Unit {0})
check_parent channel_id none = pure tt
check_parent channel_id (some parent) = do
  ok ← query (parent_in_channel channel_id parent)
  fail_if (not ok) (bad_request "parent message not found")

unfoldable pub send_message : AuthUser → (channel_id : ℕ) → SendMessageRequest → M MessageView
unfolding check_parent
send_message user channel_id req = do
  fail_if (not (valid_send req)) validation
  require user Permission.send_message
  require_member channel_id user.id
  fail_if (is_blank req.content && no_attachments req.attachment_ids)
      (bad_request "message must have text or at least one attachment")
  check_parent channel_id req.parent_id
  message ← transaction (store_message user.id channel_id req)
  view ← enrich_one message
  emit_channel channel_id (message_created channel_id view)
  dispatch_notifications channel_id view req.parent_id
  pure view

-- The rows of one page: top-level messages of the channel, newest first, strictly before the
-- cursor message if one is given. A cursor that names no message gives no row.
unfoldable pub page : (channel_id : ℕ) → Option ℕ → (limit : ℕ) → Db → List Message
page channel_id none limit d = take limit (
    order_by newer
      (select (λ m. m.channel_id == channel_id && not (is_some m.parent_id)) d.messages))
page channel_id (some before) limit d = elim (find (with_id before) d.messages) [
  | none ↦ []
  | some c ↦ take limit (
      order_by newer (
        select (λ m. (m.channel_id == channel_id && not (is_some m.parent_id)) && newer c m)
          d.messages))
]

abbrev pub id_of : Option Message → Option ℕ
id_of none = none
id_of (some m) = some m.id

unfoldable pub cursor_after : List Message → (limit : ℕ) → Option ℕ
cursor_after messages limit = if length messages == limit then id_of (last messages) else none

unfoldable pub history : AuthUser → (channel_id : ℕ) → HistoryQuery → M HistoryResponse
unfolding page cursor_after
history user channel_id q = do
  require_member channel_id user.id
  messages ← query (page channel_id q.before (clamped_limit q))
  let next_cursor = cursor_after messages (clamped_limit q)
  at ← now
  execute (mark_channel_read channel_id user.id at)
  views ← enrich messages
  pure (record { messages = views; next_cursor = next_cursor })

abbrev pub channel_of : Option Message → Option ℕ
channel_of none = none
channel_of (some m) = some m.channel_id

unfoldable pub oldest_first : Message → Message → Bool
oldest_first a b = ltb a.created_at b.created_at

unfoldable pub thread : AuthUser → (message_id : ℕ) → M (List MessageView)
unfolding oldest_first
thread user message_id = do
  found ← query (λ d. channel_of (find (with_id message_id) d.messages))
  channel_id ← or_fail found (not_found "message")
  require_member channel_id user.id
  replies ←
      query
        (λ d. order_by oldest_first (select (λ m. is_reply_to message_id m.parent_id) d.messages))
  enrich replies

abbrev pub author_of : Option Message → Option ℕ
author_of none = none
author_of (some m) = some m.user_id

unfoldable pub edit_message : AuthUser → (message_id : ℕ) → EditMessageRequest → M MessageView
edit_message user message_id req = do
  fail_if (not (valid_edit req)) validation
  found ← query (λ d. author_of (find (λ m. with_id message_id m && is_live m) d.messages))
  owner ← or_fail found (not_found "message")
  fail_if (not (owner == user.id)) (forbidden "can only edit your own messages")
  at ← now
  message ← execute (set_content message_id req.content at)
  view ← enrich_one message
  emit_channel view.message.channel_id (message_updated view.message.channel_id view)
  pure view

abbrev pub owner_and_channel : Option Message → Option (ℕ × ℕ)
owner_and_channel none = none
owner_and_channel (some m) = some (m.user_id, m.channel_id)

unfoldable pub delete_message : AuthUser → (message_id : ℕ) → M (Unit {0})
delete_message user message_id = do
  row ← query (λ d. owner_and_channel (find (with_id message_id) d.messages))
  (owner, channel_id) ← or_fail row (not_found "message")
  when (not (owner == user.id)) (require_channel_admin channel_id user.id)
  at ← now
  execute (soft_delete message_id at)
  emit_channel channel_id (message_deleted channel_id message_id)

unfoldable pub message_channel : (message_id : ℕ) → M ℕ
message_channel message_id = do
  found ← query (λ d. channel_of (find (λ m. with_id message_id m && is_live m) d.messages))
  or_fail found (not_found "message")

unfoldable pub add_reaction : AuthUser → (message_id : ℕ) → ReactionRequest → M (Unit {0})
unfolding message_channel
add_reaction user message_id req = do
  fail_if (not (valid_reaction req)) validation
  channel_id ← message_channel message_id
  require_member channel_id user.id
  id ← new_v4
  at ← now
  affected ← execute (
      add_reaction_row (record {
        id = id;
        message_id = message_id;
        user_id = user.id;
        emoji = req.emoji;
        created_at = at;
      }))
  when affected (emit_channel channel_id (reaction_added channel_id message_id req.emoji user.id))

unfoldable pub remove_reaction : AuthUser → (message_id : ℕ) → ReactionRequest → M (Unit {0})
unfolding message_channel
remove_reaction user message_id req = do
  fail_if (not (valid_reaction req)) validation
  channel_id ← message_channel message_id
  require_member channel_id user.id
  affected ← execute (remove_reaction_row message_id user.id req.emoji)
  when affected (emit_channel channel_id (reaction_removed channel_id message_id req.emoji user.id))
