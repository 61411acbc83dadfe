-- ===== src/Handlers/Channels.antt =====
-- handlers/channels.rs: channels, direct messages, membership and read cursors.
pub mod Store
use rsmc_engine.Base.{
  ℕ, Bool, true, false, not, ◌&&◌, Option, none, some, List, [], ◌∷◌, map, ◌==◌, if◌then◌else◌,
  find, select,
}
use rsmc_engine.Error.{
  AppError, bad_request, not_found, validation, conflict, database, unique_violation, ok, err,
  Result,
}
use rsmc_engine.Models.{
  Channel, ChannelType, CreateChannelRequest, UpdateChannelRequest, valid_create, valid_update,
  Permission, MemberRole, ReadReceipt, ChannelWithMeta, UserPublic, to_public, read,
  NotificationKind, channel_invite, Payload,
}
use rsmc_engine.App.{
  M, World, Env, pure, fail, ◌>>=◌, ◌>>◌, or_fail, fail_if, when, attempt, new_v4, now, execute,
  query, transaction, for_each,
}
use rsmc_engine.Services.Access.{AuthUser, require, require_member, require_channel_admin}
use rsmc_engine.Services.Events.{emit_channel}
use rsmc_engine.Services.Notifications.{notify}
use Store.{
  has_id, insert_channel, new_member, insert_member, add_member_row, remove_member_row,
  direct_between, advance_cursor, clear_notifications, channel_receipts, channels_of,
  update_channel_row, members_of,
}

-- A unique violation becomes a conflict.
unfoldable pub name_taken : {A : Type 0} → Result A × World → Result A × World
name_taken (err (database unique_violation), w) =
    (err (conflict "a channel with that name already exists"), w)
name_taken (r, w) = (r, w)

unfoldable pub create_row : Env → World → Channel → Result Channel × World
unfolding name_taken
create_row e w c = name_taken (execute (insert_channel e c) e w)

kind_of : Bool → ChannelType
kind_of true = ChannelType.private_ch
kind_of false = ChannelType.public_ch

unfoldable pub add_initial : (channel_id at : ℕ) → ℕ → M (Unit {0})
add_initial channel_id at member_id =
    execute (add_member_row (new_member channel_id member_id MemberRole.member at)) >> pure tt

unfoldable pub store_channel : (user_id : ℕ) → CreateChannelRequest → M Channel
unfolding create_row kind_of add_initial
store_channel user_id req = do
  at ← now
  id ← new_v4
  channel ← λ e w. create_row e w (record {
    id = id;
    name = some req.name;
    topic = req.topic;
    channel_type = kind_of req.is_private;
    created_by = user_id;
    created_at = at;
    updated_at = at;
  })
  execute (insert_member (new_member channel.id user_id MemberRole.owner at))
  for_each (select (λ m. not (m == user_id)) req.member_ids) (add_initial channel.id at)
  pure channel

unfoldable pub create_channel : AuthUser → CreateChannelRequest → M Channel
unfolding store_channel
create_channel user req = do
  fail_if (not (valid_create req)) validation
  require user Permission.create_channel
  transaction (store_channel user.id req)

unfoldable pub store_direct : (user_id other_id : ℕ) → M Channel
store_direct user_id other_id = do
  at ← now
  id ← new_v4
  channel ← λ e.
      execute
        (insert_channel e (record {
          id = id;
          name = none;
          topic = none;
          channel_type = ChannelType.direct;
          created_by = user_id;
          created_at = at;
          updated_at = at;
        }))
        e
  execute (insert_member (new_member channel.id user_id MemberRole.member at))
  execute (insert_member (new_member channel.id other_id MemberRole.member at))
  pure channel

unfoldable pub or_create : (user_id other_id : ℕ) → Option Channel → M Channel
unfolding store_direct
or_create user_id other_id (some c) = pure c
or_create user_id other_id none = transaction (store_direct user_id other_id)

unfoldable pub create_direct : AuthUser → (user_id : ℕ) → M Channel
unfolding or_create
create_direct user user_id = do
  fail_if (user_id == user.id) (bad_request "cannot DM yourself")
  existing ← query (λ d. find (direct_between user.id user_id d) d.channels)
  or_create user.id user_id existing

unfoldable pub mark_read : AuthUser → (id : ℕ) → M (Unit {0})
mark_read user id = do
  require_member id user.id
  at ← now
  last_read_at ← execute (advance_cursor id user.id at)
  later ← now
  execute (clear_notifications id user.id later)
  emit_channel id (read id user.id last_read_at)

unfoldable pub list_receipts : AuthUser → (id : ℕ) → M (List ReadReceipt)
list_receipts user id = do require_member id user.id; query (channel_receipts id)

unfoldable pub list_channels : AuthUser → M (List ChannelWithMeta)
list_channels user = query (channels_of user.id)

unfoldable pub get_channel : AuthUser → (id : ℕ) → M Channel
get_channel user id = do
  require_member id user.id
  found ← query (λ d. find (has_id id) d.channels)
  or_fail found (not_found "channel")

unfoldable pub update_channel : AuthUser → (id : ℕ) → UpdateChannelRequest → M Channel
update_channel user id req = do
  fail_if (not (valid_update req)) validation
  require_channel_admin id user.id
  at ← now
  λ e. execute (update_channel_row e id req.name req.topic at) e

unfoldable pub list_members : AuthUser → (id : ℕ) → M (List UserPublic)
list_members user id = do
  require_member id user.id
  members ← λ e. query (members_of e id) e
  pure (map to_public members)

unfoldable pub add_member : AuthUser → (id user_id : ℕ) → M (Unit {0})
add_member user id user_id = do
  require_channel_admin id user.id
  at ← now
  added ← execute (add_member_row (new_member id user_id MemberRole.member at))
  when (added && not (user_id == user.id)) (
      attempt (
        notify user_id channel_invite
          (record { channel_id = id; message_id = none; actor_id = user.id }))
      >> pure tt)

unfoldable pub remove_member : AuthUser → (id target : ℕ) → M (Unit {0})
remove_member user id target = do
  when (not (target == user.id)) (require_channel_admin id user.id)
  execute (remove_member_row id target)
