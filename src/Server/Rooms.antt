-- ===== src/Server/Rooms.antt =====
-- handlers/channels.rs: no handler of channels changes the hub.
use rsmc_engine.Base.{ℕ, Option, none, some}
use rsmc_engine.Models.{Channel, CreateChannelRequest, UpdateChannelRequest}
use rsmc_engine.Error.{Result, ok, err, database, unique_violation}
use rsmc_engine.App.{
  World, Quiet, Calm, quietly, bind-Quiet, pure-Quiet, execute-Quiet, query-Quiet, local-Quiet,
  now-Quiet, new_v4-Quiet, transaction-Quiet, fail_if-Quiet,
}
use rsmc_engine.Services.Access.{AuthUser}
use rsmc_engine.Handlers.Channels.Store.{insert_channel, members_of, update_channel_row}
use rsmc_engine.Handlers.Channels.{
  create_channel, store_channel, create_row, name_taken, add_initial, create_direct, or_create,
  store_direct, mark_read, list_receipts, list_channels, get_channel, update_channel, list_members,
  add_member, remove_member,
}
use rsmc_engine.Server.Frames.{
  require-Quiet, require_member-Quiet, require_channel_admin-Quiet, emit_channel-Quiet,
  notify-Quiet,
}

Calm-name_taken :
    {A : Type 0} (u : World) (r : Result A × World) → Calm u r.1 → Calm u (name_taken r).1
unfolding name_taken
Calm-name_taken u (ok a, w) h = h
Calm-name_taken u (err (database unique_violation), w) h = h
Calm-name_taken u (err _, w) h = h

create_row-Quiet : (c : Channel) → Quiet (λ e w. create_row e w c)
unfolding create_row
create_row-Quiet c = record {
  run = λ e w. Calm-name_taken w _ ((execute-Quiet (insert_channel e c)).run e w);
}

add_initial-Quiet : (c at m : ℕ) → Quiet (add_initial c at m)
unfolding add_initial
add_initial-Quiet c at m = search quietly

store_channel-Quiet : (u : ℕ) (req : CreateChannelRequest) → Quiet (store_channel u req)
unfolding store_channel
store_channel-Quiet u req = bind-Quiet now-Quiet λ at.
    bind-Quiet new_v4-Quiet
      λ id. bind-Quiet (create_row-Quiet _) λ c. search (quietly, add_initial-Quiet)

pub create_channel-Quiet :
    (user : AuthUser) (req : CreateChannelRequest) → Quiet (create_channel user req)
unfolding create_channel
create_channel-Quiet user req = search (quietly, require-Quiet, store_channel-Quiet) depth 12

store_direct-Quiet : (u v : ℕ) → Quiet (store_direct u v)
unfolding store_direct
store_direct-Quiet u v = bind-Quiet now-Quiet λ at.
    bind-Quiet new_v4-Quiet
      λ id. bind-Quiet (local-Quiet λ e. execute-Quiet (insert_channel e _)) λ c. search quietly

or_create-Quiet : (u v : ℕ) (o : Option Channel) → Quiet (or_create u v o)
unfolding or_create
or_create-Quiet u v none = transaction-Quiet (store_direct-Quiet u v)
or_create-Quiet u v (some c) = pure-Quiet c

pub create_direct-Quiet : (user : AuthUser) (u : ℕ) → Quiet (create_direct user u)
unfolding create_direct
create_direct-Quiet user u = search (quietly, or_create-Quiet) depth 12

pub mark_read-Quiet : (user : AuthUser) (c : ℕ) → Quiet (mark_read user c)
unfolding mark_read
mark_read-Quiet user c = search (quietly, require_member-Quiet, emit_channel-Quiet) depth 15

pub list_receipts-Quiet : (user : AuthUser) (c : ℕ) → Quiet (list_receipts user c)
unfolding list_receipts
list_receipts-Quiet user c = search (quietly, require_member-Quiet)

pub list_channels-Quiet : (user : AuthUser) → Quiet (list_channels user)
unfolding list_channels
list_channels-Quiet user = search quietly

pub get_channel-Quiet : (user : AuthUser) (c : ℕ) → Quiet (get_channel user c)
unfolding get_channel
get_channel-Quiet user c = search (quietly, require_member-Quiet)

pub update_channel-Quiet :
    (user : AuthUser) (c : ℕ) (req : UpdateChannelRequest) → Quiet (update_channel user c req)
unfolding update_channel
update_channel-Quiet user c req = bind-Quiet (fail_if-Quiet _ _) λ _.
    bind-Quiet (require_channel_admin-Quiet c user.id) λ _.
      bind-Quiet now-Quiet
        λ at. local-Quiet λ e. execute-Quiet (update_channel_row e c req.name req.topic at)

pub list_members-Quiet : (user : AuthUser) (c : ℕ) → Quiet (list_members user c)
unfolding list_members
list_members-Quiet user c =
    bind-Quiet (require_member-Quiet c user.id)
      λ _. bind-Quiet (local-Quiet λ e. query-Quiet (members_of e c)) λ ms. pure-Quiet _

pub add_member-Quiet : (user : AuthUser) (c u : ℕ) → Quiet (add_member user c u)
unfolding add_member
add_member-Quiet user c u = search (quietly, require_channel_admin-Quiet, notify-Quiet) depth 15

pub remove_member-Quiet : (user : AuthUser) (c u : ℕ) → Quiet (remove_member user c u)
unfolding remove_member
remove_member-Quiet user c u = search (quietly, require_channel_admin-Quiet) depth 12
