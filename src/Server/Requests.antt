-- ===== src/Server/Requests.antt =====
-- lib.rs (`build_router`), services/pubsub.rs: only sockets change the hub.
use rsmc_engine.Base.{◌≡◌, Bool, true, false, arith}
use rsmc_engine.App.{Env, World}
use rsmc_engine.Server.{Call, serve}
use rsmc_engine.Server.Frames.{
  send_message-Quiet, history-Quiet, thread-Quiet, edit_message-Quiet, delete_message-Quiet,
  add_reaction-Quiet, remove_reaction-Quiet,
}
use rsmc_engine.Server.Rooms.{
  create_channel-Quiet, create_direct-Quiet, mark_read-Quiet, list_receipts-Quiet,
  list_channels-Quiet, get_channel-Quiet, update_channel-Quiet, list_members-Quiet,
  add_member-Quiet, remove_member-Quiet,
}
use rsmc_engine.Server.Accounts.{AccountCall, serve_account}
use rsmc_engine.Server.Accounts.Quiet.{serve_account-hub}
use rsmc_engine.Server.Resources.{ResourceCall, serve_resource}
use rsmc_engine.Server.Resources.Quiet.{serve_resource-hub}
use rsmc_engine.Server.Sockets
use rsmc_engine.Server.Sessions

-- The call is none of a socket.
abbrev pub is_request : Call → Bool
is_request (Call.connect u tx) = false
is_request (Call.disconnect u s) = false
is_request (Call.frame u s f) = false
is_request _ = true

call-hub : (c : Call) (e : Env) (w : World) → is_request c ≡ true → (serve c e w).1.hub ≡ w.hub
unfolding serve
call-hub (Call.send user c req) e w h = ((send_message-Quiet user c req).run e w).0
call-hub (Call.page user c q) e w h = ((history-Quiet user c q).run e w).0
call-hub (Call.replies user m) e w h = ((thread-Quiet user m).run e w).0
call-hub (Call.edit user m req) e w h = ((edit_message-Quiet user m req).run e w).0
call-hub (Call.delete user m) e w h = ((delete_message-Quiet user m).run e w).0
call-hub (Call.react user m req) e w h = ((add_reaction-Quiet user m req).run e w).0
call-hub (Call.unreact user m req) e w h = ((remove_reaction-Quiet user m req).run e w).0
call-hub (Call.create user req) e w h = ((create_channel-Quiet user req).run e w).0
call-hub (Call.create_dm user u) e w h = ((create_direct-Quiet user u).run e w).0
call-hub (Call.read user c) e w h = ((mark_read-Quiet user c).run e w).0
call-hub (Call.receipts user c) e w h = ((list_receipts-Quiet user c).run e w).0
call-hub (Call.channels user) e w h = ((list_channels-Quiet user).run e w).0
call-hub (Call.channel user c) e w h = ((get_channel-Quiet user c).run e w).0
call-hub (Call.update user c req) e w h = ((update_channel-Quiet user c req).run e w).0
call-hub (Call.members user c) e w h = ((list_members-Quiet user c).run e w).0
call-hub (Call.invite user c u) e w h = ((add_member-Quiet user c u).run e w).0
call-hub (Call.expel user c u) e w h = ((remove_member-Quiet user c u).run e w).0
call-hub (Call.inbox user q) e w h = ((Sessions.list-Quiet user q).run e w).0
call-hub (Call.inbox_count user) e w h = ((Sessions.unread_count-Quiet user).run e w).0
call-hub (Call.inbox_read user i) e w h = ((Sessions.mark_read-Quiet user i).run e w).0
call-hub (Call.inbox_clear user) e w h = ((Sessions.mark_all_read-Quiet user).run e w).0
call-hub (Call.seen u) e w h = ((Sessions.get_presence-Quiet u).run e w).0
call-hub (Call.seen_all us) e w h = ((Sessions.bulk_presence-Quiet us).run e w).0
call-hub (Call.remote r) e w h = ((Sockets.remote-Quiet r).run e w).0
call-hub (Call.connect u tx) e w h = absurd (ground (arith, h))
call-hub (Call.disconnect u s) e w h = absurd (ground (arith, h))
call-hub (Call.frame u s f) e w h = absurd (ground (arith, h))

-- Everything that an instance serves.
pub data Request : Type 0 where
  on_messages : Call → Request
  on_accounts : AccountCall → Request
  on_resources : ResourceCall → Request

unfoldable pub serve_request : Request → Env → World → Bool × World
serve_request (Request.on_messages c) e w = serve c e w
serve_request (Request.on_accounts c) e w = serve_account c e w
serve_request (Request.on_resources c) e w = serve_resource c e w

abbrev pub is_outside_sockets : Request → Bool
is_outside_sockets (Request.on_messages c) = is_request c
is_outside_sockets _ = true

-- No HTTP request and no remote event changes who is connected and which channels a session follows:
-- not those on channels and messages, the removal of a member included, not those on accounts, the
-- deactivation of a user included, and not those on webhooks, bookmarks, files and backups.
pub serve-hub :
    (r : Request) (e : Env) (w : World)
    → is_outside_sockets r ≡ true
    → (serve_request r e w).1.hub ≡ w.hub
unfolding serve_request
serve-hub (Request.on_messages c) e w h = call-hub c e w h
serve-hub (Request.on_accounts c) e w h = serve_account-hub c e w
serve-hub (Request.on_resources c) e w h = serve_resource-hub c e w
