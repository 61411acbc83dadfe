-- ===== src/Server/Undo.antt =====
-- handlers/, ws/handler.rs, services/pubsub.rs: a call that fails undoes everything, when no statement
-- is lost.
mod Rooms
mod Sockets
use rsmc_engine.Base.{◌≡◌, true}
use rsmc_engine.App.{Env, World, NoFaults, Still-Atomic, Sure-Atomic}
use rsmc_engine.Server.{Call, serve}
use rsmc_engine.Server.Rollback.{
  send_message-Atomic, history-Atomic, thread-Atomic, edit_message-Atomic, delete_message-Atomic,
  add_reaction-Atomic, remove_reaction-Atomic,
}
use Rooms.{
  create_channel-Atomic, create_direct-Atomic, mark_read-Atomic, list_receipts-Still,
  list_channels-Still, get_channel-Still, update_channel-Atomic, list_members-Still,
  add_member-Atomic, remove_member-Atomic,
}
use Sockets.{
  list-Still, unread_count-Still, inbox_read-Atomic, inbox_clear-Atomic, live-Still,
  get_presence-Still, each_presence-Still, bulk_presence-Still, mark_presence-Sure,
  open_socket-Sure, close_socket-Sure, reply-Sure, join-Sure, frame-Sure, remote-Sure,
}

-- If no statement is lost, a call that fails leaves the tables as they were and nothing sent,
-- published or queued.
pub serve-failed :
    (c : Call) (e : Env) (w : World)
    → NoFaults e
    → (serve c e w).0 ≡ true
    → let (failed, w') = serve c e w in (w'.db ≡ w.db) × (w'.out ≡ w.out)
unfolding serve
serve-failed (Call.send user c req) e w sound bad =
    (send_message-Atomic user c req).run e w sound bad
serve-failed (Call.page user c q) e w sound bad = (history-Atomic user c q).run e w sound bad
serve-failed (Call.replies user m) e w sound bad = (thread-Atomic user m).run e w sound bad
serve-failed (Call.edit user m req) e w sound bad =
    (edit_message-Atomic user m req).run e w sound bad
serve-failed (Call.delete user m) e w sound bad = (delete_message-Atomic user m).run e w sound bad
serve-failed (Call.react user m req) e w sound bad =
    (add_reaction-Atomic user m req).run e w sound bad
serve-failed (Call.unreact user m req) e w sound bad =
    (remove_reaction-Atomic user m req).run e w sound bad
serve-failed (Call.create user req) e w sound bad =
    (create_channel-Atomic user req).run e w sound bad
serve-failed (Call.create_dm user u) e w sound bad = (create_direct-Atomic user u).run e w sound bad
serve-failed (Call.read user c) e w sound bad = (mark_read-Atomic user c).run e w sound bad
serve-failed (Call.receipts user c) e w sound bad =
    (Still-Atomic (list_receipts-Still user c)).run e w sound bad
serve-failed (Call.channels user) e w sound bad =
    (Still-Atomic (list_channels-Still user)).run e w sound bad
serve-failed (Call.channel user c) e w sound bad =
    (Still-Atomic (get_channel-Still user c)).run e w sound bad
serve-failed (Call.update user c req) e w sound bad =
    (update_channel-Atomic user c req).run e w sound bad
serve-failed (Call.members user c) e w sound bad =
    (Still-Atomic (list_members-Still user c)).run e w sound bad
serve-failed (Call.invite user c u) e w sound bad = (add_member-Atomic user c u).run e w sound bad
serve-failed (Call.expel user c u) e w sound bad = (remove_member-Atomic user c u).run e w sound bad
serve-failed (Call.inbox user q) e w sound bad =
    (Still-Atomic (list-Still user q)).run e w sound bad
serve-failed (Call.inbox_count user) e w sound bad =
    (Still-Atomic (unread_count-Still user)).run e w sound bad
serve-failed (Call.inbox_read user i) e w sound bad = (inbox_read-Atomic user i).run e w sound bad
serve-failed (Call.inbox_clear user) e w sound bad = (inbox_clear-Atomic user).run e w sound bad
serve-failed (Call.seen u) e w sound bad = (Still-Atomic (get_presence-Still u)).run e w sound bad
serve-failed (Call.seen_all us) e w sound bad =
    (Still-Atomic (bulk_presence-Still us)).run e w sound bad
serve-failed (Call.connect u tx) e w sound bad =
    (Sure-Atomic (open_socket-Sure u tx)).run e w sound bad
serve-failed (Call.disconnect u s) e w sound bad =
    (Sure-Atomic (close_socket-Sure u s)).run e w sound bad
serve-failed (Call.frame u s f) e w sound bad = (Sure-Atomic (frame-Sure u s f)).run e w sound bad
serve-failed (Call.remote r) e w sound bad = (Sure-Atomic (remote-Sure r)).run e w sound bad
